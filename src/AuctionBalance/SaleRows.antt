-- ===== src/AuctionBalance/SaleRows.antt =====
-- The participants after a confirmed sale, and after it is undone.
use potg.Base.{
  ℕ, ◌≡◌, refl, sym, ◌∙◌, ap, subst, Bool, true, false, ◌&&◌, Option, none, some, List, [], ◌∷◌,
  arith, ◌==◌, if◌then◌else◌, inl, inr, Bool-cases, Option-cases,
}
use potg.Base.Int.{ℤ, pos, ◌+ℤ◌, ◌-ℤ◌, int_laws}
use potg.Base.Rows.{select, find_one, update_where}
use potg.Base.Keyed.{save_by, HasUniqueKeys, save_by-HasUniqueKeys}
use potg.Base.Tx.{ok}
use potg.AuctionTables.{
  AuctionRow, Participant, Bid, Auctions, auction_key, participant_key, is_member, is_player,
  deactivate, active_on, highest, is_assigned, is_sold,
}
use potg.Auction.{Sale, sell, sell_once, confirm_loaded, confirm_player}
use potg.AuctionBalance.Members.{find_member-save}
use potg.AuctionBalance.Owing.{is_captain_id, captain_id-save}
use potg.AuctionBalance.Steady.{Steady}
use potg.AuctionBalance.Teams.{
  bought_row, charged_row, sell_writes, captain_row, player_row, bidder_captain,
}
use potg.Auction.Sales.{sold_row}
use potg.AuctionBalance.Moves.{player-captain}
use potg.AuctionBalance.Sold.{unassigned}
use potg.AuctionBalance.Teams.{not_by_hand}
use potg.Auction.Buyer.{sell_lem}

-- The sale of the player `p` to the captain `c`.
pub record SoldRows (a : AuctionRow) (target : ℕ) (s t : Auctions) : Type 0 where
  pub bid : Bid
  pub p : Participant
  pub c : Participant
  pub player : find_one (is_member a.id target) s.participants ≡ some p
  pub role : is_player p.role ≡ true
  pub free : p.assigned_captain ≡ none
  pub paid : p.was_unsold ≡ false
  pub captain :
      find_one
        (is_member a.id bid.bidder_id)
        (save_by participant_key (bought_row p bid) s.participants)
      ≡ some c
  pub captain_role :
      is_captain_id a.id bid.bidder_id (save_by participant_key (bought_row p bid) s.participants)
      ≡ true
  pub writes : t ≡ record s {
    participants =
        save_by participant_key
          (charged_row c bid)
          (save_by participant_key (bought_row p bid) s.participants);
    bids = update_where (active_on a.id target) deactivate s.bids;
    auctions = save_by auction_key (sold_row a) s.auctions;
  }

pub sell_rows :
    (a : AuctionRow) (target : ℕ) (bid : Bid) (s t : Auctions) (r : Option Sale)
    → Steady a.id a s
    → a.current_player ≡ some target
    → highest (select (active_on a.id target) s.bids) ≡ some bid
    → is_assigned (find_one (is_member a.id target) s.participants) ≡ false
    → sell a target bid (sold_row a) s ≡ ok (r, t)
    → SoldRows a target s t
sell_rows a target bid s t r h c e n w =
    let cap = bidder_captain a.id target s.participants s.bids bid h.bidders e in
    let (p, f, role) = player_row a.id target s.participants (h.target target c) in
    let free = unassigned p (ap is_assigned (sym f) ∙ n) in
    let first = save_by participant_key (bought_row p bid) s.participants in
    let cap' =
      captain_id-save a.id target p (bought_row p bid) s.participants h.balanced.keys f
        (refl, refl, refl) refl bid.bidder_id
      ∙ cap in
    let (q, g) = captain_row a.id bid.bidder_id first cap' in
    record {
      bid = bid;
      p = p;
      c = q;
      player = f;
      role = role;
      free = free;
      paid = not_by_hand a.id a.starting_points 0 target (pos 0) p s.participants h.balanced f free;
      captain = g;
      captain_role = cap';
      writes = sell_writes a target bid (sold_row a) s t r p q f g w;
    }

pub confirm_loaded_rows :
    (a : AuctionRow) (s t : Auctions) (x : Sale)
    → Steady a.id a s
    → confirm_loaded a s ≡ ok (some x, t)
    → SoldRows a x.player_id s t
unfolding confirm_loaded confirm_player sell_once
confirm_loaded_rows a s t x h e = elim (Bool-cases (is_sold a.phase)) [
  | inl m ↦ absurd (ground arith)
  | inr m ↦ elim (Option-cases a.current_player) [
    | inl c ↦ absurd (ground arith)
    | inr (target, c) ↦ elim (Option-cases (highest (select (active_on a.id target) s.bids))) [
      | inl n ↦ absurd (ground arith)
      | inr (bid, n) ↦
          elim (Bool-cases (is_assigned (find_one (is_member a.id target) s.participants))) [
            | inl k ↦ absurd (ground arith)
            | inr k ↦
                let w : sell a target bid (sold_row a) s ≡ ok (some x, t) = ground arith in
                let sold = sell_rows a target bid s t (some x) h c n k w in
                let same : target ≡ x.player_id =
                  ground (arith, sell_lem a target bid (sold_row a) s t (some x) w) in
                subst (λ u. SoldRows a u s t) same sold
          ]
    ]
  ]
]

pub find_member_such :
    (i u : ℕ) (w : Participant → Bool) (p : Participant) (ps : List Participant)
    → find_one (is_member i u) ps ≡ some p
    → w p ≡ true
    → find_one (λ q. is_member i u q && w q) ps ≡ some p
find_member_such i u w p [] f k = absurd (cc f)
find_member_such i u w p (x ∷ xs) f k = ground (arith, find_member_such i u w p xs)

pub there_and_back : (x : ℤ) (n : ℕ) → (x -ℤ pos n) +ℤ pos n ≡ x
there_and_back x n = grind int_laws

-- The participants after the sale, after the refund, and after the undone assignment.
module _ (a : AuctionRow) (target : ℕ) (s t : Auctions) (h : SoldRows a target s t) where
  abbrev pub sold_people : List Participant
  sold_people =
      save_by participant_key (charged_row h.c h.bid)
        (save_by participant_key (bought_row h.p h.bid) s.participants)

  abbrev pub given_back : Participant
  given_back = record (charged_row h.c h.bid) {
    current_points =
        (charged_row h.c h.bid).current_points +ℤ pos (bought_row h.p h.bid).sold_price;
  }

  abbrev pub paid_people : List Participant
  paid_people = save_by participant_key given_back sold_people

  abbrev pub free_again : Participant
  free_again = record (bought_row h.p h.bid) {
    assigned_captain = none;
    sold_price = 0;
    was_unsold = false;
  }

  abbrev pub last_people : List Participant
  last_people = save_by participant_key free_again paid_people

  module _ (keys : HasUniqueKeys participant_key s.participants) where
    pub first_keys :
        HasUniqueKeys participant_key
          (save_by participant_key (bought_row h.p h.bid) s.participants)
    first_keys = save_by-HasUniqueKeys participant_key (bought_row h.p h.bid) s.participants keys

    pub sold_keys : HasUniqueKeys participant_key sold_people
    sold_keys =
        save_by-HasUniqueKeys participant_key (charged_row h.c h.bid)
          (save_by participant_key (bought_row h.p h.bid) s.participants) first_keys

    pub distinct : (target == h.bid.bidder_id) ≡ false
    distinct = elim (Bool-cases (target == h.bid.bidder_id)) [
      | inr n ↦ n
      | inl n ↦
          let m =
            find_member-save a.id target a.id target h.p (bought_row h.p h.bid) s.participants keys
              h.player (refl, refl, refl) in
          let k = h.captain_role in absurd (ground (arith, player-captain h.p.role h.role))
    ]

    pub sold_player : find_one (is_member a.id target) sold_people ≡ some (bought_row h.p h.bid)
    sold_player =
        let first = save_by participant_key (bought_row h.p h.bid) s.participants in
        let m =
          find_member-save a.id target a.id target h.p (bought_row h.p h.bid) s.participants keys
            h.player (refl, refl, refl) in
        let n =
          find_member-save a.id h.bid.bidder_id a.id target h.c (charged_row h.c h.bid) first
            first_keys h.captain (refl, refl, refl) in
        ground (arith, distinct)

    pub sold_captain :
        find_one (is_member a.id h.bid.bidder_id) sold_people ≡ some (charged_row h.c h.bid)
    sold_captain =
        let first = save_by participant_key (bought_row h.p h.bid) s.participants in
        let n =
          find_member-save a.id h.bid.bidder_id a.id h.bid.bidder_id h.c (charged_row h.c h.bid)
            first first_keys h.captain (refl, refl, refl) in
        ground arith

    pub paid_player : find_one (is_member a.id target) paid_people ≡ some (bought_row h.p h.bid)
    paid_player =
        let n =
          find_member-save a.id h.bid.bidder_id a.id target (charged_row h.c h.bid) given_back
            sold_people sold_keys sold_captain (refl, refl, refl) in
        ground (arith, distinct, sold_player)

    -- A row after the undone sale: of the player, of the captain, or as it was.
    pub last_member :
        (u : ℕ)
        → find_one (is_member a.id u) last_people ≡ (
            if u == target
            then some free_again
            else if u == h.bid.bidder_id
            then some given_back
            else find_one (is_member a.id u) s.participants)
    last_member u =
        let first = save_by participant_key (bought_row h.p h.bid) s.participants in
        let m1 =
          find_member-save a.id target a.id u h.p (bought_row h.p h.bid) s.participants keys
            h.player (refl, refl, refl) in
        let m2 =
          find_member-save a.id h.bid.bidder_id a.id u h.c (charged_row h.c h.bid) first first_keys
            h.captain (refl, refl, refl) in
        let m3 =
          find_member-save a.id h.bid.bidder_id a.id u (charged_row h.c h.bid) given_back
            sold_people sold_keys sold_captain (refl, refl, refl) in
        let paid_keys = save_by-HasUniqueKeys participant_key given_back sold_people sold_keys in
        let m4 =
          find_member-save a.id target a.id u (bought_row h.p h.bid) free_again paid_people
            paid_keys paid_player (refl, refl, refl) in
        elim (Bool-cases (u == target)) [
          | inl n ↦ ground arith
          | inr n ↦ elim (Bool-cases (u == h.bid.bidder_id)) [
            | inl k ↦ ground arith
            | inr k ↦ ground arith
          ]
        ]

    pub captain_before : find_one (is_member a.id h.bid.bidder_id) s.participants ≡ some h.c
    captain_before =
        let m1 =
          find_member-save a.id target a.id h.bid.bidder_id h.p (bought_row h.p h.bid)
            s.participants keys h.player (refl, refl, refl) in
        ground (arith, distinct, h.captain)
