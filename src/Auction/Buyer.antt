-- ===== src/Auction/Buyer.antt =====
-- Who buys a player, by either of the two confirmations.
use potg.Base.{
  [], ◌∷◌, List, sym, ℕ, ◌≡◌, refl, ◌∙◌, ap, subst, true, false, not, ◌||◌, Option, none, some,
  arith, ◌==◌, inl, inr, Bool-cases, Option-cases,
}
use potg.Base.Rows.{select, find_one, any_of, update_where}
use potg.Base.Keyed.{find_by, save_by}
use potg.Base.Int.{pos, ◌-ℤ◌}
use potg.Base.Tx.{ok, >>=-inv}
use potg.AuctionTables.{
  deactivate, AuctionRow, Participant, Bid, Auctions, participant_key, BiddingPhase, auction_key,
  highest, active_on, is_sold, is_ongoing, is_assigned, is_member,
}
use potg.Auction.{
  Sale, load_as_creator, confirm_current_bid, confirm_loaded, timeout_player, confirm_player,
  sell_once, sell, assign_player, charge_captain, auto_confirm_on_timeout, timeout_loaded,
}
use potg.Auction.Sales.{load_as_creator_inv}

-- After the release no bid that was picked is active.
released :
    (i target : ℕ) (bs : List Bid)
    → any_of (active_on i target) (update_where (active_on i target) deactivate bs) ≡ false
released i target [] = refl
released i target (b ∷ bs) = elim (Bool-cases (active_on i target b)) [
  | inl m ↦ ground (arith, released i target bs)
  | inr m ↦ ground (arith, released i target bs)
]

abbrev sale_of : ℕ → Bid → Sale
sale_of target bid = record { player_id = target; captain_id = bid.bidder_id; amount = bid.amount }

-- The players after a sale: the one who is sold joins the buyer's team at the price.
abbrev pub with_team : ℕ → Sale → List Participant → List Participant
with_team i x ps = elim (find_one (is_member i x.player_id) ps) [
  | none ↦ ps
  | some p ↦
      save_by participant_key
        (record p { assigned_captain = some x.captain_id; sold_price = x.amount }) ps
]

-- The buyer pays the price from its points.
abbrev pub with_charge : ℕ → Sale → List Participant → List Participant
with_charge i x ps = elim (find_one (is_member i x.captain_id) ps) [
  | none ↦ ps
  | some c ↦
      save_by participant_key (record c { current_points = c.current_points -ℤ pos x.amount }) ps
]

pub sell_lem :
    (a : AuctionRow) (target : ℕ) (bid : Bid) (row : AuctionRow) (s t : Auctions) (r : Option Sale)
    → sell a target bid row s ≡ ok (r, t)
    → (r ≡ some (sale_of target bid))
      × (t ≡ record s {
        participants =
            with_charge a.id
              (sale_of target bid)
              (with_team a.id (sale_of target bid) s.participants);
        bids = update_where (active_on a.id target) deactivate s.bids;
        auctions = save_by auction_key row s.auctions;
      })
unfolding sell assign_player charge_captain
sell_lem a target bid row s t r e =
    elim (Option-cases (find_one (is_member a.id target) s.participants)) [
      | inl m ↦ elim (Option-cases (find_one (is_member a.id bid.bidder_id) s.participants)) [
        | inl k ↦ (ground arith, ground arith)
        | inr (c, k) ↦ (ground arith, ground arith)
      ]
      | inr (p, m) ↦
          let ps =
            save_by participant_key
              (record p { assigned_captain = some bid.bidder_id; sold_price = bid.amount })
              s.participants in
          elim (Option-cases (find_one (is_member a.id bid.bidder_id) ps)) [
            | inl k ↦ (ground arith, ground arith)
            | inr (c, k) ↦ (ground arith, ground arith)
          ]
    ]

-- The auction's row after a confirmation, and after the end of the turn's time.
abbrev pub confirmed_row : AuctionRow → AuctionRow
confirmed_row a = record a { phase = BiddingPhase.sold; current_end_time = none }

abbrev pub timed_out_row : AuctionRow → AuctionRow
timed_out_row a = record a { current_player = none; current_end_time = none }

-- Who bought whom: the highest active bid on a player who had no team. He joins the buyer's team at
-- the price, the buyer pays it, the bids on him are released, and the auction's row is `row`.
pub record SoldTo (a row : AuctionRow) (s t : Auctions) (x : Sale) : Type 0 where
  pub on_turn : a.current_player ≡ some x.player_id
  pub winner :
      (bid : Bid) × (highest (select (active_on a.id x.player_id) s.bids) ≡ some bid)
      × (x ≡ sale_of x.player_id bid)
  pub free : is_assigned (find_one (is_member a.id x.player_id) s.participants) ≡ false
  pub released_bids : any_of (active_on a.id x.player_id) t.bids ≡ false
  pub people : t.participants ≡ with_charge a.id x (with_team a.id x s.participants)
  pub stored : t.auctions ≡ save_by auction_key row s.auctions

sell_once-SoldTo :
    (a : AuctionRow) (target : ℕ) (bid : Bid) (row : AuctionRow) (s t : Auctions) (x : Sale)
    → a.current_player ≡ some target
    → highest (select (active_on a.id target) s.bids) ≡ some bid
    → sell_once a target bid row s ≡ ok (some x, t)
    → SoldTo a row s t x
unfolding sell_once
sell_once-SoldTo a target bid row s t x c h e =
    elim (Bool-cases (is_assigned (find_one (is_member a.id target) s.participants))) [
      | inl m ↦ absurd (ground arith)
      | inr m ↦
          let (r, b) = sell_lem a target bid row s t (some x) (ground arith) in
          let q : x ≡ sale_of target bid = ground arith in
          subst (SoldTo a row s t) (sym q) (record {
            on_turn = c;
            winner = (bid, h, refl);
            free = m;
            released_bids =
                ap (λ z. any_of (active_on a.id target) z.bids) b ∙ released a.id target s.bids;
            people = ap (λ z. z.participants) b;
            stored = ap (λ z. z.auctions) b;
          })
    ]

confirm_loaded-SoldTo :
    (a : AuctionRow) (s t : Auctions) (x : Sale)
    → confirm_loaded a s ≡ ok (some x, t)
    → (is_sold a.phase ≡ false) × SoldTo a (confirmed_row a) s t x
unfolding confirm_loaded confirm_player
confirm_loaded-SoldTo a s t x e = elim (Bool-cases (is_sold a.phase)) [
  | inl m ↦ absurd (ground arith)
  | inr m ↦ elim (Option-cases a.current_player) [
    | inl k ↦ absurd (ground arith)
    | inr (target, k) ↦ elim (Option-cases (highest (select (active_on a.id target) s.bids))) [
      | inl n ↦ absurd (ground arith)
      | inr (bid, n) ↦ (m, sell_once-SoldTo a target bid (confirmed_row a) s t x k n (ground arith))
    ]
  ]
]

timeout_loaded-SoldTo :
    (a : AuctionRow) (s t : Auctions) (x : Sale)
    → timeout_loaded a s ≡ ok (some x, t)
    → SoldTo a (timed_out_row a) s t x
unfolding timeout_loaded timeout_player
timeout_loaded-SoldTo a s t x e = elim (Bool-cases (not (is_ongoing a.status) || is_sold a.phase)) [
  | inl m ↦ absurd (ground arith)
  | inr m ↦ elim (Option-cases a.current_player) [
    | inl k ↦ absurd (ground arith)
    | inr (target, k) ↦ elim (Option-cases (highest (select (active_on a.id target) s.bids))) [
      | inl n ↦ absurd (ground arith)
      | inr (bid, n) ↦ sell_once-SoldTo a target bid (timed_out_row a) s t x k n (ground arith)
    ]
  ]
]

-- A confirmation that sells a player is by the auction's creator and not in the phase after a
-- sale. It sells the player whose turn it is, who had no team, to the bidder of the highest
-- active bid on him for that amount: the row of the player gets the bidder as its captain and
-- that price, the price is taken from the points of the bidder's row, and no other participant is
-- written; a row that is missing is left out. No bid on the player stays active, and the
-- auction's row is saved in the phase after a sale.
pub confirm_current_bid-SoldTo :
    (i admin : ℕ) (s t : Auctions) (x : Sale)
    → confirm_current_bid i admin s ≡ ok (some x, t)
    → (a : AuctionRow) × (find_by auction_key i s.auctions ≡ some a)
      × ((a.creator_id == admin) ≡ true)
      × (is_sold a.phase ≡ false)
      × SoldTo a (confirmed_row a) s t x
unfolding confirm_current_bid
confirm_current_bid-SoldTo i admin s t x e =
    let (a, v, l, e1) = >>=-inv (load_as_creator i admin) confirm_loaded {s = s} e in
    let (f, g, q) = load_as_creator_inv i admin s v a l in
    let (p, b) =
      confirm_loaded-SoldTo a s t x (subst (λ z. confirm_loaded a z ≡ ok (some x, t)) q e1) in
    (a, f, g, p, b)

-- A timeout that sells a player sells the one whose turn it is, who had no team, to the bidder of
-- the highest active bid on him for that amount: the row of the player gets the bidder as its
-- captain and that price, the price is taken from the points of the bidder's row, and no other
-- participant is written; a row that is missing is left out. No bid on the player stays active,
-- and the auction's row is saved with nobody on turn.
pub auto_confirm_on_timeout-SoldTo :
    (i : ℕ) (s t : Auctions) (x : Sale)
    → auto_confirm_on_timeout i s ≡ ok (some x, t)
    → (a : AuctionRow) × (find_by auction_key i s.auctions ≡ some a)
      × SoldTo a (timed_out_row a) s t x
unfolding auto_confirm_on_timeout
auto_confirm_on_timeout-SoldTo i s t x e = elim (Option-cases (find_by auction_key i s.auctions)) [
  | inl m ↦ absurd (ground arith)
  | inr (a, m) ↦ (a, m, timeout_loaded-SoldTo a s t x (ground arith))
]
