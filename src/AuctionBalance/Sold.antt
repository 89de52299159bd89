-- ===== src/AuctionBalance/Sold.antt =====
-- The confirmations of a sale, and the end of the time of a turn.
use potg.Base.{
  ℕ, ◌≡◌, refl, sym, ◌∙◌, ap, subst, false, not, ◌||◌, Option, none, some, arith, inl, inr,
  Bool-cases, Option-cases,
}
use potg.Base.Rows.{select, find_one, update_where}
use potg.Base.Keyed.{save_by, find_by_key}
use potg.Base.Tx.{ok}
use potg.AuctionTables.{
  BiddingPhase, AuctionRow, Participant, Bid, Auctions, auction_key, participant_key, is_member,
  is_ongoing, deactivate, active_on, highest, is_assigned, is_sold,
}
use potg.Auction.{
  Sale, sell, sell_once, confirm_current_bid, confirm_loaded, confirm_player,
  auto_confirm_on_timeout, timeout_loaded, timeout_player,
}
use potg.AuctionSetup.{is_pending}
use potg.AuctionBalance.Owing.{Balanced, captain_id-save}
use potg.AuctionBalance.Steady.{Steady, IsSteady, by_creator, with_row, row-Steady}
use potg.AuctionBalance.Trades.{all-Steady, stray-release, stray-same}
use potg.AuctionBalance.Teams.{
  bought_row, charged_row, sell_writes, sale-Balanced, sale-captains, sale-players, captain_row,
  player_row, bidder_captain,
}

pub unassigned : (p : Participant) → is_assigned (some p) ≡ false → p.assigned_captain ≡ none
unassigned p e = elim (Option-cases p.assigned_captain) [
  | inl m ↦ m
  | inr (c, m) ↦ absurd (ground arith)
]

-- A sale, with the row that is written after it.
module _ (a row : AuctionRow) (target : ℕ) (bid : Bid) (s t : Auctions) (r : Option Sale) where
  sell-Steady :
      Steady a.id a s
      → a.current_player ≡ some target
      → highest (select (active_on a.id target) s.bids) ≡ some bid
      → is_assigned (find_one (is_member a.id target) s.participants) ≡ false
      → row.id ≡ a.id
      → row.starting_points ≡ a.starting_points
      → ((u : ℕ) → row.current_player ≡ some u → a.current_player ≡ some u)
      → row.status ≡ a.status
      → sell a target bid row s ≡ ok (r, t)
      → Steady a.id row t
  sell-Steady h c e n k l m o w =
      let cap = bidder_captain a.id target s.participants s.bids bid h.bidders e in
      let (p, f, role) = player_row a.id target s.participants (h.target target c) in
      let free = unassigned p (ap is_assigned (sym f) ∙ n) in
      let first = save_by participant_key (bought_row p bid) s.participants in
      let cap' =
        captain_id-save a.id target p (bought_row p bid) s.participants h.balanced.keys f
          (refl, refl, refl) refl bid.bidder_id
        ∙ cap in
      let (q, g) = captain_row a.id bid.bidder_id first cap' in
      let last = save_by participant_key (charged_row q bid) first in
      let sold =
        sale-Balanced a.id a.starting_points target bid p q s.participants h.balanced f role free
          cap g in
      let same =
        sale-captains a.id a.starting_points target bid p q s.participants h.balanced f g in
      let still =
        sale-players a.id a.starting_points target bid p q s.participants h.balanced f g in
      let freed = update_where (active_on a.id target) deactivate s.bids in
      subst (Steady a.id row) (sym (sell_writes a target bid row s t r p q f g w)) (
        all-Steady a.id a row s last freed h k (subst (λ z. Balanced a.id z last) (sym l) sold)
          (stray-same a.id s.participants last freed same
            ∙ stray-release a.id s.participants (active_on a.id target) s.bids h.bidders)
          (λ u z. still u ∙ h.target u (m u z))
          (λ z. absurd (cc ((h.untouched (ap is_pending (sym o) ∙ z)).no_target, c))))

  sell_once-Steady :
      Steady a.id a s
      → a.current_player ≡ some target
      → highest (select (active_on a.id target) s.bids) ≡ some bid
      → row.id ≡ a.id
      → row.starting_points ≡ a.starting_points
      → ((u : ℕ) → row.current_player ≡ some u → a.current_player ≡ some u)
      → row.status ≡ a.status
      → sell_once a target bid row s ≡ ok (r, t)
      → IsSteady a.id t
  unfolding sell_once
  sell_once-Steady h c e k l m o w =
      elim (Bool-cases (is_assigned (find_one (is_member a.id target) s.participants))) [
        | inl n ↦ let q : t ≡ s = ground arith in subst (IsSteady a.id) (sym q) (a, h)
        | inr n ↦ (row, sell-Steady h c e n k l m o (ground arith))
      ]

confirm_loaded-IsSteady :
    (a : AuctionRow) (s t : Auctions) (r : Option Sale)
    → Steady a.id a s
    → confirm_loaded a s ≡ ok (r, t)
    → IsSteady a.id t
unfolding confirm_loaded confirm_player
confirm_loaded-IsSteady a s t r h e = elim (Bool-cases (is_sold a.phase)) [
  | inl m ↦ let q : t ≡ s = ground arith in subst (IsSteady a.id) (sym q) (a, h)
  | inr m ↦ elim (Option-cases a.current_player) [
    | inl c ↦ let q : t ≡ s = ground arith in subst (IsSteady a.id) (sym q) (a, h)
    | inr (target, c) ↦ elim (Option-cases (highest (select (active_on a.id target) s.bids))) [
      | inl n ↦ absurd (ground arith)
      | inr (bid, n) ↦
          let row : AuctionRow = record a { phase = BiddingPhase.sold; current_end_time = none } in
          sell_once-Steady a row target bid s t r h c n refl refl (λ u z. z) refl (ground arith)
    ]
  ]
]

timeout_loaded-IsSteady :
    (a : AuctionRow) (s t : Auctions) (r : Option Sale)
    → Steady a.id a s
    → timeout_loaded a s ≡ ok (r, t)
    → IsSteady a.id t
unfolding timeout_loaded timeout_player
timeout_loaded-IsSteady a s t r h e =
    elim (Bool-cases (not (is_ongoing a.status) || is_sold a.phase)) [
      | inl m ↦ let q : t ≡ s = ground arith in subst (IsSteady a.id) (sym q) (a, h)
      | inr m ↦ elim (Option-cases a.current_player) [
        | inl c ↦ let q : t ≡ s = ground arith in subst (IsSteady a.id) (sym q) (a, h)
        | inr (target, c) ↦
            let row : AuctionRow = record a { current_player = none; current_end_time = none } in
            elim (Option-cases (highest (select (active_on a.id target) s.bids))) [
              | inl n ↦
                  let q : t ≡ with_row row s = ground arith in
                  subst (IsSteady a.id) (sym q) (
                    row,
                    row-Steady a.id a row s h refl refl (λ u z. absurd (cc z)) (λ z. (z, refl)),
                  )
              | inr (bid, n) ↦
                  sell_once-Steady a row target bid s t r h c n refl refl (λ u z. absurd (cc z))
                    refl (ground arith)
            ]
      ]
    ]

-- A step from the row that is found, whose number is the auction's.
by_number :
    (i : ℕ) (a : AuctionRow) (s t : Auctions)
    → Steady i a s
    → (Steady a.id a s → IsSteady a.id t)
    → IsSteady i t
by_number i a s t h f =
    let own = find_by_key auction_key i s.auctions a h.found in
    subst (λ j. IsSteady j t) own (f (subst (λ j. Steady j a s) (sym own) h))

pub confirm_current_bid-IsSteady :
    (i admin : ℕ) (s t : Auctions) (r : Option Sale)
    → IsSteady i s
    → confirm_current_bid i admin s ≡ ok (r, t)
    → IsSteady i t
unfolding confirm_current_bid
confirm_current_bid-IsSteady i admin s t r (a, h) e =
    by_number i a s t h
      (λ g. confirm_loaded-IsSteady a s t r g (by_creator i admin confirm_loaded s t r a h e))

pub auto_confirm_on_timeout-IsSteady :
    (i : ℕ) (s t : Auctions) (r : Option Sale)
    → IsSteady i s
    → auto_confirm_on_timeout i s ≡ ok (r, t)
    → IsSteady i t
unfolding auto_confirm_on_timeout
auto_confirm_on_timeout-IsSteady i s t r (a, h) e =
    let found = h.found in
    by_number i a s t h (λ g. timeout_loaded-IsSteady a s t r g (ground arith))
