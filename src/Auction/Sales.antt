-- ===== src/Auction/Sales.antt =====
-- A player is sold once: what the guards of the two confirmations are for.
use potg.Base.{
  ℕ, ◌≡◌, refl, ◌∙◌, ap, subst, Bool, true, false, not, ◌||◌, Option, none, some, arith, ◌==◌, inl,
  inr, Bool-cases, Option-cases,
}
use potg.Base.Rows.{select, find_one}
use potg.Base.Keyed.{find_by, save_by, find_by_key, find_by-save_by}
use potg.Base.Tx.{
  Result-cases, ok, not_creator, auction_not_found, Tx, pure, throw_if, ◌>>◌, or_throw_inv, >>-inv,
  >>-pass, >>=-inv, >>=-ok,
}
use potg.AuctionTables.{
  AuctionRow, Bid, Auctions, BiddingPhase, auction_key, highest, active_on, is_sold, is_ongoing,
  is_assigned, is_member,
}
use potg.Auction.{
  Sale, load_auction, load_as_creator, confirm_current_bid, confirm_loaded, confirm_player,
  sell_once, sell, assign_player, charge_captain, auto_confirm_on_timeout, timeout_loaded,
}

assign_player_auctions :
    (i target : ℕ) (bid : Bid) (s t : Auctions) (u : Unit {0})
    → assign_player i target bid s ≡ ok (u, t)
    → t.auctions ≡ s.auctions
unfolding assign_player
assign_player_auctions i target bid s t u e =
    elim (Option-cases (find_one (is_member i target) s.participants)) [
      | inl m ↦ ground arith
      | inr (p, m) ↦ ground arith
    ]

charge_captain_auctions :
    (i : ℕ) (bid : Bid) (s t : Auctions) (u : Unit {0})
    → charge_captain i bid s ≡ ok (u, t)
    → t.auctions ≡ s.auctions
unfolding charge_captain
charge_captain_auctions i bid s t u e =
    elim (Option-cases (find_one (is_member i bid.bidder_id) s.participants)) [
      | inl m ↦ ground arith
      | inr (p, m) ↦ ground arith
    ]

-- A sale writes one auction.
sell_auctions :
    (a : AuctionRow) (target : ℕ) (bid : Bid) (row : AuctionRow) (s t : Auctions) (r : Option Sale)
    → sell a target bid row s ≡ ok (r, t)
    → t.auctions ≡ save_by auction_key row s.auctions
unfolding sell
sell_auctions a target bid row s t r e = elim (Result-cases (assign_player a.id target bid s)) [
  | inr (x, m) ↦ absurd (ground arith)
  | inl ((u, v), m) ↦ elim (Result-cases (charge_captain a.id bid v)) [
    | inr (x, k) ↦ absurd (ground arith)
    | inl ((w, z), k) ↦ ground (
      arith,
      assign_player_auctions a.id target bid s v u m,
      charge_captain_auctions a.id bid v z w k,
    )
  ]
]

sell_once_auctions :
    (a : AuctionRow) (target : ℕ) (bid : Bid) (row : AuctionRow) (s t : Auctions) (x : Sale)
    → sell_once a target bid row s ≡ ok (some x, t)
    → t.auctions ≡ save_by auction_key row s.auctions
unfolding sell_once
sell_once_auctions a target bid row s t x e =
    elim (Bool-cases (is_assigned (find_one (is_member a.id target) s.participants))) [
      | inl m ↦ absurd (ground arith)
      | inr m ↦ sell_auctions a target bid row s t (some x) (ground arith)
    ]

-- The row of the auction after a sale.
saved_row :
    (i : ℕ) (a row : AuctionRow) (s t : Auctions)
    → find_by auction_key i s.auctions ≡ some a
    → row.id ≡ i
    → t.auctions ≡ save_by auction_key row s.auctions
    → find_by auction_key i t.auctions ≡ some row
saved_row i a row s t f k e = ground (arith, find_by-save_by auction_key i row s.auctions)

abbrev pub sold_row : AuctionRow → AuctionRow
sold_row a = record a { phase = BiddingPhase.sold; current_end_time = none }

confirm_loaded_inv :
    (a : AuctionRow) (s t : Auctions) (x : Sale)
    → confirm_loaded a s ≡ ok (some x, t)
    → t.auctions ≡ save_by auction_key (sold_row a) s.auctions
unfolding confirm_loaded confirm_player
confirm_loaded_inv a s t x e = elim (Bool-cases (is_sold a.phase)) [
  | inl m ↦ absurd (ground arith)
  | inr m ↦ elim (Option-cases a.current_player) [
    | inl k ↦ absurd (ground arith)
    | inr (target, k) ↦ elim (Option-cases (highest (select (active_on a.id target) s.bids))) [
      | inl n ↦ absurd (ground arith)
      | inr (bid, n) ↦ sell_once_auctions a target bid (sold_row a) s t x (ground arith)
    ]
  ]
]

abbrev from_creator : ℕ → AuctionRow → Tx Auctions AuctionRow
from_creator admin a = throw_if (not (a.creator_id == admin)) not_creator >> pure a

pub load_as_creator_inv :
    (i admin : ℕ) (s t : Auctions) (a : AuctionRow)
    → load_as_creator i admin s ≡ ok (a, t)
    → (find_by auction_key i s.auctions ≡ some a) × ((a.creator_id == admin) ≡ true) × (t ≡ s)
unfolding load_as_creator load_auction
load_as_creator_inv i admin s t a e =
    let (b, f, e1) =
      or_throw_inv (find_by auction_key i s.auctions) auction_not_found (from_creator admin) {s = s}
        e in
    let (g, e2) = >>-inv (not (b.creator_id == admin)) not_creator (pure b) {s = s} e1 in
    (ground arith, ground arith, ground arith)

pub load_as_creator_ok :
    (i admin : ℕ) (t : Auctions) (a : AuctionRow)
    → find_by auction_key i t.auctions ≡ some a
    → (a.creator_id == admin) ≡ true
    → load_as_creator i admin t ≡ ok (a, t)
unfolding load_as_creator load_auction
load_as_creator_ok i admin t a f g =
    >>=-ok (load_auction i) (from_creator admin) (rw (f, load_auction) refl)
    ∙ >>-pass (not (a.creator_id == admin)) not_creator (pure a) t (ap not g)

sold_unconfirmed : (a : AuctionRow) (t : Auctions) → confirm_loaded (sold_row a) t ≡ ok (none, t)
unfolding confirm_loaded
sold_unconfirmed a t = refl

not_or_true : (b : Bool) → (b || true) ≡ true
not_or_true true = refl
not_or_true false = refl

sold_not_timed_out : (a : AuctionRow) (t : Auctions) → timeout_loaded (sold_row a) t ≡ ok (none, t)
unfolding timeout_loaded
sold_not_timed_out a t = rw (not_or_true (not (is_ongoing a.status))) refl

-- After a confirmation that sold a player, a second confirmation by the same administrator and
-- the end of the turn's time both sell nothing and change nothing.
pub confirm_once :
    (i admin : ℕ) (s t : Auctions) (x : Sale)
    → confirm_current_bid i admin s ≡ ok (some x, t)
    → (confirm_current_bid i admin t ≡ ok (none, t)) × (auto_confirm_on_timeout i t ≡ ok (none, t))
unfolding confirm_current_bid auto_confirm_on_timeout
confirm_once i admin s t x e =
    let (a, v, l, e1) = >>=-inv (load_as_creator i admin) confirm_loaded {s = s} e in
    let (f, g, q) = load_as_creator_inv i admin s v a l in
    let sale : confirm_loaded a s ≡ ok (some x, t) =
      subst (λ z. confirm_loaded a z ≡ ok (some x, t)) q e1 in
    let row =
      saved_row i a (sold_row a) s t f (find_by_key auction_key i s.auctions a f)
        (confirm_loaded_inv a s t x sale) in
    (
      >>=-ok (load_as_creator i admin) confirm_loaded
            (load_as_creator_ok i admin t (sold_row a) row g)
          ∙ sold_unconfirmed a t,
      rw (row, auto_confirm_on_timeout) (sold_not_timed_out a t),
    )
