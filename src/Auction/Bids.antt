-- ===== src/Auction/Bids.antt =====
-- What an accepted bid guarantees.
use potg.Base.{
  ℕ, ◌+◌, ◌≤◌, ◌≡◌, refl, sym, ◌∙◌, ap, subst, true, false, not, Option, none, some, List, [], ◌∷◌,
  arith, leb, same_id, inl, inr, Bool-cases, Option-cases,
}
use potg.Base.Int.{ℤ, pos, pos_part, negsuc, +ℤ_parts, ◌+ℤ◌, ◌≤ℤ◌, ltb_ℤ}
use potg.Base.Rows.{select, find_one, any_of, sum_of, update_where}
use potg.Base.Keyed.{save_by, find_by, find_by_key}
use potg.Base.Tx.{
  ok, Tx, get, throw_if, or_throw, ◌>>=◌, ◌>>◌, >>-inv, or_throw_inv, auction_not_found,
  not_ongoing, not_current_player, only_captains, bid_too_low, points_short,
}
use potg.AuctionTables.{
  AuctionRow, Participant, Bid, Auctions, auction_key, bid_amount, is_ongoing, is_captain,
  is_member, active_on, active_by, active_by_on, deactivate, highest, min_bid_amount,
  other_bids_total,
}
use potg.Auction.{end_of_turn, place_bid, record_bid, load_auction}

-- What a bidder's active bids in an auction add up to.
abbrev pub promised : ℕ → ℕ → List Bid → ℕ
promised i bidder bs = sum_of bid_amount (select (active_by i bidder) bs)

-- Releasing the bid on one player leaves the bids on the others.
promised-release :
    (i bidder target : ℕ) (bs : List Bid)
    → promised i bidder (update_where (active_by_on i bidder target) deactivate bs)
      ≡ other_bids_total i bidder target bs
promised-release i bidder target [] = refl
promised-release i bidder target (b ∷ bs) = elim (Bool-cases (active_by i bidder b)) [
  | inl m ↦ ground (arith, promised-release i bidder target bs)
  | inr m ↦ ground (arith, promised-release i bidder target bs)
]

-- An amount of at least the minimum is above every bid that was looked at.
above_all :
    (n : ℕ) (bs : List Bid)
    → min_bid_amount (highest bs) ≤ n
    → any_of (λ b. leb n b.amount) bs ≡ false
above_all n [] h = refl
above_all n (b ∷ bs) h = elim (Option-cases (highest bs)) [
  | inl m ↦ ground (arith, above_all n bs)
  | inr (c, m) ↦ ground (arith, above_all n bs)
]

-- The guards and the effect of an accepted bid.
pub record Promised (i bidder target : ℕ) (amount : ℤ) (s t : Auctions) (bid : Bid) : Type 0 where
  pub running :
      (a : AuctionRow) × (find_by auction_key i s.auctions ≡ some a)
      × (is_ongoing a.status ≡ true)
      × (a.current_player ≡ some target)
  pub topped : any_of (λ b. leb bid.amount b.amount) (select (active_on i target) s.bids) ≡ false
  pub placed : (pos bid.amount ≡ amount) × (bid.bidder_id ≡ bidder) × (bid.target_id ≡ target)
  pub covered :
      (p : Participant) × (find_one (is_member i bidder) s.participants ≡ some p)
      × (is_captain p.role ≡ true)
      × (pos (promised i bidder t.bids) ≤ℤ p.current_points)
  pub others : t.participants ≡ s.participants

-- `place_bid` from each of its guards on.
module _ (bidder target : ℕ) (amount : ℤ) (n : ℕ) where
  abbrev from_points : AuctionRow → Participant → List Bid → Tx Auctions Bid
  from_points a p bs =
      throw_if (ltb_ℤ p.current_points (pos (other_bids_total a.id bidder target bs) +ℤ amount))
        points_short
      >> record_bid a bidder target (pos_part amount) n

  abbrev from_amount : AuctionRow → Participant → List Bid → Tx Auctions Bid
  from_amount a p bs =
      throw_if (ltb_ℤ amount (pos (min_bid_amount (highest (select (active_on a.id target) bs)))))
        bid_too_low
      >> from_points a p bs

  abbrev from_role : AuctionRow → List Bid → Participant → Tx Auctions Bid
  from_role a bs p = throw_if (not (is_captain p.role)) only_captains >> from_amount a p bs

  abbrev from_member : AuctionRow → Tx Auctions Bid
  from_member a = get >>= λ s.
      or_throw (find_one (is_member a.id bidder) s.participants) only_captains
      >>= from_role a s.bids

  abbrev from_target : AuctionRow → Tx Auctions Bid
  from_target a =
      throw_if (not (same_id a.current_player (some target))) not_current_player >> from_member a

  abbrev from_status : AuctionRow → Tx Auctions Bid
  from_status a = throw_if (not (is_ongoing a.status)) not_ongoing >> from_target a

same_target : (o : Option ℕ) (j : ℕ) → not (same_id o (some j)) ≡ false → o ≡ some j
same_target none j e = cc
same_target (some k) j e = ground arith

pub record_bid_lem :
    (a : AuctionRow) (bidder target x n : ℕ) (s t : Auctions) (bid : Bid)
    → record_bid a bidder target x n s ≡ ok (bid, t)
    → (bid.amount ≡ x)
      × (bid.bidder_id ≡ bidder)
      × (bid.target_id ≡ target)
      × (bid.auction_id ≡ a.id)
      × (bid.is_active ≡ true)
      × (t.participants ≡ s.participants)
      × (t ≡ record s {
        auctions =
            save_by auction_key (record a { current_end_time = end_of_turn a s.now }) s.auctions;
        bids = bid ∷ update_where (active_by_on a.id bidder target) deactivate s.bids;
      })
      × (t.bids ≡ bid ∷ update_where (active_by_on a.id bidder target) deactivate s.bids)
unfolding record_bid
record_bid_lem a bidder target x n s t bid e = (
  ground arith,
  ground arith,
  ground arith,
  ground arith,
  ground arith,
  ground arith,
  ground arith,
  ground arith,
)

promised-cons :
    (i bidder : ℕ) (b : Bid) (bs : List Bid)
    → b.auction_id ≡ i
    → b.bidder_id ≡ bidder
    → b.is_active ≡ true
    → promised i bidder (b ∷ bs) ≡ b.amount + promised i bidder bs
promised-cons i bidder b bs x y z = ground arith

-- Enough points for the other bids and the amount cover the bids after it.
covers :
    (points amount : ℤ) (least others x total : ℕ)
    → ltb_ℤ amount (pos least) ≡ false
    → ltb_ℤ points (pos others +ℤ amount) ≡ false
    → x ≡ pos_part amount
    → total ≡ x + others
    → pos total ≤ℤ points
covers points (pos a) least others x total g h e f = ground (arith, +ℤ_parts (pos others) (pos a))
covers points (negsuc a) least others x total g h e f = absurd (ground arith)

at_least : (amount : ℤ) (least : ℕ) → ltb_ℤ amount (pos least) ≡ false → least ≤ pos_part amount
at_least amount least g = ground arith

whole :
    (amount : ℤ) (least : ℕ)
    → 1 ≤ least
    → ltb_ℤ amount (pos least) ≡ false
    → pos (pos_part amount) ≡ amount
whole amount least p g = ground arith

min_bid_positive : (o : Option Bid) → 1 ≤ min_bid_amount o
min_bid_positive none = omega arith
min_bid_positive (some b) = omega arith

recorded :
    (a : AuctionRow) (p : Participant) (bidder target : ℕ) (amount : ℤ) (n : ℕ) (s t : Auctions)
    (bid : Bid)
    → find_by auction_key a.id s.auctions ≡ some a
    → is_ongoing a.status ≡ true
    → a.current_player ≡ some target
    → find_one (is_member a.id bidder) s.participants ≡ some p
    → is_captain p.role ≡ true
    → ltb_ℤ amount (pos (min_bid_amount (highest (select (active_on a.id target) s.bids)))) ≡ false
    → ltb_ℤ p.current_points (pos (other_bids_total a.id bidder target s.bids) +ℤ amount) ≡ false
    → record_bid a bidder target (pos_part amount) n s ≡ ok (bid, t)
    → Promised a.id bidder target amount s t bid
recorded a p bidder target amount n s t bid f on cur k cap g4 g5 e =
    let (x, y, z, u, v, w, _, bs) = record_bid_lem a bidder target (pos_part amount) n s t bid e in
    let least = min_bid_amount (highest (select (active_on a.id target) s.bids)) in
    let others = other_bids_total a.id bidder target s.bids in
    let after : promised a.id bidder t.bids ≡ bid.amount + others =
      ap (promised a.id bidder) bs
      ∙ (promised-cons a.id bidder bid
            (update_where (active_by_on a.id bidder target) deactivate s.bids) u y v
          ∙ ap (λ c. bid.amount + c) (promised-release a.id bidder target s.bids)) in
    record {
      running = (a, f, on, cur);
      topped =
          above_all bid.amount (select (active_on a.id target) s.bids)
            (subst (λ c. least ≤ c) (sym x) (at_least amount least g4));
      placed = (
        ap pos x
            ∙ whole amount least
                (min_bid_positive (highest (select (active_on a.id target) s.bids))) g4,
        y,
        z,
      );
      covered = (
        p,
        k,
        cap,
        covers p.current_points amount least others bid.amount (promised a.id bidder t.bids) g4 g5 x
            after,
      );
      others = w;
    }

-- Every guard that an accepted bid passed, and the writes that are left.
pub place_bid_inv :
    (i bidder target : ℕ) (amount : ℤ) (n : ℕ) (s t : Auctions) (bid : Bid)
    → place_bid i bidder target amount n s ≡ ok (bid, t)
    → (a : AuctionRow) × (p : Participant) × (find_by auction_key i s.auctions ≡ some a)
      × (a.id ≡ i)
      × (is_ongoing a.status ≡ true)
      × (a.current_player ≡ some target)
      × (find_one (is_member a.id bidder) s.participants ≡ some p)
      × (is_captain p.role ≡ true)
      × (ltb_ℤ amount (pos (min_bid_amount (highest (select (active_on a.id target) s.bids))))
          ≡ false)
      × (ltb_ℤ p.current_points (pos (other_bids_total a.id bidder target s.bids) +ℤ amount)
          ≡ false)
      × (record_bid a bidder target (pos_part amount) n s ≡ ok (bid, t))
unfolding place_bid record_bid load_auction
place_bid_inv i bidder target amount n s t bid e =
    let (a, f, e1) =
      or_throw_inv (find_by auction_key i s.auctions) auction_not_found
        (from_status bidder target amount n) {s = s} e in
    let (g1, e2) =
      >>-inv (not (is_ongoing a.status)) not_ongoing (from_target bidder target amount n a) {s = s}
        e1 in
    let (g2, e3) =
      >>-inv (not (same_id a.current_player (some target))) not_current_player
        (from_member bidder target amount n a) {s = s} e2 in
    let (p, k, e4) =
      or_throw_inv (find_one (is_member a.id bidder) s.participants) only_captains
        (from_role bidder target amount n a s.bids) {s = s} e3 in
    let (g3, e5) =
      >>-inv (not (is_captain p.role)) only_captains (from_amount bidder target amount n a p s.bids)
        {s = s} e4 in
    let (g4, e6) =
      >>-inv (ltb_ℤ amount (pos (min_bid_amount (highest (select (active_on a.id target) s.bids)))))
        bid_too_low (from_points bidder target amount n a p s.bids) {s = s} e5 in
    let (g5, e7) =
      >>-inv (ltb_ℤ p.current_points (pos (other_bids_total a.id bidder target s.bids) +ℤ amount))
        points_short (record_bid a bidder target (pos_part amount) n) {s = s} e6 in
    (
      a,
      p,
      f,
      find_by_key auction_key i s.auctions a f,
      ground arith,
      same_target a.current_player target g2,
      k,
      ground arith,
      g4,
      g5,
      e7,
    )

-- A bid that is accepted is for the player whose turn it is, in a running auction, by one of its
-- captains. It is above every active bid on the player, and after it the captain's active bids
-- together are within the points that the captain has.
pub place_bid-Promised :
    (i bidder target : ℕ) (amount : ℤ) (n : ℕ) (s t : Auctions) (bid : Bid)
    → place_bid i bidder target amount n s ≡ ok (bid, t)
    → Promised i bidder target amount s t bid
place_bid-Promised i bidder target amount n s t bid e =
    let (a, p, f, row, on, cur, k, cap, g4, g5, e7) =
      place_bid_inv i bidder target amount n s t bid e in
    subst (λ j. Promised j bidder target amount s t bid) row
      (recorded a p bidder target amount n s t bid
        (subst (λ j. find_by auction_key j s.auctions ≡ some a) (sym row) f) on cur k cap g4 g5 e7)
