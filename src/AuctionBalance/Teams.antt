-- ===== src/AuctionBalance/Teams.antt =====
-- The parts of a sale, and what it makes of the balance.
use potg.Base.{
  ℕ, ◌≡◌, refl, ◌∙◌, Bool, true, false, Option, none, some, List, [], ◌∷◌, arith, inl, inr,
  Bool-cases, Option-cases,
}
use potg.Base.Int.{ℤ, pos, ◌+ℤ◌, ◌-ℤ◌, int_laws}
use potg.Base.Rows.{select, find_one, any_of, update_where}
use potg.Base.Keyed.{save_by, save_by-HasUniqueKeys}
use potg.Base.Tx.{ok}
use potg.AuctionTables.{
  AuctionRow, Participant, Bid, Auctions, auction_key, participant_key, is_member, is_player,
  deactivate, active_on, highest,
}
use potg.Auction.{Sale, sell, assign_player, charge_captain}
use potg.AuctionBalance.Owing.{
  Owing, Balanced, Owing-none, is_captain_id, is_player_id, captain_id-save, player_id-save,
}
use potg.AuctionBalance.Moves.{assign-Owing, repoint-Owing}
use potg.AuctionBalance.Steady.{stray_bid}

-- The highest of some bids is one of them.
highest_holds :
    (w : Bid → Bool) (bs : List Bid) (b : Bid) → highest (select w bs) ≡ some b → w b ≡ true
highest_holds w [] b e = absurd (cc e)
highest_holds w (x ∷ bs) b e = elim (Bool-cases (w x)) [
  | inr m ↦ ground (arith, highest_holds w bs b)
  | inl m ↦ elim (Option-cases (highest (select w bs))) [
    | inl n ↦ ground arith
    | inr (c, n) ↦ ground (arith, highest_holds w bs c)
  ]
]

highest_in :
    (w z : Bid → Bool) (bs : List Bid) (b : Bid)
    → any_of z bs ≡ false
    → highest (select w bs) ≡ some b
    → z b ≡ false
highest_in w z [] b h e = absurd (cc e)
highest_in w z (x ∷ bs) b h e = elim (Bool-cases (w x)) [
  | inr m ↦ ground (arith, highest_in w z bs b)
  | inl m ↦ elim (Option-cases (highest (select w bs))) [
    | inl n ↦ ground arith
    | inr (c, n) ↦ ground (arith, highest_in w z bs c)
  ]
]

abbrev pub bought_row : Participant → Bid → Participant
bought_row p bid = record p { assigned_captain = some bid.bidder_id; sold_price = bid.amount }

abbrev pub charged_row : Participant → Bid → Participant
charged_row c bid = record c { current_points = c.current_points -ℤ pos bid.amount }

pub sell_writes :
    (a : AuctionRow) (target : ℕ) (bid : Bid) (row : AuctionRow) (s t : Auctions) (r : Option Sale)
    (p c : Participant)
    → find_one (is_member a.id target) s.participants ≡ some p
    → find_one
        (is_member a.id bid.bidder_id)
        (save_by participant_key (bought_row p bid) s.participants)
      ≡ some c
    → sell a target bid row s ≡ ok (r, t)
    → t ≡ record s {
      participants =
          save_by participant_key
            (charged_row c bid)
            (save_by participant_key (bought_row p bid) s.participants);
      bids = update_where (active_on a.id target) deactivate s.bids;
      auctions = save_by auction_key row s.auctions;
    }
unfolding sell assign_player charge_captain
sell_writes a target bid row s t r p c f g e = ground arith

-- A player without a team was not assigned by hand.
pub not_by_hand :
    (i start d u : ℕ) (x : ℤ) (p : Participant) (ps : List Participant)
    → Owing i start d x ps
    → find_one (is_member i u) ps ≡ some p
    → p.assigned_captain ≡ none
    → p.was_unsold ≡ false
not_by_hand i start d u x p ps h f n = elim (Bool-cases p.was_unsold) [
  | inr m ↦ m
  | inl m ↦ absurd (ground (arith, h.by_hand u p f m))
]

paid_up : (x : ℤ) (n : ℕ) → (x -ℤ pos n) +ℤ pos n ≡ x +ℤ pos 0
paid_up x n = grind int_laws

-- The parts of a sale: the player `p`, who has no team, and the buyer's row `c`.
module _ (i start target : ℕ) (bid : Bid) (p c : Participant) (ps : List Participant) where
  bought-Owing :
      Balanced i start ps
      → find_one (is_member i target) ps ≡ some p
      → is_player p.role ≡ true
      → p.assigned_captain ≡ none
      → is_captain_id i bid.bidder_id ps ≡ true
      → Owing i start bid.bidder_id (pos bid.amount) (save_by participant_key (bought_row p bid) ps)
  bought-Owing h f r n k =
      let w = not_by_hand i start 0 target (pos 0) p ps h f n in
      assign-Owing i target start bid.bidder_id p ps bid.amount p.was_unsold
        (Owing-none i start 0 bid.bidder_id ps h) f r n k (λ b. absurd (cc (b, w)))

  pub sale-Balanced :
      Balanced i start ps
      → find_one (is_member i target) ps ≡ some p
      → is_player p.role ≡ true
      → p.assigned_captain ≡ none
      → is_captain_id i bid.bidder_id ps ≡ true
      → find_one (is_member i bid.bidder_id) (save_by participant_key (bought_row p bid) ps)
        ≡ some c
      → Balanced i start (
          save_by participant_key
            (charged_row c bid)
            (save_by participant_key (bought_row p bid) ps))
  sale-Balanced h f r n k g =
      let own = bought-Owing h f r n k in
      Owing-none i start bid.bidder_id 0 _ (
        repoint-Owing i start bid.bidder_id c (save_by participant_key (bought_row p bid) ps)
          (pos bid.amount) (pos 0) (c.current_points -ℤ pos bid.amount) own g
          (paid_up c.current_points bid.amount))

  pub sale-captains :
      Balanced i start ps
      → find_one (is_member i target) ps ≡ some p
      → find_one (is_member i bid.bidder_id) (save_by participant_key (bought_row p bid) ps)
        ≡ some c
      → (u : ℕ)
      → is_captain_id i u (
          save_by participant_key
            (charged_row c bid)
            (save_by participant_key (bought_row p bid) ps))
        ≡ is_captain_id i u ps
  sale-captains h f g u =
      let keys = save_by-HasUniqueKeys participant_key (bought_row p bid) ps h.keys in
      captain_id-save i bid.bidder_id c (charged_row c bid)
        (save_by participant_key (bought_row p bid) ps) keys g (refl, refl, refl) refl u
      ∙ captain_id-save i target p (bought_row p bid) ps h.keys f (refl, refl, refl) refl u

  pub sale-players :
      Balanced i start ps
      → find_one (is_member i target) ps ≡ some p
      → find_one (is_member i bid.bidder_id) (save_by participant_key (bought_row p bid) ps)
        ≡ some c
      → (u : ℕ)
      → is_player_id i u (
          save_by participant_key
            (charged_row c bid)
            (save_by participant_key (bought_row p bid) ps))
        ≡ is_player_id i u ps
  sale-players h f g u =
      let keys = save_by-HasUniqueKeys participant_key (bought_row p bid) ps h.keys in
      player_id-save i bid.bidder_id c (charged_row c bid)
        (save_by participant_key (bought_row p bid) ps) keys g (refl, refl, refl) refl u
      ∙ player_id-save i target p (bought_row p bid) ps h.keys f (refl, refl, refl) refl u

pub captain_row :
    (i u : ℕ) (ps : List Participant)
    → is_captain_id i u ps ≡ true
    → (c : Participant) × (find_one (is_member i u) ps ≡ some c)
captain_row i u ps k = elim (Option-cases (find_one (is_member i u) ps)) [
  | inl n ↦ absurd (ground arith)
  | inr f ↦ f
]

pub player_row :
    (i u : ℕ) (ps : List Participant)
    → is_player_id i u ps ≡ true
    → (p : Participant) × (find_one (is_member i u) ps ≡ some p) × (is_player p.role ≡ true)
player_row i u ps k = elim (Option-cases (find_one (is_member i u) ps)) [
  | inl n ↦ absurd (ground arith)
  | inr (p, f) ↦ (p, f, ground arith)
]

-- A captain holds a bid that is active in his auction.
pub bidder_captain :
    (i target : ℕ) (ps : List Participant) (bs : List Bid) (bid : Bid)
    → any_of (stray_bid i ps) bs ≡ false
    → highest (select (active_on i target) bs) ≡ some bid
    → is_captain_id i bid.bidder_id ps ≡ true
bidder_captain i target ps bs bid h e = ground (
  arith,
  highest_in (active_on i target) (stray_bid i ps) bs bid h e,
  highest_holds (active_on i target) bs bid e,
)
