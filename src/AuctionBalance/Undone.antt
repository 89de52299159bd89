-- ===== src/AuctionBalance/Undone.antt =====
-- A confirmed sale that is undone.
use mathlib.Core.Path.{subst₂}
use potg.Base.{ℕ, ◌≡◌, refl, sym, ◌∙◌, ap, subst, true, some, arith, ◌==◌, inl, inr, Bool-cases}
use potg.Base.Rows.{find_one}
use potg.Base.Keyed.{find_by, save_by, HasUniqueKeys, find_by_key, find_by-save_by}
use potg.Base.Tx.{ok, >>=-inv}
use potg.AuctionTables.{
  AuctionRow, Participant, Auctions, auction_key, participant_key, is_member, is_player,
}
use potg.Auction.{Sale, confirm_current_bid, confirm_loaded}
use potg.AuctionBalance.Steady.{Steady, IsSteady}
use potg.AuctionBalance.Teams.{bought_row, charged_row}
use potg.Base.Tx.{>>=-ok}
use potg.Auction.{load_as_creator}
use potg.Auction.Sales.{sold_row, load_as_creator_ok, load_as_creator_inv}
use potg.AuctionControl.{undo_sold_player, refund_captain, is_player_of}
use potg.AuctionBalance.SaleRows.{
  SoldRows, confirm_loaded_rows, sold_people, given_back, free_again, last_people, sold_player,
  sold_captain, last_member, captain_before, find_member_such, there_and_back,
}

-- What a participant has and is, in a sale's terms.
abbrev pub IsSame : Participant → Participant → Type 0
IsSame p q =
    (q.current_points ≡ p.current_points)
    × (q.assigned_captain ≡ p.assigned_captain)
    × (q.role ≡ p.role)

abbrev pub IsRestored : ℕ → Auctions → Auctions → Type 0
IsRestored i s v =
    (u : ℕ) (p : Participant)
    → find_one (is_member i u) s.participants ≡ some p
    → (q : Participant) × (find_one (is_member i u) v.participants ≡ some q) × IsSame p q

module _ (a : AuctionRow) (target : ℕ) (s t : Auctions) (h : SoldRows a target s t) where
  last-IsRestored :
      HasUniqueKeys participant_key s.participants
      → IsRestored a.id s (record t { participants = last_people a target s t h })
  last-IsRestored keys u p f =
      let m = last_member a target s t h keys u in
      elim (Bool-cases (u == target)) [
        | inl n ↦
            let same : p ≡ h.p = ground (arith, h.player) in
            (
              free_again a target s t h,
              ground arith,
              (
                ap (λ z. z.current_points) (sym same),
                sym h.free ∙ ap (λ z. z.assigned_captain) (sym same),
                ap (λ z. z.role) (sym same),
              ),
            )
        | inr n ↦ elim (Bool-cases (u == h.bid.bidder_id)) [
          | inr k ↦ (p, ground arith, (refl, refl, refl))
          | inl k ↦
              let same : p ≡ h.c = ground (arith, captain_before a target s t h keys) in
              (
                given_back a target s t h,
                ground arith,
                (
                  there_and_back h.c.current_points h.bid.amount
                      ∙ ap (λ z. z.current_points) (sym same),
                  ap (λ z. z.assigned_captain) (sym same),
                  ap (λ z. z.role) (sym same),
                ),
              )
        ]
      ]

  refund_runs :
      HasUniqueKeys participant_key s.participants
      → find_one (is_member a.id h.bid.bidder_id) t.participants ≡ some (charged_row h.c h.bid)
      → refund_captain a.id (bought_row h.p h.bid) h.bid.bidder_id t
        ≡ ok (
          tt,
          record t {
            participants = save_by participant_key (given_back a target s t h) t.participants;
          },
        )
  unfolding refund_captain
  refund_runs keys g = ground (arith, h.paid)

  undo_runs :
      (admin : ℕ)
      → HasUniqueKeys participant_key s.participants
      → load_as_creator a.id admin t ≡ ok (sold_row a, t)
      → undo_sold_player a.id admin target t
        ≡ ok (tt, record t { participants = last_people a target s t h })
  unfolding undo_sold_player
  undo_runs admin keys l =
      let ps : t.participants ≡ sold_people a target s t h = ap (λ z. z.participants) h.writes in
      let f : find_one (is_player_of a.id target) t.participants ≡ some (bought_row h.p h.bid) =
        subst (λ z. find_one (is_player_of a.id target) z ≡ some (bought_row h.p h.bid)) (sym ps)
          (find_member_such a.id target (λ q. is_player q.role) (bought_row h.p h.bid)
            (sold_people a target s t h) (sold_player a target s t h keys) h.role) in
      let g : find_one (is_member a.id h.bid.bidder_id) t.participants
          ≡ some (charged_row h.c h.bid) =
        subst (λ z. find_one (is_member a.id h.bid.bidder_id) z ≡ some (charged_row h.c h.bid))
          (sym ps) (sold_captain a target s t h keys) in
      let refund = refund_runs keys g in
      >>=-ok (load_as_creator a.id admin) _ l
      ∙ rw f (
          >>=-ok (refund_captain a.id (bought_row h.p h.bid) h.bid.bidder_id) _ refund ∙ rw ps refl)

undo_loaded :
    (i admin : ℕ) (a : AuctionRow) (s t : Auctions) (x : Sale)
    → a.id ≡ i
    → Steady a.id a s
    → (a.creator_id == admin) ≡ true
    → confirm_loaded a s ≡ ok (some x, t)
    → (v : Auctions) × (undo_sold_player a.id admin x.player_id t ≡ ok (tt, v))
      × IsRestored a.id s v
undo_loaded i admin a s t x own h g e =
    let rows = confirm_loaded_rows a s t x h e in
    let saved = ap (λ z. z.auctions) rows.writes in
    let found : find_by auction_key a.id t.auctions ≡ some (sold_row a) =
      ground (arith, find_by-save_by auction_key a.id (sold_row a) s.auctions, h.found) in
    (
      record t { participants = last_people a x.player_id s t rows },
      undo_runs a x.player_id s t rows admin h.balanced.keys
          (load_as_creator_ok a.id admin t (sold_row a) found g),
      last-IsRestored a x.player_id s t rows h.balanced.keys,
    )

-- In an auction that meets its invariant, after a confirmation that sold a player the master can
-- undo the sale: the call goes through, and every participant has the points, the team and the
-- role that he had before the sale.
pub undo_restores :
    (i admin : ℕ) (s t : Auctions) (x : Sale)
    → IsSteady i s
    → confirm_current_bid i admin s ≡ ok (some x, t)
    → (v : Auctions) × (undo_sold_player i admin x.player_id t ≡ ok (tt, v)) × IsRestored i s v
unfolding confirm_current_bid
undo_restores i admin s t x (a, h) e =
    let (b, w, l, e1) = >>=-inv (load_as_creator i admin) confirm_loaded {s = s} e in
    let (f, g, q) = load_as_creator_inv i admin s w b l in
    let own = find_by_key auction_key i s.auctions a h.found in
    let same : b ≡ a = ground (arith, h.found) in
    let e2 : confirm_loaded a s ≡ ok (some x, t) =
      subst₂ (λ y z. confirm_loaded y z ≡ ok (some x, t)) same q e1 in
    subst
      (λ j.
        (v : Auctions) × (undo_sold_player j admin x.player_id t ≡ ok (tt, v)) × IsRestored j s v)
      own
      (undo_loaded i admin a s t x own (subst (λ j. Steady j a s) (sym own) h)
        (subst (λ y. (y.creator_id == admin) ≡ true) same g) e2)
