-- ===== src/AuctionBalance/ResetRows.antt =====
-- The participants after the reset of an auction.
use potg.Base.{
  ℕ, ◌≤◌, ◌≡◌, refl, none, some, List, [], ◌∷◌, arith, ◌==◌, if◌then◌else◌, inl, inr, Bool-cases,
}
use potg.Base.Rows.{find_one, update_where}
use potg.Base.Keyed.{find_by, HasUniqueKeys}
use potg.AuctionTables.{Participant, AuctionRole, participant_key, is_member, is_player}
use potg.AuctionBalance.Owing.{spent}
use potg.AuctionControl.{reset_role}
use potg.AuctionBalance.Members.{HasUniqueMembers, tally}
use potg.AuctionBalance.Owing.{stray_of}

abbrev pub all_reset : ℕ → ℕ → List Participant → List Participant
all_reset i points ps = update_where (λ p. p.auction_id == i) (λ p. reset_role p.role points p) ps

module _ (i points : ℕ) where
  pub reset_row_of :
      (r : AuctionRole) (p : Participant)
      → ((reset_role r points p).id ≡ p.id)
        × ((reset_role r points p).auction_id ≡ p.auction_id)
        × ((reset_role r points p).user_id ≡ p.user_id)
        × ((reset_role r points p).role ≡ p.role)
  reset_row_of AuctionRole.captain p = (refl, refl, refl, refl)
  reset_row_of AuctionRole.player p = (refl, refl, refl, refl)
  reset_row_of AuctionRole.spectator p = (refl, refl, refl, refl)

  pub reset_row :
      (p : Participant)
      → ((reset_role p.role points p).id ≡ p.id)
        × ((reset_role p.role points p).auction_id ≡ p.auction_id)
        × ((reset_role p.role points p).user_id ≡ p.user_id)
        × ((reset_role p.role points p).role ≡ p.role)
  reset_row p = reset_row_of p.role p

  pub reset_member :
      (j u : ℕ) (ps : List Participant)
      → find_one (is_member j u) (all_reset i points ps) ≡ elim (find_one (is_member j u) ps) [
        | none ↦ none
        | some p ↦ some (if p.auction_id == i then reset_role p.role points p else p)
      ]
  reset_member j u [] = refl
  reset_member j u (x ∷ xs) = elim (Bool-cases (x.auction_id == i)) [
    | inl m ↦ ground (arith, reset_row x, reset_member j u xs)
    | inr m ↦ ground (arith, reset_member j u xs)
  ]

  pub reset_key :
      (n : ℕ) (ps : List Participant)
      → find_by participant_key n ps ≡ none
      → find_by participant_key n (all_reset i points ps) ≡ none
  reset_key n [] e = refl
  reset_key n (x ∷ xs) e = elim (Bool-cases (x.auction_id == i)) [
    | inl m ↦ ground (arith, reset_row x, reset_key n xs)
    | inr m ↦ ground (arith, reset_key n xs)
  ]

  pub reset-HasUniqueKeys :
      (ps : List Participant)
      → HasUniqueKeys participant_key ps
      → HasUniqueKeys participant_key (all_reset i points ps)
  reset-HasUniqueKeys [] h = tt
  reset-HasUniqueKeys (x ∷ xs) h = elim (Bool-cases (x.auction_id == i)) [
    | inl m ↦ ground (arith, reset_row x, reset_key x.id xs, reset-HasUniqueKeys xs h.1)
    | inr m ↦ ground (arith, reset_key x.id xs, reset-HasUniqueKeys xs h.1)
  ]

  pub reset-HasUniqueMembers :
      (ps : List Participant) → HasUniqueMembers ps → HasUniqueMembers (all_reset i points ps)
  reset-HasUniqueMembers [] h = tt
  reset-HasUniqueMembers (x ∷ xs) h = elim (Bool-cases (x.auction_id == i)) [
    | inl m ↦
        ground (
          arith,
          reset_row x,
          reset_member x.auction_id x.user_id xs,
          reset-HasUniqueMembers xs h.1,
        )
    | inr m ↦ ground (arith, reset_member x.auction_id x.user_id xs, reset-HasUniqueMembers xs h.1)
  ]

  -- Only what was no player is left in a team.
  pub reset-spent :
      (c : ℕ) (ps : List Participant)
      → (spent i c (all_reset i points ps) ≤ tally (stray_of i c) ps)
        × (tally (stray_of i c) (all_reset i points ps) ≤ tally (stray_of i c) ps)
  reset-spent c [] = (omega arith, omega arith)
  reset-spent c (x ∷ xs) =
      let h = reset-spent c xs in
      let r = reset_row x in
      elim (Bool-cases (x.auction_id == i)) [
        | inr m ↦ (ground arith, ground arith)
        | inl m ↦ elim (Bool-cases (is_player x.role)) [
          | inl k ↦ (ground arith, ground arith)
          | inr k ↦ (ground arith, ground arith)
        ]
      ]
