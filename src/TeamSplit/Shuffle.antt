-- ===== src/TeamSplit/Shuffle.antt =====
-- The swaps of the shuffle, as permutations.
use mathlib.Core.List.{Perm, perm-cons}
use mathlib.Core.List.Perm
use potg.Base.{
  ℕ, zero, suc, ◌+◌, ◌-◌, ◌≡◌, refl, sym, ◌∙◌, subst, false, List, [], ◌∷◌, some, inl, inr,
  Option-cases, Bool-cases, arith, ◌==◌,
}
use potg.Base.Rows.{length}
use potg.TeamSplit.{get_elem?, set, swap, shuffle_from, shuffle}

module _ {A : Type 0} where
  perm_set :
      (xs : List A) (i : ℕ) (x y : A) → get_elem? xs i ≡ some x → Perm (x ∷ set xs i y) (y ∷ xs)
  perm_set [] i x y e = absurd (cc e)
  perm_set (z ∷ xs) zero x y e =
      let same : z ≡ x = ground arith in
      subst (λ w. Perm (x ∷ y ∷ xs) (y ∷ w ∷ xs)) (sym same) (Perm.swap y x xs)
  perm_set (z ∷ xs) (suc i) x y e =
      Perm.trans (Perm.swap z x (set xs i y))
        (Perm.trans (Perm.cons z (perm_set xs i x y e)) (Perm.swap y z xs))

  get_elem?-set_other :
      (xs : List A) (i j : ℕ) (y : A) → (i == j) ≡ false → get_elem? (set xs i y) j ≡ get_elem? xs j
  get_elem?-set_other [] i j y e = refl
  get_elem?-set_other (z ∷ xs) zero zero y e = absurd (ground arith)
  get_elem?-set_other (z ∷ xs) zero (suc j) y e = refl
  get_elem?-set_other (z ∷ xs) (suc i) zero y e = refl
  get_elem?-set_other (z ∷ xs) (suc i) (suc j) y e = get_elem?-set_other xs i j y (ground arith)

  get_elem?-set_self :
      (xs : List A) (i : ℕ) (x y : A) → get_elem? xs i ≡ some x → get_elem? (set xs i y) i ≡ some y
  get_elem?-set_self [] i x y e = absurd (cc e)
  get_elem?-set_self (z ∷ xs) zero x y e = refl
  get_elem?-set_self (z ∷ xs) (suc i) x y e = get_elem?-set_self xs i x y e

  -- What stands at `j` once `y`, which stood there, is written at `i`.
  get_elem?-set :
      (xs : List A) (i j : ℕ) (x y : A)
      → get_elem? xs i ≡ some x
      → get_elem? xs j ≡ some y
      → get_elem? (set xs i y) j ≡ some y
  get_elem?-set xs i j x y e f = elim (Bool-cases (i == j)) [
    | inl m ↦
        let same : i ≡ j = ground arith in
        subst (λ k. get_elem? (set xs i y) k ≡ some y) same (get_elem?-set_self xs i x y e)
    | inr m ↦ get_elem?-set_other xs i j y m ∙ f
  ]

  swap_perm : (i j : ℕ) (xs : List A) → Perm (swap i j xs) xs
  swap_perm i j xs = elim (Option-cases (get_elem? xs i)) [
    | inl m ↦ rw (m, swap) (Perm.refl xs)
    | inr (x, m) ↦ elim (Option-cases (get_elem? xs j)) [
      | inl k ↦ rw (m, k, swap) (Perm.refl xs)
      | inr (y, k) ↦
          rw (m, k, swap)
            ((perm-cons y).0 (
              Perm.trans (perm_set (set xs i y) j y x (get_elem?-set xs i j x y m k))
                (perm_set xs i x y m)))
    ]
  ]

  shuffle_from_perm : (random : ℕ → ℕ) (i : ℕ) (xs : List A) → Perm (shuffle_from random i xs) xs
  unfolding shuffle_from
  shuffle_from_perm random zero xs = Perm.refl xs
  shuffle_from_perm random (suc i) xs =
      Perm.trans (shuffle_from_perm random i (swap (suc i) (random (suc i + 1)) xs))
        (swap_perm (suc i) (random (suc i + 1)) xs)

  pub shuffle_perm : (random : ℕ → ℕ) (xs : List A) → Perm (shuffle random xs) xs
  unfolding shuffle
  shuffle_perm random xs = shuffle_from_perm random (length xs - 1) xs
