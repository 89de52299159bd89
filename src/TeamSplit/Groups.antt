-- ===== src/TeamSplit/Groups.antt =====
-- The groups: their sizes, and their members together.
use mathlib.Core.List.{Perm}
use mathlib.Core.List.Perm
use potg.Base.{
  ℕ, zero, suc, ◌+◌, ◌-◌, ◌%◌, ◌/◌, ◌≤◌, ◌<◌, ◌≡◌, refl, sym, ◌∙◌, ap, subst, List, [], ◌∷◌, ◌++◌,
  inl, inr, arith, ◌==◌, if◌then◌else◌, ◌⊎◌,
}
use native.Mathlib.Nat.{mod-lt}
use potg.Base.Rows.{length}
use potg.TeamSplit.{push_at, replicate, deal, split}

-- How many of the first `n` members come into group `k` of `count`.
abbrev pub share : ℕ → ℕ → ℕ → ℕ
share count k zero = 0
share count k (suc n) = (if n % count == k then 1 else 0) + share count k n

abbrev pub all_members : {A : Type 0} → List (List A) → List A
all_members [] = []
all_members (g ∷ gs) = g ++ all_members gs

-- Group `k` has as many members as it says.
abbrev pub HasSizes : {A : Type 0} → (ℕ → ℕ) → List (List A) → Type 0
HasSizes f [] = Unit {0}
HasSizes f (g ∷ gs) = (length g ≡ f 0) × HasSizes (λ k. f (suc k)) gs

share_next :
    (count k i : ℕ) → share count k (i + 1) ≡ (if i % count == k then 1 else 0) + share count k i
share_next count k i = let e : i + 1 ≡ suc i = omega arith in ap (share count k) e

module _ {A : Type 0} where
  length-push : (m : A) (g : List A) → length (g ++ (m ∷ [])) ≡ length g + 1
  length-push m [] = ground arith
  length-push m (x ∷ g) = ground (arith, length-push m g)

  length-push_at : (k : ℕ) (m : A) (gs : List (List A)) → length (push_at k m gs) ≡ length gs
  length-push_at k m [] = refl
  length-push_at zero m (g ∷ gs) = refl
  length-push_at (suc k) m (g ∷ gs) = ap suc (length-push_at k m gs)

  sizes_same :
      (f h : ℕ → ℕ) (gs : List (List A)) → ((k : ℕ) → f k ≡ h k) → HasSizes f gs → HasSizes h gs
  sizes_same f h [] e s = tt
  sizes_same f h (g ∷ gs) e s =
      (s.0 ∙ e 0, sizes_same (λ k. f (suc k)) (λ k. h (suc k)) gs (λ k. e (suc k)) s.1)

  -- One more in group `k`.
  push_at_sizes :
      (f : ℕ → ℕ) (k : ℕ) (m : A) (gs : List (List A))
      → HasSizes f gs
      → HasSizes (λ j. (if k == j then 1 else 0) + f j) (push_at k m gs)
  push_at_sizes f k m [] s = tt
  push_at_sizes f zero m (g ∷ gs) s = (
    length-push m g ∙ ground arith,
    sizes_same (λ k. f (suc k)) (λ j. (if zero == suc j then 1 else 0) + f (suc j)) gs
        (λ j. ground arith) s.1,
  )
  push_at_sizes f (suc k) m (g ∷ gs) s = (
    s.0 ∙ ground arith,
    sizes_same (λ j. (if k == j then 1 else 0) + f (suc j))
        (λ j. (if suc k == suc j then 1 else 0) + f (suc j)) (push_at k m gs) (λ j. ground arith)
        (push_at_sizes (λ j. f (suc j)) k m gs s.1),
  )

  append_left : (g : List A) {xs ys : List A} → Perm xs ys → Perm (g ++ xs) (g ++ ys)
  append_left [] p = p
  append_left (x ∷ g) p = Perm.cons x (append_left g p)

  past : (m : A) (g rest : List A) → Perm (g ++ (m ∷ rest)) (m ∷ (g ++ rest))
  past m [] rest = Perm.refl (m ∷ rest)
  past m (x ∷ g) rest = Perm.trans (Perm.cons x (past m g rest)) (Perm.swap m x (g ++ rest))

  push_first : (m : A) (g rest : List A) → Perm ((g ++ (m ∷ [])) ++ rest) (m ∷ (g ++ rest))
  push_first m [] rest = Perm.refl (m ∷ rest)
  push_first m (x ∷ g) rest =
      Perm.trans (Perm.cons x (push_first m g rest)) (Perm.swap m x (g ++ rest))

  push_at_perm :
      (k : ℕ) (m : A) (gs : List (List A))
      → k < length gs
      → Perm (all_members (push_at k m gs)) (m ∷ all_members gs)
  push_at_perm k m [] h = absurd (ground arith)
  push_at_perm zero m (g ∷ gs) h = push_first m g (all_members gs)
  push_at_perm (suc k) m (g ∷ gs) h =
      Perm.trans (append_left g (push_at_perm k m gs (ground arith))) (past m g (all_members gs))

  deal_sizes :
      (count i : ℕ) (ms : List A) (gs : List (List A))
      → HasSizes (λ k. share count k i) gs
      → HasSizes (λ k. share count k (i + length ms)) (deal count i ms gs)
  unfolding deal
  deal_sizes count i [] gs s =
      sizes_same (λ k. share count k i) (λ k. share count k (i + 0)) gs
        (λ k. ap (share count k) (ground arith)) s
  deal_sizes count i (m ∷ ms) gs s =
      let next = push_at (i % count) m gs in
      let one : HasSizes (λ k. share count k (i + 1)) next =
        sizes_same (λ k. (if i % count == k then 1 else 0) + share count k i)
          (λ k. share count k (i + 1)) next (λ k. sym (share_next count k i))
          (push_at_sizes (λ k. share count k i) (i % count) m gs s) in
      sizes_same (λ k. share count k ((i + 1) + length ms))
        (λ k. share count k (i + length (m ∷ ms))) (deal count (i + 1) ms next)
        (λ k. ap (share count k) (ground arith)) (deal_sizes count (i + 1) ms next one)

  length-deal :
      (count i : ℕ) (ms : List A) (gs : List (List A)) → length (deal count i ms gs) ≡ length gs
  unfolding deal
  length-deal count i [] gs = refl
  length-deal count i (m ∷ ms) gs =
      length-deal count (i + 1) ms (push_at (i % count) m gs) ∙ length-push_at (i % count) m gs

  deal_perm :
      (count i : ℕ) (ms : List A) (gs : List (List A))
      → 0 < count
      → length gs ≡ count
      → Perm (all_members (deal count i ms gs)) (ms ++ all_members gs)
  unfolding deal
  deal_perm count i [] gs h e = Perm.refl (all_members gs)
  deal_perm count i (m ∷ ms) gs h e =
      let next = push_at (i % count) m gs in
      let inside : i % count < length gs = subst (λ n. i % count < n) (sym e) (mod-lt i h) in
      Perm.trans (deal_perm count (i + 1) ms next h (length-push_at (i % count) m gs ∙ e)) (
        Perm.trans (append_left ms (push_at_perm (i % count) m gs inside))
          (past m ms (all_members gs)))

  abbrev no_one : List A
  no_one = []

  empty_groups :
      (g : List A) (count : ℕ) (f : ℕ → ℕ)
      → length g ≡ 0
      → ((k : ℕ) → f k ≡ 0)
      → HasSizes f (replicate count g)
  empty_groups g zero f e h = tt
  empty_groups g (suc n) f e h =
      (e ∙ sym (h 0), empty_groups g n (λ k. f (suc k)) e (λ k. h (suc k)))

  length-replicate : (n : ℕ) (x : A) → length (replicate n x) ≡ n
  length-replicate zero x = refl
  length-replicate (suc n) x = ap suc (length-replicate n x)

  nobody : (count : ℕ) → all_members (replicate count no_one) ≡ []
  nobody zero = refl
  nobody (suc n) = nobody n

  sizes_below :
      (f h : ℕ → ℕ) (gs : List (List A))
      → ((k : ℕ) → k < length gs → f k ≡ h k)
      → HasSizes f gs
      → HasSizes h gs
  sizes_below f h [] e s = tt
  sizes_below f h (g ∷ gs) e s = (
    s.0 ∙ e 0 (omega arith),
    sizes_below (λ k. f (suc k)) (λ k. h (suc k)) gs (λ k l. e (suc k) (omega arith)) s.1,
  )

no_more : {A : Type 0} (ms : List A) → Perm (ms ++ []) ms
no_more [] = Perm.refl []
no_more (m ∷ ms) = Perm.cons m (no_more ms)

which : (n : ℕ) → 2 ≤ n → n ≤ 4 → (n ≡ 2) ⊎ ((n ≡ 3) ⊎ (n ≡ 4))
which n l h = ground arith

-- The share in closed form, for the counts that the command takes.
share_two : (k n : ℕ) → k < 2 → share 2 k n ≡ (n + (1 - k)) / 2
share_two k zero h = ground arith
share_two k (suc n) h = ground (arith, share_two k n)

share_three : (k n : ℕ) → k < 3 → share 3 k n ≡ (n + (2 - k)) / 3
share_three k zero h = ground arith
share_three k (suc n) h = ground (arith, share_three k n)

share_four : (k n : ℕ) → k < 4 → share 4 k n ≡ (n + (3 - k)) / 4
share_four k zero h = ground arith
share_four k (suc n) h = ground (arith, share_four k n)

-- The size of group `k` of `count` for `n` members.
abbrev pub even_share : ℕ → ℕ → ℕ → ℕ
even_share count n k = (n + (count - 1 - k)) / count

share_even :
    (count k n : ℕ) → 2 ≤ count → count ≤ 4 → k < count → share count k n ≡ even_share count n k
share_even count k n l h b = elim (which count l h) [
  | inl e ↦ subst (λ c. k < c → share c k n ≡ even_share c n k) (sym e) (share_two k n) b
  | inr (inl e) ↦ subst (λ c. k < c → share c k n ≡ even_share c n k) (sym e) (share_three k n) b
  | inr (inr e) ↦ subst (λ c. k < c → share c k n ≡ even_share c n k) (sym e) (share_four k n) b
]

-- For 2, 3 or 4 groups: there are that many groups, group k has (members + groups - 1 - k) /
-- groups members, so sizes differ by at most one, and the groups together hold exactly the
-- members.
pub split-HasSizes :
    {A : Type 0} (count : ℕ) (ms : List A)
    → 2 ≤ count
    → count ≤ 4
    → (length (split count ms) ≡ count)
      × HasSizes (even_share count (length ms)) (split count ms)
      × Perm (all_members (split count ms)) ms
unfolding split
split-HasSizes {A} count ms l h =
    let start : List (List A) = replicate count no_one in
    let size = length-deal count 0 ms start ∙ length-replicate count no_one in
    let shares =
      deal_sizes count 0 ms start
        (empty_groups no_one count (λ k. share count k 0) refl (λ k. refl)) in
    (
      size,
      sizes_below (λ k. share count k (0 + length ms)) (even_share count (length ms))
          (deal count 0 ms start)
          (λ k b.
            ap (share count k) (ground arith)
            ∙ share_even count k (length ms) l h (subst (λ n. k < n) size b))
          shares,
      Perm.trans (deal_perm count 0 ms start (omega arith) (length-replicate count no_one))
          (subst (λ z. Perm (ms ++ z) ms) (sym (nobody count)) (no_more ms)),
    )
