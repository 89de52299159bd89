-- ===== src/Base/Keyed.antt =====
-- Tables with a numeric primary key: lookups, whole-row saves and sums under a save.
use Prim.Native.Nat.{ℕ, ◌+◌}
use mathlib.Core.Path.{◌≡◌, refl}
use mathlib.Core.Bool.{Bool}
use mathlib.Core.Option.{Option, none, some}
use mathlib.Core.List.{List, [], ◌∷◌}
use native.Mathlib.Omega.{arith}
use potg.Base.Tests.{◌==◌, if◌then◌else◌}
use potg.Base.Rows.{find_one, select, sum_of, update_where}

module _ {A : Type 0} (key : A → ℕ) where
  -- `findOne({ where: { id } })`
  abbrev pub find_by : ℕ → List A → Option A
  find_by i = find_one (λ x. key x == i)

  -- `save(row)` for a row that is in the table: every column is written.
  abbrev pub save_by : A → List A → List A
  save_by x = update_where (λ y. key y == key x) (λ _. x)

  -- The primary key: no id occurs twice.
  abbrev pub HasUniqueKeys : List A → Type 0
  HasUniqueKeys [] = Unit {0}
  HasUniqueKeys (x ∷ xs) = (find_by (key x) xs ≡ none) × HasUniqueKeys xs

  abbrev pub replaced : A → Option A → Option A
  replaced x none = none
  replaced x (some _) = some x

  pub find_by-save_by :
      (i : ℕ) (x : A) (xs : List A)
      → find_by i (save_by x xs) ≡ (if i == key x then replaced x (find_by i xs) else find_by i xs)
  find_by-save_by i x [] = ground arith
  find_by-save_by i x (y ∷ xs) = ground (arith, find_by-save_by i x xs)

  -- A row that is saved over one that was there is found.
  pub find_by-save_by_found :
      (i : ℕ) (x old : A) (xs : List A)
      → key x ≡ i
      → find_by i xs ≡ some old
      → find_by i (save_by x xs) ≡ some x
  find_by-save_by_found i x old xs k e = ground (arith, find_by-save_by i x xs)

  pub find_by_key : (i : ℕ) (xs : List A) (x : A) → find_by i xs ≡ some x → key x ≡ i
  find_by_key i [] x e = cc
  find_by_key i (y ∷ xs) x e = ground (arith, find_by_key i xs x)

  pub save_by_absent : (x : A) (xs : List A) → find_by (key x) xs ≡ none → save_by x xs ≡ xs
  save_by_absent x [] e = refl
  save_by_absent x (y ∷ xs) e = ground (arith, save_by_absent x xs)

  pub save_by-HasUniqueKeys :
      (x : A) (xs : List A) → HasUniqueKeys xs → HasUniqueKeys (save_by x xs)
  save_by-HasUniqueKeys x [] h = tt
  save_by-HasUniqueKeys x (y ∷ xs) h = ground (
    arith,
    save_by-HasUniqueKeys x xs h.1,
    find_by-save_by (key y) x xs,
    find_by-save_by (key x) x xs,
  )

  -- A row that some query found is the row under its own key.
  pub find_by_found :
      (p : A → Bool) (xs : List A) (x : A)
      → HasUniqueKeys xs
      → find_one p xs ≡ some x
      → find_by (key x) xs ≡ some x
  find_by_found p [] x h e = cc
  find_by_found p (y ∷ xs) x h e = ground (arith, find_by_found p xs x h.1)

  -- A sum over a condition, when one row is written over.
  pub sum_of-save_by :
      (p : A → Bool) (f : A → ℕ) (x old : A) (xs : List A)
      → HasUniqueKeys xs
      → find_by (key x) xs ≡ some old
      → sum_of f (select p (save_by x xs)) + (if p old then f old else 0)
        ≡ sum_of f (select p xs) + (if p x then f x else 0)
  sum_of-save_by p f x old [] h e = cc
  sum_of-save_by p f x old (y ∷ xs) h e =
      ground (arith, sum_of-save_by p f x old xs h.1, save_by_absent x xs)
