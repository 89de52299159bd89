-- ===== src/Ledger/Users.antt =====
-- The users table under a balance update.
use potg.Base.{ℕ, ◌≡◌, refl, Option, none, some, List, [], ◌∷◌, arith, ◌==◌, if◌then◌else◌}
use potg.Base.Int.{ℤ, pos, ◌+ℤ◌, ◌≤ℤ◌, int_laws}
use potg.Ledger.{User, find_user, set_balance}

-- No id occurs twice: the primary key.
abbrev pub HasUniqueIds : List User → Type 0
HasUniqueIds [] = Unit {0}
HasUniqueIds (u ∷ us) = (find_user (some u.id) us ≡ none) × HasUniqueIds us

-- The sum of all balances.
abbrev pub total_balance : List User → ℤ
total_balance [] = pos 0
total_balance (u ∷ us) = u.points_balance +ℤ total_balance us

-- No balance is below zero.
abbrev pub AllNonneg : List User → Type 0
AllNonneg [] = Unit {0}
AllNonneg (u ∷ us) = (pos 0 ≤ℤ u.points_balance) × AllNonneg us

pub find_user_id : (i : ℕ) (us : List User) (u : User) → find_user (some i) us ≡ some u → u.id ≡ i
find_user_id i [] u e = cc
find_user_id i (x ∷ us) u e = ground (arith, find_user_id i us u)

abbrev pub with_balance : ℤ → Option User → Option User
with_balance x none = none
with_balance x (some u) = some (record u { points_balance = x })

pub find_user-set_balance :
    (i j : ℕ) (x : ℤ) (us : List User)
    → find_user (some i) (set_balance j x us)
      ≡ (if i == j then with_balance x (find_user (some i) us) else find_user (some i) us)
find_user-set_balance i j x [] = ground arith
find_user-set_balance i j x (u ∷ us) = ground (arith, find_user-set_balance i j x us)

pub set_balance-HasUniqueIds :
    (j : ℕ) (x : ℤ) (us : List User) → HasUniqueIds us → HasUniqueIds (set_balance j x us)
set_balance-HasUniqueIds j x [] h = tt
set_balance-HasUniqueIds j x (u ∷ us) h =
    ground (arith, set_balance-HasUniqueIds j x us h.1, find_user-set_balance u.id j x us)

pub set_balance_absent :
    (j : ℕ) (x : ℤ) (us : List User) → find_user (some j) us ≡ none → set_balance j x us ≡ us
set_balance_absent j x [] e = refl
set_balance_absent j x (u ∷ us) e = ground (arith, set_balance_absent j x us)

pub total_balance-set_balance :
    (j : ℕ) (x : ℤ) (us : List User) (u : User)
    → HasUniqueIds us
    → find_user (some j) us ≡ some u
    → total_balance (set_balance j x us) +ℤ u.points_balance ≡ total_balance us +ℤ x
total_balance-set_balance j x [] u h e = cc
total_balance-set_balance j x (v ∷ us) u h e =
    grind (int_laws, set_balance_absent j x us, total_balance-set_balance j x us u h.1)

pub set_balance-AllNonneg :
    (j : ℕ) (x : ℤ) (us : List User) → pos 0 ≤ℤ x → AllNonneg us → AllNonneg (set_balance j x us)
set_balance-AllNonneg j x [] p h = tt
set_balance-AllNonneg j x (u ∷ us) p h = ground (arith, set_balance-AllNonneg j x us p h.1)

pub find_user_nonneg :
    (i : ℕ) (us : List User) (u : User)
    → AllNonneg us
    → find_user (some i) us ≡ some u
    → pos 0 ≤ℤ u.points_balance
find_user_nonneg i [] u h e = cc
find_user_nonneg i (x ∷ us) u h e = ground (arith, find_user_nonneg i us u h.1)
