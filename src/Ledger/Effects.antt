-- ===== src/Ledger/Effects.antt =====
-- What a transfer does to the users table: rows, sum, and predicates.
use potg.Base.{
  ℕ, ◌≡◌, ◌∙◌, ◌≢◌, true, Option, none, some, List, arith, ◌==◌, if◌then◌else◌, same_id, inl, inr,
  Option-cases, ◌⊎◌, Bool-cases, ap,
}
use potg.Base.Int.{ℤ, pos, ◌+ℤ◌, ◌-ℤ◌, ◌≤ℤ◌, int_laws}
use potg.Ledger.{User, find_user, set_balance, Book, TransferParams, is_real_user_account}
use potg.Ledger.Users.{
  HasUniqueIds, total_balance, AllNonneg, find_user-set_balance, set_balance-HasUniqueIds,
  total_balance-set_balance, set_balance-AllNonneg, find_user_nonneg,
}
use potg.Ledger.Transfer.{debited, credited, moved, Accepts}

-- The set of rows before and after `set_balance j x` differ at `j` alone.
find_user_moved :
    (i j : ℕ) (x : ℤ) (us : List User) (w v : User)
    → find_user (some j) us ≡ some w
    → find_user (some i) (set_balance j x us) ≡ some v
    → (u : User) × (find_user (some i) us ≡ some u)
      × ((i ≡ j) × (u ≡ w) × (v.points_balance ≡ x) ⊎ (i ≢ j) × (v ≡ u))
find_user_moved i j x us w v f e = elim (Option-cases (find_user (some i) us)) [
  | inl m ↦ absurd (ground (arith, find_user-set_balance i j x us))
  | inr (u, m) ↦ (u, m, ground (arith, find_user-set_balance i j x us))
]

abbrev pub paid_out : TransferParams → ℕ → ℤ
paid_out p i = if same_id p.from_account (some i) then p.amount else pos 0

abbrev pub paid_in : TransferParams → ℕ → ℤ
paid_in p i = if same_id p.to_account (some i) then p.amount else pos 0

pub find_user-debited :
    (p : TransferParams) (us : List User) (i : ℕ) (v : User)
    → i ≢ 0
    → (is_real_user_account p.from_account ≡ true
        → (u : User) × (find_user p.from_account us ≡ some u) × (p.amount ≤ℤ u.points_balance))
    → find_user (some i) (debited p us) ≡ some v
    → (u : User) × (find_user (some i) us ≡ some u)
      × (v.points_balance ≡ u.points_balance -ℤ paid_out p i)
find_user-debited p us i v n h e = elim (Option-cases p.from_account) [
  | inl m ↦ (v, ground arith, grind int_laws)
  | inr (j, m) ↦ elim (Bool-cases (j == 0)) [
    | inl z ↦ (v, ground arith, grind int_laws)
    | inr z ↦
        let (w, f, _) = h (ground arith) in
        let f' : find_user (some j) us ≡ some w = ground arith in
        let (u, g, c) =
          find_user_moved i j (w.points_balance -ℤ p.amount) us w v f' (ground arith) in
        (u, g, grind int_laws)
  ]
]

pub find_user-credited :
    (p : TransferParams) (old us : List User) (i : ℕ) (v : User)
    → i ≢ 0
    → (is_real_user_account p.to_account ≡ true
        → (u : User) × (find_user p.to_account old ≡ some u) × (find_user p.to_account us ≡ some u))
    → find_user (some i) (credited p old us) ≡ some v
    → (u : User) × (find_user (some i) us ≡ some u)
      × (v.points_balance ≡ u.points_balance +ℤ paid_in p i)
find_user-credited p old us i v n h e = elim (Option-cases p.to_account) [
  | inl m ↦ (v, ground arith, grind int_laws)
  | inr (j, m) ↦ elim (Bool-cases (j == 0)) [
    | inl z ↦ (v, ground arith, grind int_laws)
    | inr z ↦
        let (w, f, f2) = h (ground arith) in
        let f' : find_user (some j) us ≡ some w = ground arith in
        let (u, g, c) =
          find_user_moved i j (w.points_balance +ℤ p.amount) us w v f' (ground arith) in
        (u, g, grind int_laws)
  ]
]

debited_other :
    (p : TransferParams) (us : List User) (a : Option ℕ) (u : User)
    → (is_real_user_account p.from_account ≡ true → p.from_account ≢ a)
    → is_real_user_account a ≡ true
    → find_user a us ≡ some u
    → find_user a (debited p us) ≡ some u
debited_other p us none u d r e = cc
debited_other p us (some j) u d r e = elim (Option-cases p.from_account) [
  | inl m ↦ ground arith
  | inr (k, m) ↦ elim (Bool-cases (k == 0)) [
    | inl z ↦ ground arith
    | inr z ↦ elim (Option-cases (find_user (some k) us)) [
      | inl q ↦ ground arith
      | inr (w, q) ↦
          ground
            (arith, find_user-set_balance j k (w.points_balance -ℤ p.amount) us, d (ground arith))
    ]
  ]
]

-- The payee's row is not touched by the debit, since the payer is another user.
pub payee-debited :
    (p : TransferParams) (b : Book)
    → Accepts p b
    → is_real_user_account p.to_account ≡ true
    → (u : User) × (find_user p.to_account b.users ≡ some u)
      × (find_user p.to_account (debited p b.users) ≡ some u)
payee-debited p b h r =
    let (u, e) = h.payee r in (u, e, debited_other p b.users p.to_account u h.distinct r e)

pub total_balance-debited :
    (p : TransferParams) (us : List User)
    → HasUniqueIds us
    → (is_real_user_account p.from_account ≡ true
        → (u : User) × (find_user p.from_account us ≡ some u) × (p.amount ≤ℤ u.points_balance))
    → total_balance (debited p us)
      ≡ total_balance us -ℤ (if is_real_user_account p.from_account then p.amount else pos 0)
total_balance-debited p us q h = elim (Option-cases p.from_account) [
  | inl m ↦ grind int_laws
  | inr (k, m) ↦ elim (Bool-cases (k == 0)) [
    | inl z ↦ grind int_laws
    | inr z ↦
        let (w, f, _) = h (ground arith) in
        let f' : find_user (some k) us ≡ some w = ground arith in
        grind (int_laws, total_balance-set_balance k (w.points_balance -ℤ p.amount) us w q f')
  ]
]

pub total_balance-credited :
    (p : TransferParams) (old us : List User)
    → HasUniqueIds us
    → (is_real_user_account p.to_account ≡ true
        → (u : User) × (find_user p.to_account old ≡ some u) × (find_user p.to_account us ≡ some u))
    → total_balance (credited p old us)
      ≡ total_balance us +ℤ (if is_real_user_account p.to_account then p.amount else pos 0)
total_balance-credited p old us q h = elim (Option-cases p.to_account) [
  | inl m ↦ grind int_laws
  | inr (k, m) ↦ elim (Bool-cases (k == 0)) [
    | inl z ↦ grind int_laws
    | inr z ↦
        let (w, f, g) = h (ground arith) in
        let f' : find_user (some k) us ≡ some w = ground arith in
        grind (int_laws, total_balance-set_balance k (w.points_balance +ℤ p.amount) us w q f')
  ]
]

debited_keeps :
    (P : List User → Type 0) (p : TransferParams) (us : List User)
    → P us
    → ((k : ℕ) (u : User)
        → p.from_account ≡ some k
        → is_real_user_account p.from_account ≡ true
        → find_user (some k) us ≡ some u
        → P (set_balance k (u.points_balance -ℤ p.amount) us))
    → P (debited p us)
debited_keeps P p us h s = elim (Option-cases p.from_account) [
  | inl m ↦ rw m h
  | inr (k, m) ↦ elim (Bool-cases (k == 0)) [
    | inl z ↦ rw (m, z) h
    | inr z ↦ elim (Option-cases (find_user (some k) us)) [
      | inl q ↦ rw (m, z, q) h
      | inr (u, q) ↦ rw (m, z, q) (s k u m (ground arith) q)
    ]
  ]
]

credited_keeps :
    (P : List User → Type 0) (p : TransferParams) (old us : List User)
    → P us
    → ((k : ℕ) (u : User)
        → find_user (some k) old ≡ some u
        → P (set_balance k (u.points_balance +ℤ p.amount) us))
    → P (credited p old us)
credited_keeps P p old us h s = elim (Option-cases p.to_account) [
  | inl m ↦ rw m h
  | inr (k, m) ↦ elim (Bool-cases (k == 0)) [
    | inl z ↦ rw (m, z) h
    | inr z ↦ elim (Option-cases (find_user (some k) old)) [
      | inl q ↦ rw (m, z, q) h
      | inr (u, q) ↦ rw (m, z, q) (s k u q)
    ]
  ]
]

pub debited-HasUniqueIds :
    (p : TransferParams) (us : List User) → HasUniqueIds us → HasUniqueIds (debited p us)
debited-HasUniqueIds p us h =
    debited_keeps HasUniqueIds p us h
      (λ k u _ _ _. set_balance-HasUniqueIds k (u.points_balance -ℤ p.amount) us h)

pub credited-HasUniqueIds :
    (p : TransferParams) (old us : List User) → HasUniqueIds us → HasUniqueIds (credited p old us)
credited-HasUniqueIds p old us h =
    credited_keeps HasUniqueIds p old us h
      (λ k u _. set_balance-HasUniqueIds k (u.points_balance +ℤ p.amount) us h)

pub debited-AllNonneg :
    (p : TransferParams) (b : Book)
    → Accepts p b
    → AllNonneg b.users
    → AllNonneg (debited p b.users)
debited-AllNonneg p b a h = debited_keeps AllNonneg p b.users h λ k u m r f.
    let (v, g, c) = a.payer r in
    set_balance-AllNonneg k (u.points_balance -ℤ p.amount) b.users (covered k u v m f g c) h
  where
    covered :
        (k : ℕ) (u v : User)
        → p.from_account ≡ some k
        → find_user (some k) b.users ≡ some u
        → find_user p.from_account b.users ≡ some v
        → p.amount ≤ℤ v.points_balance
        → pos 0 ≤ℤ u.points_balance -ℤ p.amount
    covered k u v m f g c =
        let e : u ≡ v = ground arith in
        let d : p.amount ≤ℤ u.points_balance = rw e c in omega int_laws

pub credited-AllNonneg :
    (p : TransferParams) (old us : List User)
    → pos 1 ≤ℤ p.amount
    → AllNonneg old
    → AllNonneg us
    → AllNonneg (credited p old us)
credited-AllNonneg p old us a o h = credited_keeps AllNonneg p old us h λ k u f.
    set_balance-AllNonneg k (u.points_balance +ℤ p.amount) us
      (omega (int_laws, find_user_nonneg k old u o f)) h

-- The sum of all balances changes by the amount where one side is no user.
pub total_balance-moved :
    (p : TransferParams) (b : Book)
    → HasUniqueIds b.users
    → Accepts p b
    → total_balance (moved p b).users
      ≡ (total_balance b.users -ℤ (if is_real_user_account p.from_account then p.amount else pos 0))
        +ℤ (if is_real_user_account p.to_account then p.amount else pos 0)
total_balance-moved p b q a =
    total_balance-credited p b.users (debited p b.users) (debited-HasUniqueIds p b.users q)
      (payee-debited p b a)
    ∙ ap (λ x. x +ℤ (if is_real_user_account p.to_account then p.amount else pos 0))
        (total_balance-debited p b.users q a.payer)
