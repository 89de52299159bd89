-- ===== src/Ledger/Transfer.antt =====
-- What a transfer does, on every branch.
use potg.Base.{
  ℕ, ◌≡◌, refl, ◌∙◌, ◌≢◌, true, false, Option, none, some, List, arith, ◌==◌, if◌then◌else◌,
  same_id, inl, inr, Option-cases, ◌⊎◌, Bool-cases, ◌∷◌,
}
use potg.Base.Int.{pos, ◌+ℤ◌, ◌-ℤ◌, ◌≤ℤ◌, leb_ℤ}
use potg.Base.Texts.{fits, fits_option}
use potg.Base.Tx.{
  Result, throw_if, ok, pure, Result-cases, ◌>>◌, >>-ok, >>-pass, >>-inv, amount_not_positive,
  no_user_side, same_user,
}
use potg.Ledger.Users.{find_user_id}
use potg.Ledger.{
  User, find_user, set_balance, Book, TransferParams, PointTx, transfer, run, is_real_user_account,
  has_key, fits_columns, no_user, to_self, normalize_account, debit, credit, save_tx,
}

abbrev pub debited : TransferParams → List User → List User
debited p us = elim p.from_account [
  | none ↦ us
  | some i ↦ if i == 0 then us else elim (find_user (some i) us) [
    | none ↦ us
    | some u ↦ set_balance i (u.points_balance -ℤ p.amount) us
  ]
]

abbrev pub credited : TransferParams → List User → List User → List User
credited p old us = elim p.to_account [
  | none ↦ us
  | some i ↦ if i == 0 then us else elim (find_user (some i) old) [
    | none ↦ us
    | some u ↦ set_balance i (u.points_balance +ℤ p.amount) us
  ]
]

abbrev pub entry : TransferParams → Book → PointTx
entry p b = record {
  from_account = normalize_account p.from_account;
  to_account = normalize_account p.to_account;
  amount = p.amount;
  reason = p.reason;
  ref_type = p.ref_type;
  ref_id = p.ref_id;
  idempotency_key = p.idempotency_key;
  created_at = b.now;
}

abbrev debit_step : TransferParams → List User → Book → Result (Unit {0} × Book)
debit_step p locked = if is_real_user_account p.from_account then debit locked p else pure tt

abbrev credit_step : TransferParams → List User → Book → Result (Unit {0} × Book)
credit_step p locked = if is_real_user_account p.to_account then credit locked p else pure tt

debit_step_lem :
    (p : TransferParams) (b c : Book)
    → debit_step p b.users b ≡ ok (tt, c)
    → c ≡ record b { users = debited p b.users }
unfolding debit
debit_step_lem p b c e = elim (Option-cases p.from_account) [
  | inl n ↦ ground arith
  | inr (i, n) ↦ elim (Option-cases (find_user (some i) b.users)) [
    | inl m ↦ ground arith
    | inr (u, m) ↦ ground (arith, find_user_id i b.users u m)
  ]
]

credit_step_lem :
    (p : TransferParams) (old : List User) (b c : Book)
    → credit_step p old b ≡ ok (tt, c)
    → c ≡ record b { users = credited p old b.users }
unfolding credit
credit_step_lem p old b c e = elim (Option-cases p.to_account) [
  | inl n ↦ ground arith
  | inr (i, n) ↦ elim (Option-cases (find_user (some i) old)) [
    | inl m ↦ ground arith
    | inr (u, m) ↦ ground (arith, find_user_id i old u m)
  ]
]

save_tx_lem :
    (t s : PointTx) (b c : Book)
    → save_tx t b ≡ ok (s, c)
    → (s ≡ t)
      × (c ≡ record b { txs = t ∷ b.txs })
      × (has_key t.idempotency_key b.txs ≡ false)
      × (fits_columns t ≡ true)
unfolding save_tx
save_tx_lem t s b c e = elim (Bool-cases (fits_columns t)) [
  | inl m ↦ ground arith
  | inr m ↦ absurd (ground arith)
]

run_result :
    (p : TransferParams) (b : Book) (t : PointTx) (c : Book)
    → run p b ≡ ok (t, c)
    → (t ≡ entry p b)
      × (c ≡ record b { users = credited p b.users (debited p b.users); txs = entry p b ∷ b.txs })
      × (has_key p.idempotency_key b.txs ≡ false)
      × (fits_columns (entry p b) ≡ true)
unfolding run
run_result p b t c e = elim (Result-cases (debit_step p b.users b)) [
  | inr (x, f) ↦ ground arith
  | inl ((_, c1), f) ↦ elim (Result-cases (credit_step p b.users c1)) [
    | inr (x, g) ↦ ground arith
    | inl ((_, c2), g) ↦ ground (
      arith,
      debit_step_lem p b c1 f,
      credit_step_lem p b.users c1 c2 g,
      save_tx_lem (entry p c2) t c2 c,
    )
  ]
]

-- The book after a transfer that went through.
abbrev pub moved : TransferParams → Book → Book
moved p b = record b { users = credited p b.users (debited p b.users); txs = entry p b ∷ b.txs }

-- What the ledger's documentation asks of a transfer, and its columns of the texts.
pub record Accepts (p : TransferParams) (b : Book) : Type 0 where
  pub positive : pos 1 ≤ℤ p.amount
  pub some_user :
      (is_real_user_account p.from_account ≡ true) ⊎ (is_real_user_account p.to_account ≡ true)
  pub distinct : is_real_user_account p.from_account ≡ true → p.from_account ≢ p.to_account
  pub payer :
      is_real_user_account p.from_account ≡ true
      → (u : User) × (find_user p.from_account b.users ≡ some u) × (p.amount ≤ℤ u.points_balance)
  pub payee :
      is_real_user_account p.to_account ≡ true
      → (u : User) × (find_user p.to_account b.users ≡ some u)
  pub fresh : has_key p.idempotency_key b.txs ≡ false
  pub reason_fits : fits 64 p.reason ≡ true
  pub type_fits : fits_option 32 p.ref_type ≡ true

same_id→eq : (a b : Option ℕ) → same_id a b ≡ true → a ≡ b
same_id→eq none none e = refl
same_id→eq none (some b) e = cc
same_id→eq (some a) none e = cc
same_id→eq (some a) (some b) e = ground arith

eq→same_id : (a b : Option ℕ) → a ≡ b → same_id a b ≡ true
eq→same_id none none e = refl
eq→same_id none (some b) e = cc
eq→same_id (some a) none e = cc
eq→same_id (some a) (some b) e = ground arith

debit_step_ok :
    (p : TransferParams) (b : Book)
    → (is_real_user_account p.from_account ≡ true
        → (u : User) × (find_user p.from_account b.users ≡ some u) × (p.amount ≤ℤ u.points_balance))
    → debit_step p b.users b ≡ ok (tt, record b { users = debited p b.users })
unfolding debit
debit_step_ok p b h = elim (Bool-cases (is_real_user_account p.from_account)) [
  | inr n ↦ elim (Option-cases p.from_account) [ inl m ↦ ground arith | inr (i, m) ↦ ground arith ]
  | inl n ↦ elim (Option-cases p.from_account) [
    | inl m ↦ ground arith
    | inr (i, m) ↦ ground (arith, h n, find_user_id i b.users (h n).0)
  ]
]

credit_step_ok :
    (p : TransferParams) (old : List User) (b : Book)
    → (is_real_user_account p.to_account ≡ true
        → (u : User) × (find_user p.to_account old ≡ some u))
    → credit_step p old b ≡ ok (tt, record b { users = credited p old b.users })
unfolding credit
credit_step_ok p old b h = elim (Bool-cases (is_real_user_account p.to_account)) [
  | inr n ↦ elim (Option-cases p.to_account) [ inl m ↦ ground arith | inr (i, m) ↦ ground arith ]
  | inl n ↦ elim (Option-cases p.to_account) [
    | inl m ↦ ground arith
    | inr (i, m) ↦ ground (arith, h n, find_user_id i old (h n).0)
  ]
]

run_ok : (p : TransferParams) (b : Book) → Accepts p b → run p b ≡ ok (entry p b, moved p b)
unfolding run save_tx
run_ok p b h =
    >>-ok (debit_step p b.users) _ (debit_step_ok p b h.payer)
    ∙ (>>-ok (credit_step p b.users) _
          (credit_step_ok p b.users (record b { users = debited p b.users }) h.payee)
        ∙ (rw (h.reason_fits, h.type_fits, h.fresh)))

-- The three tests before `run`.
guards_ok :
    (p : TransferParams) (b : Book)
    → (pos 1 ≤ℤ p.amount)
    → (is_real_user_account p.from_account ≡ true) ⊎ (is_real_user_account p.to_account ≡ true)
    → (is_real_user_account p.from_account ≡ true → p.from_account ≢ p.to_account)
    → transfer p b ≡ run p b
unfolding transfer
guards_ok p b pos_amount one apart =
    >>-pass (leb_ℤ p.amount (pos 0)) amount_not_positive _ b (ground arith)
    ∙ (>>-pass (no_user p) no_user_side _ b (ground arith)
        ∙ >>-pass (to_self p) same_user (run p) b
            (ground (arith, apart, same_id→eq p.from_account p.to_account)))

-- A transfer for which every condition of `Accepts` holds, the lengths of its texts among them,
-- goes through; it returns the entry, and leaves the book that `moved` describes.
pub transfer_succeeds :
    (p : TransferParams) (b : Book) → Accepts p b → transfer p b ≡ ok (entry p b, moved p b)
unfolding transfer run
transfer_succeeds p b h = guards_ok p b h.positive h.some_user h.distinct ∙ run_ok p b h

payer_of :
    (p : TransferParams) (b c : Book)
    → debit_step p b.users b ≡ ok (tt, c)
    → is_real_user_account p.from_account ≡ true
    → (u : User) × (find_user p.from_account b.users ≡ some u) × (p.amount ≤ℤ u.points_balance)
unfolding debit
payer_of p b c e r = elim (Option-cases (find_user p.from_account b.users)) [
  | inl n ↦ absurd (ground arith)
  | inr (u, n) ↦ (u, n, ground arith)
]

payee_of :
    (p : TransferParams) (old : List User) (b c : Book)
    → credit_step p old b ≡ ok (tt, c)
    → is_real_user_account p.to_account ≡ true
    → (u : User) × (find_user p.to_account old ≡ some u)
unfolding credit
payee_of p old b c e r = elim (Option-cases (find_user p.to_account old)) [
  | inl n ↦ absurd (ground arith)
  | inr (u, n) ↦ (u, n)
]

run_steps :
    (p : TransferParams) (b : Book) (t : PointTx) (c : Book)
    → run p b ≡ ok (t, c)
    → (us : List User) × (debit_step p b.users b ≡ ok (tt, record b { users = us }))
      × (is_real_user_account p.to_account ≡ true
          → (u : User) × (find_user p.to_account b.users ≡ some u))
unfolding run
run_steps p b t c e = elim (Result-cases (debit_step p b.users b)) [
  | inr (x, f) ↦ ground arith
  | inl ((_, c1), f) ↦ elim (Result-cases (credit_step p b.users c1)) [
    | inr (x, g) ↦ ground arith
    | inl ((_, c2), g) ↦
        (debited p b.users, (rw (← debit_step_lem p b c1 f) f), payee_of p b.users c1 c2 g)
  ]
]

-- A transfer that went through met every condition of `Accepts`; it returned the entry, and left
-- the book that `moved` describes.
pub transfer_result :
    (p : TransferParams) (b : Book) (t : PointTx) (c : Book)
    → transfer p b ≡ ok (t, c)
    → (t ≡ entry p b) × (c ≡ moved p b) × Accepts p b
unfolding transfer
transfer_result p b t c e =
    let (g1, e1) = >>-inv (leb_ℤ p.amount (pos 0)) amount_not_positive _ e in
    let (g2, e2) =
      >>-inv (no_user p) no_user_side (throw_if (to_self p) same_user >> run p) {s = b} e1 in
    let (g3, e3) = >>-inv (to_self p) same_user (run p) {s = b} e2 in
    let (te, ce, fe, texts) = run_result p b t c e3 in
    let (c1, d1, h1) = run_steps p b t c e3 in
    (
      te,
      ce,
      record {
        positive = ground arith;
        some_user = ground arith;
        distinct = λ r q. ground (arith, eq→same_id p.from_account p.to_account q);
        payer = payer_of p b (record b { users = c1 }) d1;
        payee = h1;
        fresh = fe;
        reason_fits = ground arith;
        type_fits = ground arith;
      },
    )
