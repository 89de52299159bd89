-- ===== src/Ledger/History.antt =====
-- The ledger over any sequence of transfers, each its own transaction. The row locks make
-- concurrent transfers such a sequence.
use potg.Base.{
  ℕ, ◌+◌, ◌≡◌, refl, sym, ◌≢◌, Bool, true, false, none, some, List, [], ◌∷◌, arith, ◌≤◌,
  if◌then◌else◌, inl, inr, Option-cases, Bool-cases, subst,
}
use potg.Base.Int.{ℤ, ◌-ℤ◌}
use potg.Base.Tx.{ok, run_tx, Result-cases}
use potg.Ledger.{
  Book, find_user, sum_amount, is_from, is_to, TransferParams, PointTx, IdempotencyKey, same_key,
  transfer, has_key, admin_summary, Summary, compute_balance_from_ledger, get_balance,
}
use potg.Ledger.Users.{total_balance}
use potg.Ledger.Transfer.{entry, transfer_result}
use potg.Ledger.Integrity.{IsSound, IsConsistent, transfer-IsSound, transfer-IsConsistent}

-- Each call commits or rolls back by itself.
abbrev pub transfer_all : List TransferParams → Book → Book
transfer_all [] b = b
transfer_all (p ∷ ps) b = transfer_all ps (run_tx (transfer p) b).1

abbrev pub key_matches : IdempotencyKey → PointTx → Bool
key_matches k t = elim t.idempotency_key [ none ↦ false | some l ↦ same_key l k ]

-- How many rows carry a key.
abbrev pub count_key : IdempotencyKey → List PointTx → ℕ
count_key k [] = 0
count_key k (t ∷ ts) = let rest = count_key k ts in if key_matches k t then rest + 1 else rest

-- One committed or rolled back transfer keeps what every committed transfer keeps.
keeps_of_commit :
    (P : Book → Type 0) (p : TransferParams) (b : Book)
    → ((t : PointTx) (c : Book) → transfer p b ≡ ok (t, c) → P c)
    → P b
    → P (run_tx (transfer p) b).1
unfolding run_tx
keeps_of_commit P p b s h = elim (Result-cases (transfer p b)) [
  | inl ((t, c), e) ↦ rw (e, run_tx) (s t c e)
  | inr (x, e) ↦ rw (e, run_tx) h
]

pub transfer_all_keeps :
    (P : Book → Type 0)
    → ((p : TransferParams) (b : Book) (t : PointTx) (c : Book)
        → P b
        → transfer p b ≡ ok (t, c)
        → P c)
    → (ps : List TransferParams) (b : Book) → P b
    → P (transfer_all ps b)
transfer_all_keeps P s [] b h = h
transfer_all_keeps P s (p ∷ ps) b h =
    transfer_all_keeps P s ps (run_tx (transfer p) b).1
      (keeps_of_commit P p b (λ t c. s p b t c h) h)

-- From a book whose user balances are what its journal says, any transfers, refused ones among
-- them, lead to such a book.
pub transfer_all-IsConsistent :
    (ps : List TransferParams) (b : Book) → IsConsistent b → IsConsistent (transfer_all ps b)
transfer_all-IsConsistent ps b h = transfer_all_keeps IsConsistent transfer-IsConsistent ps b h

-- From a sound book, any transfers, refused ones among them, lead to a sound book: unique ids, no
-- balance below zero, and a sum of all balances equal to what was issued less what was destroyed.
pub transfer_all-IsSound :
    (ps : List TransferParams) (b : Book) → IsSound b → IsSound (transfer_all ps b)
transfer_all-IsSound ps b h = transfer_all_keeps IsSound transfer-IsSound ps b h

abbrev pub UsesKeysOnce : Book → Type 0
UsesKeysOnce b = (k : IdempotencyKey) → count_key k b.txs ≤ 1

count_key_absent :
    (k : IdempotencyKey) (ts : List PointTx) → has_key (some k) ts ≡ false → count_key k ts ≡ 0
count_key_absent k [] h = refl
count_key_absent k (t ∷ ts) h = ground (arith, count_key_absent k ts)

same_key→eq : (k l : IdempotencyKey) → same_key k l ≡ true → k ≡ l
same_key→eq k l h = ground arith

count_key-cons :
    (k : IdempotencyKey) (t : PointTx) (ts : List PointTx)
    → has_key t.idempotency_key ts ≡ false
    → count_key k ts ≤ 1
    → count_key k (t ∷ ts) ≤ 1
count_key-cons k t ts f h = elim (Option-cases t.idempotency_key) [
  | inl n ↦ ground arith
  | inr (l, n) ↦ elim (Bool-cases (same_key l k)) [
    | inl s ↦ ground (arith, same_key→eq l k s, count_key_absent k ts)
    | inr s ↦ ground arith
  ]
]

transfer-UsesKeysOnce :
    (p : TransferParams) (b : Book) (t : PointTx) (c : Book)
    → UsesKeysOnce b
    → transfer p b ≡ ok (t, c)
    → UsesKeysOnce c
transfer-UsesKeysOnce p b t c h e =
    let (_, q, a) = transfer_result p b t c e in
    subst UsesKeysOnce (sym q) (λ k. count_key-cons k (entry p b) b.txs a.fresh (h k))

-- From a journal that has each idempotency key at most once, any transfers, refused ones among
-- them, lead to such a journal.
pub transfer_all-UsesKeysOnce :
    (ps : List TransferParams) (b : Book) → UsesKeysOnce b → UsesKeysOnce (transfer_all ps b)
transfer_all-UsesKeysOnce ps b h = transfer_all_keeps UsesKeysOnce transfer-UsesKeysOnce ps b h

-- From a book whose user balances are what its journal says, after any transfers: the balance
-- that `get_balance` reads of a user other than the system is the one computed from the journal.
pub compute_balance-get_balance :
    (ps : List TransferParams) (b : Book) (i : ℕ) (x : ℤ)
    → IsConsistent b
    → i ≢ 0
    → get_balance i (transfer_all ps b) ≡ ok (x, transfer_all ps b)
    → compute_balance_from_ledger i (transfer_all ps b) ≡ ok (x, transfer_all ps b)
unfolding get_balance compute_balance_from_ledger
compute_balance-get_balance ps b i x h n e =
    elim (Option-cases (find_user (some i) (transfer_all ps b).users)) [
      | inl m ↦ ground arith
      | inr (u, m) ↦ ground (arith, transfer_all-IsConsistent ps b h i u n m)
    ]

-- From a sound book, after any transfers, the summary is returned, and what it says circulates is
-- the sum of all balances.
pub admin_summary-total_balance :
    (ps : List TransferParams) (b : Book)
    → IsSound b
    → (r : Summary) × (admin_summary (transfer_all ps b) ≡ ok (r, transfer_all ps b))
      × (r.circulating ≡ total_balance (transfer_all ps b).users)
unfolding admin_summary
admin_summary-total_balance ps b h =
    let c = transfer_all ps b in
    let minted = sum_amount (is_from 0) c.txs in
    let burned = sum_amount (is_to 0) c.txs in
    (
      record { minted = minted; burned = burned; circulating = minted -ℤ burned },
      refl,
      sym (transfer_all-IsSound ps b h).backed,
    )
