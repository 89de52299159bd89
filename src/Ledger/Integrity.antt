-- ===== src/Ledger/Integrity.antt =====
-- The accounting integrity that the ledger's entity documents: the cached balances agree with the
-- journal, no balance is negative, and what circulates is what was issued and not destroyed.
use potg.Base.{
  ℕ, ◌≡◌, refl, sym, ◌∙◌, ◌≢◌, Option, none, some, List, ◌∷◌, arith, if◌then◌else◌, same_id, inl,
  inr, Option-cases, Bool-cases, subst, ap, not,
}
use potg.Base.Int.{ℤ, pos, ◌+ℤ◌, ◌-ℤ◌, int_laws}
use potg.Base.Tx.{ok}
use potg.Ledger.{
  User, find_user, Book, TransferParams, PointTx, transfer, is_real_user_account, sum_amount, is_to,
  is_from, normalize_account,
}
use potg.Ledger.Users.{HasUniqueIds, total_balance, AllNonneg}
use potg.Ledger.Transfer.{debited, entry, moved, Accepts, transfer_result}
use potg.Ledger.Effects.{
  find_user-debited, find_user-credited, payee-debited, total_balance-moved, debited-HasUniqueIds,
  credited-HasUniqueIds, debited-AllNonneg, credited-AllNonneg,
}

-- What the journal says of an account.
abbrev pub journal : ℕ → List PointTx → ℤ
journal i ts = sum_amount (is_to i) ts -ℤ sum_amount (is_from i) ts

abbrev pub IsConsistent : Book → Type 0
IsConsistent b =
    (i : ℕ) (u : User)
    → i ≢ 0
    → find_user (some i) b.users ≡ some u
    → u.points_balance ≡ journal i b.txs

-- The change that a transfer makes to an account.
abbrev change : TransferParams → ℕ → ℤ
change p i =
    (if same_id p.to_account (some i) then p.amount else pos 0)
    -ℤ (if same_id p.from_account (some i) then p.amount else pos 0)

journal-entry :
    (p : TransferParams) (b : Book) (i : ℕ)
    → i ≢ 0
    → journal i (entry p b ∷ b.txs) ≡ journal i b.txs +ℤ change p i
unfolding sum_amount
journal-entry p b i n = elim (Option-cases p.to_account) [
  | inl e ↦ elim (Option-cases p.from_account) [
    | inl f ↦ grind int_laws
    | inr (k, f) ↦ grind int_laws
  ]
  | inr (j, e) ↦ elim (Option-cases p.from_account) [
    | inl f ↦ grind int_laws
    | inr (k, f) ↦ grind int_laws
  ]
]

-- After a transfer each account's cached balance has changed by what the journal's new row says.
pub find_user-moved :
    (p : TransferParams) (b : Book) (i : ℕ) (v : User)
    → i ≢ 0
    → Accepts p b
    → find_user (some i) (moved p b).users ≡ some v
    → (u : User) × (find_user (some i) b.users ≡ some u)
      × (v.points_balance ≡ u.points_balance +ℤ change p i)
find_user-moved p b i v n h e =
    let (w, f, c) =
      find_user-credited p b.users (debited p b.users) i v n (payee-debited p b h) e in
    let (u, g, d) = find_user-debited p b.users i w n h.payer f in (u, g, grind int_laws)

-- Every transfer that goes through keeps the cached balances equal to the journal's.
pub transfer-IsConsistent :
    (p : TransferParams) (b : Book) (t : PointTx) (c : Book)
    → IsConsistent b
    → transfer p b ≡ ok (t, c)
    → IsConsistent c
transfer-IsConsistent p b t c h e i v n f =
    let (_, q, a) = transfer_result p b t c e in
    let (u, g, d) =
      find_user-moved p b i v n a (subst (λ k. find_user (some i) k.users ≡ some v) q f) in
    d
    ∙ (ap (λ x. x +ℤ change p i) (h i u n g)
        ∙ (sym (journal-entry p b i n) ∙ ap (λ k. journal i k.txs) (sym q)))

-- What a service may rely on between two transactions.
pub record IsSound (b : Book) : Type 0 where
  pub unique : HasUniqueIds b.users
  pub nonneg : AllNonneg b.users
  pub backed : total_balance b.users ≡ sum_amount (is_from 0) b.txs -ℤ sum_amount (is_to 0) b.txs

-- A side that is no user is stored as the system account.
sink_side : (a : Option ℕ) → same_id (normalize_account a) (some 0) ≡ not (is_real_user_account a)
sink_side none = refl
sink_side (some k) = ground arith

backed-moved :
    (p : TransferParams) (b : Book)
    → IsSound b
    → Accepts p b
    → total_balance (moved p b).users
      ≡ sum_amount (is_from 0) (moved p b).txs -ℤ sum_amount (is_to 0) (moved p b).txs
unfolding sum_amount
backed-moved p b h a =
    let total = total_balance-moved p b h.unique a in
    let f = sink_side p.from_account in
    let t = sink_side p.to_account in
    elim (Bool-cases (is_real_user_account p.from_account)) [
      | inl x ↦ elim (Bool-cases (is_real_user_account p.to_account)) [
        | inl y ↦ grind int_laws
        | inr y ↦ grind int_laws
      ]
      | inr x ↦ elim (Bool-cases (is_real_user_account p.to_account)) [
        | inl y ↦ grind int_laws
        | inr y ↦ absurd (ground arith)
      ]
    ]

-- A transfer that goes through keeps the ids unique, every balance at zero or more, and the sum of
-- all balances equal to what was issued less what was destroyed.
pub transfer-IsSound :
    (p : TransferParams) (b : Book) (t : PointTx) (c : Book)
    → IsSound b
    → transfer p b ≡ ok (t, c)
    → IsSound c
transfer-IsSound p b t c h e =
    let (_, q, a) = transfer_result p b t c e in
    subst IsSound (sym q) (record {
      unique =
          credited-HasUniqueIds p b.users (debited p b.users)
            (debited-HasUniqueIds p b.users h.unique);
      nonneg =
          credited-AllNonneg p b.users (debited p b.users) a.positive h.nonneg
            (debited-AllNonneg p b a h.nonneg);
      backed = backed-moved p b h a;
    })
