-- ===== src/Ledger/Issue.antt =====
-- `mint` and `burn` as their callers see them.
use potg.Base.{
  ℕ, String, ◌≡◌, ◌∙◌, ◌≢◌, true, false, some, List, arith, ◌==◌, inl, inr, Bool-cases, ap,
}
use potg.Base.Int.{ℤ, pos, ◌+ℤ◌, ◌-ℤ◌, ◌≤ℤ◌, int_laws}
use potg.Base.Texts.{fits, fits_option}
use potg.Base.Tx.{ok}
use potg.Ledger.{
  User, find_user, set_balance, Book, PointTx, transfer_params, Opts, mint, burn, has_key,
}
use potg.Ledger.Users.{total_balance, find_user-set_balance}
use potg.Ledger.Transfer.{entry, moved, Accepts, transfer_result, transfer_succeeds}
use potg.Ledger.Effects.{total_balance-moved}
use potg.Ledger.Integrity.{IsSound, transfer-IsSound}

abbrev pub HasUser : ℕ → Book → Type 0
HasUser i b = (u : User) × (find_user (some i) b.users ≡ some u)

-- The account `i` went from `b` to `c` by `x`, up or down, and nothing else did.
pub record Changed (i : ℕ) (b c : Book) (total_before total_after : ℤ) : Type 0 where
  pub sound : IsSound c
  pub total : total_balance c.users +ℤ total_before ≡ total_balance b.users +ℤ total_after
  pub keeps : (j : ℕ) → HasUser j b → HasUser j c
  pub others : (j : ℕ) → j ≢ i → find_user (some j) c.users ≡ find_user (some j) b.users

keeps_user :
    (i j : ℕ) (x : ℤ) (us : List User)
    → (u : User) × (find_user (some j) us ≡ some u)
    → (u : User) × (find_user (some j) (set_balance i x us) ≡ some u)
keeps_user i j x us (u, e) = elim (Bool-cases (j == i)) [
  | inl q ↦ (record u { points_balance = x }, ground (arith, find_user-set_balance j i x us))
  | inr q ↦ (u, ground (arith, find_user-set_balance j i x us))
]

other_user :
    (i j : ℕ) (x : ℤ) (us : List User)
    → j ≢ i
    → find_user (some j) (set_balance i x us) ≡ find_user (some j) us
other_user i j x us n = ground (arith, find_user-set_balance j i x us)

minted_users :
    (i : ℕ) (x : ℤ) (r : String) (o : Opts) (b : Book) (u : User)
    → i ≢ 0
    → find_user (some i) b.users ≡ some u
    → (moved (transfer_params (some 0) (some i) x r o) b).users
      ≡ set_balance i (u.points_balance +ℤ x) b.users
minted_users i x r o b u n e = ground arith

burned_users :
    (i : ℕ) (x : ℤ) (r : String) (o : Opts) (b : Book) (u : User)
    → i ≢ 0
    → find_user (some i) b.users ≡ some u
    → (moved (transfer_params (some i) (some 0) x r o) b).users
      ≡ set_balance i (u.points_balance -ℤ x) b.users
burned_users i x r o b u n e = ground arith

not_sink :
    (i : ℕ) (x : ℤ) (r : String) (o : Opts) (b : Book)
    → Accepts (transfer_params (some 0) (some i) x r o) b
    → i ≢ 0
not_sink i x r o b a = λ z. ground (arith, a.some_user)

-- An issue of points that goes through raises the one balance and the sum by the amount.
pub mint_effect :
    (i : ℕ) (x : ℤ) (r : String) (o : Opts) (b : Book) (t : PointTx) (c : Book)
    → IsSound b
    → mint i x r o b ≡ ok (t, c)
    → Changed i b c (pos 0) x
unfolding mint
mint_effect i x r o b t c h e =
    let p = transfer_params (some 0) (some i) x r o in
    let (_, q, a) = transfer_result p b t c e in
    let n = not_sink i x r o b a in
    let (u, f) = a.payee (ground arith) in
    let sum = total_balance-moved p b h.unique a in
    let real : (i == 0) ≡ false = ground arith in
    let all : total_balance c.users ≡ total_balance (moved p b).users =
      ap (λ k. total_balance k.users) q in
    let us : c.users ≡ set_balance i (u.points_balance +ℤ x) b.users =
      ap (λ k. k.users) q ∙ minted_users i x r o b u n f in
    record {
      sound = transfer-IsSound p b t c h e;
      total = grind int_laws;
      keeps = λ j w. rw us (keeps_user i j (u.points_balance +ℤ x) b.users w);
      others = λ j m. rw us (other_user i j (u.points_balance +ℤ x) b.users m);
    }

burn_not_sink :
    (i : ℕ) (x : ℤ) (r : String) (o : Opts) (b : Book)
    → Accepts (transfer_params (some i) (some 0) x r o) b
    → i ≢ 0
burn_not_sink i x r o b a = λ z. ground (arith, a.some_user)

-- A destruction of points that goes through lowers the one balance and the sum by the amount.
pub burn_effect :
    (i : ℕ) (x : ℤ) (r : String) (o : Opts) (b : Book) (t : PointTx) (c : Book)
    → IsSound b
    → burn i x r o b ≡ ok (t, c)
    → Changed i b c x (pos 0)
unfolding burn
burn_effect i x r o b t c h e =
    let p = transfer_params (some i) (some 0) x r o in
    let (_, q, a) = transfer_result p b t c e in
    let n = burn_not_sink i x r o b a in
    let (u, f, _) = a.payer (ground arith) in
    let sum = total_balance-moved p b h.unique a in
    let real : (i == 0) ≡ false = ground arith in
    let all : total_balance c.users ≡ total_balance (moved p b).users =
      ap (λ k. total_balance k.users) q in
    let us : c.users ≡ set_balance i (u.points_balance -ℤ x) b.users =
      ap (λ k. k.users) q ∙ burned_users i x r o b u n f in
    record {
      sound = transfer-IsSound p b t c h e;
      total = grind int_laws;
      keeps = λ j w. rw us (keeps_user i j (u.points_balance -ℤ x) b.users w);
      others = λ j m. rw us (other_user i j (u.points_balance -ℤ x) b.users m);
    }

-- Issuing a positive amount to a user succeeds, unless the idempotency key was used or a text is
-- too long for its column.
pub mint_succeeds :
    (i : ℕ) (x : ℤ) (r : String) (o : Opts) (b : Book)
    → i ≢ 0
    → pos 1 ≤ℤ x
    → HasUser i b
    → has_key o.idempotency_key b.txs ≡ false
    → fits 64 r ≡ true
    → fits_option 32 o.ref_type ≡ true
    → (t : PointTx) × (c : Book) × (mint i x r o b ≡ ok (t, c))
unfolding mint
mint_succeeds i x r o b n p (u, e) k short short_type =
    let q = transfer_params (some 0) (some i) x r o in
    (
      entry q b,
      moved q b,
      transfer_succeeds q b (record {
        positive = p;
        some_user = inr (ground arith);
        distinct = λ f. cc;
        payer = λ f. absurd (cc f);
        payee = λ _. (u, e);
        fresh = k;
        reason_fits = short;
        type_fits = short_type;
      }),
    )

-- Destroying a positive amount that the user has succeeds, unless the idempotency key was used or a text is
-- too long for its column.
pub burn_succeeds :
    (i : ℕ) (x : ℤ) (r : String) (o : Opts) (b : Book) (u : User)
    → i ≢ 0
    → pos 1 ≤ℤ x
    → find_user (some i) b.users ≡ some u
    → x ≤ℤ u.points_balance
    → has_key o.idempotency_key b.txs ≡ false
    → fits 64 r ≡ true
    → fits_option 32 o.ref_type ≡ true
    → (t : PointTx) × (c : Book) × (burn i x r o b ≡ ok (t, c))
unfolding burn
burn_succeeds i x r o b u n p e le k short short_type =
    let q = transfer_params (some i) (some 0) x r o in
    (
      entry q b,
      moved q b,
      transfer_succeeds q b (record {
        positive = p;
        some_user = inl (ground arith);
        distinct = λ f g. ground arith;
        payer = λ _. (u, e, le);
        payee = λ f. absurd (cc f);
        fresh = k;
        reason_fits = short;
        type_fits = short_type;
      }),
    )
