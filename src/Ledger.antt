-- ===== src/Ledger.antt =====
-- backend/src/modules/ledger/ledger.service.ts and its entities.
pub mod Users
pub mod Transfer
pub mod Effects
pub mod Integrity
pub mod Issue
pub mod History
use potg.Base.{
  ℕ, String, ◌+◌, ◌≡◌, refl, Bool, true, false, not, ◌&&◌, ◌||◌, Option, none, some, List, [], ◌∷◌,
  ltb, leb, ◌==◌, same_id, if◌then◌else◌,
}
use potg.Base.Int.{ℤ, pos, ◌+ℤ◌, ◌-ℤ◌, ltb_ℤ, leb_ℤ}
use potg.Base.Rows.{find_one, update_where, any_of, select}
use potg.Base.Tx.{
  Tx, Error, pure, throw, throw_if, or_throw, get, put, ◌>>=◌, ◌>>◌, amount_not_positive,
  no_user_side, same_user, from_not_found, insufficient_balance, to_not_found, user_not_found,
  duplicate_key, value_too_long,
}
use potg.Base.Texts.{fits, fits_option}

-- An account is a user's id; the nil UUID stands for the system.
abbrev pub sink_account_id : ℕ
sink_account_id = 0

-- The columns of `users` that the modelled services use. `points_balance` is a signed bigint that
-- is NOT NULL, so `?? '0'` never applies.
pub record User : Type 0 where
  pub id : ℕ
  pub points_balance : ℤ

-- The key text is `AUCTION_PAYOUT:{auctionId}:{userId}`; an id has no colon, so the text stands for
-- the two ids.
pub record IdempotencyKey : Type 0 where
  pub auction_id : ℕ
  pub user_id : ℕ

abbrev pub same_key : IdempotencyKey → IdempotencyKey → Bool
same_key k l = k.auction_id == l.auction_id && k.user_id == l.user_id

-- A row of `point_tx`, less its own id and its memo, which no code reads.
pub record PointTx : Type 0 where
  pub from_account : Option ℕ
  pub to_account : Option ℕ
  pub amount : ℤ
  pub reason : String
  pub ref_type : Option String
  pub ref_id : Option ℕ
  pub idempotency_key : Option IdempotencyKey
  pub created_at : ℕ

-- The tables that the ledger reads and writes, and the clock (milliseconds).
pub record Book : Type 0 where
  pub users : List User
  pub txs : List PointTx
  pub now : ℕ

pub record TransferParams : Type 0 where
  pub from_account : Option ℕ
  pub to_account : Option ℕ
  pub amount : ℤ
  pub reason : String
  pub ref_type : Option String
  pub ref_id : Option ℕ
  pub idempotency_key : Option IdempotencyKey

-- `opts` of `mint` and `burn`.
pub record Opts : Type 0 where
  pub ref_type : Option String
  pub ref_id : Option ℕ
  pub idempotency_key : Option IdempotencyKey

abbrev pub is_real_user_account : Option ℕ → Bool
is_real_user_account none = false
is_real_user_account (some a) = not (a == sink_account_id)

abbrev pub normalize_account : Option ℕ → Option ℕ
normalize_account none = some sink_account_id
normalize_account (some a) = some a

-- `userById.get(account)`, and `findOne({ where: { id } })`.
abbrev pub find_user : Option ℕ → List User → Option User
find_user a = find_one (λ u. same_id (some u.id) a)

-- `update({ id }, { pointsBalance })`
abbrev pub set_balance : ℕ → ℤ → List User → List User
set_balance i b = update_where (λ u. u.id == i) (λ u. record u { points_balance = b })

-- The unique index on `idempotency_key`, which leaves out the rows where it is null.
abbrev pub has_key : Option IdempotencyKey → List PointTx → Bool
has_key none txs = false
has_key (some k) txs =
    any_of (λ t. elim t.idempotency_key [ none ↦ false | some l ↦ same_key l k ]) txs

-- The limits of the columns `reason` and `ref_type`.
abbrev pub fits_columns : PointTx → Bool
fits_columns t = fits 64 t.reason && fits_option 32 t.ref_type

-- `save(tx)`: the insert fails where a text is too long for its column, or where the unique index
-- does.
unfoldable pub save_tx : PointTx → Tx Book PointTx
save_tx t b =
    if not (fits_columns t)
    then throw value_too_long b
    else if has_key t.idempotency_key b.txs
    then throw duplicate_key b
    else pure t (record b { txs = t ∷ b.txs })

-- The two halves of `run`; `locked` is the table as the lock read it.
unfoldable pub debit : List User → TransferParams → Tx Book (Unit {0})
debit locked p = do
  u ← or_throw (find_user p.from_account locked) from_not_found
  throw_if (ltb_ℤ u.points_balance p.amount) insufficient_balance
  b ← get
  put (record b { users = set_balance u.id (u.points_balance -ℤ p.amount) b.users })

unfoldable pub credit : List User → TransferParams → Tx Book (Unit {0})
credit locked p = do
  u ← or_throw (find_user p.to_account locked) to_not_found
  b ← get
  put (record b { users = set_balance u.id (u.points_balance +ℤ p.amount) b.users })

unfoldable pub run : TransferParams → Tx Book PointTx
unfolding debit credit save_tx
run p = do
  b ← get
  if is_real_user_account p.from_account then debit b.users p else pure tt
  if is_real_user_account p.to_account then credit b.users p else pure tt
  c ← get
  save_tx (record {
    from_account = normalize_account p.from_account;
    to_account = normalize_account p.to_account;
    amount = p.amount;
    reason = p.reason;
    ref_type = p.ref_type;
    ref_id = p.ref_id;
    idempotency_key = p.idempotency_key;
    created_at = c.now;
  })

abbrev pub no_user : TransferParams → Bool
no_user p = not (is_real_user_account p.from_account) && not (is_real_user_account p.to_account)

abbrev pub to_self : TransferParams → Bool
to_self p =
    is_real_user_account p.from_account
    && is_real_user_account p.to_account
    && same_id p.from_account p.to_account

unfoldable pub transfer : TransferParams → Tx Book PointTx
transfer p = do
  throw_if (leb_ℤ p.amount (pos 0)) amount_not_positive
  throw_if (no_user p) no_user_side
  throw_if (to_self p) same_user
  run p

abbrev pub transfer_params : Option ℕ → Option ℕ → ℤ → String → Opts → TransferParams
transfer_params f t x reason o = record {
  from_account = f;
  to_account = t;
  amount = x;
  reason = reason;
  ref_type = o.ref_type;
  ref_id = o.ref_id;
  idempotency_key = o.idempotency_key;
}

unfoldable pub mint : ℕ → ℤ → String → Opts → Tx Book PointTx
mint to x reason o = transfer (transfer_params (some sink_account_id) (some to) x reason o)

unfoldable pub burn : ℕ → ℤ → String → Opts → Tx Book PointTx
burn from x reason o = transfer (transfer_params (some from) (some sink_account_id) x reason o)

unfoldable pub get_balance : ℕ → Tx Book ℤ
get_balance i = do
  b ← get
  u ← or_throw (find_user (some i) b.users) user_not_found
  pure u.points_balance

-- `COALESCE(SUM(tx.amount), 0)` over the rows that a condition picks.
unfoldable pub sum_amount : (PointTx → Bool) → List PointTx → ℤ
sum_amount p [] = pos 0
sum_amount p (t ∷ ts) = let rest = sum_amount p ts in if p t then t.amount +ℤ rest else rest

-- `tx.to_account = :id` and `tx.from_account = :id`: a null column matches nothing.
abbrev pub is_to : ℕ → PointTx → Bool
is_to i t = same_id t.to_account (some i)

abbrev pub is_from : ℕ → PointTx → Bool
is_from i t = same_id t.from_account (some i)

unfoldable pub compute_balance_from_ledger : ℕ → Tx Book ℤ
compute_balance_from_ledger i = do
  b ← get
  pure (sum_amount (is_to i) b.txs -ℤ sum_amount (is_from i) b.txs)

pub record Summary : Type 0 where
  pub minted : ℤ
  pub burned : ℤ
  pub circulating : ℤ

unfoldable pub admin_summary : Tx Book Summary
admin_summary = do
  b ← get
  let minted = sum_amount (is_from sink_account_id) b.txs
  let burned = sum_amount (is_to sink_account_id) b.txs
  pure (record { minted = minted; burned = burned; circulating = minted -ℤ burned })
