-- ===== src/Tests/Money.antt =====
-- Runs of the ledger.
use potg.Base.{◌≡◌, refl, none, some, List, [], ◌∷◌, arith, inl, ℕ}
use potg.Base.Int.{ℤ, pos, ◌+ℤ◌, ◌-ℤ◌}
use potg.Base.Tx.{ok, err, Error, run_tx}
use potg.Ledger.{
  PointTx, Book, TransferParams, transfer, run, debit, credit, save_tx, get_balance, sum_amount,
  compute_balance_from_ledger, admin_summary, Summary,
}
use potg.Ledger.Transfer.{Accepts, entry, moved, transfer_succeeds, transfer_result}
use potg.Ledger.Users.{total_balance}
use potg.Ledger.Integrity.{IsSound, IsConsistent}
use potg.Ledger.History.{
  transfer_all, UsesKeysOnce, transfer_all-IsConsistent, transfer_all-IsSound,
  transfer_all-UsesKeysOnce, compute_balance-get_balance, admin_summary-total_balance,
}

abbrev issued : ℕ → ℕ → PointTx
issued i x = record {
  from_account = some 0;
  to_account = some i;
  amount = pos x;
  reason = "DAILY_ATTENDANCE";
  ref_type = none;
  ref_id = none;
  idempotency_key = none;
  created_at = 5;
}

-- Two users, whose points were issued.
abbrev pub book : Book
book = record {
  users =
      record { id = 1; points_balance = pos 100 } ∷ record { id = 2; points_balance = pos 50 } ∷ [];
  txs = issued 1 100 ∷ issued 2 50 ∷ [];
  now = 9;
}

abbrev send : ℕ → ℕ → ℤ → TransferParams
send i j x = record {
  from_account = some i;
  to_account = some j;
  amount = x;
  reason = "ADMIN_ADJUST";
  ref_type = none;
  ref_id = none;
  idempotency_key = some (record { auction_id = 7; user_id = j });
}

-- The second transfer uses the key of the first again, and the third has too little.
abbrev batch : List TransferParams
batch = send 1 2 (pos 30) ∷ send 1 2 (pos 30) ∷ send 2 1 (pos 500) ∷ []

pub book-IsSound : IsSound book
unfolding sum_amount ◌+ℤ◌ ◌-ℤ◌
book-IsSound = record { unique = ground arith; nonneg = ground arith; backed = refl }

book-IsConsistent : IsConsistent book
unfolding sum_amount ◌+ℤ◌ ◌-ℤ◌
book-IsConsistent i u n e = ground arith

book-UsesKeysOnce : UsesKeysOnce book
book-UsesKeysOnce k = ground arith

send-Accepts : Accepts (send 1 2 (pos 30)) book
send-Accepts = record {
  positive = omega arith;
  some_user = inl refl;
  distinct = λ f g. ground arith;
  payer = λ f. (record { id = 1; points_balance = pos 100 }, refl, omega arith);
  payee = λ f. (record { id = 2; points_balance = pos 50 }, refl);
  fresh = refl;
  reason_fits = refl;
  type_fits = refl;
}

send_too_much : transfer (send 2 1 (pos 500)) book ≡ err Error.insufficient_balance
unfolding transfer run debit
send_too_much = refl

transfer_succeeds_example :
    transfer (send 1 2 (pos 30)) book
    ≡ ok (entry (send 1 2 (pos 30)) book, moved (send 1 2 (pos 30)) book)
transfer_succeeds_example = transfer_succeeds (send 1 2 (pos 30)) book send-Accepts

transfer_result_example :
    (entry (send 1 2 (pos 30)) book ≡ entry (send 1 2 (pos 30)) book)
    × (moved (send 1 2 (pos 30)) book ≡ moved (send 1 2 (pos 30)) book)
    × Accepts (send 1 2 (pos 30)) book
transfer_result_example =
    transfer_result (send 1 2 (pos 30)) book (entry (send 1 2 (pos 30)) book)
      (moved (send 1 2 (pos 30)) book) (transfer_succeeds (send 1 2 (pos 30)) book send-Accepts)

transfer_all-IsConsistent_example : IsConsistent (transfer_all batch book)
transfer_all-IsConsistent_example = transfer_all-IsConsistent batch book book-IsConsistent

transfer_all-IsSound_example : IsSound (transfer_all batch book)
transfer_all-IsSound_example = transfer_all-IsSound batch book book-IsSound

transfer_all-UsesKeysOnce_example : UsesKeysOnce (transfer_all batch book)
transfer_all-UsesKeysOnce_example = transfer_all-UsesKeysOnce batch book book-UsesKeysOnce

balance_after : get_balance 1 (transfer_all batch book) ≡ ok (pos 70, transfer_all batch book)
unfolding get_balance transfer run debit credit save_tx run_tx ◌+ℤ◌ ◌-ℤ◌
balance_after = refl

compute_balance-get_balance_example :
    compute_balance_from_ledger 1 (transfer_all batch book) ≡ ok (pos 70, transfer_all batch book)
compute_balance-get_balance_example =
    compute_balance-get_balance batch book 1 (pos 70) book-IsConsistent (omega arith) balance_after

admin_summary-total_balance_example :
    (r : Summary) × (admin_summary (transfer_all batch book) ≡ ok (r, transfer_all batch book))
    × (r.circulating ≡ total_balance (transfer_all batch book).users)
admin_summary-total_balance_example = admin_summary-total_balance batch book book-IsSound
