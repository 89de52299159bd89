-- ===== src/Attendance/Early.antt =====
-- claimDaily at a time whose day the query of calculateStreakDays puts before the day in Seoul.
use potg.Base.{
  ℕ, zero, suc, ◌<◌, ◌≡◌, refl, Bool, true, false, String, Option, List, [], ◌∷◌, arith, leb, inl,
  inr,
}
use potg.Base.Int.{ℤ}
use potg.Base.Rows.{all_of}
use potg.Base.Tx.{ok}
use potg.Ledger.{Book, PointTx}
use potg.Ledger.Integrity.{IsSound}
use potg.Attendance.{ConfigRow, kst_day, sql_day, Claim, claim_daily}
use potg.Attendance.Streak.{attended, IsRun}
use potg.Attendance.Daily.{claim_daily-Awarded}

-- Rows up to now have no later day.
no_later_day :
    (u now d : ℕ) (txs : List PointTx)
    → all_of (λ t. leb t.created_at now) txs ≡ true
    → sql_day now < d
    → attended u txs d ≡ false
no_later_day u now d [] h k = refl
no_later_day u now d (t ∷ txs) h k = ground (arith, no_later_day u now d txs)

no_run : (has : ℕ → Bool) (n day k : ℕ) → IsRun has n day k → has day ≡ false → k ≡ 0
no_run has n day zero h e = refl
no_run has n day (suc k) h e = absurd (ground (arith, h.each 0))

-- From a sound ledger with no row from the future, a claim that is awarded while the day that the
-- query gives for now is before the day in Seoul has a streak of zero: neither this reward nor an
-- earlier one counts for today.
pub claim_daily_early :
    (number_of : String → Option ℤ) (config : List ConfigRow) (user : ℕ) (b c : Book) (r : Claim)
    → IsSound b
    → all_of (λ t. leb t.created_at b.now) b.txs ≡ true
    → sql_day b.now < kst_day b.now
    → claim_daily number_of config user b ≡ ok (r, c)
    → r.awarded ≡ true
    → r.streak_days ≡ 0
claim_daily_early number_of config user b c r h past early e w =
    elim (claim_daily-Awarded number_of config user b c r h e) [
      | inl (f, _) ↦ absurd (cc (f, w))
      | inr a ↦
          let before = no_later_day user b.now (kst_day b.now) b.txs past early in
          no_run (attended user c.txs) 11 (kst_day b.now) r.streak_days a.run
            (ground (arith, a.days (kst_day b.now)))
    ]
