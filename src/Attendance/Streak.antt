-- ===== src/Attendance/Streak.antt =====
-- calculateStreakDays: what its loop counts, and the cut of its query.
use potg.Base.{
  ℕ, zero, suc, ◌+◌, ◌-◌, ◌*◌, ◌≤◌, ◌<◌, ◌≡◌, refl, sym, subst, Bool, true, false, ◌&&◌, List, [],
  ◌∷◌, arith, ◌==◌, leb, inl, inr, Bool-cases,
}
use potg.Base.Rows.{any_of}
use potg.Ledger.{Book, PointTx}
use potg.Attendance.{
  kst_day, sql_day, day_ms, is_attendance, attended_since, count_back, calculate_streak_days,
}

-- Whether the query's day of one of the user's daily rewards is a given one.
abbrev pub attended : ℕ → List PointTx → ℕ → Bool
attended user txs day = any_of (λ t. is_attendance user t && sql_day t.created_at == day) txs

-- `k` days back from `day` without a gap: the longest such run, but for the limit `n`.
pub record IsRun (has : ℕ → Bool) (n day k : ℕ) : Type 0 where
  pub limit : k ≤ n
  pub each : (j : ℕ) → j < k → has (day - j) ≡ true
  pub gap : k < n → has (day - k) ≡ false

count_back_each : (has : ℕ → Bool) (n day j : ℕ) → j < count_back has n day → has (day - j) ≡ true
unfolding count_back
count_back_each has zero day j h = absurd (ground arith)
count_back_each has (suc n) day zero h = ground arith
count_back_each has (suc n) day (suc j) h = ground (arith, count_back_each has n (day - 1) j)

count_back_gap :
    (has : ℕ → Bool) (n day : ℕ)
    → count_back has n day < n
    → has (day - count_back has n day) ≡ false
unfolding count_back
count_back_gap has zero day h = absurd (ground arith)
count_back_gap has (suc n) day h = elim (Bool-cases (has day)) [
  | inl m ↦ ground (arith, count_back_gap has n (day - 1))
  | inr m ↦ ground arith
]

count_back_limit : (has : ℕ → Bool) (n day : ℕ) → count_back has n day ≤ n
unfolding count_back
count_back_limit has zero day = omega arith
count_back_limit has (suc n) day = ground (arith, count_back_limit has n (day - 1))

count_back_same :
    (has was : ℕ → Bool) (n day : ℕ)
    → ((d : ℕ) → day < d + n → d ≤ day → has d ≡ was d)
    → count_back has n day ≡ count_back was n day
unfolding count_back
count_back_same has was zero day h = refl
count_back_same has was (suc n) day h =
    let first : has day ≡ was day = h day (omega arith) (omega arith) in
    let rest = count_back_same has was n (day - 1) (λ d k l. h d (omega arith) (omega arith)) in
    ground arith

recent : (t now d : ℕ) → sql_day t ≡ d → kst_day now < d + 11 → leb (now - 11 * day_ms) t ≡ true
recent t now d e h = ground arith

all_recent :
    (user now d : ℕ) (txs : List PointTx)
    → kst_day now < d + 11
    → attended_since user (now - 11 * day_ms) d txs ≡ attended user txs d
all_recent user now d [] h = refl
all_recent user now d (t ∷ txs) h = elim (Bool-cases (sql_day t.created_at == d)) [
  | inl m ↦ ground (arith, all_recent user now d txs h, recent t.created_at now d)
  | inr m ↦ ground (arith, all_recent user now d txs h)
]

count_back-IsRun : (has : ℕ → Bool) (n day : ℕ) → IsRun has n day (count_back has n day)
count_back-IsRun has n day = record {
  limit = count_back_limit has n day;
  each = count_back_each has n day;
  gap = count_back_gap has n day;
}

-- The streak is the longest run, back from today in Seoul, of days that the query gives for a
-- daily reward, but for a limit of 11: the cut of the query at eleven days before now loses none
-- of them.
pub calculate_streak_days-IsRun :
    (user : ℕ) (b : Book)
    → IsRun (attended user b.txs) 11 (kst_day b.now) (calculate_streak_days user b)
unfolding calculate_streak_days
calculate_streak_days-IsRun user b =
    subst (IsRun (attended user b.txs) 11 (kst_day b.now))
      (count_back_same (attended user b.txs)
        (λ d. attended_since user (b.now - 11 * day_ms) d b.txs) 11 (kst_day b.now)
        (λ d k l. sym (all_recent user b.now d b.txs k)))
      (count_back-IsRun (attended user b.txs) 11 (kst_day b.now))
