-- ===== src/Attendance.antt =====
-- The daily reward: claimDaily, calculateStreakDays, maybeApplyStreakBonus and startOfTodayKst of
-- backend/src/modules/discord-bot/attendance-reward.service.ts, and get and getNumber of
-- backend/src/modules/system-config/system-config.service.ts
pub mod Streak
pub mod Bonus
pub mod Daily
pub mod Early
use text.Mathlib.Text.{◌==◌ as ◌=ˢ◌}
use potg.Base.{
  ℕ, zero, suc, ◌+◌, ◌-◌, ◌*◌, ◌/◌, Bool, true, false, not, ◌&&◌, ◌||◌, String, Option, none, some,
  List, [], ◌∷◌, ◌==◌, leb, if◌then◌else◌,
}
use potg.Base.Int.{ℤ, pos, leb_ℤ}
use potg.Base.Rows.{select, find_one, any_of}
use potg.Base.Tx.{
  Tx, Error, pure, throw, throw_if, or_throw, get, ◌>>=◌, ◌>>◌, reward_zero, not_numeric,
  config_not_found,
}
use potg.Ledger.{Book, User, PointTx, Opts, mint, get_balance, find_user, is_to}

-- A row of the configuration, less its description.
pub record ConfigRow : Type 0 where
  pub key : String
  pub value : String

abbrev pub config_row : String → List ConfigRow → Option ConfigRow
config_row key config = find_one (λ r. r.key =ˢ key) config

-- `get`
unfoldable pub get_value : List ConfigRow → String → Option String → Tx Book String
get_value config key default = elim (config_row key config) [
  | some r ↦ pure r.value
  | none ↦ or_throw default config_not_found
]

-- `number_of` is JavaScript's `Number`, with nothing for a value that is not a number.
module _ (number_of : String → Option ℤ) where
  unfoldable pub get_number : List ConfigRow → String → Option String → Tx Book ℤ
  get_number config key default = do
    raw ← get_value config key default
    or_throw (number_of raw) not_numeric

abbrev pub kst_offset_ms : ℕ
kst_offset_ms = 9 * 60 * 60 * 1000

abbrev pub day_ms : ℕ
day_ms = 24 * 60 * 60 * 1000

-- The number of the day in Seoul, which has no daylight saving time.
abbrev pub kst_day : ℕ → ℕ
kst_day t = (t + kst_offset_ms) / day_ms

abbrev pub start_of_today_kst : ℕ → ℕ
start_of_today_kst now = kst_day now * day_ms - kst_offset_ms

-- A daily reward of the user.
abbrev pub is_attendance : ℕ → PointTx → Bool
is_attendance user t = is_to user t && t.reason =ˢ "ATTENDANCE"

abbrev pub is_since : ℕ → ℕ → PointTx → Bool
is_since user since t = is_attendance user t && leb since t.created_at

-- The day that `to_char(created_at AT TIME ZONE 'Asia/Seoul', …)` gives. `created_at` is a timestamp
-- without time zone, which holds the UTC time: the conversion takes it for a time in Seoul, and
-- `to_char` prints the day in the session's time zone, UTC. So this is the day nine hours before.
abbrev pub sql_day : ℕ → ℕ
sql_day t = (t - kst_offset_ms) / day_ms

-- Whether a day is in `daySet`: the days that the query gives for the rewards since a time.
abbrev pub attended_since : ℕ → ℕ → ℕ → List PointTx → Bool
attended_since user since day txs =
    any_of (λ t. is_since user since t && sql_day t.created_at == day) txs

-- The loop of `calculateStreakDays`: how many of the days back from one are in the set, without a
-- gap, `n` at most. The days after January 1970 have numbers above 11, so no subtraction stops at 0.
unfoldable pub count_back : (ℕ → Bool) → ℕ → ℕ → ℕ
count_back has zero day = 0
count_back has (suc n) day =
    let rest = count_back has n (day - 1) in if has day then suc rest else 0

unfoldable pub calculate_streak_days : ℕ → Book → ℕ
calculate_streak_days user b =
    count_back (λ day. attended_since user (b.now - 11 * day_ms) day b.txs) 11 (kst_day b.now)

abbrev pub bonus_key : ℕ → String
bonus_key streak =
    if streak == 3
    then "STREAK_3_BONUS"
    else if streak == 5
    then "STREAK_5_BONUS"
    else "STREAK_10_BONUS"

abbrev pub default_bonus : ℕ → String
default_bonus streak = if streak == 3 then "100" else if streak == 5 then "300" else "500"

abbrev pub is_milestone : ℕ → Bool
is_milestone streak = streak == 3 || streak == 5 || streak == 10

abbrev pub user_opts : ℕ → Opts
user_opts user = record { ref_type = some "User"; ref_id = some user; idempotency_key = none }

unfoldable pub pay_bonus : ℕ → ℤ → Tx Book ℤ
pay_bonus user bonus =
    if leb_ℤ bonus (pos 0)
    then pure (pos 0)
    else (mint user bonus "STREAK_BONUS" (user_opts user) >>= λ _. pure bonus)

pub record Claim : Type 0 where
  pub awarded : Bool
  pub amount : ℤ
  pub balance_after : ℤ
  pub already_claimed : Bool
  pub streak_days : ℕ
  pub streak_bonus : ℤ

abbrev pub not_awarded : ℤ → Claim
not_awarded balance = record {
  awarded = false;
  amount = pos 0;
  balance_after = balance;
  already_claimed = true;
  streak_days = 0;
  streak_bonus = pos 0;
}

module _ (number_of : String → Option ℤ) (config : List ConfigRow) where
  unfoldable pub maybe_apply_streak_bonus : ℕ → ℕ → Tx Book ℤ
  maybe_apply_streak_bonus user streak =
      if is_milestone streak
      then (get_number number_of config (bonus_key streak) (some (default_bonus streak))
          >>= pay_bonus user)
      else pure (pos 0)

  -- The reward of a user who has had none today.
  unfoldable pub award : ℕ → Tx Book Claim
  award user = do
    amount ← get_number number_of config "DAILY_ATTENDANCE_AMOUNT" (some "50")
    throw_if (leb_ℤ amount (pos 0)) reward_zero
    _ ← mint user amount "ATTENDANCE" (user_opts user)
    b ← get
    bonus ← maybe_apply_streak_bonus user (calculate_streak_days user b)
    c ← get
    pure (record {
      awarded = true;
      amount = amount;
      balance_after = elim (find_user (some user) c.users) [
        | none ↦ pos 0
        | some u ↦ u.points_balance
      ];
      already_claimed = false;
      streak_days = calculate_streak_days user b;
      streak_bonus = bonus;
    })

  -- The transaction of `claimDaily`, for the user that was found or created.
  unfoldable pub claim_daily : ℕ → Tx Book Claim
  claim_daily user = do
    b ← get
    if any_of (is_since user (start_of_today_kst b.now)) b.txs
        then (get_balance user >>= λ balance. pure (not_awarded balance))
        else award user
