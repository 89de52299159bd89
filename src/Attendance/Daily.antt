-- ===== src/Attendance/Daily.antt =====
-- claimDaily: what it pays, and a second claim.
use mathlib.Core.Path.{subst₂}
use potg.Base.{
  ℕ, ◌-◌, ◌≡◌, refl, ◌∙◌, ap, subst, Bool, true, false, String, Option, none, some, List, ◌∷◌,
  arith, inl, inr, ◌⊎◌, Bool-cases, Option-cases, ◌==◌, ◌||◌,
}
use potg.Base.Int.{ℤ, pos, ◌+ℤ◌, ◌≤ℤ◌, leb_ℤ, int_laws}
use potg.Base.Rows.{any_of}
use potg.Base.Tx.{Tx, ok, Error, pure, throw_if, get, ◌>>=◌, ◌>>◌, >>=-inv, >>-inv, >>=-ok}
use potg.Ledger.{Book, PointTx, mint, transfer_params, get_balance, find_user}
use potg.Ledger.Users.{total_balance}
use potg.Ledger.Integrity.{IsSound}
use potg.Ledger.Transfer.{transfer_result, entry}
use potg.Ledger.Issue.{mint_effect, HasUser}
use potg.Attendance.Streak.{attended, IsRun, calculate_streak_days-IsRun}
use potg.Attendance.{
  ConfigRow, get_number, kst_day, sql_day, start_of_today_kst, is_since, calculate_streak_days,
  user_opts, Claim, maybe_apply_streak_bonus, not_awarded, award, claim_daily,
}
use potg.Attendance.Bonus.{Bonus, get_number_same, minted, maybe_apply_streak_bonus_lem}

-- A daily reward that was paid, with its bonus.
pub record Awarded (user : ℕ) (b c : Book) (r : Claim) : Type 0 where
  pub flags : (r.awarded ≡ true) × (r.already_claimed ≡ false)
  pub sound : IsSound c
  pub total : total_balance c.users ≡ total_balance b.users +ℤ (r.amount +ℤ r.streak_bonus)
  pub positive : pos 1 ≤ℤ r.amount
  pub run : IsRun (attended user c.txs) 11 (kst_day b.now) r.streak_days
  pub days : (d : ℕ) → attended user c.txs d ≡ (sql_day b.now == d || attended user b.txs d)
  pub today :
      (n : ℕ)
      → kst_day n ≡ kst_day b.now
      → any_of (is_since user (start_of_today_kst n)) c.txs ≡ true
  pub still : HasUser user c

today_counted :
    (u n : ℕ) (x : ℤ) (b : Book)
    → kst_day n ≡ kst_day b.now
    → is_since u
        (start_of_today_kst n)
        (entry (transfer_params (some 0) (some u) x "ATTENDANCE" (user_opts u)) b)
      ≡ true
today_counted u n x b e = ground arith

with_today :
    (u d : ℕ) (x : ℤ) (b : Book)
    → attended u
        (entry (transfer_params (some 0) (some u) x "ATTENDANCE" (user_opts u)) b ∷ b.txs)
        d
      ≡ (sql_day b.now == d || attended u b.txs d)
with_today u d x b = ground arith

run_same :
    (has was : ℕ → Bool) (n day k : ℕ)
    → ((d : ℕ) → was d ≡ has d)
    → IsRun has n day k
    → IsRun was n day k
run_same has was n day k e h = record {
  limit = h.limit;
  each = λ j l. e (day - j) ∙ h.each j l;
  gap = λ l. e (day - k) ∙ h.gap l;
}

two_payments : (z y x a b : ℤ) → z ≡ y +ℤ b → y +ℤ pos 0 ≡ x +ℤ a → z ≡ x +ℤ (a +ℤ b)
two_payments z y x a b e f = grind int_laws

least_amount : (x : ℤ) → leb_ℤ x (pos 0) ≡ false → pos 1 ≤ℤ x
least_amount x h = ground arith

head_counts :
    (u n : ℕ) (x : ℤ) (b : Book)
    → kst_day n ≡ kst_day b.now
    → any_of
        (is_since u (start_of_today_kst n))
        (entry (transfer_params (some 0) (some u) x "ATTENDANCE" (user_opts u)) b ∷ b.txs)
      ≡ true
head_counts u n x b e = rw (today_counted u n x b e) refl

mint_user :
    (u : ℕ) (x : ℤ) (b c : Book) (t : PointTx)
    → mint u x "ATTENDANCE" (user_opts u) b ≡ ok (t, c)
    → HasUser u b
unfolding mint
mint_user u x b c t e =
    let (_, _, a) =
      transfer_result (transfer_params (some 0) (some u) x "ATTENDANCE" (user_opts u)) b t c e in
    elim a.some_user [ inl k ↦ absurd (ground arith) | inr k ↦ a.payee k ]

abbrev paid_claim : ℕ → ℤ → Book → ℤ → Book → Claim
paid_claim user amount v bonus w = record {
  awarded = true;
  amount = amount;
  balance_after = elim (find_user (some user) w.users) [ none ↦ pos 0 | some u ↦ u.points_balance ];
  already_claimed = false;
  streak_days = calculate_streak_days user v;
  streak_bonus = bonus;
}

paid_claim-Awarded :
    (user : ℕ) (amount bonus : ℤ) (b v w : Book) (t : PointTx)
    → IsSound b
    → leb_ℤ amount (pos 0) ≡ false
    → mint user amount "ATTENDANCE" (user_opts user) b ≡ ok (t, v)
    → Bonus user v w bonus
    → Awarded user b w (paid_claim user amount v bonus w)
paid_claim-Awarded user amount bonus b v w t h positive e bon =
    let m = mint_effect user amount "ATTENDANCE" (user_opts user) b t v h e in
    let paid = minted user amount "ATTENDANCE" b v t e in
    let rows = ap (λ z. z.txs) paid in
    let run : IsRun (attended user v.txs) 11 (kst_day b.now) (calculate_streak_days user v) =
      subst (λ n. IsRun (attended user v.txs) 11 (kst_day n) (calculate_streak_days user v))
        (ap (λ z. z.now) paid) (calculate_streak_days-IsRun user v) in
    record {
      flags = (refl, refl);
      sound = bon.sound;
      total =
          two_payments (total_balance w.users) (total_balance v.users) (total_balance b.users)
            amount bonus bon.total m.total;
      positive = least_amount amount positive;
      run =
          run_same (attended user v.txs) (attended user w.txs) 11 (kst_day b.now)
            (calculate_streak_days user v) bon.same_days run;
      days = λ d. bon.same_days d ∙ (ap (λ z. attended user z d) rows ∙ with_today user d amount b);
      today = λ n k.
          bon.same_since (start_of_today_kst n)
          ∙ (ap (any_of (is_since user (start_of_today_kst n))) rows
              ∙ head_counts user n amount b k);
      still = bon.keeps (m.keeps user (mint_user user amount b v t e));
    }

module _ (number_of : String → Option ℤ) (config : List ConfigRow) (user : ℕ) where
  abbrev close : ℤ → Book → ℤ → Tx Book Claim
  close amount v bonus = get >>= λ w. pure (paid_claim user amount v bonus w)

  abbrev pay_bonus_next : ℤ → Tx Book Claim
  pay_bonus_next amount = get >>= λ v.
      maybe_apply_streak_bonus number_of config user (calculate_streak_days user v)
      >>= close amount v

  abbrev pay_next : ℤ → Tx Book Claim
  pay_next amount = mint user amount "ATTENDANCE" (user_opts user) >>= λ _. pay_bonus_next amount

  award_lem :
      (b c : Book) (r : Claim)
      → IsSound b
      → award number_of config user b ≡ ok (r, c)
      → Awarded user b c r
  unfolding award
  award_lem b c r h e =
      let read = get_number number_of config "DAILY_ATTENDANCE_AMOUNT" (some "50") in
      let (amount, v0, e1, e2) =
        >>=-inv read
          (λ amount. throw_if (leb_ℤ amount (pos 0)) Error.reward_zero >> pay_next amount) {s = b}
          e in
      let same =
        get_number_same number_of config "DAILY_ATTENDANCE_AMOUNT" (some "50") b v0 amount e1 in
      let (positive, e3) =
        >>-inv (leb_ℤ amount (pos 0)) Error.reward_zero (pay_next amount) {s = v0} e2 in
      let e4 : pay_next amount b ≡ ok (r, c) = subst (λ z. pay_next amount z ≡ ok (r, c)) same e3 in
      let (t, v, e5, e6) =
        >>=-inv (mint user amount "ATTENDANCE" (user_opts user)) (λ _. pay_bonus_next amount)
          {s = b} e4 in
      let (bonus, w, e7, e8) =
        >>=-inv (maybe_apply_streak_bonus number_of config user (calculate_streak_days user v))
          (close amount v) {s = v} e6 in
      let m = mint_effect user amount "ATTENDANCE" (user_opts user) b t v h e5 in
      let bon =
        maybe_apply_streak_bonus_lem number_of config user (calculate_streak_days user v) bonus v w
          m.sound e7 in
      let all : paid_claim user amount v bonus w ≡ r = ground arith in
      let last : w ≡ c = ground arith in
      subst₂ (λ z y. Awarded user b y z) all last
        (paid_claim-Awarded user amount bonus b v w t h positive e5 bon)

  get_balance_ok : (b : Book) → HasUser user b → (z : ℤ) × (get_balance user b ≡ ok (z, b))
  unfolding get_balance
  get_balance_ok b (u, f) = (u.points_balance, rw f refl)

  already :
      (b : Book)
      → any_of (is_since user (start_of_today_kst b.now)) b.txs ≡ true
      → HasUser user b
      → (z : ℤ) × (claim_daily number_of config user b ≡ ok (not_awarded z, b))
  unfolding claim_daily
  already b h u = let (z, g) = get_balance_ok b u in (z, rw h (>>=-ok (get_balance user) _ g))

-- From a sound ledger, a claim that goes through either awards nothing and changes nothing, or it
-- is awarded as `Awarded` says: the ledger stays sound, the sum of all balances rises by the
-- amount and the bonus, the amount is positive, and a reward is there for every time of the same
-- day in Seoul. The claim adds its own day to those that the query gives for the user, and no
-- other; the streak is the run of these days back from today in Seoul, at most 11.
pub claim_daily-Awarded :
    (number_of : String → Option ℤ) (config : List ConfigRow) (user : ℕ) (b c : Book) (r : Claim)
    → IsSound b
    → claim_daily number_of config user b ≡ ok (r, c)
    → ((r.awarded ≡ false) × (c ≡ b)) ⊎ Awarded user b c r
unfolding claim_daily get_balance
claim_daily-Awarded number_of config user b c r h e =
    elim (Bool-cases (any_of (is_since user (start_of_today_kst b.now)) b.txs)) [
      | inr m ↦ inr (award_lem number_of config user b c r h (ground arith))
      | inl m ↦ elim (Option-cases (find_user (some user) b.users)) [
        | inl n ↦ absurd (ground arith)
        | inr (u, n) ↦ inl (ground arith, ground arith)
      ]
    ]

-- From a sound ledger, after a claim that was awarded, a claim of the same user at any time of
-- the same day in Seoul is answered as claimed already and changes nothing, whatever the
-- configuration.
pub claim_daily_once :
    (number_of : String → Option ℤ) (config : List ConfigRow) (user : ℕ) (b c : Book) (r : Claim)
    (n : ℕ)
    → IsSound b
    → claim_daily number_of config user b ≡ ok (r, c)
    → r.awarded ≡ true
    → kst_day n ≡ kst_day b.now
    → (z : ℤ) × (claim_daily number_of config user (record c { now = n })
        ≡ ok (not_awarded z, record c { now = n }))
claim_daily_once number_of config user b c r n h e w k =
    elim (claim_daily-Awarded number_of config user b c r h e) [
      | inl (f, _) ↦ absurd (cc (f, w))
      | inr a ↦ already number_of config user (record c { now = n }) (a.today n k) a.still
    ]
