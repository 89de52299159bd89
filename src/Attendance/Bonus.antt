-- ===== src/Attendance/Bonus.antt =====
-- The configuration and the bonus for a streak.
use mathlib.Core.Path.{subst₂}
use potg.Base.{
  ℕ, ◌≡◌, refl, sym, ◌∙◌, ap, subst, false, String, Option, some, List, ◌∷◌, arith, if◌then◌else◌,
  inl, inr, Bool-cases, Option-cases,
}
use potg.Base.Int.{ℤ, pos, ◌+ℤ◌, leb_ℤ, int_laws}
use potg.Base.Rows.{any_of}
use potg.Base.Tx.{Tx, ok, pure, ◌>>=◌, >>=-inv}
use potg.Ledger.{Book, PointTx, mint, transfer_params}
use potg.Ledger.Users.{total_balance}
use potg.Ledger.Integrity.{IsSound}
use potg.Ledger.Transfer.{transfer_result, entry, moved}
use potg.Ledger.Issue.{mint_effect, HasUser}
use potg.Attendance.Streak.{attended}
use potg.Attendance.{
  ConfigRow, config_row, get_value, get_number, is_since, is_attendance, is_milestone, bonus_key,
  default_bonus, user_opts, pay_bonus, maybe_apply_streak_bonus,
}

-- Reading the configuration changes nothing.
pub get_number_same :
    (number_of : String → Option ℤ) (config : List ConfigRow) (key : String)
    (default : Option String) (b c : Book) (x : ℤ)
    → get_number number_of config key default b ≡ ok (x, c)
    → c ≡ b
unfolding get_number get_value
get_number_same number_of config key default b c x e = elim (Option-cases (config_row key config)) [
  | inl m ↦ ground arith
  | inr (r, m) ↦ ground arith
]

pub minted :
    (u : ℕ) (x : ℤ) (r : String) (b c : Book) (t : PointTx)
    → mint u x r (user_opts u) b ≡ ok (t, c)
    → c ≡ moved (transfer_params (some 0) (some u) x r (user_opts u)) b
unfolding mint
minted u x r b c t e =
    (transfer_result (transfer_params (some 0) (some u) x r (user_opts u)) b t c e).1

-- A bonus is no daily reward.
abbrev bonus_entry : ℕ → ℤ → Book → PointTx
bonus_entry u x b = entry (transfer_params (some 0) (some u) x "STREAK_BONUS" (user_opts u)) b

bonus_uncounted : (u : ℕ) (x : ℤ) (b : Book) → is_attendance u (bonus_entry u x b) ≡ false
bonus_uncounted u x b = ground arith

other_days :
    (u d : ℕ) (t : PointTx) (ts : List PointTx)
    → is_attendance u t ≡ false
    → attended u (t ∷ ts) d ≡ attended u ts d
other_days u d t ts h = ground arith

other_since :
    (u n : ℕ) (t : PointTx) (ts : List PointTx)
    → is_attendance u t ≡ false
    → any_of (is_since u n) (t ∷ ts) ≡ any_of (is_since u n) ts
other_since u n t ts h = ground arith

-- What a payment of a bonus keeps, and what it adds.
pub record Bonus (user : ℕ) (b c : Book) (y : ℤ) : Type 0 where
  pub sound : IsSound c
  pub total : total_balance c.users ≡ total_balance b.users +ℤ y
  pub same_days : (d : ℕ) → attended user c.txs d ≡ attended user b.txs d
  pub same_since :
      (since : ℕ) → any_of (is_since user since) c.txs ≡ any_of (is_since user since) b.txs
  pub keeps : HasUser user b → HasUser user c

plus_none : (z : ℤ) → z ≡ z +ℤ pos 0
plus_none z = grind int_laws

only_minted : (y z x : ℤ) → y +ℤ pos 0 ≡ z +ℤ x → y ≡ z +ℤ x
only_minted y z x e = grind int_laws

Bonus-none : (user : ℕ) (b : Book) → IsSound b → Bonus user b b (pos 0)
Bonus-none user b h = record {
  sound = h;
  total = plus_none (total_balance b.users);
  same_days = λ d. refl;
  same_since = λ n. refl;
  keeps = λ u. u;
}

pay_bonus_lem :
    (user : ℕ) (x y : ℤ) (b c : Book)
    → IsSound b
    → pay_bonus user x b ≡ ok (y, c)
    → Bonus user b c y
unfolding pay_bonus
pay_bonus_lem user x y b c h e = elim (Bool-cases (leb_ℤ x (pos 0))) [
  | inl m ↦
      let k : y ≡ pos 0 = ground arith in
      let q : c ≡ b = ground arith in
      subst₂ (λ z w. Bonus user b z w) (sym q) (sym k) (Bonus-none user b h)
  | inr m ↦
      let pay = mint user x "STREAK_BONUS" (user_opts user) in
      let close : PointTx → Tx Book ℤ = λ _. pure x in
      let e1 : (pay >>= close) b ≡ ok (y, c) =
        subst (λ z. (if z then pure (pos 0) else (pay >>= close)) b ≡ ok (y, c)) m e in
      let (t, v, g, k) = >>=-inv pay close {s = b} e1 in
      let q : v ≡ c = ground arith in
      let w : x ≡ y = ground arith in
      let f = mint_effect user x "STREAK_BONUS" (user_opts user) b t v h g in
      let rows = ap (λ z. z.txs) (minted user x "STREAK_BONUS" b v t g) in
      subst₂ (λ z w. Bonus user b z w) q w
        record {
          sound = f.sound;
          total = only_minted (total_balance v.users) (total_balance b.users) x f.total;
          same_days = λ d.
              ap (λ z. attended user z d) rows
              ∙ other_days user d (bonus_entry user x b) b.txs (bonus_uncounted user x b);
          same_since = λ n.
              ap (any_of (is_since user n)) rows
              ∙ other_since user n (bonus_entry user x b) b.txs (bonus_uncounted user x b);
          keeps = f.keeps user;
        }
]

pub maybe_apply_streak_bonus_lem :
    (number_of : String → Option ℤ) (config : List ConfigRow) (user streak : ℕ) (y : ℤ) (b c : Book)
    → IsSound b
    → maybe_apply_streak_bonus number_of config user streak b ≡ ok (y, c)
    → Bonus user b c y
unfolding maybe_apply_streak_bonus
maybe_apply_streak_bonus_lem number_of config user streak y b c h e =
    let read = get_number number_of config (bonus_key streak) (some (default_bonus streak)) in
    elim (Bool-cases (is_milestone streak)) [
      | inr m ↦
          let e1 : pure (pos 0) b ≡ ok (y, c) =
            subst (λ z. (if z then (read >>= pay_bonus user) else pure (pos 0)) b ≡ ok (y, c)) m
              e in
          let k : y ≡ pos 0 = ground arith in
          let q : c ≡ b = ground arith in
          subst₂ (λ z w. Bonus user b z w) (sym q) (sym k) (Bonus-none user b h)
      | inl m ↦
          let e1 : (read >>= pay_bonus user) b ≡ ok (y, c) =
            subst (λ z. (if z then (read >>= pay_bonus user) else pure (pos 0)) b ≡ ok (y, c)) m
              e in
          let (x, v, g, k) = >>=-inv read (pay_bonus user) {s = b} e1 in
          let q =
            get_number_same number_of config (bonus_key streak) (some (default_bonus streak)) b v x
              g in
          pay_bonus_lem user x y b c h (subst (λ z. pay_bonus user x z ≡ ok (y, c)) q k)
    ]
