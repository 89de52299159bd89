-- ===== src/Settlement/Effects.antt =====
-- What the two payment loops do to the store.
use potg.Base.{
  ℕ, String, ◌≡◌, refl, sym, ◌∙◌, ap, subst, List, [], ◌∷◌, arith, if◌then◌else◌, inl, inr,
  Bool-cases, some,
}
use potg.Base.Int.{ℤ, pos, ◌+ℤ◌, ltb_ℤ, int_laws}
use potg.Base.Tx.{ok, >>=-inv, ◌>>=◌, ◌>>◌, pure}
use potg.Ledger.{mint, PointTx}
use potg.Ledger.Users.{total_balance}
use potg.Ledger.Integrity.{IsSound}
use potg.Ledger.Issue.{HasUser, mint_effect}
use potg.Store.{on_book_inv, Stake, stake_id_of, Store, on_book, save_stake, StakeStatus}
use potg.Base.Keyed.{save_by}
use potg.Betting.{market_ref}
use potg.Settlement.{payout_of, wins, pay_winner, settle_stake, settle_stakes}

-- From `s` to `t` the balances grew by `x` in all; only the ledger and the stakes were written.
pub record Paid (s t : Store) (x : ℤ) : Type 0 where
  pub sound : IsSound t.book
  pub total : total_balance t.book.users ≡ total_balance s.book.users +ℤ x
  pub keeps : (j : ℕ) → HasUser j s.book → HasUser j t.book
  pub frame : t ≡ record s { book = t.book; stakes = t.stakes }

pub Paid-refl : (s : Store) → IsSound s.book → Paid s s (pos 0)
Paid-refl s h = record { sound = h; total = omega int_laws; keeps = λ j w. w; frame = refl }

add_chain : (a b c x y : ℤ) → b ≡ a +ℤ x → c ≡ b +ℤ y → c ≡ a +ℤ (x +ℤ y)
add_chain a b c x y p q = q ∙ (ap (λ t. t +ℤ y) p ∙ omega int_laws)

pub Paid-trans : (s t u : Store) (x y : ℤ) → Paid s t x → Paid t u y → Paid s u (x +ℤ y)
Paid-trans s t u x y p q = record {
  sound = q.sound;
  total = add_chain _ _ _ x y p.total q.total;
  keeps = λ j w. q.keeps j (p.keeps j w);
  frame = let f = p.frame in let g = q.frame in ground arith;
}

add_zero : (a b : ℤ) → b ≡ a → b ≡ a +ℤ pos 0
add_zero a b e = e ∙ omega int_laws

drop_zero : (a b x : ℤ) → b +ℤ pos 0 ≡ a +ℤ x → b ≡ a +ℤ x
drop_zero a b x e = add_zero b b refl ∙ e

pub Paid-save :
    (s : Store) (x : Stake)
    → IsSound s.book
    → (t : Store) → save_stake x s ≡ ok (tt, t)
    → Paid s t (pos 0)
Paid-save s x h t e = record {
  sound = subst (λ b. IsSound b) (ground arith) h;
  total = add_zero _ _ (ground arith);
  keeps = λ j (u, f). (u, ground arith);
  frame = ground arith;
}

pub mint-Paid :
    (i : ℕ) (x : ℤ) (r : String) (k : ℕ) (s t : Store) (a : PointTx)
    → IsSound s.book
    → on_book (mint i x r (market_ref k)) s ≡ ok (a, t)
    → Paid s t x
mint-Paid i x r k s t a h e =
    let (m, f) = on_book_inv (mint i x r (market_ref k)) s t a e in
    let c = mint_effect i x r (market_ref k) s.book a t.book h m in
    record {
      sound = c.sound;
      total = drop_zero _ _ x c.total;
      keeps = c.keeps;
      frame = ground arith;
    }

-- What one stake is paid: its payout where it won and that is above 0.
abbrev pub paid_amount : String → ℤ → ℕ → Stake → ℤ
paid_amount option pool winning x =
    if wins option x
    then (if ltb_ℤ (pos 0) (payout_of x.stake pool winning)
        then payout_of x.stake pool winning
        else pos 0)
    else pos 0

abbrev pub total_paid : String → ℤ → ℕ → List Stake → ℤ
total_paid option pool winning [] = pos 0
total_paid option pool winning (x ∷ xs) =
    paid_amount option pool winning x +ℤ total_paid option pool winning xs

plus_zero : (a : ℤ) → a ≡ a +ℤ pos 0
plus_zero a = omega int_laws

add_assoc_ℤ : (a b c : ℤ) → a +ℤ b +ℤ c ≡ a +ℤ (b +ℤ c)
add_assoc_ℤ a b c = omega int_laws

pub Paid-after_save :
    (s u t : Store) (x : Stake) (d : ℤ)
    → IsSound s.book
    → u ≡ record s { stakes = save_by stake_id_of x s.stakes }
    → Paid u t d
    → Paid s t d
Paid-after_save s u t x d h e p =
    let q = Paid-trans s u t (pos 0) d (Paid-save s x h u (ap (λ v. ok (tt, v)) (sym e))) p in
    subst (λ y. Paid s t y) (omega int_laws) q

pay_winner-Paid :
    (k user : ℕ) (payout : ℤ) (s t : Store) (d : ℤ)
    → IsSound s.book
    → pay_winner k user payout s ≡ ok (d, t)
    → (d ≡ (if ltb_ℤ (pos 0) payout then payout else pos 0)) × Paid s t d
unfolding pay_winner
pay_winner-Paid k user payout s t d h e = elim (Bool-cases (ltb_ℤ (pos 0) payout)) [
  | inr n ↦ (ground arith, ground (arith, Paid-refl s h))
  | inl n ↦
      let f : (on_book (mint user payout "BET_PAYOUT" (market_ref k)) >>= λ _. pure payout) s
          ≡ ok (d, t) =
        rw n at e in
      let (a, u, p, q) =
        >>=-inv (on_book (mint user payout "BET_PAYOUT" (market_ref k))) (λ _. pure payout) f in
      let m = mint-Paid user payout "BET_PAYOUT" k s u a h p in (ground arith, ground arith)
]

pub settle_stake-Paid :
    (k : ℕ) (option : String) (pool : ℤ) (winning : ℕ) (x : Stake) (s t : Store) (d : ℤ)
    → IsSound s.book
    → settle_stake k option pool winning x s ≡ ok (d, t)
    → (d ≡ paid_amount option pool winning x) × Paid s t d
unfolding settle_stake
settle_stake-Paid k option pool winning x s t d h e =
    let payout = payout_of x.stake pool winning in
    let y : Stake = record x { status = StakeStatus.won; payout = some payout } in
    let z : Stake = record x { status = StakeStatus.lost; payout = some (pos 0) } in
    elim (Bool-cases (wins option x)) [
      | inl n ↦
          let f : (save_stake y >> pay_winner k x.user_id payout) s ≡ ok (d, t) = rw n at e in
          let u : Store = record s { stakes = save_by stake_id_of y s.stakes } in
          let (v, p) = pay_winner-Paid k x.user_id payout u t d h f in
          (rw n v, Paid-after_save s u t y d h refl p)
      | inr n ↦
          let f : (save_stake z >> pure (pos 0)) s ≡ ok (d, t) = rw n at e in
          let g : save_stake z s ≡ ok (tt, t) = ground arith in
          let v : d ≡ pos 0 = ground arith in
          (rw n v, subst (λ q. Paid s t q) (sym v) (Paid-save s z h t g))
    ]

-- The loop pays each winner, and the accumulator grows by what was paid.
pub settle_stakes-Paid :
    (k : ℕ) (option : String) (pool : ℤ) (winning : ℕ) (xs : List Stake) (acc : ℤ) (s t : Store)
    (d : ℤ)
    → IsSound s.book
    → settle_stakes k option pool winning xs acc s ≡ ok (d, t)
    → (d ≡ acc +ℤ total_paid option pool winning xs) × Paid s t (total_paid option pool winning xs)
unfolding settle_stakes
settle_stakes-Paid k option pool winning [] acc s t d h e =
    (ground (arith, plus_zero acc), ground (arith, Paid-refl s h))
settle_stakes-Paid k option pool winning (x ∷ xs) acc s t d h e =
    let (a, u, p, q) =
      >>=-inv (settle_stake k option pool winning x)
        (λ a. settle_stakes k option pool winning xs (acc +ℤ a)) e in
    let (v, r) = settle_stake-Paid k option pool winning x s u a h p in
    let (w, z) = settle_stakes-Paid k option pool winning xs (acc +ℤ a) u t d r.sound q in
    let rest = total_paid option pool winning xs in
    (
      w ∙ (add_assoc_ℤ acc a rest ∙ ap (λ b. acc +ℤ (b +ℤ rest)) v),
      subst (λ b. Paid s t (b +ℤ rest)) v (Paid-trans s u t a rest r z),
    )
