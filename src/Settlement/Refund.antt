-- ===== src/Settlement/Refund.antt =====
-- A cancellation refunds every stake that is still placed, in full.
use potg.Base.{
  ℕ, ◌+◌, ◌≡◌, sym, ◌∙◌, ap, subst, Bool, true, false, List, [], ◌∷◌, arith, ltb, if◌then◌else◌,
  inl, inr, Bool-cases, some,
}
use potg.Base.Int.{pos, ◌+ℤ◌, int_laws}
use potg.Base.Rows.{sum_of, length, select}
use potg.Base.Keyed.{find_by, save_by}
use potg.Base.Tx.{Tx, ok, err, >>=-inv, ◌>>=◌, ◌>>◌, pure, cancel_settled}
use potg.Ledger.{mint}
use potg.Ledger.Users.{total_balance}
use potg.Ledger.Integrity.{IsSound}
use potg.Store.{
  Stake, StakeStatus, is_placed, Market, Store, MarketStatus, market_id_of, save_market, on_book,
  save_stake,
}
use potg.Betting.{lock_market_row, market_ref}
use potg.Betting.{on_market}
use potg.Settlement.{
  refund_stake, refund_stakes, refund_market, cancel_market, cancel_by_status, CancelSummary,
  refund_ledger,
}
use potg.Settlement.Effects.{Paid, Paid-refl, Paid-save, Paid-trans, mint-Paid}

-- What a refund of one stake issues.
abbrev pub refund_amount : Stake → ℕ
refund_amount x = if is_placed x.status then x.stake else 0

refund_ledger-Paid :
    (k : ℕ) (x : Stake) (s t : Store)
    → IsSound s.book
    → refund_ledger k x s ≡ ok (tt, t)
    → Paid s t (pos x.stake)
unfolding refund_ledger
refund_ledger-Paid k x s t h e = elim (Bool-cases (ltb 0 x.stake)) [
  | inr n ↦
      let z : pos 0 ≡ pos x.stake = ground arith in
      let q : s ≡ t = ground arith in
      subst (λ d. Paid s t d) z (subst (λ u. Paid s u (pos 0)) q (Paid-refl s h))
  | inl n ↦
      let f : (on_book (mint x.user_id (pos x.stake) "BET_REFUND" (market_ref k)) >>= λ _. pure tt)
            s
          ≡ ok (tt, t) =
        rw n at e in
      let (a, u, p, q) =
        >>=-inv (on_book (mint x.user_id (pos x.stake) "BET_REFUND" (market_ref k))) (λ _. pure tt)
          f in
      let v : u ≡ t = ground arith in
      subst (λ w. Paid s w (pos x.stake)) v
        (mint-Paid x.user_id (pos x.stake) "BET_REFUND" k s u a h p)
]

refund_stake-Paid :
    (k : ℕ) (x : Stake) (s t : Store) (d : ℕ)
    → IsSound s.book
    → refund_stake k x s ≡ ok (d, t)
    → (d ≡ refund_amount x) × Paid s t (pos d)
unfolding refund_stake
refund_stake-Paid k x s t d h e = elim (Bool-cases (is_placed x.status)) [
  | inr n ↦ (ground arith, ground (arith, Paid-refl s h))
  | inl n ↦
      let y : Stake = record x { status = StakeStatus.refunded; payout = some (pos x.stake) } in
      let f : (refund_ledger k x >>= λ _. save_stake y >>= λ _. pure x.stake) s ≡ ok (d, t) =
        rw n at e in
      let (_, u, p, q) = >>=-inv (refund_ledger k x) (λ _. save_stake y >>= λ _. pure x.stake) f in
      let a = refund_ledger-Paid k x s u h p in
      let v : x.stake ≡ d = ground arith in
      let w : save_stake y u ≡ ok (tt, t) = ground arith in
      let b = Paid-trans s u t (pos x.stake) (pos 0) a (Paid-save u y a.sound t w) in
      (rw n (sym v), subst (λ z. Paid s t z) (omega (int_laws, v)) b)
]

add_pos : (a b c : ℕ) → a ≡ b → pos a +ℤ pos c ≡ pos (b + c)
add_pos a b c e = omega int_laws

refund_stakes-Paid :
    (k : ℕ) (xs : List Stake) (acc : ℕ) (s t : Store) (d : ℕ)
    → IsSound s.book
    → refund_stakes k xs acc s ≡ ok (d, t)
    → (d ≡ acc + sum_of refund_amount xs) × Paid s t (pos (sum_of refund_amount xs))
unfolding refund_stakes
refund_stakes-Paid k [] acc s t d h e = (ground arith, ground (arith, Paid-refl s h))
refund_stakes-Paid k (x ∷ xs) acc s t d h e =
    let (a, u, p, q) = >>=-inv (refund_stake k x) (λ a. refund_stakes k xs (acc + a)) e in
    let (v, r) = refund_stake-Paid k x s u a h p in
    let (w, z) = refund_stakes-Paid k xs (acc + a) u t d r.sound q in
    (
      omega arith,
      subst (λ b. Paid s t b) (add_pos a (refund_amount x) (sum_of refund_amount xs) v)
          (Paid-trans s u t (pos a) (pos (sum_of refund_amount xs)) r z),
    )

abbrev pub due_on : Market → Store → ℕ
due_on m s = sum_of refund_amount (select (on_market m.id) s.stakes)

abbrev pub cancelled_row : Market → Store → Market
cancelled_row m s = record m { status = MarketStatus.cancelled; settled_at = some s.book.now }

-- The effect of a cancellation of a market that is open or locked.
pub record Cancelled (m : Market) (s t : Store) (r : CancelSummary) : Type 0 where
  pub sound : IsSound t.book
  pub total : total_balance t.book.users ≡ total_balance s.book.users +ℤ pos r.refunded
  pub refund : r.refunded ≡ due_on m s
  pub counted : r.stakes_count ≡ length (select (on_market m.id) s.stakes)
  pub market : t.markets ≡ save_by market_id_of (cancelled_row m s) s.markets
  pub others : (t.matches ≡ s.matches) × (t.teams ≡ s.teams)

abbrev close_refund : Market → Store → ℕ → Tx Store CancelSummary
close_refund m s d =
    save_market (cancelled_row m s)
    >> pure (record {
      market_id = m.id;
      refunded = d;
      stakes_count = length (select (on_market m.id) s.stakes);
    })

pub refund_market-Cancelled :
    (m : Market) (s t : Store) (r : CancelSummary)
    → IsSound s.book
    → refund_market m s ≡ ok (r, t)
    → Cancelled m s t r
unfolding refund_market
refund_market-Cancelled m s t r h e =
    let stakes = select (on_market m.id) s.stakes in
    let (d, u, f, g) = >>=-inv (refund_stakes m.id stakes 0) (close_refund m s) {s = s} e in
    let (v, p) = refund_stakes-Paid m.id stakes 0 s u d h f in
    let fr = p.frame in
    let same_book : t.book ≡ u.book = ground arith in
    let same_refund : sum_of refund_amount stakes ≡ r.refunded = ground arith in
    record {
      sound = subst (λ b. IsSound b) (sym same_book) p.sound;
      total =
          ap (λ k. total_balance k.users) same_book
          ∙ (p.total ∙ ap (λ x. total_balance s.book.users +ℤ pos x) same_refund);
      refund = sym same_refund;
      counted = ground arith;
      market = ground arith;
      others = (ground arith, ground arith);
    }

abbrev pub is_live : MarketStatus → Bool
is_live MarketStatus.opened = true
is_live MarketStatus.locked = true
is_live _ = false

-- `cancelMarket` by the status of the market.
cancel_market_lem :
    (i : ℕ) (s : Store) (m : Market)
    → find_by market_id_of i s.markets ≡ some m
    → (is_live m.status ≡ true → cancel_market i s ≡ refund_market m s)
      × (m.status ≡ MarketStatus.cancelled
          → cancel_market i s ≡ ok (record { market_id = m.id; refunded = 0; stakes_count = 0 }, s))
      × (m.status ≡ MarketStatus.settled → cancel_market i s ≡ err cancel_settled)
unfolding cancel_market lock_market_row cancel_by_status
cancel_market_lem i s m f = (λ n. ground arith, λ n. ground arith, λ n. ground arith)

-- From a sound ledger, cancelling a market that is open or locked, where it goes through, raises
-- the sum of all balances by exactly the stakes still placed on it, reports that sum and the
-- number of stakes, and records the status.
pub cancel_market-Cancelled :
    (i : ℕ) (s t : Store) (m : Market) (r : CancelSummary)
    → IsSound s.book
    → find_by market_id_of i s.markets ≡ some m
    → is_live m.status ≡ true
    → cancel_market i s ≡ ok (r, t)
    → Cancelled m s t r
cancel_market-Cancelled i s t m r h f l e =
    refund_market-Cancelled m s t r h (sym ((cancel_market_lem i s m f).0 l) ∙ e)
