-- ===== src/AuctionPayout/Rounds.antt =====
-- One round of a payout, and all of them.
use potg.Base.{
  ℕ, ◌+◌, ◌*◌, ◌≡◌, refl, sym, ◌∙◌, ap, subst, Bool, true, false, not, some, List, [], ◌∷◌, arith,
  if◌then◌else◌, inl, inr, Bool-cases, ◌⊎◌,
}
use potg.Base.Int.{ℤ, pos, ◌+ℤ◌, int_laws}
use potg.Base.Rows.{any_of, length}
use potg.Base.Tx.{Tx, ok, pure, ◌>>=◌, >>=-inv, >>=-ok}
use potg.AuctionTables.{Participant}
use potg.Ledger.{Book, PointTx, Opts, mint, transfer_params}
use potg.Ledger.Users.{total_balance}
use potg.Ledger.Integrity.{IsSound}
use potg.Ledger.Transfer.{transfer_result, entry}
use potg.Ledger.Issue.{mint_effect}
use potg.AuctionPayout.{payout_key, is_paid, Counts, pay_one, pay_each}

abbrev pub payout_opts : ℕ → ℕ → Opts
payout_opts i user = record {
  ref_type = some "Auction";
  ref_id = some i;
  idempotency_key = some (payout_key i user);
}

abbrev pub unpaid : ℕ → List PointTx → Participant → Bool
unpaid i txs p = not (is_paid i p.user_id txs)

pub pay_one_inv :
    (i : ℕ) (x : ℤ) (p : Participant) (b c : Book) (now : Bool)
    → pay_one i x p b ≡ ok (now, c)
    → ((now ≡ false) × (c ≡ b) × (is_paid i p.user_id b.txs ≡ true))
      ⊎ ((now ≡ true)
          × (t : PointTx) × (mint p.user_id x "AUCTION_PAYOUT" (payout_opts i p.user_id) b
              ≡ ok (t, c)))
unfolding pay_one
pay_one_inv i x p b c now e = elim (Bool-cases (is_paid i p.user_id b.txs)) [
  | inl m ↦ inl (ground arith, ground arith, m)
  | inr m ↦
      let tail : PointTx → Tx Book Bool = λ _. pure true in
      let pay = mint p.user_id x "AUCTION_PAYOUT" (payout_opts i p.user_id) in
      let e1 : (pay >>= tail) b ≡ ok (now, c) =
        subst (λ z. (if z then pure false b else (pay >>= tail) b) ≡ ok (now, c)) m e in
      let (t, v, g, k) = >>=-inv pay tail {s = b} e1 in
      let q : v ≡ c = ground arith in inr (ground arith, t, subst (λ z. pay b ≡ ok (t, z)) q g)
]

-- The new row of the ledger carries the key.
pub minted_rows :
    (i u : ℕ) (x : ℤ) (b c : Book) (t : PointTx)
    → mint u x "AUCTION_PAYOUT" (payout_opts i u) b ≡ ok (t, c)
    → c.txs
      ≡ entry (transfer_params (some 0) (some u) x "AUCTION_PAYOUT" (payout_opts i u)) b ∷ b.txs
unfolding mint
minted_rows i u x b c t e =
    let (_, q, _) =
      transfer_result (transfer_params (some 0) (some u) x "AUCTION_PAYOUT" (payout_opts i u)) b t c
        e in
    ap (λ z. z.txs) q

pub pay_one_paid :
    (i : ℕ) (x : ℤ) (p : Participant) (b c : Book) (now : Bool)
    → pay_one i x p b ≡ ok (now, c)
    → (is_paid i p.user_id c.txs ≡ true)
      × ((j u : ℕ) → is_paid j u b.txs ≡ true → is_paid j u c.txs ≡ true)
pay_one_paid i x p b c now e = elim (pay_one_inv i x p b c now e) [
  | inl (_, q, k) ↦ (ground arith, λ j u h. ground arith)
  | inr (_, t, g) ↦
      let rows = minted_rows i p.user_id x b c t g in (ground arith, λ j u h. ground arith)
]

-- Everybody in the list is paid afterwards, and each of them is counted.
pub pay_each_paid :
    (i : ℕ) (x : ℤ) (ps : List Participant) (b c : Book) (n : Counts)
    → pay_each i x ps b ≡ ok (n, c)
    → (any_of (unpaid i c.txs) ps ≡ false)
      × (n.paid + n.skipped ≡ length ps)
      × ((j u : ℕ) → is_paid j u b.txs ≡ true → is_paid j u c.txs ≡ true)
unfolding pay_each
pay_each_paid i x [] b c n e = (refl, ground arith, λ j u h. ground arith)
pay_each_paid i x (p ∷ ps) b c n e =
    let count : Bool → Counts → Counts = λ now rest.
      if now
      then record rest { paid = rest.paid + 1 }
      else record rest { skipped = rest.skipped + 1 } in
    let later : Bool → Tx Book Counts = λ now. pay_each i x ps >>= λ rest. pure (count now rest) in
    let (now, v, e1, e2) = >>=-inv (pay_one i x p) later {s = b} e in
    let (rest, w, e3, e4) = >>=-inv (pay_each i x ps) (λ rest. pure (count now rest)) {s = v} e2 in
    let (paid, keep) = pay_one_paid i x p b v now e1 in
    let (all, sum, keep') = pay_each_paid i x ps v w rest e3 in
    let q : w ≡ c = ground arith in
    let here = subst (λ z. is_paid i p.user_id z.txs ≡ true) q (keep' i p.user_id paid) in
    let there = subst (λ z. any_of (unpaid i z.txs) ps ≡ false) q all in
    let all_counted : n.paid + n.skipped ≡ (rest.paid + rest.skipped) + 1 = elim (Bool-cases now) [
      | inl m ↦ ground arith
      | inr m ↦ ground arith
    ] in
    (
      ground arith,
      ground arith,
      λ j u h. subst (λ z. is_paid j u z.txs ≡ true) q (keep' j u (keep j u h)),
    )

-- Who was paid is passed over.
pub pay_one_again :
    (i : ℕ) (x : ℤ) (p : Participant) (b : Book)
    → is_paid i p.user_id b.txs ≡ true
    → pay_one i x p b ≡ ok (false, b)
unfolding pay_one
pay_one_again i x p b h = rw h refl

pub pay_each_again :
    (i : ℕ) (x : ℤ) (ps : List Participant) (b : Book)
    → any_of (unpaid i b.txs) ps ≡ false
    → pay_each i x ps b ≡ ok (record { paid = 0; skipped = length ps }, b)
unfolding pay_each
pay_each_again i x [] b h = refl
pay_each_again i x (p ∷ ps) b h =
    let again = pay_each_again i x ps b (ground arith) in
    let n : length ps + 1 ≡ length (p ∷ ps) = ground arith in
    >>=-ok (pay_one i x p) _ (pay_one_again i x p b (ground arith))
    ∙ (>>=-ok (pay_each i x ps) _ again ∙ ap (λ z. ok (record { paid = 0; skipped = z }, b)) n)

-- What the recipients get in all.
pub minted_total : (y z : ℤ) (x : ℕ) → y +ℤ pos 0 ≡ z +ℤ pos x → y ≡ z +ℤ pos x
minted_total y z x e = grind int_laws

pub no_total : (z : ℤ) → z ≡ z +ℤ pos 0
no_total z = grind int_laws

pub pay_one_total :
    (i x : ℕ) (p : Participant) (b c : Book) (now : Bool)
    → IsSound b
    → pay_one i (pos x) p b ≡ ok (now, c)
    → IsSound c × (total_balance c.users ≡ total_balance b.users +ℤ pos (if now then x else 0))
pay_one_total i x p b c now h e = elim (pay_one_inv i (pos x) p b c now e) [
  | inl (n, q, k) ↦ (
    subst IsSound (sym q) h,
    ap (λ z. total_balance z.users) q
        ∙ (no_total (total_balance b.users)
            ∙ ap (λ z. total_balance b.users +ℤ pos (if z then x else 0)) (sym n)),
  )
  | inr (n, t, g) ↦
      let m = mint_effect p.user_id (pos x) "AUCTION_PAYOUT" (payout_opts i p.user_id) b t c h g in
      (
        m.sound,
        minted_total (total_balance c.users) (total_balance b.users) x m.total
            ∙ ap (λ z. total_balance b.users +ℤ pos (if z then x else 0)) (sym n),
      )
]

pub two_totals :
    (k l m : ℤ) (x y z : ℕ) → k ≡ l +ℤ pos x → l ≡ m +ℤ pos y → z ≡ x + y → k ≡ m +ℤ pos z
two_totals k l m x y z e f g = grind int_laws

pub one_more : (n x : ℕ) → (n + 1) * x ≡ n * x + x
one_more n x = grind arith

pub pay_each_total :
    (i x : ℕ) (ps : List Participant) (b c : Book) (n : Counts)
    → IsSound b
    → pay_each i (pos x) ps b ≡ ok (n, c)
    → IsSound c × (total_balance c.users ≡ total_balance b.users +ℤ pos (n.paid * x))
unfolding pay_each
pay_each_total i x [] b c n h e =
    let q : c ≡ b = ground arith in
    let z : n.paid * x ≡ 0 = ground arith in
    (
      subst IsSound (sym q) h,
      ap (λ z. total_balance z.users) q
          ∙ (no_total (total_balance b.users) ∙ ap (λ z. total_balance b.users +ℤ pos z) (sym z)),
    )
pay_each_total i x (p ∷ ps) b c n h e =
    let count : Bool → Counts → Counts = λ now rest.
      if now
      then record rest { paid = rest.paid + 1 }
      else record rest { skipped = rest.skipped + 1 } in
    let later : Bool → Tx Book Counts =
      λ now. pay_each i (pos x) ps >>= λ rest. pure (count now rest) in
    let (now, v, e1, e2) = >>=-inv (pay_one i (pos x) p) later {s = b} e in
    let (rest, w, e3, e4) =
      >>=-inv (pay_each i (pos x) ps) (λ rest. pure (count now rest)) {s = v} e2 in
    let (h1, t1) = pay_one_total i x p b v now h e1 in
    let (h2, t2) = pay_each_total i x ps v w rest h1 e3 in
    let q : w ≡ c = ground arith in
    let sum : n.paid * x ≡ rest.paid * x + (if now then x else 0) = elim (Bool-cases now) [
      | inl m ↦
          let k : n.paid ≡ rest.paid + 1 = ground arith in
          ap (λ z. z * x) k ∙ (one_more rest.paid x ∙ ground arith)
      | inr m ↦ let k : n.paid ≡ rest.paid = ground arith in ap (λ z. z * x) k ∙ ground arith
    ] in
    (
      subst IsSound q h2,
      ap (λ z. total_balance z.users) (sym q)
          ∙ two_totals (total_balance w.users) (total_balance v.users) (total_balance b.users)
              (rest.paid * x) (if now then x else 0) (n.paid * x) t2 t1 sum,
    )
