-- ===== src/Settlement/Laws.antt =====
-- What a settlement does, and when it is refused.
use potg.Base.{
  ℕ, String, ◌-◌, ◌≡◌, refl, sym, ◌∙◌, ap, subst, true, List, [], ◌∷◌, arith, ◌==◌, if◌then◌else◌,
  inl, inr, Bool-cases, Option-cases, some, ◌||◌, not,
}
use potg.Base.Int.{ℤ, pos, ◌+ℤ◌, ◌-ℤ◌, int_laws}
use potg.Base.Rows.{sum_of, length, select}
use potg.Base.Keyed.{find_by, save_by, find_by_key, find_by-save_by}
use potg.Base.Texts.{fits}
use potg.Base.Tx.{
  Tx, ok, err, >>=-inv, >>-inv, ◌>>◌, pure, throw_if, value_too_long, already_settled,
  cannot_settle,
}
use potg.Ledger.Users.{total_balance}
use potg.Ledger.Integrity.{IsSound}
use potg.Store.{
  Stake, StakeStatus, Market, Store, MarketStatus, market_id_of, stake_id_of, save_market,
}
use potg.Betting.{lock_market_row}
use potg.Betting.{stake_amount, on_market}
use potg.Settlement.{
  rake_of, wins, settle_stakes, lose_stakes, pay_market, settle_market, settle_by_status,
  SettleSummary,
}
use potg.Settlement.Effects.{Paid, Paid-refl, Paid-after_save, total_paid, settle_stakes-Paid}

pub zero_plus : (a : ℤ) → pos 0 +ℤ a ≡ a
zero_plus a = omega int_laws

lose_stakes-Paid :
    (xs : List Stake) (s t : Store) (d : ℤ)
    → IsSound s.book
    → lose_stakes xs s ≡ ok (d, t)
    → (d ≡ pos 0) × Paid s t (pos 0)
unfolding lose_stakes
lose_stakes-Paid [] s t d h e = (ground arith, ground (arith, Paid-refl s h))
lose_stakes-Paid (x ∷ xs) s t d h e =
    let y : Stake = record x { status = StakeStatus.lost; payout = some (pos 0) } in
    let u : Store = record s { stakes = save_by stake_id_of y s.stakes } in
    let (v, p) = lose_stakes-Paid xs u t d h e in (v, Paid-after_save s u t y (pos 0) h refl p)

abbrev pub stakes_on : Market → Store → List Stake
stakes_on m s = select (on_market m.id) s.stakes

abbrev pub winners_on : Market → String → Store → List Stake
winners_on m option s = select (wins option) (stakes_on m s)

abbrev pub winning_pool_on : Market → String → Store → ℕ
winning_pool_on m option s = sum_of stake_amount (winners_on m option s)

abbrev pub pool_on : Market → ℤ
pool_on m = pos m.total_pool -ℤ pos (rake_of m.total_pool m.rake_bps)

abbrev pub settled_row : Market → String → Store → Market
settled_row m option s = record m {
  status = MarketStatus.settled;
  winning_option = some option;
  settled_at = some s.book.now;
}

-- What is paid in all: nothing where no stake won.
abbrev pub distribution : Market → String → Store → ℤ
distribution m option s =
    if length (winners_on m option s) == 0 || winning_pool_on m option s == 0
    then pos 0
    else total_paid option (pool_on m) (winning_pool_on m option s) (stakes_on m s)

abbrev pub summary_of : Market → String → Store → SettleSummary
summary_of m option s = record {
  market_id = m.id;
  total_pool = m.total_pool;
  rake_amount = rake_of m.total_pool m.rake_bps;
  winning_pool = winning_pool_on m option s;
  winners_count = length (winners_on m option s);
  losers_count = length (stakes_on m s) - length (winners_on m option s);
  payout_distributed = distribution m option s;
}

abbrev pub pay_loop : Market → String → Store → Tx Store ℤ
pay_loop m option s =
    if length (winners_on m option s) == 0 || winning_pool_on m option s == 0
    then lose_stakes (stakes_on m s)
    else settle_stakes m.id option (pool_on m) (winning_pool_on m option s) (stakes_on m s) (pos 0)

-- The last save and the summary.
abbrev write_market : Market → String → Store → ℤ → Tx Store SettleSummary
write_market m option s d =
    save_market (settled_row m option s)
    >> pure (record {
      market_id = m.id;
      total_pool = m.total_pool;
      rake_amount = rake_of m.total_pool m.rake_bps;
      winning_pool = winning_pool_on m option s;
      winners_count = length (winners_on m option s);
      losers_count = length (stakes_on m s) - length (winners_on m option s);
      payout_distributed = d;
    })

abbrev pub close_market : Market → String → Store → ℤ → Tx Store SettleSummary
close_market m option s d =
    throw_if (not (fits 64 option)) value_too_long >> write_market m option s d

pay_loop-Paid :
    (m : Market) (option : String) (s t : Store) (d : ℤ)
    → IsSound s.book
    → pay_loop m option s s ≡ ok (d, t)
    → (d ≡ distribution m option s) × Paid s t d
pay_loop-Paid m option s t d h e =
    let none_won = length (winners_on m option s) == 0 || winning_pool_on m option s == 0 in
    elim (Bool-cases none_won) [
      | inl n ↦
          let (v, p) = lose_stakes-Paid (stakes_on m s) s t d h (rw n at e) in
          (rw n v, subst (λ x. Paid s t x) (sym v) p)
      | inr n ↦
          let (v, p) =
            settle_stakes-Paid m.id option (pool_on m) (winning_pool_on m option s) (stakes_on m s)
              (pos 0) s t d h (rw n at e) in
          let w =
            v
            ∙ zero_plus
                (total_paid option (pool_on m) (winning_pool_on m option s) (stakes_on m s)) in
          (rw n w, subst (λ x. Paid s t x) (sym w) p)
    ]

-- The effect of a settlement that went through.
pub record Settled (m : Market) (option : String) (s t : Store) (r : SettleSummary) : Type 0 where
  pub sound : IsSound t.book
  pub total : total_balance t.book.users ≡ total_balance s.book.users +ℤ r.payout_distributed
  pub summary : r ≡ summary_of m option s
  pub market : t.markets ≡ save_by market_id_of (settled_row m option s) s.markets
  pub others : (t.matches ≡ s.matches) × (t.teams ≡ s.teams)
  pub option_fits : fits 64 option ≡ true

pay_market-Settled :
    (m : Market) (option : String) (s t : Store) (r : SettleSummary)
    → IsSound s.book
    → pay_market m option s ≡ ok (r, t)
    → Settled m option s t r
unfolding pay_market
pay_market-Settled m option s t r h e =
    let (d, u, f, g) = >>=-inv (pay_loop m option s) (close_market m option s) {s = s} e in
    let (v, p) = pay_loop-Paid m option s u d h f in
    let (short, g1) =
      >>-inv (not (fits 64 option)) value_too_long (write_market m option s d) {s = u} g in
    let q : t ≡ record u { markets = save_by market_id_of (settled_row m option s) u.markets } =
      ground arith in
    let fr = p.frame in
    let same_book : t.book ≡ u.book = ground arith in
    let same_payout : d ≡ r.payout_distributed = ground arith in
    record {
      sound = subst (λ b. IsSound b) (ground arith) p.sound;
      total =
          ap (λ k. total_balance k.users) same_book
          ∙ (p.total ∙ ap (λ x. total_balance s.book.users +ℤ x) same_payout);
      summary = ground arith;
      market = ground arith;
      others = (ground arith, ground arith);
      option_fits = ground arith;
    }

settle_market_inv :
    (i : ℕ) (option : String) (s t : Store) (r : SettleSummary)
    → settle_market i option s ≡ ok (r, t)
    → (m : Market) × (find_by market_id_of i s.markets ≡ some m)
      × (m.status ≡ MarketStatus.locked)
      × (pay_market m option s ≡ ok (r, t))
unfolding settle_market lock_market_row settle_by_status
settle_market_inv i option s t r e = elim (Option-cases (find_by market_id_of i s.markets)) [
  | inl n ↦ absurd (ground arith)
  | inr (m, n) ↦ (m, n, ground arith, ground arith)
]

-- From a sound ledger, a settlement that goes through finds the market locked and the option
-- within the 64 characters of its column. It records the option and the status, keeps the ledger
-- sound, leaves matches and teams alone, and raises the sum of all balances by exactly the payout
-- that it reports.
pub settle_market-Settled :
    (i : ℕ) (option : String) (s t : Store) (r : SettleSummary)
    → IsSound s.book
    → settle_market i option s ≡ ok (r, t)
    → (m : Market) × (find_by market_id_of i s.markets ≡ some m)
      × (m.status ≡ MarketStatus.locked)
      × Settled m option s t r
settle_market-Settled i option s t r h e =
    let (m, f, l, p) = settle_market_inv i option s t r e in
    (m, f, l, pay_market-Settled m option s t r h p)

-- The refusals of a settlement by the status of the market.
settle_market_refused :
    (i : ℕ) (option : String) (s : Store) (m : Market)
    → find_by market_id_of i s.markets ≡ some m
    → (m.status ≡ MarketStatus.settled → settle_market i option s ≡ err already_settled)
      × (m.status ≡ MarketStatus.opened → settle_market i option s ≡ err cannot_settle)
      × (m.status ≡ MarketStatus.cancelled → settle_market i option s ≡ err cannot_settle)
unfolding settle_market lock_market_row settle_by_status
settle_market_refused i option s m f = (λ n. ground arith, λ n. ground arith, λ n. ground arith)

-- From a sound ledger, a market that was settled is refused when it is settled again, whatever
-- the option.
pub settle_market_once :
    (i : ℕ) (option again : String) (s t : Store) (r : SettleSummary)
    → IsSound s.book
    → settle_market i option s ≡ ok (r, t)
    → settle_market i again t ≡ err already_settled
settle_market_once i option again s t r h e =
    let (m, f, l, z) = settle_market-Settled i option s t r h e in
    let row = settled_row m option s in
    let k : m.id ≡ i = find_by_key market_id_of i s.markets m f in
    let found : find_by market_id_of i t.markets ≡ some row =
      ap (λ x. find_by market_id_of i x) z.market
      ∙ (find_by-save_by market_id_of i row s.markets ∙ ground arith) in
    (settle_market_refused i again t row found).0 refl
