-- ===== src/Settlement/Bounds.antt =====
-- What a settlement pays out, against the pool.
use potg.Base.{
  ℕ, String, ◌+◌, ◌-◌, ◌≤◌, ◌<◌, ◌≡◌, refl, sym, ◌∙◌, ap, subst, false, List, [], ◌∷◌, arith, ltb,
  ◌==◌, inl, inr, Bool-cases, some, ◌||◌,
}
use potg.Base.Int.{pos, ◌+ℤ◌, ◌-ℤ◌, int_laws}
use potg.Base.Rows.{sum_of, length, select}
use potg.Base.Keyed.{find_by}
use potg.Base.Tx.{ok}
use potg.Ledger.Integrity.{IsSound}
use potg.Store.{Stake, Market, Store, market_id_of}
use potg.Settlement.{payout_of, rake_of, wins, settle_market, SettleSummary}
use potg.Settlement.Payout.{share, shares-le-pool, pool-lt-shares, length_pos}
use potg.Settlement.Effects.{total_paid}
use potg.Settlement.Laws.{
  zero_plus, stakes_on, winners_on, winning_pool_on, distribution, summary_of,
  settle_market-Settled,
}

-- The rake never exceeds the pool.
rake-le-pool : (total bps : ℕ) → bps ≤ 10000 → rake_of total bps ≤ total
unfolding rake_of
rake-le-pool total bps h = grind arith

pool_after_rake :
    (total bps : ℕ)
    → bps ≤ 10000
    → pos total -ℤ pos (rake_of total bps) ≡ pos (total - rake_of total bps)
pool_after_rake total bps h = omega (int_laws, rake-le-pool total bps h)

pos_sum : (a b : ℕ) → pos a +ℤ pos b ≡ pos (a + b)
pos_sum a b = omega int_laws

pos_zero : (a : ℕ) → ltb 0 a ≡ false → pos 0 ≡ pos a
pos_zero a h = ground arith

-- Where the pool is not negative, what is paid is the winners' shares.
total_paid-share :
    (option : String) (pool winning : ℕ) (xs : List Stake)
    → total_paid option (pos pool) winning xs
      ≡ pos (sum_of (share pool winning) (select (wins option) xs))
unfolding payout_of
total_paid-share option pool winning [] = refl
total_paid-share option pool winning (x ∷ xs) = elim (Bool-cases (wins option x)) [
  | inl n ↦ ground (
    arith,
    total_paid-share option pool winning xs,
    pos_sum (share pool winning x) (sum_of (share pool winning) (select (wins option) xs)),
    pos_zero (share pool winning x),
  )
  | inr n ↦ ground (
    arith,
    total_paid-share option pool winning xs,
    zero_plus (pos (sum_of (share pool winning) (select (wins option) xs))),
  )
]

distribution_bounds :
    (m : Market) (option : String) (s : Store)
    → m.rake_bps ≤ 10000
    → (d : ℕ) × (distribution m option s ≡ pos d)
      × (d + rake_of m.total_pool m.rake_bps ≤ m.total_pool)
      × (0 < winning_pool_on m option s
          → m.total_pool < d + rake_of m.total_pool m.rake_bps + length (winners_on m option s))
distribution_bounds m option s h =
    let w = winning_pool_on m option s in
    let p = m.total_pool - rake_of m.total_pool m.rake_bps in
    let k = rake-le-pool m.total_pool m.rake_bps h in
    elim (Bool-cases (length (winners_on m option s) == 0 || w == 0)) [
      | inl n ↦
          (0, rw n, omega arith, λ g. absurd (ground (arith, length_pos (winners_on m option s) g)))
      | inr n ↦ (
        sum_of (share p w) (winners_on m option s),
        rw (n, pool_after_rake m.total_pool m.rake_bps h)
            (total_paid-share option p w (stakes_on m s)),
        omega (arith, shares-le-pool p (winners_on m option s) (ground arith)),
        λ g. omega (arith, pool-lt-shares p (winners_on m option s) g),
      )
    ]

-- From a sound ledger, and with a rake of at most 10000 basis points: a settlement that goes
-- through pays out a number that is at most the pool less the rake; and where there is a winning
-- stake, what it keeps back beyond the rake is less than one point for each winner.
pub settle_market_payout :
    (i : ℕ) (option : String) (s t : Store) (r : SettleSummary) (m : Market)
    → IsSound s.book
    → settle_market i option s ≡ ok (r, t)
    → find_by market_id_of i s.markets ≡ some m
    → m.rake_bps ≤ 10000
    → (d : ℕ) × (r.payout_distributed ≡ pos d)
      × (d + r.rake_amount ≤ r.total_pool)
      × (0 < r.winning_pool → r.total_pool < d + r.rake_amount + r.winners_count)
settle_market_payout i option s t r m h e f k =
    let (m', f', l, z) = settle_market-Settled i option s t r h e in
    let same : m' ≡ m = ground arith in
    let q : r ≡ summary_of m option s = z.summary ∙ ap (λ x. summary_of x option s) same in
    let (d, v, a, b) = distribution_bounds m option s k in
    subst
      (λ (x : SettleSummary).
        (d : ℕ) × (x.payout_distributed ≡ pos d)
        × (d + x.rake_amount ≤ x.total_pool)
        × (0 < x.winning_pool → x.total_pool < d + x.rake_amount + x.winners_count))
      (sym q) (d, v, a, b)
