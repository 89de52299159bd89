-- ===== src/Settlement/Payout.antt =====
-- The arithmetic of a pari-mutuel settlement: shares rounded down never pay out more than the pool,
-- and what is left over is less than one point for each winner.
use native.Mathlib.Nat.{lt_of_mul-lt-mul_right}
use potg.Base.{ℕ, ◌+◌, ◌*◌, ◌/◌, ◌≤◌, ◌<◌, List, [], ◌∷◌, arith}
use potg.Base.Rows.{sum_of, length}
use potg.Store.{Stake}
use potg.Betting.{stake_amount}

-- A winner's share of a pool that is not negative.
abbrev pub share : ℕ → ℕ → Stake → ℕ
share pool winning x = x.stake * pool / winning

share_bounds :
    (pool winning stake : ℕ)
    → 0 < winning
    → (stake * pool / winning * winning ≤ stake * pool)
      × (stake * pool < (stake * pool / winning + 1) * winning)
share_bounds pool winning stake h = omega arith

shares_le :
    (pool winning : ℕ) (xs : List Stake)
    → 0 < winning
    → sum_of (share pool winning) xs * winning ≤ sum_of stake_amount xs * pool
shares_le pool winning [] h = omega arith
shares_le pool winning (x ∷ xs) h =
    omega (arith, shares_le pool winning xs h, share_bounds pool winning x.stake h)

shares_ge :
    (pool winning : ℕ) (xs : List Stake)
    → 0 < winning
    → sum_of stake_amount xs * pool + length xs
      ≤ (sum_of (share pool winning) xs + length xs) * winning
shares_ge pool winning [] h = omega arith
shares_ge pool winning (x ∷ xs) h =
    omega (arith, shares_ge pool winning xs h, share_bounds pool winning x.stake h)

-- The winners' shares of a pool add up to at most the pool.
pub shares-le-pool :
    (pool : ℕ) (xs : List Stake)
    → 0 < sum_of stake_amount xs
    → sum_of (share pool (sum_of stake_amount xs)) xs ≤ pool
shares-le-pool pool xs h =
    cancel _ pool (sum_of stake_amount xs) h (shares_le pool (sum_of stake_amount xs) xs h)
  where
    cancel : (t p w : ℕ) → 0 < w → t * w ≤ w * p → t ≤ p
    cancel t p w k e = grind arith

pub length_pos : (xs : List Stake) → 0 < sum_of stake_amount xs → 0 < length xs
length_pos [] h = omega arith
length_pos (x ∷ xs) h = omega arith

-- Rounding loses less than one point for each winner.
pub pool-lt-shares :
    (pool : ℕ) (xs : List Stake)
    → 0 < sum_of stake_amount xs
    → pool < sum_of (share pool (sum_of stake_amount xs)) xs + length xs
pool-lt-shares pool xs h =
    cancel (sum_of (share pool (sum_of stake_amount xs)) xs) pool (sum_of stake_amount xs)
      (length xs) (length_pos xs h) (shares_ge pool (sum_of stake_amount xs) xs h)
  where
    cancel : (t p w n : ℕ) → 0 < n → w * p + n ≤ (t + n) * w → p < t + n
    cancel t p w n k e = lt_of_mul-lt-mul_right w (omega arith)
