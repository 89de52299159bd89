-- ===== src/Settlement.antt =====
-- The settlement and the cancellation of a market: settleMarket and cancelMarket of
-- backend/src/modules/betting/betting.service.ts.
pub mod Payout
pub mod Effects
pub mod Laws
pub mod Bounds
pub mod Success
pub mod Refund
use text.Mathlib.Text.{◌==◌ as str_eq}
use potg.Base.{
  ℕ, suc, String, ◌+◌, ◌-◌, ◌*◌, ◌/◌, Bool, not, ◌||◌, some, List, [], ◌∷◌, ltb, ◌==◌,
  if◌then◌else◌,
}
use potg.Base.Int.{ℤ, pos, negsuc, sub_ℕ, ◌+ℤ◌, ◌-ℤ◌, ltb_ℤ}
use potg.Base.Rows.{select, sum_of, length}
use potg.Base.Tx.{
  Tx, pure, throw, throw_if, get, ◌>>=◌, ◌>>◌, already_settled, cannot_settle, cancel_settled,
  value_too_long,
}
use potg.Base.Texts.{fits}
use potg.Ledger.{mint}
use potg.Store.{
  MarketStatus, won, lost, refunded, is_placed, Market, Stake, Store, on_book, save_market,
  save_stake,
}
use potg.Betting.{market_ref, lock_market_row, on_market, stake_amount}

pub record SettleSummary : Type 0 where
  pub market_id : ℕ
  pub total_pool : ℕ
  pub rake_amount : ℕ
  pub winning_pool : ℕ
  pub winners_count : ℕ
  pub losers_count : ℕ
  pub payout_distributed : ℤ

-- `(totalPool * rakeBps) / 10000n`
unfoldable pub rake_of : ℕ → ℕ → ℕ
rake_of total bps = total * bps / 10000

-- `(stakeAmt * poolAfterRake) / winningPool`: the division of bigints drops the fraction, towards 0.
unfoldable pub payout_of : ℕ → ℤ → ℕ → ℤ
payout_of stake (pos pool) winning = pos (stake * pool / winning)
payout_of stake (negsuc pool) winning = sub_ℕ 0 (stake * suc pool / winning)

abbrev pub wins : String → Stake → Bool
wins option x = str_eq x.side option

-- A payout above 0 is issued.
unfoldable pub pay_winner : ℕ → ℕ → ℤ → Tx Store ℤ
pay_winner market user payout =
    if ltb_ℤ (pos 0) payout
    then (do tx ← on_book (mint user payout "BET_PAYOUT" (market_ref market)); pure payout)
    else pure (pos 0)

-- One round of the loop that pays: what was paid out.
unfoldable pub settle_stake : ℕ → String → ℤ → ℕ → Stake → Tx Store ℤ
settle_stake market option pool winning x =
    let payout = payout_of x.stake pool winning in
    if wins option x
    then (do
      save_stake (record x { status = won; payout = some payout })
      pay_winner market x.user_id payout)
    else (do save_stake (record x { status = lost; payout = some (pos 0) }); pure (pos 0))

unfoldable pub settle_stakes : ℕ → String → ℤ → ℕ → List Stake → ℤ → Tx Store ℤ
settle_stakes market option pool winning [] distributed = pure distributed
settle_stakes market option pool winning (x ∷ xs) distributed = do
  paid ← settle_stake market option pool winning x
  settle_stakes market option pool winning xs (distributed +ℤ paid)

-- The loop where nobody won.
unfoldable pub lose_stakes : List Stake → Tx Store ℤ
lose_stakes [] = pure (pos 0)
lose_stakes (x ∷ xs) = do
  save_stake (record x { status = lost; payout = some (pos 0) })
  lose_stakes xs

-- The part of `settleMarket` behind its status tests. The last save fails where the option is longer
-- than its column.
unfoldable pub pay_market : Market → String → Tx Store SettleSummary
pay_market market option = do
  s ← get
  let rake = rake_of market.total_pool market.rake_bps
  let pool = pos market.total_pool -ℤ pos rake
  let stakes = select (on_market market.id) s.stakes
  let winners = select (wins option) stakes
  let winning = sum_of stake_amount winners
  distributed ←
      (if length winners == 0 || winning == 0
        then lose_stakes stakes
        else settle_stakes market.id option pool winning stakes (pos 0))
  throw_if (not (fits 64 option)) value_too_long
  save_market (record market {
    status = MarketStatus.settled;
    winning_option = some option;
    settled_at = some s.book.now;
  })
  pure (record {
    market_id = market.id;
    total_pool = market.total_pool;
    rake_amount = rake;
    winning_pool = winning;
    winners_count = length winners;
    losers_count = length stakes - length winners;
    payout_distributed = distributed;
  })

unfoldable pub settle_by_status : MarketStatus → Market → String → Tx Store SettleSummary
settle_by_status MarketStatus.locked market option = pay_market market option
settle_by_status MarketStatus.settled market option = throw already_settled
settle_by_status _ market option = throw cannot_settle

-- `settleMarket`
unfoldable pub settle_market : ℕ → String → Tx Store SettleSummary
settle_market i option = do market ← lock_market_row i; settle_by_status market.status market option

pub record CancelSummary : Type 0 where
  pub market_id : ℕ
  pub refunded : ℕ
  pub stakes_count : ℕ

-- An amount above 0 is issued.
unfoldable pub refund_ledger : ℕ → Stake → Tx Store (Unit {0})
refund_ledger market x =
    if ltb 0 x.stake
    then (do tx ← on_book (mint x.user_id (pos x.stake) "BET_REFUND" (market_ref market)); pure tt)
    else pure tt

-- One round of the refund loop: what was refunded. (An amount of 0 is added to no effect.)
unfoldable pub refund_stake : ℕ → Stake → Tx Store ℕ
refund_stake market x = if not (is_placed x.status) then pure 0 else (do
  refund_ledger market x
  save_stake (record x { status = refunded; payout = some (pos x.stake) })
  pure x.stake)

unfoldable pub refund_stakes : ℕ → List Stake → ℕ → Tx Store ℕ
refund_stakes market [] total = pure total
refund_stakes market (x ∷ xs) total = do
  paid ← refund_stake market x
  refund_stakes market xs (total + paid)

unfoldable pub refund_market : Market → Tx Store CancelSummary
refund_market market = do
  s ← get
  let stakes = select (on_market market.id) s.stakes
  refunded_total ← refund_stakes market.id stakes 0
  save_market (record market { status = MarketStatus.cancelled; settled_at = some s.book.now })
  pure (record { market_id = market.id; refunded = refunded_total; stakes_count = length stakes })

unfoldable pub cancel_by_status : MarketStatus → Market → Tx Store CancelSummary
cancel_by_status MarketStatus.cancelled market =
    pure (record { market_id = market.id; refunded = 0; stakes_count = 0 })
cancel_by_status MarketStatus.settled market = throw cancel_settled
cancel_by_status _ market = refund_market market

-- `cancelMarket`
unfoldable pub cancel_market : ℕ → Tx Store CancelSummary
cancel_market i = do market ← lock_market_row i; cancel_by_status market.status market
