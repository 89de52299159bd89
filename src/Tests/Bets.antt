-- ===== src/Tests/Bets.antt =====
-- Runs of a market and the stakes on it.
use potg.Base.{ℕ, String, ◌+◌, ◌≤◌, ◌<◌, ◌≡◌, refl, none, some, [], ◌∷◌, arith}
use potg.Base.Int.{pos, ◌+ℤ◌, ◌-ℤ◌}
use potg.Base.Keyed.{find_by}
use potg.Base.Tx.{Result, ok, err, already_settled}
use potg.Ledger.{transfer, run, debit, credit, save_tx, mint, burn}
use potg.Store.{
  MatchStatus, MarketStatus, MarketType, StakeStatus, Match, Market, Stake, Store, market_id_of,
}
use potg.Betting.{
  place_stake, lock_market_row, find_match, assert_open_for_staking, validate_side, is_uuid,
  hex_groups, add_to_stake,
}
use potg.Betting.Place.{Passed}
use potg.Betting.Pools.{PoolsMatch, Placed, place_stake-Placed}
use potg.Settlement.{
  SettleSummary, CancelSummary, settle_market, settle_by_status, pay_market, settle_stakes,
  settle_stake, pay_winner, payout_of, rake_of, cancel_market, cancel_by_status, refund_market,
  refund_stakes, refund_stake, refund_ledger,
}
use potg.Settlement.Laws.{Settled, settle_market-Settled, settle_market_once}
use potg.Settlement.Bounds.{settle_market_payout}
use potg.Settlement.Success.{settle_market_succeeds}
use potg.Settlement.Refund.{Cancelled, cancel_market-Cancelled}
use potg.Tests.Money.{book, book-IsSound}

abbrev pub red : String
red = "00000000-0000-4000-8000-00000000000a"

abbrev pub blue : String
blue = "00000000-0000-4000-8000-00000000000b"

abbrev stake_of : ℕ → ℕ → String → ℕ → Stake
stake_of i u side x = record {
  id = i;
  market_id = 4;
  user_id = u;
  side = side;
  stake = x;
  payout = none;
  status = StakeStatus.placed;
}

abbrev pub a_match : MatchStatus → Match
a_match st = record {
  id = 3;
  title = "scrim";
  status = st;
  winner_team_id = none;
  settled_at = none;
}

abbrev pub a_market : MarketStatus → Market
a_market st = record {
  id = 4;
  match_id = 3;
  market_type = MarketType.win;
  status = st;
  total_pool = 101;
  rake_bps = 500;
  winning_option = none;
  locked_at = none;
  settled_at = none;
}

-- A match with one market and two stakes.
abbrev pub store_in : MatchStatus → MarketStatus → Store
store_in ms st = record {
  book = book;
  matches = a_match ms ∷ [];
  teams =
      record { id = red; match_id = 3; name = "red"; placement = none }
      ∷ record { id = blue; match_id = 3; name = "blue"; placement = none }
      ∷ [];
  markets = a_market st ∷ [];
  stakes = stake_of 8 1 red 60 ∷ stake_of 9 2 blue 41 ∷ [];
}

abbrev pub open_store : Store
open_store = store_in MatchStatus.betting_open MarketStatus.opened

abbrev pub locked_store : Store
locked_store = store_in MatchStatus.locked MarketStatus.locked

abbrev pub settled_store : Store
settled_store = store_in MatchStatus.settled MarketStatus.settled

-- The store that a run leaves, and what it returns.
abbrev pub after : {A : Type 0} → Store → Result (A × Store) → Store
after s (ok (a, t)) = t
after s (err e) = s

abbrev value : {A : Type 0} → A → Result (A × Store) → A
value d (ok (a, t)) = a
value d (err e) = d

abbrev placed_store : Store
placed_store = after open_store (place_stake 4 1 blue (pos 10) 10 open_store)

abbrev placed_row : Stake
placed_row = stake_of 10 1 blue 10

placed_run : place_stake 4 1 blue (pos 10) 10 open_store ≡ ok (placed_row, placed_store)
unfolding place_stake lock_market_row find_match assert_open_for_staking validate_side is_uuid
    hex_groups add_to_stake burn transfer run debit credit save_tx ◌+ℤ◌ ◌-ℤ◌
placed_run = refl

open_store-PoolsMatch : PoolsMatch open_store
open_store-PoolsMatch = record {
  market_ids = ground arith;
  stake_ids = ground arith;
  pools = λ i m e. ground arith;
}

place_stake-Placed_example :
    (m : Market) × Passed 4 1 blue (pos 10) open_store m placed_store.book
    × Placed 4 1 blue (pos 10) open_store placed_store placed_row
place_stake-Placed_example =
    place_stake-Placed 4 1 blue (pos 10) 10 open_store placed_store placed_row book-IsSound
      open_store-PoolsMatch refl placed_run

-- The rake of 101 is 5; the winner's 60 get all of the other 96.
abbrev pub paid_summary : SettleSummary
paid_summary = record {
  market_id = 4;
  total_pool = 101;
  rake_amount = 5;
  winning_pool = 60;
  winners_count = 1;
  losers_count = 1;
  payout_distributed = pos 96;
}

abbrev paid_store : Store
paid_store = after locked_store (settle_market 4 red locked_store)

paid_run : settle_market 4 red locked_store ≡ ok (paid_summary, paid_store)
unfolding settle_market lock_market_row settle_by_status pay_market settle_stakes settle_stake
    pay_winner payout_of rake_of mint transfer run debit credit save_tx ◌+ℤ◌ ◌-ℤ◌
paid_run = refl

settle_market-Settled_example :
    (m : Market) × (find_by market_id_of 4 locked_store.markets ≡ some m)
    × (m.status ≡ MarketStatus.locked)
    × Settled m red locked_store paid_store paid_summary
settle_market-Settled_example =
    settle_market-Settled 4 red locked_store paid_store paid_summary book-IsSound paid_run

settle_market_payout_example :
    (d : ℕ) × (pos 96 ≡ pos d) × (d + 5 ≤ 101) × (0 < 60 → 101 < d + 5 + 1)
settle_market_payout_example =
    settle_market_payout 4 red locked_store paid_store paid_summary (a_market MarketStatus.locked)
      book-IsSound paid_run refl (omega arith)

settle_market_once_example : settle_market 4 blue paid_store ≡ err already_settled
settle_market_once_example =
    settle_market_once 4 red blue locked_store paid_store paid_summary book-IsSound paid_run

settle_market_succeeds_example :
    (r : SettleSummary) × (t : Store) × (settle_market 4 blue locked_store ≡ ok (r, t))
settle_market_succeeds_example =
    settle_market_succeeds 4 blue locked_store (a_market MarketStatus.locked) book-IsSound refl refl
      (
        omega arith,
        (record { id = 1; points_balance = pos 100 }, refl),
        (omega arith, (record { id = 2; points_balance = pos 50 }, refl), tt),
      )
      refl

abbrev refund_store : Store
refund_store = after open_store (cancel_market 4 open_store)

abbrev cancel_summary : CancelSummary
cancel_summary = record { market_id = 4; refunded = 101; stakes_count = 2 }

cancel_run : cancel_market 4 open_store ≡ ok (cancel_summary, refund_store)
unfolding cancel_market lock_market_row cancel_by_status refund_market refund_stakes refund_stake
    refund_ledger mint transfer run debit credit save_tx ◌+ℤ◌ ◌-ℤ◌
cancel_run = refl

cancel_market-Cancelled_example :
    Cancelled (a_market MarketStatus.opened) open_store refund_store cancel_summary
cancel_market-Cancelled_example =
    cancel_market-Cancelled 4 open_store refund_store (a_market MarketStatus.opened) cancel_summary
      book-IsSound refl refl cancel_run
