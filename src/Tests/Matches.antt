-- ===== src/Tests/Matches.antt =====
-- Runs of a match.
use potg.Base.{ℕ, ◌≡◌, refl, ◌↔◌, false, none, some, List, [], ◌∷◌}
use potg.Base.Int.{◌+ℤ◌, ◌-ℤ◌}
use potg.Base.Rows.{find_one}
use potg.Base.Keyed.{find_by}
use potg.Base.Tx.{ok, err, bad_transition}
use potg.Ledger.{transfer, run, debit, credit, save_tx, mint}
use potg.Store.{MatchStatus, MarketType, Match, Team, Market, Store, match_id_of, market_id_of}
use potg.Betting.{lock_market_row, lock_market, lock_by_status}
use potg.Settlement.{
  settle_market, settle_by_status, pay_market, settle_stakes, settle_stake, pay_winner, payout_of,
  rake_of,
}
use potg.Match.{
  lock_match, open_betting, set_status, assert_transition, lock_match_row, lock_markets,
  open_market_of,
}
use potg.Match.Lock.{lock_match_closes}
use potg.Match.Transitions.{◌⟶◌, assert_transition_iff, over_refused}
use potg.MatchResult.{
  settle_match, MarketSettlement, settle_all, settle_one, winning_option, find_team, is_team_of,
  cancel_match,
}
use potg.MatchResult.Laws.{paid_by_all, settle_match_pays}
use potg.Ledger.Users.{total_balance}
use potg.Ledger.Integrity.{IsSound}
use potg.Tests.Money.{book-IsSound}
use potg.Tests.Bets.{red, a_match, open_store, locked_store, settled_store, after, paid_summary}

-- The red team wins; its backer is paid 96.
abbrev outcome : Match × List MarketSettlement
outcome = (
  record (a_match MatchStatus.settled) { winner_team_id = some red; settled_at = some 9 },
  record {
    market_id = 4;
    market_type = MarketType.win;
    summary = some paid_summary;
    skipped_reason = none;
  }
      ∷ [],
)

abbrev finished_store : Store
finished_store = after locked_store (settle_match 3 red none locked_store)

finished_run : settle_match 3 red none locked_store ≡ ok (outcome, finished_store)
unfolding settle_match lock_match_row assert_transition find_team settle_all settle_one
    winning_option settle_market lock_market_row settle_by_status pay_market settle_stakes
    settle_stake pay_winner payout_of rake_of mint transfer run debit credit save_tx ◌+ℤ◌ ◌-ℤ◌
finished_run = refl

settle_match_pays_example :
    (m : Match) × (find_by match_id_of 3 locked_store.matches ≡ some m)
    × (m.status ≡ MatchStatus.locked)
    × ((w : Team) × (find_one (is_team_of red 3) locked_store.teams ≡ some w)
        × (find_by match_id_of 3 finished_store.matches
            ≡ some (record outcome.0 { winner_team_id = some w.id })))
    × (MatchStatus.settled ≡ MatchStatus.settled)
    × (some red ≡ some red)
    × IsSound finished_store.book
    × (total_balance finished_store.book.users
        ≡ total_balance locked_store.book.users +ℤ paid_by_all outcome.1)
settle_match_pays_example =
    settle_match_pays 3 red none locked_store finished_store outcome book-IsSound finished_run

abbrev closed_store : Store
closed_store = after open_store (lock_match 3 open_store)

closed_run : lock_match 3 open_store ≡ ok (a_match MatchStatus.locked, closed_store)
unfolding lock_match lock_match_row set_status assert_transition lock_markets lock_market
    lock_market_row lock_by_status
closed_run = refl

lock_match_closes_example :
    (MatchStatus.locked ≡ MatchStatus.locked)
    × (find_by match_id_of 3 closed_store.matches ≡ some (a_match MatchStatus.locked))
    × ((j : ℕ) (g : Market)
        → find_by market_id_of j closed_store.markets ≡ some g
        → open_market_of 3 g ≡ false)
lock_match_closes_example =
    lock_match_closes 3 open_store closed_store (a_match MatchStatus.locked) closed_run

assert_transition_iff_example :
    (assert_transition MatchStatus.draft MatchStatus.locked open_store ≡ ok (tt, open_store))
    ↔ (MatchStatus.draft ⟶ MatchStatus.locked)
assert_transition_iff_example =
    assert_transition_iff MatchStatus.draft MatchStatus.locked open_store

over_refused_example :
    (open_betting 3 settled_store ≡ err bad_transition)
    × (lock_match 3 settled_store ≡ err bad_transition)
    × (settle_match 3 red none settled_store ≡ err bad_transition)
    × (cancel_match 3 settled_store ≡ err bad_transition)
over_refused_example = over_refused 3 red none settled_store (a_match MatchStatus.settled) refl refl
