-- ===== src/Match.antt =====
-- backend/src/modules/matches/match.service.ts and the transition table of
-- backend/src/modules/matches/enums/match-status.enum.ts
pub mod Transitions
pub mod Lock
use text.Mathlib.Text.{◌==◌ as str_eq}
use potg.Base.{
  ℕ, suc, String, ◌+◌, ◌-◌, ◌≤◌, ◌<◌, ◌≡◌, refl, Bool, true, false, List, [], ◌∷◌, ltb, leb, ◌==◌,
  if◌then◌else◌, not, some, none, ◌||◌, ◌&&◌, Option,
}
use potg.Base.Int.{ℤ, pos, ltb_ℤ}
use potg.Base.Rows.{select, find_one, any_of, all_of, length, update_where}
use potg.Base.Keyed.{find_by}
use potg.Base.Tx.{
  Tx, pure, throw, throw_if, or_throw, get, put, ◌>>=◌, ◌>>◌, match_not_found, title_required,
  too_few_options, bad_transition, not_match_team, bad_placement, rank_needs_placements,
}
use potg.Store.{
  MatchStatus, MarketStatus, MarketType, same_status, Match, Team, Market, Store, match_id_of,
  save_match,
}
use potg.Betting.{codes, create_market, lock_market, is_open}
use potg.Settlement.{settle_market, cancel_market, SettleSummary, CancelSummary}

-- `MATCH_STATUS_TRANSITIONS`
abbrev pub match_status_transitions : MatchStatus → List MatchStatus
match_status_transitions MatchStatus.draft = MatchStatus.betting_open ∷ MatchStatus.cancelled ∷ []
match_status_transitions MatchStatus.betting_open = MatchStatus.locked ∷ MatchStatus.cancelled ∷ []
match_status_transitions MatchStatus.locked = MatchStatus.settled ∷ MatchStatus.cancelled ∷ []
match_status_transitions MatchStatus.settled = []
match_status_transitions MatchStatus.cancelled = []

abbrev pub is_allowed : MatchStatus → MatchStatus → Bool
is_allowed from to = any_of (same_status to) (match_status_transitions from)

unfoldable pub assert_transition : MatchStatus → MatchStatus → Tx Store (Unit {0})
assert_transition from to = throw_if (not (is_allowed from to)) bad_transition

unfoldable pub lock_match_row : ℕ → Tx Store Match
lock_match_row i = do s ← get; or_throw (find_by match_id_of i s.matches) match_not_found

-- The white space that JavaScript's `trim` removes.
abbrev pub is_space : ℕ → Bool
is_space c =
    leb 9 c && leb c 13
    || c == 32
    || c == 160
    || c == 0x1680
    || leb 0x2000 c && leb c 0x200a
    || c == 0x2028
    || c == 0x2029
    || c == 0x202f
    || c == 0x205f
    || c == 0x3000
    || c == 0xfeff

-- `!title?.trim()`
unfoldable pub is_blank : String → Bool
is_blank title = all_of is_space (codes title)

abbrev pub new_match : String → ℕ → Match
new_match title new_id = record {
  id = new_id;
  title = title;
  status = MatchStatus.draft;
  winner_team_id = none;
  settled_at = none;
}

abbrev pub add_match : Match → Tx Store Match
add_match m = do s ← get; put (record s { matches = m ∷ s.matches }); pure m

abbrev pub add_team : Team → Tx Store Team
add_team m = do s ← get; put (record s { teams = m ∷ s.teams }); pure m

-- `create`; the schedule and the description are not kept.
unfoldable pub create : String → ℕ → Tx Store Match
create title new_id = do
  throw_if (is_blank title) title_required
  add_match (new_match title new_id)

-- `findOrFail`: as `lockMatchRow`, with no lock.
unfoldable pub find_or_fail : ℕ → Tx Store Match
find_or_fail i = do s ← get; or_throw (find_by match_id_of i s.matches) match_not_found

-- `createTeam`; `new_id` is the id that the database gives the row.
unfoldable pub create_team : ℕ → String → String → Tx Store Team
create_team match_id name new_id = do
  m ← find_or_fail match_id
  add_team (record { id = new_id; match_id = m.id; name = name; placement = none })

unfoldable pub set_status : Match → MatchStatus → Tx Store Match
set_status m to = do
  assert_transition m.status to
  let moved : Match = record m { status = to }
  save_match moved
  pure moved

unfoldable pub open_betting : ℕ → Tx Store Match
open_betting i = do m ← lock_match_row i; set_status m MatchStatus.betting_open

-- The teams of a new match, one for each option, under the ids that the database gives them.
unfoldable pub create_teams : ℕ → List (String × String) → Tx Store (List Team)
create_teams match_id [] = pure []
create_teams match_id ((name, new_id) ∷ rest) = do
  team ← add_team (record { id = new_id; match_id = match_id; name = name; placement = none })
  teams ← create_teams match_id rest
  pure (team ∷ teams)

-- `createBettingScenario`: the options come with the ids of their teams.
unfoldable pub create_betting_scenario :
    String
    → List (String × String)
    → Option MarketType
    → Option ℕ
    → ℕ
    → ℕ
    → Tx Store (Match × List Team × Market)
create_betting_scenario title options type rake_bps match_new market_new = do
  throw_if (is_blank title) title_required
  throw_if (ltb (length options) 2) too_few_options
  m ← add_match (new_match title match_new)
  teams ← create_teams m.id options
  moved ← set_status m MatchStatus.betting_open
  market ← create_market m.id (elim type [ none ↦ MarketType.win | some y ↦ y ]) rake_bps market_new
  pure (moved, teams, market)

-- `for (const market of openMarkets) await lockMarket(market.id)`
unfoldable pub lock_markets : List Market → Tx Store (Unit {0})
lock_markets [] = pure tt
lock_markets (m ∷ ms) = do locked ← lock_market m.id; lock_markets ms

abbrev pub open_market_of : ℕ → Market → Bool
open_market_of i m = m.match_id == i && is_open m.status

unfoldable pub lock_match : ℕ → Tx Store Match
lock_match i = do
  m ← lock_match_row i
  moved ← set_status m MatchStatus.locked
  s ← get
  lock_markets (select (open_market_of m.id) s.markets)
  pure moved
