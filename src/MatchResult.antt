-- ===== src/MatchResult.antt =====
-- The result and the cancellation of a match: settleMatch and cancelMatch of
-- backend/src/modules/matches/match.service.ts
pub mod Laws
use text.Mathlib.Text.{◌==◌ as str_eq}
use potg.Base.{
  ℕ, suc, String, ◌+◌, ◌≡◌, refl, Bool, true, false, List, [], ◌∷◌, ltb, leb, ◌==◌, if◌then◌else◌,
  not, some, none, ◌||◌, ◌&&◌, Option,
}
use potg.Base.Int.{ℤ, pos, ltb_ℤ}
use potg.Base.Rows.{select, find_one, update_where}
use potg.Base.Texts.{same_uuid}
use potg.Base.Tx.{
  Tx, pure, throw, throw_if, or_throw, get, put, ◌>>=◌, ◌>>◌, not_match_team, bad_placement,
  rank_needs_placements,
}
use potg.Store.{MatchStatus, MarketStatus, MarketType, Match, Team, Market, Store, save_match}
use potg.Settlement.{settle_market, cancel_market, SettleSummary}
use potg.Match.{lock_match_row, assert_transition, set_status}

-- `findOne(Team, { where: { id, matchId } })`: the id is compared as a uuid.
abbrev pub is_team_of : String → ℕ → Team → Bool
is_team_of id match t = same_uuid t.id id && t.match_id == match

unfoldable pub find_team : String → ℕ → Tx Store Team
find_team id match = do s ← get; or_throw (find_one (is_team_of id match) s.teams) not_match_team

abbrev pub save_team : Team → Tx Store (Unit {0})
save_team t = do
  s ← get
  put (record s { teams = update_where (λ u. str_eq u.id t.id) (λ _. t) s.teams })

-- The loop over `Object.entries(placements)`.
unfoldable pub apply_placements : ℕ → List (String × ℤ) → Tx Store (Unit {0})
apply_placements match [] = pure tt
apply_placements match ((team_id, placement) ∷ rest) = do
  throw_if (ltb_ℤ placement (pos 1) || ltb_ℤ (pos 4) placement) bad_placement
  team ← find_team team_id match
  save_team (record team { placement = some placement })
  apply_placements match rest

-- `summary` is null where the market was skipped, and the reason is its status then.
pub record MarketSettlement : Type 0 where
  pub market_id : ℕ
  pub market_type : MarketType
  pub summary : Option SettleSummary
  pub skipped_reason : Option MarketStatus

abbrev pub is_locked : MarketStatus → Bool
is_locked MarketStatus.locked = true
is_locked _ = false

-- The option that a market is settled by: for a RANK market the code takes "1" once there are
-- placements at all.
unfoldable pub winning_option : MarketType → String → Bool → Tx Store String
winning_option MarketType.win winner has_placements = pure winner
winning_option MarketType.rank winner has_placements = do
  throw_if (not has_placements) rank_needs_placements
  pure "1"

unfoldable pub settle_one : String → Bool → Market → Tx Store MarketSettlement
settle_one winner has_placements m =
    if not (is_locked m.status)
    then pure (record {
      market_id = m.id;
      market_type = m.market_type;
      summary = none;
      skipped_reason = some m.status;
    })
    else (do
      option ← winning_option m.market_type winner has_placements
      summary ← settle_market m.id option
      pure (record {
        market_id = m.id;
        market_type = m.market_type;
        summary = some summary;
        skipped_reason = none;
      }))

unfoldable pub settle_all : String → Bool → List Market → Tx Store (List MarketSettlement)
settle_all winner has_placements [] = pure []
settle_all winner has_placements (m ∷ ms) = do
  one ← settle_one winner has_placements m
  rest ← settle_all winner has_placements ms
  pure (one ∷ rest)

abbrev pub market_of : ℕ → Market → Bool
market_of i m = m.match_id == i

-- `settleMatch`. The winner is stored in a column of type uuid, which gives it back as the team's id.
unfoldable pub settle_match :
    ℕ → String → Option (List (String × ℤ)) → Tx Store (Match × List MarketSettlement)
settle_match i winner placements = do
  m ← lock_match_row i
  assert_transition m.status MatchStatus.settled
  team ← find_team winner m.id
  elim placements [ none ↦ pure tt | some ps ↦ apply_placements m.id ps ]
  s ← get
  let done : Match = record m {
    winner_team_id = some winner;
    status = MatchStatus.settled;
    settled_at = some s.book.now;
  }
  save_match (record done { winner_team_id = some team.id })
  t ← get
  settlements ←
      settle_all winner (elim placements [ none ↦ false | some _ ↦ true ])
        (select (market_of m.id) t.markets)
  pure (done, settlements)

abbrev pub is_final : MarketStatus → Bool
is_final MarketStatus.settled = true
is_final MarketStatus.cancelled = true
is_final _ = false

unfoldable pub cancel_markets : List Market → Tx Store (Unit {0})
cancel_markets [] = pure tt
cancel_markets (m ∷ ms) = do
  (if is_final m.status then pure tt else (do refund ← cancel_market m.id; pure tt))
  cancel_markets ms

-- `cancelMatch`
unfoldable pub cancel_match : ℕ → Tx Store Match
cancel_match i = do
  m ← lock_match_row i
  moved ← set_status m MatchStatus.cancelled
  s ← get
  cancel_markets (select (market_of m.id) s.markets)
  pure moved
