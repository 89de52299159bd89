-- ===== src/Betting.antt =====
-- backend/src/modules/betting/betting.service.ts
pub mod Place
pub mod Pools
use Prim.Native.Char.{code}
use text.Mathlib.Text.{◌==◌ as str_eq}
use potg.Base.{
  ℕ, zero, suc, String, ◌+◌, Bool, true, false, not, ◌&&◌, ◌||◌, Option, none, some, List, [], ◌∷◌,
  leb, ◌==◌,
}
use potg.Base.Int.{ℤ, pos, pos_part, leb_ℤ}
use potg.Base.Rows.{find_one, any_of}
use potg.Base.Keyed.{find_by}
use potg.Base.Tx.{
  Tx, pure, throw, throw_if, or_throw, get, put, ◌>>=◌, ◌>>◌, amount_not_positive, match_not_found,
  market_exists, market_not_found, betting_closed_market, betting_closed_match, side_not_uuid,
  side_not_rank, cannot_lock,
}
use potg.Ledger.{Opts, burn}
use potg.Store.{
  MatchStatus, MarketType, MarketStatus, opened, placed, Match, Market, Stake, Store, match_id_of,
  market_id_of, on_book, save_market, save_stake, same_status,
}

abbrev pub same_type : MarketType → MarketType → Bool
same_type MarketType.win MarketType.win = true
same_type MarketType.rank MarketType.rank = true
same_type _ _ = false

abbrev pub is_open : MarketStatus → Bool
is_open opened = true
is_open _ = false

-- `{ refType: 'BettingMarket', refId }`, with no idempotency key.
abbrev pub market_ref : ℕ → Opts
market_ref i = record { ref_type = some "BettingMarket"; ref_id = some i; idempotency_key = none }

-- `createMarket`: `new_id` is the id that the database gives the row.
unfoldable pub create_market : ℕ → MarketType → Option ℕ → ℕ → Tx Store Market
create_market match_id type rake_bps new_id = do
  s ← get
  match ← or_throw (find_by match_id_of match_id s.matches) match_not_found
  let existing =
      any_of (λ (m : Market). m.match_id == match_id && same_type m.market_type type) s.markets
  throw_if existing market_exists
  let market : Market = record {
    id = new_id;
    match_id = match_id;
    market_type = type;
    status = opened;
    total_pool = 0;
    rake_bps = elim rake_bps [ none ↦ 500 | some r ↦ r ];
    winning_option = none;
    locked_at = none;
    settled_at = none;
  }
  put (record s { markets = market ∷ s.markets })
  pure market

unfoldable pub lock_market_row : ℕ → Tx Store Market
lock_market_row i = do s ← get; or_throw (find_by market_id_of i s.markets) market_not_found

unfoldable pub assert_open_for_staking : Market → Match → Tx Store (Unit {0})
assert_open_for_staking market match = do
  throw_if (not (is_open market.status)) betting_closed_market
  throw_if (not (same_status match.status MatchStatus.betting_open)) betting_closed_match

-- The code points of a text.
abbrev pub codes : String → List ℕ
codes String.[] = []
codes (String.◌∷◌ c s) = code c ∷ codes s

abbrev pub is_hex : ℕ → Bool
is_hex c = leb b'0' c && leb c b'9' || leb b'a' c && leb c b'f' || leb b'A' c && leb c b'F'

-- The regular expression `/^[0-9a-f]{8}-[0-9a-f]{4}-…$/i`: groups of hexadecimal digits of the
-- given lengths, a dash between them, and nothing after the last.
unfoldable pub hex_groups : ℕ → List ℕ → List ℕ → Bool
hex_groups (suc n) gs [] = false
hex_groups (suc n) gs (c ∷ cs) = is_hex c && hex_groups n gs cs
hex_groups zero [] cs = elim cs [ [] ↦ true | _ ∷ _ ↦ false ]
hex_groups zero (g ∷ gs) [] = false
hex_groups zero (g ∷ gs) (c ∷ cs) = c == b'-' && hex_groups g gs cs

unfoldable pub is_uuid : String → Bool
unfolding hex_groups
is_uuid side = hex_groups 8 (4 ∷ 4 ∷ 4 ∷ 12 ∷ []) (codes side)

unfoldable pub is_placement : String → Bool
is_placement side = str_eq side "1" || str_eq side "2" || str_eq side "3" || str_eq side "4"

unfoldable pub validate_side : MarketType → String → Tx Store (Unit {0})
validate_side MarketType.win side = throw_if (not (is_uuid side)) side_not_uuid
validate_side MarketType.rank side = throw_if (not (is_placement side)) side_not_rank

unfoldable pub find_match : ℕ → Tx Store Match
find_match i = do s ← get; or_throw (find_by match_id_of i s.matches) match_not_found

-- `findOne(BettingStake, { where: { marketId, userId, side } })`
abbrev pub is_stake_of : ℕ → ℕ → String → Stake → Bool
is_stake_of market user side x = x.market_id == market && x.user_id == user && str_eq x.side side

abbrev pub on_market : ℕ → Stake → Bool
on_market i x = x.market_id == i

abbrev pub stake_amount : Stake → ℕ
stake_amount x = x.stake

-- The row is enlarged, or made with the id that the database gives it.
unfoldable pub add_to_stake : ℕ → ℕ → String → ℕ → ℕ → Tx Store Stake
add_to_stake market user side amount new_id s =
    elim (find_one (is_stake_of market user side) s.stakes) [
      | some old ↦
          let grown : Stake = record old { stake = old.stake + amount } in
          (save_stake grown >> pure grown) s
      | none ↦
          let created : Stake = record {
            id = new_id;
            market_id = market;
            user_id = user;
            side = side;
            stake = amount;
            payout = none;
            status = placed;
          } in
          pure created (record s { stakes = created ∷ s.stakes })
    ]

-- `placeStake`. `amount` is a whole number: a fraction is refused by the same test.
unfoldable pub place_stake : ℕ → ℕ → String → ℤ → ℕ → Tx Store Stake
place_stake market_id user_id side amount new_id = do
  throw_if (leb_ℤ amount (pos 0)) amount_not_positive
  market ← lock_market_row market_id
  match ← find_match market.match_id
  assert_open_for_staking market match
  validate_side market.market_type side
  tx ← on_book (burn user_id amount "BET_STAKE" (market_ref market.id))
  row ← add_to_stake market.id user_id side (pos_part amount) new_id
  save_market (record market { total_pool = market.total_pool + pos_part amount })
  pure row

unfoldable pub lock_by_status : MarketStatus → Market → Tx Store Market
lock_by_status MarketStatus.locked market = pure market
lock_by_status opened market = do
  s ← get
  let done : Market = record market { status = MarketStatus.locked; locked_at = some s.book.now }
  save_market done
  pure done
lock_by_status _ market = throw cannot_lock

-- `lockMarket`: a market that is locked already is left as it is.
unfoldable pub lock_market : ℕ → Tx Store Market
lock_market i = do market ← lock_market_row i; lock_by_status market.status market
