-- ===== src/Store.antt =====
-- The tables behind matches and betting: backend/src/modules/matches/entities,
-- backend/src/modules/matches/enums and backend/src/modules/betting/entities.
use potg.Base.{◌≡◌, inl, inr, arith, ℕ, String, Bool, true, false, Option, List}
use potg.Base.Int.{ℤ}
use potg.Base.Keyed.{save_by}
use potg.Base.Tx.{Result-cases, Tx, ok, err}
use potg.Ledger.{Book}

pub data MatchStatus : Type 0 where
  draft betting_open locked settled cancelled : MatchStatus

abbrev pub same_status : MatchStatus → MatchStatus → Bool
same_status MatchStatus.draft MatchStatus.draft = true
same_status MatchStatus.betting_open MatchStatus.betting_open = true
same_status MatchStatus.locked MatchStatus.locked = true
same_status MatchStatus.settled MatchStatus.settled = true
same_status MatchStatus.cancelled MatchStatus.cancelled = true
same_status _ _ = false

pub data MarketType : Type 0 where
  win rank : MarketType

pub data MarketStatus : Type 0 where
  opened locked settled cancelled : MarketStatus

pub data StakeStatus : Type 0 where
  placed won lost refunded : StakeStatus

abbrev pub is_placed : StakeStatus → Bool
is_placed placed = true
is_placed _ = false

-- Row ids are numbers that are only compared. A team's id is also the text of a stake's side, so it
-- is a text.
pub record Match : Type 0 where
  pub id : ℕ
  pub title : String
  pub status : MatchStatus
  pub winner_team_id : Option String
  pub settled_at : Option ℕ

pub record Team : Type 0 where
  pub id : String
  pub match_id : ℕ
  pub name : String
  pub placement : Option ℤ

-- `total_pool` starts at 0 and only grows by checked amounts, and `rake_bps` has a minimum of 0.
pub record Market : Type 0 where
  pub id : ℕ
  pub match_id : ℕ
  pub market_type : MarketType
  pub status : MarketStatus
  pub total_pool : ℕ
  pub rake_bps : ℕ
  pub winning_option : Option String
  pub locked_at : Option ℕ
  pub settled_at : Option ℕ

-- `stake` is a sum of checked amounts; `payout` is what the settlement computed, of any sign.
pub record Stake : Type 0 where
  pub id : ℕ
  pub market_id : ℕ
  pub user_id : ℕ
  pub side : String
  pub stake : ℕ
  pub payout : Option ℤ
  pub status : StakeStatus

pub record Store : Type 0 where
  pub book : Book
  pub matches : List Match
  pub teams : List Team
  pub markets : List Market
  pub stakes : List Stake

abbrev pub match_id_of : Match → ℕ
match_id_of m = m.id

abbrev pub market_id_of : Market → ℕ
market_id_of m = m.id

abbrev pub stake_id_of : Stake → ℕ
stake_id_of s = s.id

-- A ledger call inside the caller's transaction (`manager` passed on).
abbrev pub on_book : {A : Type 0} → Tx Book A → Tx Store A
on_book m s = elim (m s.book) [ ok (a, b) ↦ ok (a, record s { book = b }) | err e ↦ err e ]

abbrev pub save_match : Match → Tx Store (Unit {0})
save_match m s = ok (tt, record s { matches = save_by match_id_of m s.matches })

abbrev pub save_market : Market → Tx Store (Unit {0})
save_market m s = ok (tt, record s { markets = save_by market_id_of m s.markets })

abbrev pub save_stake : Stake → Tx Store (Unit {0})
save_stake x s = ok (tt, record s { stakes = save_by stake_id_of x s.stakes })

-- A ledger call that returned wrote the ledger alone.
pub on_book_inv :
    {A : Type 0} (m : Tx Book A) (s t : Store) (a : A)
    → on_book m s ≡ ok (a, t)
    → (m s.book ≡ ok (a, t.book)) × (t ≡ record s { book = t.book })
on_book_inv m s t a e = elim (Result-cases (m s.book)) [
  | inl ((x, b), f) ↦ (ground arith, ground arith)
  | inr (x, f) ↦ absurd (ground arith)
]
