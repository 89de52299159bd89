-- ===== src/AuctionTables.antt =====
-- The tables of auctions, and the queries that the bidding service makes of them:
-- backend/src/modules/auctions/entities and auctions/services/auctions-bidding.service.ts
use potg.Base.{
  ℕ, ◌+◌, Bool, true, false, not, ◌&&◌, Option, none, some, List, [], ◌∷◌, leb, ◌==◌, if◌then◌else◌,
}
use potg.Base.Int.{ℤ}
use potg.Base.Rows.{select, sum_of}

pub data AuctionStatus : Type 0 where
  pending ongoing paused assigning completed cancelled : AuctionStatus

pub data BiddingPhase : Type 0 where
  waiting bidding sold : BiddingPhase

pub data AuctionRole : Type 0 where
  captain player spectator : AuctionRole

-- Ids are users' ids; a time is in milliseconds, `turn_time_limit` and `paused_time_remaining` in
-- seconds.
pub record AuctionRow : Type 0 where
  pub id : ℕ
  pub creator_id : ℕ
  pub status : AuctionStatus
  pub starting_points : ℕ
  pub turn_time_limit : ℕ
  pub team_count : ℕ
  pub current_player : Option ℕ
  pub current_end_time : Option ℕ
  pub phase : BiddingPhase
  pub timer_paused : Bool
  pub paused_time_remaining : Option ℕ

pub record Participant : Type 0 where
  pub id : ℕ
  pub auction_id : ℕ
  pub user_id : ℕ
  pub role : AuctionRole
  pub current_points : ℤ
  pub assigned_captain : Option ℕ
  pub sold_price : ℕ
  pub was_unsold : Bool

-- An amount is a whole number of at least 1: `placeBidWithValidation` refuses anything less.
pub record Bid : Type 0 where
  pub id : ℕ
  pub auction_id : ℕ
  pub bidder_id : ℕ
  pub target_id : ℕ
  pub amount : ℕ
  pub is_active : Bool

pub record Auctions : Type 0 where
  pub auctions : List AuctionRow
  pub participants : List Participant
  pub bids : List Bid
  pub now : ℕ

abbrev pub auction_key : AuctionRow → ℕ
auction_key a = a.id

abbrev pub participant_key : Participant → ℕ
participant_key p = p.id

abbrev pub bid_amount : Bid → ℕ
bid_amount b = b.amount

abbrev pub is_ongoing : AuctionStatus → Bool
is_ongoing ongoing = true
is_ongoing _ = false

abbrev pub is_sold : BiddingPhase → Bool
is_sold sold = true
is_sold _ = false

abbrev pub is_captain : AuctionRole → Bool
is_captain captain = true
is_captain _ = false

abbrev pub is_player : AuctionRole → Bool
is_player player = true
is_player _ = false

abbrev pub is_assigned : Option Participant → Bool
is_assigned none = false
is_assigned (some p) = elim p.assigned_captain [ none ↦ false | some _ ↦ true ]

-- `findOne(AuctionParticipant, { where: { auctionId, userId } })`
abbrev pub is_member : ℕ → ℕ → Participant → Bool
is_member auction user p = p.auction_id == auction && p.user_id == user

-- The active bids on a player, by a bidder, and by a bidder on a player.
abbrev pub active_on : ℕ → ℕ → Bid → Bool
active_on auction target b = b.is_active && b.auction_id == auction && b.target_id == target

abbrev pub active_by : ℕ → ℕ → Bid → Bool
active_by auction bidder b = b.is_active && b.auction_id == auction && b.bidder_id == bidder

abbrev pub active_by_on : ℕ → ℕ → ℕ → Bid → Bool
active_by_on auction bidder target b = active_by auction bidder b && b.target_id == target

abbrev pub deactivate : Bid → Bid
deactivate b = record b { is_active = false }

-- `order: { amount: 'DESC' }`, the first row; of equal amounts the first that the table has.
abbrev pub highest : List Bid → Option Bid
highest [] = none
highest (b ∷ bs) = elim (highest bs) [
  | none ↦ some b
  | some c ↦ if leb c.amount b.amount then some b else some c
]

abbrev pub min_bid_amount : Option Bid → ℕ
min_bid_amount none = 1
min_bid_amount (some b) = b.amount + 1

-- What the bidder's active bids on other players add up to.
abbrev pub other_bids_total : ℕ → ℕ → ℕ → List Bid → ℕ
other_bids_total auction bidder target bs =
    sum_of bid_amount
      (select (λ b. not (b.target_id == target)) (select (active_by auction bidder) bs))
