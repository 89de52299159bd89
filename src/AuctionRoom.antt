-- ===== src/AuctionRoom.antt =====
-- What the page of an auction shows: getRoomState of
-- backend/src/modules/auctions/services/auctions-room-state.service.ts
pub mod Shown
use potg.Base.{
  ℕ, Bool, true, false, not, ◌&&◌, Option, none, some, List, [], ◌∷◌, map, ◌==◌, same_id,
  if◌then◌else◌,
}
use potg.Base.Int.{ℤ}
use potg.Base.Rows.{select, find_one}
use potg.Base.Keyed.{find_by}
use potg.Base.Tx.{Tx, pure, or_throw, get, ◌>>=◌, ◌>>◌, auction_not_found}
use potg.AuctionTables.{
  AuctionRow, Participant, Bid, Auctions, auction_key, is_captain, is_player, is_assigned, highest,
}

-- The views, less names, roles and pictures of users.
pub record TeamMember : Type 0 where
  pub id : ℕ
  pub price : ℕ
  pub was_unsold : Bool

pub record TeamView : Type 0 where
  pub captain_id : ℕ
  pub points : ℤ
  pub members : List TeamMember

pub record BidView : Type 0 where
  pub bidder_id : ℕ
  pub amount : ℕ

pub record UnsoldPlayer : Type 0 where
  pub id : ℕ
  pub was_unsold : Bool

pub record RoomState : Type 0 where
  pub auction : AuctionRow
  pub participants : List Participant
  pub current_bid : Option BidView
  pub current_player : Option ℕ
  pub teams : List TeamView
  pub unsold_players : List UnsoldPlayer

-- The relations of the auction's row.
abbrev pub participants_of : ℕ → List Participant → List Participant
participants_of i ps = select (λ p. p.auction_id == i) ps

abbrev pub bids_of : ℕ → List Bid → List Bid
bids_of i bs = select (λ b. b.auction_id == i) bs

abbrev pub is_team_member : ℕ → Participant → Bool
is_team_member captain p = is_player p.role && same_id p.assigned_captain (some captain)

abbrev pub member_view : Participant → TeamMember
member_view p = record { id = p.user_id; price = p.sold_price; was_unsold = p.was_unsold }

abbrev pub team_view : List Participant → Participant → TeamView
team_view ps captain = record {
  captain_id = captain.user_id;
  points = captain.current_points;
  members = map member_view (select (is_team_member captain.user_id) ps);
}

abbrev pub bid_view : Bid → BidView
bid_view b = record { bidder_id = b.bidder_id; amount = b.amount }

-- `sort((a, b) => b.amount - a.amount)[0]` keeps the order of equal amounts, so it is `highest`.
abbrev pub current_bid_of : Option ℕ → List Bid → Option BidView
current_bid_of none bs = none
current_bid_of (some target) bs =
    elim (highest (select (λ b. b.target_id == target && b.is_active) bs)) [
      | none ↦ none
      | some b ↦ some (bid_view b)
    ]

abbrev pub current_player_of : Option ℕ → List Participant → Option ℕ
current_player_of none ps = none
current_player_of (some target) ps = elim (find_one (λ p. p.user_id == target) ps) [
  | none ↦ none
  | some p ↦ some p.user_id
]

abbrev pub unsold_view : Participant → UnsoldPlayer
unsold_view p = record { id = p.user_id; was_unsold = p.was_unsold }

unfoldable pub get_room_state : ℕ → Tx Auctions RoomState
get_room_state i = do
  s ← get
  a ← or_throw (find_by auction_key i s.auctions) auction_not_found
  let ps = participants_of i s.participants
  let bs = bids_of i s.bids
  pure (record {
    auction = a;
    participants = ps;
    current_bid = current_bid_of a.current_player bs;
    current_player = current_player_of a.current_player ps;
    teams = map (team_view ps) (select (λ p. is_captain p.role) ps);
    unsold_players =
        map unsold_view (select (λ p. is_player p.role && not (is_assigned (some p))) ps);
  })
