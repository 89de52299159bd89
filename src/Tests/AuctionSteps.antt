-- ===== src/Tests/AuctionSteps.antt =====
-- An auction from its creation to a sale, its undoing and its reset.
use potg.Base.{ℕ, false, ◌==◌, ◌≡◌, refl, true, none, some, []}
use potg.Base.Int.{pos, ◌+ℤ◌, ◌-ℤ◌}
use potg.Base.Rows.{find_one, any_of}
use potg.Base.Keyed.{find_by}
use potg.Base.Tx.{Result, ok, err}
use potg.AuctionTables.{
  AuctionStatus, BiddingPhase, AuctionRow, auction_key, AuctionRole, Participant, Bid, Auctions,
  is_member,
}
use potg.Auction.{
  Sale, load_auction, load_as_creator, place_bid, record_bid, select_player, confirm_current_bid,
  confirm_loaded, confirm_player, sell_once, sell, assign_player, charge_captain,
}
use potg.AuctionSetup.{new_participant, AuctionDto, create, load_pending, add_captain, add_player}
use potg.AuctionControl.{start, reset, undo_sold_player}
use potg.AuctionBalance.Steady.{IsSteady}
use potg.AuctionBalance.Resets.{IsUnspent, IsWaiting, reset_all}
use potg.AuctionRoom.{RoomState, get_room_state}
use potg.AuctionRoom.Shown.{ShowSums, room_adds_up, room_shows_sale}
use potg.AuctionBalance.Undone.{IsRestored, undo_restores}
use potg.AuctionBalance.Steps.{Step, Reach, reach-IsSteady}
use potg.AuctionBalance.History.{IsNew, create-IsSteady, AddsUp, points_add_up}

abbrev nothing : Auctions
nothing = record { auctions = []; participants = []; bids = []; now = 7 }

abbrev made : {A : Type 0} → Result (A × Auctions) → Auctions
made (ok (a, t)) = t
made (err e) = nothing

abbrev given : {A : Type 0} → A → Result (A × Auctions) → A
given a (ok (b, t)) = b
given a (err e) = a

abbrev dto : AuctionDto
dto = record { starting_points = 100; turn_time_limit = none; team_count = none }

abbrev no_row : AuctionRow
no_row = record {
  id = 0;
  creator_id = 0;
  status = AuctionStatus.pending;
  starting_points = 0;
  turn_time_limit = 0;
  team_count = 0;
  current_player = none;
  current_end_time = none;
  phase = BiddingPhase.waiting;
  timer_paused = false;
  paused_time_remaining = none;
}

abbrev open_room : Auctions
open_room = made (create dto 5 1 nothing)

abbrev open_row : AuctionRow
open_row = given no_row (create dto 5 1 nothing)

open_run : create dto 5 1 nothing ≡ ok (open_row, open_room)
unfolding create
open_run = refl

nothing-IsNew : IsNew 1 nothing
nothing-IsNew = record { keys = tt; members = tt; nobody = refl; unbid = refl }

abbrev row_of : ℕ → ℕ → AuctionRole → ℕ → Participant
row_of new_id user role points = new_participant new_id 1 user role points

abbrev with_captain : Auctions
with_captain = made (add_captain 1 5 10 1 open_room)

captain_run :
    add_captain 1 5 10 1 open_room ≡ ok (row_of 1 10 AuctionRole.captain 100, with_captain)
unfolding create add_captain load_pending load_as_creator load_auction
captain_run = refl

abbrev with_player : Auctions
with_player = made (add_player 1 5 30 2 with_captain)

player_run : add_player 1 5 30 2 with_captain ≡ ok (row_of 2 30 AuctionRole.player 0, with_player)
unfolding create add_captain add_player load_pending load_as_creator load_auction
player_run = refl

abbrev started : Auctions
started = made (start 1 5 with_player)

start_run : start 1 5 with_player ≡ ok (given no_row (start 1 5 with_player), started)
unfolding create add_captain add_player load_pending load_as_creator load_auction start
start_run = refl

abbrev on_turn : Auctions
on_turn = made (select_player 1 5 30 started)

turn_run : select_player 1 5 30 started ≡ ok (given no_row (select_player 1 5 30 started), on_turn)
unfolding create add_captain add_player load_pending load_as_creator load_auction start
    select_player
turn_run = refl

abbrev bid : Bid
bid = record {
  id = 3;
  auction_id = 1;
  bidder_id = 10;
  target_id = 30;
  amount = 40;
  is_active = true;
}

abbrev with_bid : Auctions
with_bid = made (place_bid 1 10 30 (pos 40) 3 on_turn)

bid_run : place_bid 1 10 30 (pos 40) 3 on_turn ≡ ok (bid, with_bid)
unfolding create add_captain add_player load_pending load_as_creator load_auction start
    select_player place_bid record_bid ◌+ℤ◌
bid_run = refl

before_sale : Reach 1 open_room with_bid
unfolding create add_captain load_pending load_as_creator load_auction
before_sale =
    Reach.later
      (Reach.later
        (Reach.later
          (Reach.later (Reach.later Reach.created (Step.add_captain_step 5 10 1 refl captain_run))
            (Step.add_player_step 5 30 2 refl player_run))
          (Step.start_step 5 start_run))
        (Step.select_step 5 30 turn_run))
      (Step.bid_step 10 30 (pos 40) 3 bid_run)

bid-IsSteady : IsSteady 1 with_bid
bid-IsSteady =
    reach-IsSteady (create-IsSteady 1 5 dto nothing open_room open_row nothing-IsNew open_run)
      before_sale

abbrev sale : Sale
sale = record { player_id = 30; captain_id = 10; amount = 40 }

abbrev sold : Auctions
sold = made (confirm_current_bid 1 5 with_bid)

sold_run : confirm_current_bid 1 5 with_bid ≡ ok (some sale, sold)
unfolding create add_captain add_player load_pending load_as_creator load_auction start
    select_player place_bid record_bid ◌+ℤ◌ confirm_current_bid confirm_loaded confirm_player
    sell_once sell assign_player charge_captain ◌-ℤ◌
sold_run = refl

points_add_up_example :
    (a : AuctionRow) × (find_by auction_key 1 sold.auctions ≡ some a) × AddsUp 1 a sold
points_add_up_example =
    points_add_up 1 5 dto nothing open_room sold open_row nothing-IsNew open_run
      (Reach.later before_sale (Step.confirm_step 5 sold_run))

undo_restores_example :
    (v : Auctions) × (undo_sold_player 1 5 30 sold ≡ ok (tt, v)) × IsRestored 1 with_bid v
undo_restores_example = undo_restores 1 5 with_bid sold sale bid-IsSteady sold_run

abbrev again : Auctions
again = made (reset 1 5 with_bid)

reset_run : reset 1 5 with_bid ≡ ok (given no_row (reset 1 5 with_bid), again)
unfolding create add_captain add_player load_pending load_as_creator load_auction start
    select_player place_bid record_bid ◌+ℤ◌ reset
reset_run = refl

reset_all_example :
    ((u : ℕ) (p : Participant)
      → find_one (is_member 1 u) again.participants ≡ some p
      → IsUnspent (given no_row (reset 1 5 with_bid)).starting_points p)
    × (any_of (λ b. b.auction_id == 1) again.bids ≡ false)
    × (find_by auction_key 1 again.auctions ≡ some (given no_row (reset 1 5 with_bid)))
    × IsWaiting (given no_row (reset 1 5 with_bid))
reset_all_example = reset_all 1 5 with_bid again (given no_row (reset 1 5 with_bid)) reset_run

room_adds_up_example :
    (r : RoomState) × (get_room_state 1 sold ≡ ok (r, sold))
    × ShowSums r.auction.starting_points r.teams
room_adds_up_example =
    room_adds_up 1 5 dto nothing open_room sold open_row nothing-IsNew open_run
      (Reach.later before_sale (Step.confirm_step 5 sold_run))

room_shows_sale_example :
    (r : RoomState) × (get_room_state 1 with_bid ≡ ok (r, with_bid))
    × (r.current_bid ≡ some (record { bidder_id = 10; amount = 40 }))
room_shows_sale_example = room_shows_sale 1 5 with_bid sold sale sold_run
