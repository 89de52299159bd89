-- ===== src/Tests/Auctions.antt =====
-- Runs of an auction.
use potg.Base.{false, ◌==◌, ℕ, ◌≡◌, refl, true, none, some, [], ◌∷◌}
use potg.Base.Int.{ℤ, pos, ◌+ℤ◌, ◌-ℤ◌}
use potg.Base.Tx.{Result, ok, err, Error}
use potg.AuctionTables.{
  AuctionRow, auction_key, is_sold, AuctionStatus, BiddingPhase, AuctionRole, Participant, Bid,
  Auctions,
}
use potg.Auction.{
  timeout_loaded, timeout_player, Sale, load_auction, load_as_creator, place_bid, record_bid,
  confirm_current_bid, confirm_loaded, confirm_player, sell_once, sell, assign_player,
  charge_captain, auto_confirm_on_timeout,
}
use potg.Auction.Bids.{Promised, place_bid-Promised}
use potg.Auction.Sales.{confirm_once}
use potg.Auction.Buyer.{
  SoldTo, confirmed_row, timed_out_row, confirm_current_bid-SoldTo, auto_confirm_on_timeout-SoldTo,
}
use potg.Base.Keyed.{find_by}

abbrev member : ℕ → AuctionRole → ℤ → Participant
member i role points = record {
  id = i;
  auction_id = 1;
  user_id = i;
  role = role;
  current_points = points;
  assigned_captain = none;
  sold_price = 0;
  was_unsold = false;
}

abbrev bid_of : ℕ → ℕ → ℕ → Bid
bid_of i bidder amount = record {
  id = i;
  auction_id = 1;
  bidder_id = bidder;
  target_id = 30;
  amount = amount;
  is_active = true;
}

-- Two captains, and a player whose turn it is, with one bid.
abbrev room : Auctions
room = record {
  auctions =
      record {
        id = 1;
        creator_id = 5;
        status = AuctionStatus.ongoing;
        starting_points = 100;
        turn_time_limit = 60;
        team_count = 2;
        current_player = some 30;
        current_end_time = some 100;
        phase = BiddingPhase.bidding;
        timer_paused = false;
        paused_time_remaining = none;
      }
      ∷ [];
  participants =
      member 10 AuctionRole.captain (pos 100)
      ∷ member 20 AuctionRole.captain (pos 80)
      ∷ member 30 AuctionRole.player (pos 0)
      ∷ [];
  bids = bid_of 1 10 40 ∷ [];
  now = 7;
}

abbrev after : {A : Type 0} → Result (A × Auctions) → Auctions
after (ok (a, t)) = t
after (err e) = room

abbrev outbid_room : Auctions
outbid_room = after (place_bid 1 20 30 (pos 41) 2 room)

outbid_run : place_bid 1 20 30 (pos 41) 2 room ≡ ok (bid_of 2 20 41, outbid_room)
unfolding place_bid load_auction record_bid ◌+ℤ◌
outbid_run = refl

place_bid-Promised_example : Promised 1 20 30 (pos 41) room outbid_room (bid_of 2 20 41)
place_bid-Promised_example =
    place_bid-Promised 1 20 30 (pos 41) 2 room outbid_room (bid_of 2 20 41) outbid_run

equal_bid : place_bid 1 20 30 (pos 40) 2 room ≡ err Error.bid_too_low
unfolding place_bid load_auction
equal_bid = refl

abbrev sold_room : Auctions
sold_room = after (confirm_current_bid 1 5 room)

abbrev sale : Sale
sale = record { player_id = 30; captain_id = 10; amount = 40 }

sold_run : confirm_current_bid 1 5 room ≡ ok (some sale, sold_room)
unfolding confirm_current_bid load_as_creator load_auction confirm_loaded confirm_player sell_once
    sell assign_player charge_captain ◌-ℤ◌
sold_run = refl

confirm_once_example :
    (confirm_current_bid 1 5 sold_room ≡ ok (none, sold_room))
    × (auto_confirm_on_timeout 1 sold_room ≡ ok (none, sold_room))
confirm_once_example = confirm_once 1 5 room sold_room sale sold_run

abbrev late_room : Auctions
late_room = after (place_bid 1 20 30 (pos 1) 3 sold_room)

-- A bid on the player who was just sold is still taken.
late_bid : place_bid 1 20 30 (pos 1) 3 sold_room ≡ ok (bid_of 3 20 1, late_room)
unfolding place_bid load_auction record_bid confirm_current_bid load_as_creator confirm_loaded
    confirm_player sell_once sell assign_player charge_captain ◌-ℤ◌ ◌+ℤ◌
late_bid = refl

confirm_current_bid-SoldTo_example :
    (a : AuctionRow) × (find_by auction_key 1 room.auctions ≡ some a)
    × ((a.creator_id == 5) ≡ true)
    × (is_sold a.phase ≡ false)
    × SoldTo a (confirmed_row a) room sold_room sale
confirm_current_bid-SoldTo_example = confirm_current_bid-SoldTo 1 5 room sold_room sale sold_run

abbrev timed_out_room : Auctions
timed_out_room = after (auto_confirm_on_timeout 1 room)

timed_out_run : auto_confirm_on_timeout 1 room ≡ ok (some sale, timed_out_room)
unfolding auto_confirm_on_timeout timeout_loaded timeout_player sell_once sell assign_player
    charge_captain ◌-ℤ◌
timed_out_run = refl

auto_confirm_on_timeout-SoldTo_example :
    (a : AuctionRow) × (find_by auction_key 1 room.auctions ≡ some a)
    × SoldTo a (timed_out_row a) room timed_out_room sale
auto_confirm_on_timeout-SoldTo_example =
    auto_confirm_on_timeout-SoldTo 1 room timed_out_room sale timed_out_run
