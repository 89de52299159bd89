-- ===== src/Auction.antt =====
-- backend/src/modules/auctions/services/auctions-bidding.service.ts
pub mod Bids
pub mod Sales
pub mod Buyer
use potg.Base.{
  ℕ, ◌+◌, ◌*◌, Bool, true, false, not, ◌&&◌, ◌||◌, Option, none, some, List, [], ◌∷◌, ltb, leb,
  ◌==◌, same_id, if◌then◌else◌,
}
use potg.Base.Int.{ℤ, pos, pos_part, ◌+ℤ◌, ◌-ℤ◌, ltb_ℤ, leb_ℤ}
use potg.Base.Rows.{select, find_one, any_of, sum_of, update_where}
use potg.Base.Keyed.{find_by, save_by}
use potg.Base.Tx.{
  Tx, pure, throw_if, or_throw, get, put, ◌>>=◌, ◌>>◌, auction_not_found, not_creator, not_ongoing,
  player_not_found, already_assigned, not_current_player, only_captains, bid_too_low, points_short,
  no_bids, no_current_player,
}
use potg.AuctionTables.{
  AuctionStatus, BiddingPhase, AuctionRole, AuctionRow, Participant, Bid, Auctions, auction_key,
  participant_key, bid_amount, is_ongoing, is_sold, is_captain, is_player, is_assigned, is_member,
  active_on, active_by, active_by_on, deactivate, highest, min_bid_amount, other_bids_total,
}

abbrev pub save_auction : AuctionRow → Tx Auctions (Unit {0})
save_auction a = do s ← get; put (record s { auctions = save_by auction_key a s.auctions })

-- `manager.update(AuctionBid, where, { isActive: false })`
abbrev pub release_bids : (Bid → Bool) → Tx Auctions (Unit {0})
release_bids p = do s ← get; put (record s { bids = update_where p deactivate s.bids })

unfoldable pub load_auction : ℕ → Tx Auctions AuctionRow
load_auction i = do s ← get; or_throw (find_by auction_key i s.auctions) auction_not_found

-- `loadAsCreatorTx`
unfoldable pub load_as_creator : ℕ → ℕ → Tx Auctions AuctionRow
load_as_creator i admin = do
  a ← load_auction i
  throw_if (not (a.creator_id == admin)) not_creator
  pure a

abbrev pub end_of_turn : AuctionRow → ℕ → Option ℕ
end_of_turn a now = some (now + a.turn_time_limit * 1000)

-- `selectPlayer`
unfoldable pub select_player : ℕ → ℕ → ℕ → Tx Auctions AuctionRow
select_player i user target = do
  a ← load_as_creator i user
  throw_if (not (is_ongoing a.status)) not_ongoing
  s ← get
  p ←
      or_throw (find_one (λ p. is_member i target p && is_player p.role) s.participants)
        player_not_found
  throw_if (is_assigned (some p)) already_assigned
  let row : AuctionRow = record a {
    current_player = some target;
    current_end_time = end_of_turn a s.now;
    phase = BiddingPhase.bidding;
  }
  save_auction row
  pure row

-- The writes of an accepted bid: the bidder's earlier bid on the player is released, the new one is
-- added under the id that the database gives it, and the turn is prolonged.
unfoldable pub record_bid : AuctionRow → ℕ → ℕ → ℕ → ℕ → Tx Auctions Bid
record_bid a bidder target amount new_id = do
  release_bids (active_by_on a.id bidder target)
  s ← get
  let bid : Bid = record {
    id = new_id;
    auction_id = a.id;
    bidder_id = bidder;
    target_id = target;
    amount = amount;
    is_active = true;
  }
  put (record s { bids = bid ∷ s.bids })
  save_auction (record a { current_end_time = end_of_turn a s.now })
  pure bid

-- `placeBidWithValidation`
unfoldable pub place_bid : ℕ → ℕ → ℕ → ℤ → ℕ → Tx Auctions Bid
place_bid i bidder target amount new_id = do
  a ← load_auction i
  throw_if (not (is_ongoing a.status)) not_ongoing
  throw_if (not (same_id a.current_player (some target))) not_current_player
  s ← get
  p ← or_throw (find_one (is_member a.id bidder) s.participants) only_captains
  throw_if (not (is_captain p.role)) only_captains
  throw_if (ltb_ℤ amount (pos (min_bid_amount (highest (select (active_on a.id target) s.bids)))))
      bid_too_low
  throw_if (ltb_ℤ p.current_points (pos (other_bids_total a.id bidder target s.bids) +ℤ amount))
      points_short
  record_bid a bidder target (pos_part amount) new_id

-- What a confirmation returns when it sold the player; `none` is `{ confirmed: false }`.
pub record Sale : Type 0 where
  pub player_id : ℕ
  pub captain_id : ℕ
  pub amount : ℕ

abbrev pub save_participant : Participant → Tx Auctions (Unit {0})
save_participant p = do
  s ← get
  put (record s { participants = save_by participant_key p s.participants })

unfoldable pub assign_player : ℕ → ℕ → Bid → Tx Auctions (Unit {0})
assign_player i target bid s = elim (find_one (is_member i target) s.participants) [
  | none ↦ pure tt s
  | some p ↦
      save_participant (record p { assigned_captain = some bid.bidder_id; sold_price = bid.amount })
        s
]

unfoldable pub charge_captain : ℕ → Bid → Tx Auctions (Unit {0})
charge_captain i bid s = elim (find_one (is_member i bid.bidder_id) s.participants) [
  | none ↦ pure tt s
  | some p ↦ save_participant (record p { current_points = p.current_points -ℤ pos bid.amount }) s
]

-- The writes that `confirmCurrentBid` and `autoConfirmOnTimeout` share.
unfoldable pub sell : AuctionRow → ℕ → Bid → AuctionRow → Tx Auctions (Option Sale)
sell a target bid row = do
  assign_player a.id target bid
  charge_captain a.id bid
  release_bids (active_on a.id target)
  save_auction row
  pure (some (record { player_id = target; captain_id = bid.bidder_id; amount = bid.amount }))

-- A player who has a team already is not sold again.
unfoldable pub sell_once : AuctionRow → ℕ → Bid → AuctionRow → Tx Auctions (Option Sale)
sell_once a target bid row s =
    if is_assigned (find_one (is_member a.id target) s.participants)
    then pure none s
    else sell a target bid row s

unfoldable pub confirm_player : AuctionRow → ℕ → Tx Auctions (Option Sale)
confirm_player a target = do
  s ← get
  bid ← or_throw (highest (select (active_on a.id target) s.bids)) no_bids
  sell_once a target bid (record a { phase = BiddingPhase.sold; current_end_time = none })

-- The part of `confirmCurrentBid` behind the check of the creator.
unfoldable pub confirm_loaded : AuctionRow → Tx Auctions (Option Sale)
confirm_loaded a =
    if is_sold a.phase
    then pure none
    else elim a.current_player [ none ↦ pure none | some target ↦ confirm_player a target ]

-- `confirmCurrentBid`
unfoldable pub confirm_current_bid : ℕ → ℕ → Tx Auctions (Option Sale)
confirm_current_bid i admin = do a ← load_as_creator i admin; confirm_loaded a

-- `passCurrentPlayer`
unfoldable pub pass_current_player : ℕ → ℕ → Tx Auctions (Unit {0})
pass_current_player i admin = do
  a ← load_as_creator i admin
  target ← or_throw a.current_player no_current_player
  release_bids (active_on a.id target)
  save_auction (record a { current_player = none; current_end_time = none })

unfoldable pub timeout_player : AuctionRow → ℕ → Tx Auctions (Option Sale)
timeout_player a target s =
    let row : AuctionRow = record a { current_player = none; current_end_time = none } in
    elim (highest (select (active_on a.id target) s.bids)) [
      | none ↦ (save_auction row >> pure none) s
      | some bid ↦ sell_once a target bid row s
    ]

unfoldable pub timeout_loaded : AuctionRow → Tx Auctions (Option Sale)
timeout_loaded a =
    if not (is_ongoing a.status) || is_sold a.phase
    then pure none
    else elim a.current_player [ none ↦ pure none | some target ↦ timeout_player a target ]

-- `autoConfirmOnTimeout`: an auction that is missing is no error.
unfoldable pub auto_confirm_on_timeout : ℕ → Tx Auctions (Option Sale)
auto_confirm_on_timeout i s = elim (find_by auction_key i s.auctions) [
  | none ↦ pure none s
  | some a ↦ timeout_loaded a s
]

-- Whether a captain could outbid: his points less his active bids on other players.
abbrev pub can_outbid : ℕ → ℕ → ℕ → List Bid → Participant → Bool
can_outbid i target least bs p =
    leb_ℤ (pos least) (p.current_points -ℤ pos (other_bids_total i p.user_id target bs))

abbrev pub rival_of : ℕ → ℕ → Participant → Bool
rival_of i bidder p = p.auction_id == i && is_captain p.role && not (p.user_id == bidder)

-- `checkAutoConfirm`; that there is no rival and that no rival can outbid are one test here, and the
-- reason's text is not kept.
unfoldable pub check_auto_confirm : ℕ → Auctions → Bool
check_auto_confirm i s = elim (find_by auction_key i s.auctions) [
  | none ↦ false
  | some a ↦ if not (is_ongoing a.status) then false else elim a.current_player [
    | none ↦ false
    | some target ↦ elim (highest (select (active_on a.id target) s.bids)) [
      | none ↦ false
      | some b ↦ not (
          any_of (can_outbid a.id target (b.amount + 1) s.bids)
            (select (rival_of a.id b.bidder_id) s.participants))
    ]
  ]
]
