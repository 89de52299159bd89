-- ===== src/AuctionControl.antt =====
-- The master's control of a running auction: start, reset, complete, pauseAuction, resumeAuction,
-- pauseTimer, resumeTimer, undoSoldPlayer, nextPlayer, enterAssignmentPhase and manualAssignPlayer
-- of backend/src/modules/auctions/auctions.service.ts
use potg.Base.{
  ℕ, ◌+◌, ◌-◌, ◌*◌, ◌/◌, Bool, true, false, not, ◌&&◌, Option, none, some, ◌==◌, if◌then◌else◌,
}
use potg.Base.Int.{pos, ◌+ℤ◌}
use potg.Base.Rows.{select, find_one, update_where}
use potg.Base.Tx.{
  Tx, pure, throw_if, or_throw, get, put, ◌>>=◌, ◌>>◌, already_started, not_resettable,
  not_completable, not_pausable, not_paused, timer_paused_already, timer_running, player_not_found,
  not_assigned, not_assigning, already_assigned, captain_not_found,
}
use potg.AuctionTables.{
  AuctionStatus, BiddingPhase, AuctionRole, AuctionRow, Participant, Auctions, is_ongoing,
  is_captain, is_player, is_member, is_assigned,
}
use potg.Auction.{load_as_creator, save_auction, save_participant}
use potg.AuctionSetup.{is_pending}

unfoldable pub start : ℕ → ℕ → Tx Auctions AuctionRow
start i user = do
  a ← load_as_creator i user
  throw_if (not (is_pending a.status)) already_started
  let row : AuctionRow = record a { status = AuctionStatus.ongoing }
  save_auction row
  pure row

abbrev pub is_resettable : AuctionStatus → Bool
is_resettable AuctionStatus.ongoing = true
is_resettable AuctionStatus.assigning = true
is_resettable AuctionStatus.paused = true
is_resettable _ = false

-- What `reset` makes of one participant.
abbrev pub reset_role : AuctionRole → ℕ → Participant → Participant
reset_role AuctionRole.captain points p = record p { current_points = pos points }
reset_role AuctionRole.player points p = record p {
  assigned_captain = none;
  sold_price = 0;
  was_unsold = false;
}
reset_role AuctionRole.spectator points p = p

unfoldable pub reset : ℕ → ℕ → Tx Auctions AuctionRow
reset i user = do
  a ← load_as_creator i user
  throw_if (not (is_resettable a.status)) not_resettable
  s ← get
  put (record s {
    bids = select (λ b. not (b.auction_id == i)) s.bids;
    participants =
        update_where (λ p. p.auction_id == i) (λ p. reset_role p.role a.starting_points p)
          s.participants;
  })
  let row : AuctionRow = record a {
    status = AuctionStatus.ongoing;
    phase = BiddingPhase.waiting;
    current_player = none;
    current_end_time = none;
    timer_paused = false;
    paused_time_remaining = none;
  }
  save_auction row
  pure row

abbrev pub is_completable : AuctionStatus → Bool
is_completable AuctionStatus.ongoing = true
is_completable AuctionStatus.assigning = true
is_completable _ = false

unfoldable pub complete : ℕ → ℕ → Tx Auctions AuctionRow
complete i user = do
  a ← load_as_creator i user
  throw_if (not (is_completable a.status)) not_completable
  let row : AuctionRow = record a { status = AuctionStatus.completed }
  save_auction row
  pure row

-- The whole seconds that are left, at least 0; with no end time the old value stays.
abbrev pub time_left : AuctionRow → ℕ → Option ℕ
time_left a now = elim a.current_end_time [
  | none ↦ a.paused_time_remaining
  | some e ↦ some ((e - now) / 1000)
]

unfoldable pub pause_auction : ℕ → ℕ → Tx Auctions AuctionRow
pause_auction i admin = do
  a ← load_as_creator i admin
  throw_if (not (is_ongoing a.status)) not_pausable
  s ← get
  let row : AuctionRow = record a {
    status = AuctionStatus.paused;
    paused_time_remaining = time_left a s.now;
  }
  save_auction row
  pure row

abbrev pub is_paused : AuctionStatus → Bool
is_paused AuctionStatus.paused = true
is_paused _ = false

-- The end time again, where there is time left.
abbrev pub restored_end : AuctionRow → ℕ → Option ℕ
restored_end a now = elim a.paused_time_remaining [
  | none ↦ a.current_end_time
  | some left ↦ some (now + left * 1000)
]

unfoldable pub resume_auction : ℕ → ℕ → Tx Auctions AuctionRow
resume_auction i admin = do
  a ← load_as_creator i admin
  throw_if (not (is_paused a.status)) not_paused
  s ← get
  let row : AuctionRow = record a {
    status = AuctionStatus.ongoing;
    current_end_time = elim a.current_player [
      | none ↦ a.current_end_time
      | some _ ↦ restored_end a s.now
    ];
    paused_time_remaining = none;
  }
  save_auction row
  pure row

unfoldable pub pause_timer : ℕ → ℕ → Tx Auctions AuctionRow
pause_timer i admin = do
  a ← load_as_creator i admin
  throw_if a.timer_paused timer_paused_already
  s ← get
  let row : AuctionRow = record a { paused_time_remaining = time_left a s.now; timer_paused = true }
  save_auction row
  pure row

unfoldable pub resume_timer : ℕ → ℕ → Tx Auctions AuctionRow
resume_timer i admin = do
  a ← load_as_creator i admin
  throw_if (not a.timer_paused) timer_running
  s ← get
  let row : AuctionRow = record a {
    current_end_time = restored_end a s.now;
    timer_paused = false;
    paused_time_remaining = none;
  }
  save_auction row
  pure row

abbrev pub is_player_of : ℕ → ℕ → Participant → Bool
is_player_of i user p = is_member i user p && is_player p.role

-- The price goes back to the captain, unless the player was assigned by hand.
unfoldable pub refund_captain : ℕ → Participant → ℕ → Tx Auctions (Unit {0})
refund_captain i p captain s = elim (find_one (is_member i captain) s.participants) [
  | none ↦ pure tt s
  | some c ↦
      if p.was_unsold
      then pure tt s
      else save_participant (record c { current_points = c.current_points +ℤ pos p.sold_price }) s
]

unfoldable pub undo_sold_player : ℕ → ℕ → ℕ → Tx Auctions (Unit {0})
undo_sold_player i admin target = do
  a ← load_as_creator i admin
  s ← get
  p ← or_throw (find_one (is_player_of i target) s.participants) player_not_found
  captain ← or_throw p.assigned_captain not_assigned
  refund_captain i p captain
  save_participant (record p { assigned_captain = none; sold_price = 0; was_unsold = false })

unfoldable pub next_player : ℕ → ℕ → Tx Auctions AuctionRow
next_player i admin = do
  a ← load_as_creator i admin
  let row : AuctionRow = record a {
    phase = BiddingPhase.waiting;
    current_player = none;
    current_end_time = none;
  }
  save_auction row
  pure row

unfoldable pub enter_assignment_phase : ℕ → ℕ → Tx Auctions AuctionRow
enter_assignment_phase i admin = do
  a ← load_as_creator i admin
  let row : AuctionRow = record a {
    status = AuctionStatus.assigning;
    phase = BiddingPhase.waiting;
    current_player = none;
    current_end_time = none;
  }
  save_auction row
  pure row

abbrev pub is_assigning : AuctionStatus → Bool
is_assigning AuctionStatus.assigning = true
is_assigning _ = false

unfoldable pub manual_assign_player : ℕ → ℕ → ℕ → ℕ → Tx Auctions (Unit {0})
manual_assign_player i admin target captain = do
  a ← load_as_creator i admin
  throw_if (not (is_assigning a.status)) not_assigning
  s ← get
  p ← or_throw (find_one (is_player_of i target) s.participants) player_not_found
  throw_if (is_assigned (some p)) already_assigned
  c ←
      or_throw (find_one (λ p. is_member i captain p && is_captain p.role) s.participants)
        captain_not_found
  save_participant (record p { assigned_captain = some captain; sold_price = 0; was_unsold = true })
