-- ===== src/AuctionBalance/Steps.antt =====
-- The operations on an auction as steps, and the sequences of them.
use potg.Base.{ℕ, ◌≡◌, Option, none, List}
use potg.Base.Int.{ℤ}
use potg.Base.Keyed.{find_by}
use potg.Base.Tx.{ok}
use potg.AuctionTables.{AuctionRow, Participant, Bid, Auctions, AuctionRole, participant_key}
use potg.Auction.{Sale, confirm_current_bid, auto_confirm_on_timeout}
use potg.AuctionBalance.Steady.{IsSteady}
use potg.AuctionSetup.{
  remove_participant, add_captain, remove_captain, Settings, update_auction_settings,
}
use potg.AuctionControl.{
  start, reset, complete, pause_auction, resume_auction, pause_timer, resume_timer,
  undo_sold_player, next_player, enter_assignment_phase, manual_assign_player,
}
use potg.Auction.{select_player, place_bid, pass_current_player}
use potg.AuctionSetup.{join, add_player, add_players}
use potg.AuctionBalance.Steady.{
  start-IsSteady, complete-IsSteady, pause_auction-IsSteady, resume_auction-IsSteady,
  pause_timer-IsSteady, resume_timer-IsSteady, next_player-IsSteady,
  enter_assignment_phase-IsSteady,
}
use potg.AuctionBalance.Trades.{
  place_bid-IsSteady, select_player-IsSteady, pass_current_player-IsSteady,
}
use potg.AuctionBalance.Sold.{confirm_current_bid-IsSteady, auto_confirm_on_timeout-IsSteady}
use potg.AuctionBalance.Undo.{undo_sold_player-IsSteady, manual_assign_player-IsSteady}
use potg.AuctionBalance.Resets.{reset-IsSteady}
use potg.AuctionBalance.Joins.{join-IsSteady, add_player-IsSteady}
use potg.AuctionBalance.Lists.{add_players-IsSteady, AreFresh}
use potg.AuctionBalance.Pending.{remove_participant-IsSteady, remove_captain-IsSteady}
use potg.AuctionBalance.Captains.{add_captain-IsSteady, update_auction_settings-IsSteady}

-- One operation on the auction that succeeds, or time that passes. The ids of new rows are new.
pub data Step (i : ℕ) (s : Auctions) : Auctions → Type 0 where
  clock : (n : ℕ) → Step i s (record s { now = n })
  join_step :
      (user : ℕ) (role : AuctionRole) (new_id : ℕ) {t : Auctions} {p : Participant}
      → find_by participant_key new_id s.participants ≡ none
      → join i user role new_id s ≡ ok (p, t)
      → Step i s t
  add_player_step :
      (admin target new_id : ℕ) {t : Auctions} {p : Participant}
      → find_by participant_key new_id s.participants ≡ none
      → add_player i admin target new_id s ≡ ok (p, t)
      → Step i s t
  add_players_step :
      (admin : ℕ) (users : List (ℕ × ℕ)) {t : Auctions} {ps : List Participant}
      → AreFresh users s.participants
      → add_players i admin users s ≡ ok (ps, t)
      → Step i s t
  add_captain_step :
      (admin user new_id : ℕ) {t : Auctions} {p : Participant}
      → find_by participant_key new_id s.participants ≡ none
      → add_captain i admin user new_id s ≡ ok (p, t)
      → Step i s t
  remove_participant_step :
      (admin target : ℕ) {t : Auctions} {r : Unit {0}}
      → remove_participant i admin target s ≡ ok (r, t)
      → Step i s t
  remove_captain_step :
      (admin user : ℕ) {t : Auctions} {r : Unit {0}}
      → remove_captain i admin user s ≡ ok (r, t)
      → Step i s t
  settings_step :
      (admin : ℕ) (settings : Settings) {t : Auctions} {r : AuctionRow}
      → update_auction_settings i admin settings s ≡ ok (r, t)
      → Step i s t
  start_step :
      (admin : ℕ) {t : Auctions} {r : AuctionRow} → start i admin s ≡ ok (r, t) → Step i s t
  reset_step :
      (admin : ℕ) {t : Auctions} {r : AuctionRow} → reset i admin s ≡ ok (r, t) → Step i s t
  complete_step :
      (admin : ℕ) {t : Auctions} {r : AuctionRow} → complete i admin s ≡ ok (r, t) → Step i s t
  pause_auction_step :
      (admin : ℕ) {t : Auctions} {r : AuctionRow} → pause_auction i admin s ≡ ok (r, t) → Step i s t
  resume_auction_step :
      (admin : ℕ) {t : Auctions} {r : AuctionRow}
      → resume_auction i admin s ≡ ok (r, t)
      → Step i s t
  pause_timer_step :
      (admin : ℕ) {t : Auctions} {r : AuctionRow} → pause_timer i admin s ≡ ok (r, t) → Step i s t
  resume_timer_step :
      (admin : ℕ) {t : Auctions} {r : AuctionRow} → resume_timer i admin s ≡ ok (r, t) → Step i s t
  next_player_step :
      (admin : ℕ) {t : Auctions} {r : AuctionRow} → next_player i admin s ≡ ok (r, t) → Step i s t
  enter_assignment_phase_step :
      (admin : ℕ) {t : Auctions} {r : AuctionRow}
      → enter_assignment_phase i admin s ≡ ok (r, t)
      → Step i s t
  select_step :
      (admin target : ℕ) {t : Auctions} {r : AuctionRow}
      → select_player i admin target s ≡ ok (r, t)
      → Step i s t
  bid_step :
      (bidder target : ℕ) (amount : ℤ) (new_id : ℕ) {t : Auctions} {bid : Bid}
      → place_bid i bidder target amount new_id s ≡ ok (bid, t)
      → Step i s t
  confirm_step :
      (admin : ℕ) {t : Auctions} {r : Option Sale}
      → confirm_current_bid i admin s ≡ ok (r, t)
      → Step i s t
  timeout_step :
      {t : Auctions} {r : Option Sale} → auto_confirm_on_timeout i s ≡ ok (r, t) → Step i s t
  pass_step :
      (admin : ℕ) {t : Auctions} {r : Unit {0}}
      → pass_current_player i admin s ≡ ok (r, t)
      → Step i s t
  undo_step :
      (admin target : ℕ) {t : Auctions} {r : Unit {0}}
      → undo_sold_player i admin target s ≡ ok (r, t)
      → Step i s t
  assign_step :
      (admin target captain : ℕ) {t : Auctions} {r : Unit {0}}
      → manual_assign_player i admin target captain s ≡ ok (r, t)
      → Step i s t

pub data Reach (i : ℕ) (s : Auctions) : Auctions → Type 0 where
  created : Reach i s s
  later : {t u : Auctions} → Reach i s t → Step i t u → Reach i s u

clock-IsSteady : (i n : ℕ) (s : Auctions) → IsSteady i s → IsSteady i (record s { now = n })
clock-IsSteady i n s (a, h) = (
  a,
  record {
    found = h.found;
    balanced = h.balanced;
    bidders = h.bidders;
    target = h.target;
    untouched = λ q.
        let u = h.untouched q in
        record { unspent = u.unspent; no_target = u.no_target; no_bids = u.no_bids };
  },
)

step-IsSteady : {i : ℕ} {s t : Auctions} → IsSteady i s → Step i s t → IsSteady i t
step-IsSteady {i} {s} h (clock n) = clock-IsSteady i n s h
step-IsSteady {i} {s} h (join_step user role n {t} {p} w e) =
    join-IsSteady i user role n s t p h w e
step-IsSteady {i} {s} h (add_player_step admin target n {t} {p} w e) =
    add_player-IsSteady i admin target n s t p h w e
step-IsSteady {i} {s} h (add_players_step admin users {t} {ps} w e) =
    add_players-IsSteady i admin users s t ps h w e
step-IsSteady {i} {s} h (add_captain_step admin user n {t} {p} w e) =
    add_captain-IsSteady i admin user n s t p h w e
step-IsSteady {i} {s} h (remove_participant_step admin target {t} {r} e) =
    remove_participant-IsSteady i admin target s t r h e
step-IsSteady {i} {s} h (remove_captain_step admin user {t} {r} e) =
    remove_captain-IsSteady i admin user s t r h e
step-IsSteady {i} {s} h (settings_step admin settings {t} {r} e) =
    update_auction_settings-IsSteady i admin settings s t r h e
step-IsSteady {i} {s} h (start_step admin {t} {r} e) = start-IsSteady i admin s t r h e
step-IsSteady {i} {s} h (complete_step admin {t} {r} e) = complete-IsSteady i admin s t r h e
step-IsSteady {i} {s} h (pause_auction_step admin {t} {r} e) =
    pause_auction-IsSteady i admin s t r h e
step-IsSteady {i} {s} h (resume_auction_step admin {t} {r} e) =
    resume_auction-IsSteady i admin s t r h e
step-IsSteady {i} {s} h (pause_timer_step admin {t} {r} e) = pause_timer-IsSteady i admin s t r h e
step-IsSteady {i} {s} h (resume_timer_step admin {t} {r} e) =
    resume_timer-IsSteady i admin s t r h e
step-IsSteady {i} {s} h (next_player_step admin {t} {r} e) = next_player-IsSteady i admin s t r h e
step-IsSteady {i} {s} h (enter_assignment_phase_step admin {t} {r} e) =
    enter_assignment_phase-IsSteady i admin s t r h e
step-IsSteady {i} {s} h (reset_step admin {t} {r} e) = reset-IsSteady i admin s t r h e
step-IsSteady {i} {s} h (select_step admin target {t} {r} e) =
    select_player-IsSteady i admin target s t r h e
step-IsSteady {i} {s} h (bid_step bidder target amount n {t} {bid} e) =
    place_bid-IsSteady i bidder target amount n s t bid h e
step-IsSteady {i} {s} h (confirm_step admin {t} {r} e) =
    confirm_current_bid-IsSteady i admin s t r h e
step-IsSteady {i} {s} h (timeout_step {t} {r} e) = auto_confirm_on_timeout-IsSteady i s t r h e
step-IsSteady {i} {s} h (pass_step admin {t} {r} e) = pass_current_player-IsSteady i admin s t r h e
step-IsSteady {i} {s} h (undo_step admin target {t} {r} e) =
    undo_sold_player-IsSteady i admin target s t r h e
step-IsSteady {i} {s} h (assign_step admin target captain {t} {r} e) =
    manual_assign_player-IsSteady i admin target captain s t r h e

pub reach-IsSteady : {i : ℕ} {s t : Auctions} → IsSteady i s → Reach i s t → IsSteady i t
reach-IsSteady h created = h
reach-IsSteady h (later p e) = step-IsSteady (reach-IsSteady h p) e
