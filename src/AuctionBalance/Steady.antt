-- ===== src/AuctionBalance/Steady.antt =====
-- The invariant of an auction, and the operations that write its row alone.
use potg.Base.{
  ℕ, ◌≡◌, refl, sym, ◌∙◌, ap, subst, Bool, true, false, not, ◌&&◌, none, some, List, arith, ◌==◌,
}
use potg.Base.Rows.{any_of}
use potg.Base.Keyed.{find_by, save_by, find_by_key, find_by-save_by}
use potg.Base.Tx.{Tx, ok, pure, throw_if, ◌>>=◌, ◌>>◌, Error, >>=-inv, >>-inv}
use potg.AuctionTables.{
  AuctionStatus, BiddingPhase, AuctionRow, Participant, Bid, Auctions, auction_key, is_ongoing,
}
use potg.Auction.{load_as_creator, save_auction}
use potg.Auction.Sales.{load_as_creator_inv}
use potg.AuctionSetup.{is_pending}
use potg.AuctionControl.{
  start, complete, pause_auction, resume_auction, pause_timer, resume_timer, next_player,
  enter_assignment_phase, is_completable, is_paused, time_left, restored_end,
}
use potg.AuctionBalance.Owing.{Balanced, spent, is_captain_id, is_player_id}

-- An active bid in the auction, and one by a user who is no captain of it.
abbrev pub active_in : ℕ → Bid → Bool
active_in i b = b.is_active && b.auction_id == i

abbrev pub stray_bid : ℕ → List Participant → Bid → Bool
stray_bid i ps b = active_in i b && not (is_captain_id i b.bidder_id ps)

-- An auction that has not started: nobody has a team, and nothing is offered or bid.
pub record IsUntouched (i : ℕ) (a : AuctionRow) (s : Auctions) : Type 0 where
  pub unspent : (c : ℕ) → spent i c s.participants ≡ 0
  pub no_target : a.current_player ≡ none
  pub no_bids : any_of (active_in i) s.bids ≡ false

-- The captains' points balance the prices of their teams; only captains bid; only a player is
-- offered.
pub record Steady (i : ℕ) (a : AuctionRow) (s : Auctions) : Type 0 where
  pub found : find_by auction_key i s.auctions ≡ some a
  pub balanced : Balanced i a.starting_points s.participants
  pub bidders : any_of (stray_bid i s.participants) s.bids ≡ false
  pub target : (t : ℕ) → a.current_player ≡ some t → is_player_id i t s.participants ≡ true
  pub untouched : is_pending a.status ≡ true → IsUntouched i a s

abbrev pub IsSteady : ℕ → Auctions → Type 0
IsSteady i s = (a : AuctionRow) × Steady i a s

pub by_creator :
    {A : Type 0} (i admin : ℕ) (f : AuctionRow → Tx Auctions A) (s t : Auctions) (r : A)
    (a : AuctionRow)
    → Steady i a s
    → (load_as_creator i admin >>= f) s ≡ ok (r, t)
    → f a s ≡ ok (r, t)
by_creator i admin f s t r a h e =
    let (b, v, l, e1) = >>=-inv (load_as_creator i admin) f {s = s} e in
    let (g, _, q) = load_as_creator_inv i admin s v b l in
    let same : b ≡ a = ground (arith, h.found) in
    subst (λ z. f z s ≡ ok (r, t)) same (subst (λ z. f b z ≡ ok (r, t)) q e1)

abbrev pub with_row : AuctionRow → Auctions → Auctions
with_row row s = record s { auctions = save_by auction_key row s.auctions }

pub row-Steady :
    (i : ℕ) (a row : AuctionRow) (s : Auctions)
    → Steady i a s
    → row.id ≡ a.id
    → row.starting_points ≡ a.starting_points
    → ((t : ℕ) → row.current_player ≡ some t → is_player_id i t s.participants ≡ true)
    → (is_pending row.status ≡ true → (is_pending a.status ≡ true) × (row.current_player ≡ none))
    → Steady i row (with_row row s)
row-Steady i a row s h k e t p =
    let own = find_by_key auction_key i s.auctions a h.found in
    record {
      found = ground (arith, find_by-save_by auction_key i row s.auctions, h.found);
      balanced = subst (λ n. Balanced i n s.participants) (sym e) h.balanced;
      bidders = h.bidders;
      target = t;
      untouched = λ q.
          let (b, c) = p q in
          let u = h.untouched b in
          record { unspent = u.unspent; no_target = c; no_bids = u.no_bids };
    }

saved :
    (row : AuctionRow) (s t : Auctions) (r : AuctionRow)
    → (save_auction row >> pure row) s ≡ ok (r, t)
    → t ≡ with_row row s
saved row s t r e = ground arith

-- The row of an auction that has started is written, with its player or with none.
started :
    (i : ℕ) (a row : AuctionRow) (s t : Auctions) (r : AuctionRow)
    → Steady i a s
    → row.id ≡ a.id
    → row.starting_points ≡ a.starting_points
    → row.current_player ≡ a.current_player
    → is_pending row.status ≡ false
    → (save_auction row >> pure row) s ≡ ok (r, t)
    → IsSteady i t
started i a row s t r h k e c p q =
    subst (IsSteady i) (sym (saved row s t r q))
      (row, row-Steady i a row s h k e (λ u g. h.target u (sym c ∙ g)) (λ z. cc))

cleared :
    (i : ℕ) (a row : AuctionRow) (s t : Auctions) (r : AuctionRow)
    → Steady i a s
    → row.id ≡ a.id
    → row.starting_points ≡ a.starting_points
    → row.current_player ≡ none
    → (is_pending row.status ≡ true → is_pending a.status ≡ true)
    → (save_auction row >> pure row) s ≡ ok (r, t)
    → IsSteady i t
cleared i a row s t r h k e c p q =
    subst (IsSteady i) (sym (saved row s t r q))
      (row, row-Steady i a row s h k e (λ u g. absurd (cc (c, g))) (λ z. (p z, c)))

same_status :
    (i : ℕ) (a row : AuctionRow) (s t : Auctions) (r : AuctionRow)
    → Steady i a s
    → row.id ≡ a.id
    → row.starting_points ≡ a.starting_points
    → row.current_player ≡ a.current_player
    → row.status ≡ a.status
    → (save_auction row >> pure row) s ≡ ok (r, t)
    → IsSteady i t
same_status i a row s t r h k e c p q = subst (IsSteady i) (sym (saved row s t r q)) (
  row,
  row-Steady i a row s h k e (λ u g. h.target u (sym c ∙ g))
      (λ z.
        let y : is_pending a.status ≡ true = ap is_pending (sym p) ∙ z in
        (y, c ∙ (h.untouched y).no_target)),
)

-- A test, and one row that is written from the store.
guarded :
    (c : Bool) (x : Error) (row : Auctions → AuctionRow) (s t : Auctions) (r : AuctionRow)
    → (throw_if c x >> (λ z. (save_auction (row z) >> pure (row z)) z)) s ≡ ok (r, t)
    → (save_auction (row s) >> pure (row s)) s ≡ ok (r, t)
guarded c x row s t r e = (>>-inv c x (λ z. (save_auction (row z) >> pure (row z)) z) e).1

module _ (i admin : ℕ) (s t : Auctions) (r : AuctionRow) (h : IsSteady i s) where
  pub start-IsSteady : start i admin s ≡ ok (r, t) → IsSteady i t
  unfolding start
  start-IsSteady e =
      let row : Auctions → AuctionRow = λ z. record h.0 { status = AuctionStatus.ongoing } in
      started i h.0 (row s) s t r h.1 refl refl refl refl (
        guarded (not (is_pending h.0.status)) Error.already_started row s t r
          (by_creator i admin _ s t r h.0 h.1 e))

  pub complete-IsSteady : complete i admin s ≡ ok (r, t) → IsSteady i t
  unfolding complete
  complete-IsSteady e =
      let row : Auctions → AuctionRow = λ z. record h.0 { status = AuctionStatus.completed } in
      started i h.0 (row s) s t r h.1 refl refl refl refl (
        guarded (not (is_completable h.0.status)) Error.not_completable row s t r
          (by_creator i admin _ s t r h.0 h.1 e))

  pub pause_auction-IsSteady : pause_auction i admin s ≡ ok (r, t) → IsSteady i t
  unfolding pause_auction
  pause_auction-IsSteady e =
      let row : Auctions → AuctionRow = λ z. record h.0 {
        status = AuctionStatus.paused;
        paused_time_remaining = time_left h.0 z.now;
      } in
      started i h.0 (row s) s t r h.1 refl refl refl refl (
        guarded (not (is_ongoing h.0.status)) Error.not_pausable row s t r
          (by_creator i admin _ s t r h.0 h.1 e))

  pub resume_auction-IsSteady : resume_auction i admin s ≡ ok (r, t) → IsSteady i t
  unfolding resume_auction
  resume_auction-IsSteady e =
      let row : Auctions → AuctionRow = λ z. record h.0 {
        status = AuctionStatus.ongoing;
        current_end_time = elim h.0.current_player [
          | none ↦ h.0.current_end_time
          | some _ ↦ restored_end h.0 z.now
        ];
        paused_time_remaining = none;
      } in
      started i h.0 (row s) s t r h.1 refl refl refl refl (
        guarded (not (is_paused h.0.status)) Error.not_paused row s t r
          (by_creator i admin _ s t r h.0 h.1 e))

  pub pause_timer-IsSteady : pause_timer i admin s ≡ ok (r, t) → IsSteady i t
  unfolding pause_timer
  pause_timer-IsSteady e =
      let row : Auctions → AuctionRow =
        λ z. record h.0 { paused_time_remaining = time_left h.0 z.now; timer_paused = true } in
      same_status i h.0 (row s) s t r h.1 refl refl refl refl (
        guarded (h.0.timer_paused) Error.timer_paused_already row s t r
          (by_creator i admin _ s t r h.0 h.1 e))

  pub resume_timer-IsSteady : resume_timer i admin s ≡ ok (r, t) → IsSteady i t
  unfolding resume_timer
  resume_timer-IsSteady e =
      let row : Auctions → AuctionRow = λ z. record h.0 {
        current_end_time = restored_end h.0 z.now;
        timer_paused = false;
        paused_time_remaining = none;
      } in
      same_status i h.0 (row s) s t r h.1 refl refl refl refl (
        guarded (not h.0.timer_paused) Error.timer_running row s t r
          (by_creator i admin _ s t r h.0 h.1 e))

  pub next_player-IsSteady : next_player i admin s ≡ ok (r, t) → IsSteady i t
  unfolding next_player
  next_player-IsSteady e =
      cleared i h.0
        (record h.0 {
          phase = BiddingPhase.waiting;
          current_player = none;
          current_end_time = none;
        })
        s t r h.1 refl refl refl (λ z. z) (by_creator i admin _ s t r h.0 h.1 e)

  pub enter_assignment_phase-IsSteady : enter_assignment_phase i admin s ≡ ok (r, t) → IsSteady i t
  unfolding enter_assignment_phase
  enter_assignment_phase-IsSteady e =
      cleared i h.0
        (record h.0 {
          status = AuctionStatus.assigning;
          phase = BiddingPhase.waiting;
          current_player = none;
          current_end_time = none;
        })
        s t r h.1 refl refl refl (λ z. cc) (by_creator i admin _ s t r h.0 h.1 e)
