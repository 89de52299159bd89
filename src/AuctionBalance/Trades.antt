-- ===== src/AuctionBalance/Trades.antt =====
-- The bids, the selection of a player and the passing.
use potg.Base.{
  ℕ, ◌≡◌, refl, sym, subst, Bool, true, false, not, ◌&&◌, none, some, List, [], ◌∷◌, arith,
}
use potg.Base.Int.{ℤ}
use potg.Base.Rows.{find_one, any_of, update_where}
use potg.Base.Keyed.{save_by, find_by_key, find_by-save_by}
use potg.Base.Tx.{Tx, ok, Error, pure, throw_if, or_throw, get, ◌>>=◌, ◌>>◌, >>-inv, or_throw_inv}
use potg.AuctionTables.{
  AuctionStatus, BiddingPhase, AuctionRow, Participant, Bid, Auctions, auction_key, is_member,
  is_captain, is_player, is_ongoing, deactivate, active_on, active_by_on, is_assigned,
}
use potg.Auction.{
  save_auction, end_of_turn, select_player, place_bid, pass_current_player, release_bids,
}
use potg.Auction.Bids.{place_bid_inv, record_bid_lem}
use potg.AuctionSetup.{is_pending}
use potg.AuctionBalance.Members.{find_both}
use potg.AuctionBalance.Owing.{Balanced, is_captain_id, is_player_id}
use potg.AuctionBalance.Steady.{
  active_in, stray_bid, IsUntouched, Steady, IsSteady, by_creator, with_row,
}

-- All three tables after a step that has its parts.
pub all-Steady :
    (i : ℕ) (a row : AuctionRow) (s : Auctions) (ps : List Participant) (bs : List Bid)
    → Steady i a s
    → row.id ≡ a.id
    → Balanced i row.starting_points ps
    → any_of (stray_bid i ps) bs ≡ false
    → ((t : ℕ) → row.current_player ≡ some t → is_player_id i t ps ≡ true)
    → (is_pending row.status ≡ true
        → IsUntouched i row (record s {
          auctions = save_by auction_key row s.auctions;
          participants = ps;
          bids = bs;
        }))
    → Steady i row
        (record s { auctions = save_by auction_key row s.auctions; participants = ps; bids = bs })
all-Steady i a row s ps bs h k e b t p =
    let own = find_by_key auction_key i s.auctions a h.found in
    record {
      found = ground (arith, find_by-save_by auction_key i row s.auctions, h.found);
      balanced = e;
      bidders = b;
      target = t;
      untouched = p;
    }

pub stray-release :
    (i : ℕ) (ps : List Participant) (w : Bid → Bool) (bs : List Bid)
    → any_of (stray_bid i ps) bs ≡ false
    → any_of (stray_bid i ps) (update_where w deactivate bs) ≡ false
stray-release i ps w [] h = refl
stray-release i ps w (b ∷ bs) h = ground (arith, stray-release i ps w bs)

active-release :
    (i : ℕ) (w : Bid → Bool) (bs : List Bid)
    → any_of (active_in i) bs ≡ false
    → any_of (active_in i) (update_where w deactivate bs) ≡ false
active-release i w [] h = refl
active-release i w (b ∷ bs) h = ground (arith, active-release i w bs)

pub stray-same :
    (i : ℕ) (ps qs : List Participant) (bs : List Bid)
    → ((c : ℕ) → is_captain_id i c qs ≡ is_captain_id i c ps)
    → any_of (stray_bid i qs) bs ≡ any_of (stray_bid i ps) bs
stray-same i ps qs [] h = refl
stray-same i ps qs (b ∷ bs) h = ground (arith, stray-same i ps qs bs h, h b.bidder_id)

ongoing-pending : (st : AuctionStatus) → is_ongoing st ≡ true → is_pending st ≡ false
ongoing-pending st e = ground arith

-- An accepted bid is by a captain.
bid_fine :
    (i : ℕ) (ps : List Participant) (bid : Bid) (bs : List Bid)
    → is_captain_id i bid.bidder_id ps ≡ true
    → any_of (stray_bid i ps) bs ≡ false
    → any_of (stray_bid i ps) (bid ∷ bs) ≡ false
bid_fine i ps bid bs c h = ground arith

found_captain :
    (i c : ℕ) (p : Participant) (ps : List Participant)
    → find_one (is_member i c) ps ≡ some p
    → is_captain p.role ≡ true
    → is_captain_id i c ps ≡ true
found_captain i c p ps f k = ground arith

pub place_bid-IsSteady :
    (i bidder target : ℕ) (amount : ℤ) (n : ℕ) (s t : Auctions) (bid : Bid)
    → IsSteady i s
    → place_bid i bidder target amount n s ≡ ok (bid, t)
    → IsSteady i t
place_bid-IsSteady i bidder target amount n s t bid (a0, h) e =
    let (a, p, f, own, on, cur, k, cap, _, _, w) =
      place_bid_inv i bidder target amount n s t bid e in
    let (x, y, z, u, v, ps, all, bs) = record_bid_lem a bidder target _ n s t bid w in
    let same : a0 ≡ a = ground (arith, h.found) in
    let row : AuctionRow = record a { current_end_time = end_of_turn a s.now } in
    let freed = update_where (active_by_on a.id bidder target) deactivate s.bids in
    let who : is_captain_id i bid.bidder_id s.participants ≡ true =
      subst (λ c. is_captain_id i c s.participants ≡ true) (sym y)
        (subst (λ j. is_captain_id j bidder s.participants ≡ true) own
          (found_captain a.id bidder p s.participants k cap)) in
    let h' = subst (λ b. Steady i b s) same h in
    subst (IsSteady i) (sym all) (
      row,
      all-Steady i a row s s.participants (bid ∷ freed) h' refl h'.balanced
          (bid_fine i s.participants bid freed who
            (stray-release i s.participants (active_by_on a.id bidder target) s.bids h'.bidders))
          h'.target (λ q. absurd (cc (ongoing-pending a.status on, q))),
    )

abbrev selected_row : AuctionRow → ℕ → Auctions → AuctionRow
selected_row a target s = record a {
  current_player = some target;
  current_end_time = end_of_turn a s.now;
  phase = BiddingPhase.bidding;
}

player_found :
    (i u : ℕ) (p : Participant) (ps : List Participant)
    → find_one (is_member i u) ps ≡ some p
    → is_player p.role ≡ true
    → is_player_id i u ps ≡ true
player_found i u p ps f k = ground arith

pub select_player-IsSteady :
    (i admin target : ℕ) (s t : Auctions) (r : AuctionRow)
    → IsSteady i s
    → select_player i admin target s ≡ ok (r, t)
    → IsSteady i t
unfolding select_player
select_player-IsSteady i admin target s t r (a, h) e =
    let e1 = by_creator i admin _ s t r a h e in
    let save : Participant → Tx Auctions AuctionRow = λ p.
      throw_if (is_assigned (some p)) Error.already_assigned
      >> (save_auction (selected_row a target s) >> pure (selected_row a target s)) in
    let look : Tx Auctions AuctionRow = get >>= λ v.
    or_throw (find_one (λ p. is_member i target p && is_player p.role) v.participants)
      Error.player_not_found
    >>= λ p.
        throw_if (is_assigned (some p)) Error.already_assigned
        >> (save_auction (selected_row a target v) >> pure (selected_row a target v)) in
    let (on, e2) = >>-inv (not (is_ongoing a.status)) Error.not_ongoing look {s = s} e1 in
    let (p, f, e3) =
      or_throw_inv (find_one (λ p. is_member i target p && is_player p.role) s.participants)
        Error.player_not_found save {s = s} e2 in
    let (free, e4) =
      >>-inv (is_assigned (some p)) Error.already_assigned
        (save_auction (selected_row a target s) >> pure (selected_row a target s)) {s = s} e3 in
    let (g, k) = find_both i target (λ p. is_player p.role) p s.participants h.balanced.members f in
    let all : t ≡ with_row (selected_row a target s) s = ground arith in
    subst (IsSteady i) (sym all) (
      selected_row a target s,
      all-Steady i a (selected_row a target s) s s.participants s.bids h refl h.balanced h.bidders
          (λ u q. ground (arith, player_found i target p s.participants g k))
          (λ q. absurd (ground (arith, ongoing-pending a.status))),
    )

pub pass_current_player-IsSteady :
    (i admin : ℕ) (s t : Auctions) (r : Unit {0})
    → IsSteady i s
    → pass_current_player i admin s ≡ ok (r, t)
    → IsSteady i t
unfolding pass_current_player
pass_current_player-IsSteady i admin s t r (a, h) e =
    let e1 = by_creator i admin _ s t r a h e in
    let row : AuctionRow = record a { current_player = none; current_end_time = none } in
    let (target, c, e2) =
      or_throw_inv a.current_player Error.no_current_player
        (λ target. release_bids (active_on a.id target) >> save_auction row) {s = s} e1 in
    let freed = update_where (active_on a.id target) deactivate s.bids in
    let all : t ≡ record s { auctions = save_by auction_key row s.auctions; bids = freed } =
      ground arith in
    subst (IsSteady i) (sym all) (
      row,
      all-Steady i a row s s.participants freed h refl h.balanced
          (stray-release i s.participants (active_on a.id target) s.bids h.bidders)
          (λ u q. absurd (cc q)) (λ q. absurd (cc ((h.untouched q).no_target, c))),
    )
