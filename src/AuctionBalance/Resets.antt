-- ===== src/AuctionBalance/Resets.antt =====
-- The reset of an auction.
use mathlib.Core.Path.{subst₂}
use potg.Base.{
  ℕ, ◌≡◌, refl, sym, ◌∙◌, ap, subst, true, false, not, none, some, List, [], ◌∷◌, arith, ◌==◌, inl,
  inr, Option-cases,
}
use potg.Base.Int.{pos}
use potg.Base.Rows.{select, find_one, any_of}
use potg.Base.Keyed.{find_by, save_by, find_by_key, find_by-save_by_found}
use potg.Base.Tx.{Tx, ok, Error, pure, throw_if, get, put, ◌>>=◌, ◌>>◌, >>=-inv, >>-inv}
use potg.AuctionTables.{
  AuctionStatus, BiddingPhase, AuctionRow, Participant, Bid, Auctions, AuctionRole, auction_key,
  is_member, is_captain, is_player, is_assigned,
}
use potg.Auction.{save_auction}
use potg.AuctionBalance.Owing.{unspent_due, zero_below}
use potg.AuctionBalance.Members.{find_member_lem}
use potg.AuctionBalance.Owing.{Balanced, spent}
use potg.AuctionBalance.Steady.{stray_bid, IsSteady, by_creator}
use potg.AuctionBalance.Trades.{all-Steady}
use potg.Auction.{load_as_creator}
use potg.Auction.Sales.{load_as_creator_inv}
use potg.AuctionControl.{reset, reset_role, is_resettable}
use potg.AuctionBalance.ResetRows.{
  all_reset, reset_row, reset_member, reset-HasUniqueKeys, reset-HasUniqueMembers, reset-spent,
}

reset_points :
    (r : AuctionRole) (points : ℕ) (p : Participant)
    → is_captain r ≡ true
    → (reset_role r points p).current_points ≡ pos points
reset_points AuctionRole.captain points p e = refl
reset_points AuctionRole.player points p e = absurd (cc e)
reset_points AuctionRole.spectator points p e = absurd (cc e)

reset_by_hand :
    (r : AuctionRole) (points : ℕ) (p : Participant)
    → ((p.was_unsold ≡ true) → (p.sold_price ≡ 0) × (is_assigned (some p) ≡ true))
    → (reset_role r points p).was_unsold ≡ true
    → ((reset_role r points p).sold_price ≡ 0) × (is_assigned (some (reset_role r points p)) ≡ true)
reset_by_hand AuctionRole.captain points p h e = h e
reset_by_hand AuctionRole.player points p h e = absurd (cc e)
reset_by_hand AuctionRole.spectator points p h e = h e

-- A row of the reset auction comes from the row that was there.
reset_from :
    (i points u : ℕ) (q : Participant) (ps : List Participant)
    → find_one (is_member i u) (all_reset i points ps) ≡ some q
    → (p : Participant) × (find_one (is_member i u) ps ≡ some p) × (q ≡ reset_role p.role points p)
reset_from i points u q ps e =
    let m = reset_member i points i u ps in
    elim (Option-cases (find_one (is_member i u) ps)) [
      | inl n ↦ absurd (ground arith)
      | inr (p, f) ↦ let own = (find_member_lem i u p ps f).0 in (p, f, ground arith)
    ]

reset-Balanced :
    (i points : ℕ) (ps : List Participant)
    → Balanced i points ps
    → Balanced i points (all_reset i points ps)
reset-Balanced i points ps h =
    let zero : (c : ℕ) → spent i c (all_reset i points ps) ≡ 0 =
      λ c. zero_below _ _ (reset-spent i points c ps).0 (h.stray c) in
    record {
      keys = reset-HasUniqueKeys i points ps h.keys;
      members = reset-HasUniqueMembers i points ps h.members;
      captains = λ c q f k.
          let (p, g, e) = reset_from i points c q ps f in
          let role : is_captain p.role ≡ true =
            ap is_captain (sym (ap (λ z. z.role) e ∙ (reset_row i points p).3)) ∙ k in
          unspent_due q.current_points (spent i c (all_reset i points ps)) points c
            (ap (λ z. z.current_points) e ∙ reset_points p.role points p role) (zero c);
      only_captains = λ c k. zero c;
      stray = λ c. zero_below _ _ (reset-spent i points c ps).1 (h.stray c);
      by_hand = λ u q f k.
          let (p, g, e) = reset_from i points u q ps f in
          subst (λ z. (z.sold_price ≡ 0) × (is_assigned (some z) ≡ true)) (sym e)
            (reset_by_hand p.role points p (h.by_hand u p g)
              (subst (λ z. z.was_unsold ≡ true) e k));
    }

no_stray_left :
    (i : ℕ) (ps : List Participant) (bs : List Bid)
    → any_of (stray_bid i ps) (select (λ b. not (b.auction_id == i)) bs) ≡ false
no_stray_left i ps [] = refl
no_stray_left i ps (b ∷ bs) = ground (arith, no_stray_left i ps bs)

abbrev reset_auction : AuctionRow → AuctionRow
reset_auction a = record a {
  status = AuctionStatus.ongoing;
  phase = BiddingPhase.waiting;
  current_player = none;
  current_end_time = none;
  timer_paused = false;
  paused_time_remaining = none;
}

reset_writes : ℕ → AuctionRow → Tx Auctions AuctionRow
reset_writes i a = get >>= λ v.
    put (record v {
      bids = select (λ b. not (b.auction_id == i)) v.bids;
      participants = all_reset i a.starting_points v.participants;
    })
    >> (save_auction (reset_auction a) >> pure (reset_auction a))

-- What a reset that succeeds writes.
reset_row_lem :
    (i : ℕ) (a : AuctionRow) (s t : Auctions) (r : AuctionRow)
    → (throw_if (not (is_resettable a.status)) Error.not_resettable >> reset_writes i a) s
      ≡ ok (r, t)
    → (r ≡ reset_auction a)
      × (t ≡ record s {
        auctions = save_by auction_key (reset_auction a) s.auctions;
        participants = all_reset i a.starting_points s.participants;
        bids = select (λ b. not (b.auction_id == i)) s.bids;
      })
unfolding reset_writes
reset_row_lem i a s t r e =
    let (on, e2) =
      >>-inv (not (is_resettable a.status)) Error.not_resettable (reset_writes i a) {s = s} e in
    (ground arith, ground arith)

pub reset-IsSteady :
    (i admin : ℕ) (s t : Auctions) (r : AuctionRow)
    → IsSteady i s
    → reset i admin s ≡ ok (r, t)
    → IsSteady i t
unfolding reset reset_writes
reset-IsSteady i admin s t r (a, h) e =
    let (_, all) = reset_row_lem i a s t r (by_creator i admin _ s t r a h e) in
    let ps = all_reset i a.starting_points s.participants in
    let bs = select (λ b. not (b.auction_id == i)) s.bids in
    subst (IsSteady i) (sym all) (
      reset_auction a,
      all-Steady i a (reset_auction a) s ps bs h refl
          (reset-Balanced i a.starting_points s.participants h.balanced) (no_stray_left i ps s.bids)
          (λ u q. absurd (cc q)) (λ q. absurd (cc q)),
    )

-- A captain with the starting points, a player without a team.
abbrev pub IsUnspent : ℕ → Participant → Type 0
IsUnspent start p =
    (is_captain p.role ≡ true → p.current_points ≡ pos start)
    × (is_player p.role ≡ true
        → (p.assigned_captain ≡ none) × (p.sold_price ≡ 0) × (p.was_unsold ≡ false))

reset-IsUnspent :
    (r : AuctionRole) (points : ℕ) (p : Participant)
    → p.role ≡ r
    → IsUnspent points (reset_role r points p)
reset-IsUnspent AuctionRole.captain points p e = (λ _. refl, λ k. absurd (ground arith))
reset-IsUnspent AuctionRole.player points p e =
    (λ k. absurd (ground arith), λ _. (refl, refl, refl))
reset-IsUnspent AuctionRole.spectator points p e =
    (λ k. absurd (ground arith), λ k. absurd (ground arith))

no_bids_left :
    (i : ℕ) (bs : List Bid)
    → any_of (λ b. b.auction_id == i) (select (λ b. not (b.auction_id == i)) bs) ≡ false
no_bids_left i [] = refl
no_bids_left i (b ∷ bs) = ground (arith, no_bids_left i bs)

-- The row of a running auction that waits for the next player.
pub record IsWaiting (r : AuctionRow) : Type 0 where
  pub running : r.status ≡ AuctionStatus.ongoing
  pub waiting : r.phase ≡ BiddingPhase.waiting
  pub nobody : r.current_player ≡ none
  pub untimed :
      (r.current_end_time ≡ none) × (r.timer_paused ≡ false) × (r.paused_time_remaining ≡ none)

-- After a reset that goes through, every captain of the auction has its starting points, every
-- player has no team, no price and no mark of an assignment by hand, and no bid on the auction is
-- left. The auction is stored as it was returned: running, waiting, with nobody on turn and no
-- paused timer.
pub reset_all :
    (i admin : ℕ) (s t : Auctions) (r : AuctionRow)
    → reset i admin s ≡ ok (r, t)
    → ((u : ℕ) (p : Participant)
        → find_one (is_member i u) t.participants ≡ some p
        → IsUnspent r.starting_points p)
      × (any_of (λ b. b.auction_id == i) t.bids ≡ false)
      × (find_by auction_key i t.auctions ≡ some r)
      × IsWaiting r
unfolding reset reset_writes
reset_all i admin s t r e =
    let (a, v, l, e1) = >>=-inv (load_as_creator i admin) _ {s = s} e in
    let (f, g, q) = load_as_creator_inv i admin s v a l in
    let (row, all) = reset_row_lem i a s t r (
      subst
        (λ z.
          (throw_if (not (is_resettable a.status)) Error.not_resettable >> reset_writes i a) z
          ≡ ok (r, t))
        q e1) in
    (
      λ u p k.
          let (w, c, n) =
            reset_from i a.starting_points u p s.participants
              (subst (λ z. find_one (is_member i u) z.participants ≡ some p) all k) in
          subst₂ (λ z y. IsUnspent z.starting_points y) (sym row) (sym n)
            (reset-IsUnspent w.role a.starting_points w refl),
      ap (λ z. any_of (λ b. b.auction_id == i) z.bids) all ∙ no_bids_left i s.bids,
      ap (λ z. find_by auction_key i z.auctions) all
          ∙ (find_by-save_by_found auction_key i (reset_auction a) a s.auctions
                (find_by_key auction_key i s.auctions a f) f
              ∙ ap some (sym row)),
      subst IsWaiting (sym row)
          record { running = refl; waiting = refl; nobody = refl; untimed = (refl, refl, refl) },
    )
