-- ===== src/AuctionBalance/Undo.antt =====
-- The undone sale, and the assignment by hand.
use potg.Base.{ℕ, ◌≡◌, refl, sym, ◌∙◌, subst, true, false, not, ◌&&◌, none, some, List, arith}
use potg.Base.Rows.{find_one}
use potg.Base.Keyed.{save_by, HasUniqueKeys}
use potg.Base.Tx.{
  Tx, ok, Error, throw_if, or_throw, get, ◌>>=◌, ◌>>◌, >>=-inv, >>-inv, or_throw_inv,
}
use potg.AuctionTables.{
  AuctionStatus, AuctionRow, Participant, Auctions, participant_key, is_member, is_captain,
  is_player, is_assigned,
}
use potg.Auction.{save_participant}
use potg.AuctionSetup.{is_pending}
use potg.AuctionBalance.Members.{find_both}
use potg.AuctionBalance.Owing.{
  Balanced, Owing-none, spent, is_captain_id, is_player_id, captain_id-save, player_id-save,
}
use potg.AuctionBalance.Moves.{assign-Owing, release-Owing}
use potg.AuctionBalance.Steady.{Steady, IsSteady, by_creator}
use potg.AuctionBalance.Trades.{stray-same}
use potg.AuctionControl.{
  refund_captain, undo_sold_player, manual_assign_player, is_assigning, is_player_of,
}
use potg.AuctionBalance.Members.{HasUniqueMembers}
use potg.AuctionBalance.Refunds.{Refunded, refund_captain_lem}
use potg.AuctionBalance.Members.{IsRow}
use potg.AuctionBalance.Owing.{team_of, tally-save}
use potg.AuctionBalance.Sold.{unassigned}

abbrev released_row : Participant → Participant
released_row p = record p { assigned_captain = none; sold_price = 0; was_unsold = false }

-- Two participants' lists with the same captains and players, and the same row of the auction.
module _ (i : ℕ) (a : AuctionRow) (s : Auctions) (ps : List Participant) where
  pub people-Steady :
      Steady i a s
      → Balanced i a.starting_points ps
      → ((c : ℕ) → is_captain_id i c ps ≡ is_captain_id i c s.participants)
      → ((c : ℕ) → is_player_id i c ps ≡ is_player_id i c s.participants)
      → (is_pending a.status ≡ true → (c : ℕ) → spent i c ps ≡ 0)
      → Steady i a (record s { participants = ps })
  people-Steady h b k l z = record {
    found = h.found;
    balanced = b;
    bidders = stray-same i s.participants ps s.bids k ∙ h.bidders;
    target = λ t e. l t ∙ h.target t e;
    untouched = λ q.
        let u = h.untouched q in
        record { unspent = z q; no_target = u.no_target; no_bids = u.no_bids };
  }

-- Releasing a player spends nothing.
released-spent :
    (i u c : ℕ) (p : Participant) (ps : List Participant)
    → HasUniqueKeys participant_key ps
    → find_one (is_member i u) ps ≡ some p
    → spent i c ps ≡ 0
    → spent i c (save_by participant_key (released_row p) ps) ≡ 0
released-spent i u c p ps k f z =
    ground (arith, tally-save i u p (released_row p) ps (team_of i c) k f (refl, refl, refl))

released-Steady :
    (i u d : ℕ) (a : AuctionRow) (p : Participant) (s t v : Auctions) (r : Unit {0})
    → Steady i a s
    → is_player p.role ≡ true
    → p.assigned_captain ≡ some d
    → Refunded i a.starting_points d u p s v
    → save_participant (released_row p) v ≡ ok (r, t)
    → Steady i a t
released-Steady i u d a p s t v r h k c x e =
    let ps = save_by participant_key (released_row p) v.participants in
    let all : t ≡ record s { participants = ps } = ground (arith, x.rest) in
    let own = x.owing in
    let done = release-Owing i u a.starting_points d p v.participants own x.still k c in
    let row : IsRow p (released_row p) = (refl, refl, refl) in
    subst (Steady i a) (sym all) (
      people-Steady i a s ps h (Owing-none i a.starting_points d 0 ps done)
        (λ n.
          captain_id-save i u p (released_row p) v.participants own.keys x.still row refl n
          ∙ x.captains n)
        (λ n.
          player_id-save i u p (released_row p) v.participants own.keys x.still row refl n
          ∙ x.players n)
        (λ q n.
          released-spent i u n p v.participants own.keys x.still
            (x.same_spent n ∙ (h.untouched q).unspent n)))

pub undo_sold_player-IsSteady :
    (i admin target : ℕ) (s t : Auctions) (r : Unit {0})
    → IsSteady i s
    → undo_sold_player i admin target s ≡ ok (r, t)
    → IsSteady i t
unfolding undo_sold_player
undo_sold_player-IsSteady i admin target s t r (a, h) e =
    let e1 = by_creator i admin _ s t r a h e in
    let back : Participant → ℕ → Tx Auctions (Unit {0}) =
      λ p d. refund_captain i p d >> save_participant (released_row p) in
    let look : Participant → Tx Auctions (Unit {0}) =
      λ p. or_throw p.assigned_captain Error.not_assigned >>= back p in
    let (p, f, e2) =
      or_throw_inv (find_one (is_player_of i target) s.participants) Error.player_not_found look
        {s = s} e1 in
    let (d, c, e3) = or_throw_inv p.assigned_captain Error.not_assigned (back p) {s = s} e2 in
    let (u, v, x, e4) =
      >>=-inv (refund_captain i p d) (λ _. save_participant (released_row p)) {s = s} e3 in
    let (g, k) = find_both i target (λ q. is_player q.role) p s.participants h.balanced.members f in
    (
      a,
      released-Steady i target d a p s t v r h k c
          (refund_captain_lem i a.starting_points d target p s v u h.balanced g k c x) e4,
    )

-- A player who is assigned by hand.
assigned-Steady :
    (i u d : ℕ) (a : AuctionRow) (p : Participant) (s t : Auctions) (r : Unit {0})
    → Steady i a s
    → is_pending a.status ≡ false
    → find_one (is_member i u) s.participants ≡ some p
    → is_player p.role ≡ true
    → p.assigned_captain ≡ none
    → is_captain_id i d s.participants ≡ true
    → save_participant (record p { assigned_captain = some d; sold_price = 0; was_unsold = true }) s
      ≡ ok (r, t)
    → Steady i a t
assigned-Steady i u d a p s t r h on f k n c e =
    let q : Participant = record p {
      assigned_captain = some d;
      sold_price = 0;
      was_unsold = true;
    } in
    let ps = save_by participant_key q s.participants in
    let all : t ≡ record s { participants = ps } = ground arith in
    let row : IsRow p q = (refl, refl, refl) in
    let keys = h.balanced.keys in
    subst (Steady i a) (sym all) (
      people-Steady i a s ps h
        (Owing-none i a.starting_points d 0 ps (
          assign-Owing i u a.starting_points d p s.participants 0 true
            (Owing-none i a.starting_points 0 d s.participants h.balanced) f k n c (λ _. refl)))
        (captain_id-save i u p q s.participants keys f row refl)
        (player_id-save i u p q s.participants keys f row refl) (λ z. absurd (cc (on, z))))

assigning-pending : (st : AuctionStatus) → not (is_assigning st) ≡ false → is_pending st ≡ false
assigning-pending st e = ground arith

member_captain :
    (i d : ℕ) (c : Participant) (ps : List Participant)
    → HasUniqueMembers ps
    → find_one (λ p. is_member i d p && is_captain p.role) ps ≡ some c
    → is_captain_id i d ps ≡ true
member_captain i d c ps k f =
    let (g, r) = find_both i d (λ p. is_captain p.role) c ps k f in ground arith

pub manual_assign_player-IsSteady :
    (i admin target captain : ℕ) (s t : Auctions) (r : Unit {0})
    → IsSteady i s
    → manual_assign_player i admin target captain s ≡ ok (r, t)
    → IsSteady i t
unfolding manual_assign_player
manual_assign_player-IsSteady i admin target captain s t r (a, h) e =
    let e1 = by_creator i admin _ s t r a h e in
    let write : Participant → Tx Auctions (Unit {0}) = λ p.
      save_participant
        (record p { assigned_captain = some captain; sold_price = 0; was_unsold = true }) in
    let pick : Auctions → Participant → Tx Auctions (Unit {0}) = λ v p.
      or_throw (find_one (λ p. is_member i captain p && is_captain p.role) v.participants)
        Error.captain_not_found
      >>= λ _. write p in
    let check : Auctions → Participant → Tx Auctions (Unit {0}) =
      λ v p. throw_if (is_assigned (some p)) Error.already_assigned >> pick v p in
    let look : Tx Auctions (Unit {0}) = get >>= λ v.
    or_throw (find_one (is_player_of i target) v.participants) Error.player_not_found >>= check v in
    let (on, e2) = >>-inv (not (is_assigning a.status)) Error.not_assigning look {s = s} e1 in
    let (p, f, e3) =
      or_throw_inv (find_one (is_player_of i target) s.participants) Error.player_not_found
        (check s) {s = s} e2 in
    let (n, e4) = >>-inv (is_assigned (some p)) Error.already_assigned (pick s p) {s = s} e3 in
    let (c, g, e5) =
      or_throw_inv (find_one (λ p. is_member i captain p && is_captain p.role) s.participants)
        Error.captain_not_found (λ _. write p) {s = s} e4 in
    let (f', k) =
      find_both i target (λ q. is_player q.role) p s.participants h.balanced.members f in
    (
      a,
      assigned-Steady i target captain a p s t r h (assigning-pending a.status on) f' k
          (unassigned p n) (member_captain i captain c s.participants h.balanced.members g) e5,
    )
