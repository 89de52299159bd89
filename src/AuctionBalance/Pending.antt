-- ===== src/AuctionBalance/Pending.antt =====
-- The changes of an auction that has not started.
use potg.Base.{
  ℕ, ◌≤◌, ◌≡◌, refl, sym, ◌∙◌, ap, subst, true, false, not, ◌&&◌, none, some, List, [], ◌∷◌, arith,
  ◌==◌,
}
use potg.Base.Int.{ℤ, pos, ◌+ℤ◌, int_laws}
use potg.Base.Rows.{select, find_one, any_of}
use potg.Base.Keyed.{save_by, HasUniqueKeys}
use potg.Base.Tx.{ok, Error, or_throw_inv}
use potg.AuctionTables.{
  AuctionRow, Participant, Bid, Auctions, auction_key, participant_key, is_member, is_captain,
  is_assigned,
}
use potg.AuctionSetup.{is_pending}
use potg.AuctionBalance.Owing.{unspent_due, zero_below}
use potg.AuctionBalance.Owing.{Balanced, spent}
use potg.AuctionBalance.Moves.{no_due}
use potg.AuctionBalance.Steady.{active_in, stray_bid, Steady, IsSteady}
use potg.AuctionBalance.Trades.{all-Steady}
use potg.AuctionSetup.{remove_participant, remove_participant_row, remove_captain}
use potg.AuctionBalance.Members.{
  HasUniqueMembers, tally, tally_removed, find_removed, removed-HasUniqueMembers,
  removed-HasUniqueKeys,
}
use potg.AuctionBalance.Owing.{team_of, stray_of, due}
use potg.AuctionBalance.Joins.{by_pending}

stray_spent : (i c : ℕ) (ps : List Participant) → tally (stray_of i c) ps ≤ spent i c ps
stray_spent i c [] = omega arith
stray_spent i c (p ∷ ps) = ground (arith, stray_spent i c ps)

alone : (x : ℤ) (n s : ℕ) → x +ℤ pos n ≡ pos s +ℤ pos 0 → n ≡ 0 → x ≡ pos s
alone x n s e z = grind int_laws

unspent_points : (x : ℤ) (n s c : ℕ) → x +ℤ pos n ≡ pos s +ℤ due c 0 (pos 0) → n ≡ 0 → x ≡ pos s
unspent_points x n s c e z = alone x n s (e ∙ ap (λ t. pos s +ℤ t) (no_due c 0)) z

-- Captains who have spent nothing have the starting points.
abbrev pub HavePoints : ℕ → ℕ → List Participant → Type 0
HavePoints i start ps =
    (c : ℕ) (p : Participant)
    → find_one (is_member i c) ps ≡ some p
    → is_captain p.role ≡ true
    → p.current_points ≡ pos start

abbrev pub IsByHand : ℕ → List Participant → Type 0
IsByHand i ps =
    (u : ℕ) (p : Participant)
    → find_one (is_member i u) ps ≡ some p
    → p.was_unsold ≡ true
    → (p.sold_price ≡ 0) × (is_assigned (some p) ≡ true)

pub unspent-Balanced :
    (i start : ℕ) (ps : List Participant)
    → HasUniqueKeys participant_key ps
    → HasUniqueMembers ps
    → ((c : ℕ) → spent i c ps ≡ 0)
    → HavePoints i start ps
    → IsByHand i ps
    → Balanced i start ps
unspent-Balanced i start ps k m z p b = record {
  keys = k;
  members = m;
  captains = λ c q f r. unspent_due q.current_points (spent i c ps) start c (p c q f r) (z c);
  only_captains = λ c _. z c;
  stray = λ c. zero_below _ _ (stray_spent i c ps) (z c);
  by_hand = b;
}

pub stray_active :
    (i : ℕ) (ps : List Participant) (bs : List Bid)
    → any_of (active_in i) bs ≡ false
    → any_of (stray_bid i ps) bs ≡ false
stray_active i ps [] h = refl
stray_active i ps (b ∷ bs) h = ground (arith, stray_active i ps bs)

-- A pending auction with other participants and another row.
module _ (i : ℕ) (a row : AuctionRow) (s : Auctions) (ps : List Participant) where
  pub pending-Steady :
      Steady i a s
      → is_pending a.status ≡ true
      → row.id ≡ a.id
      → row.current_player ≡ none
      → HasUniqueKeys participant_key ps
      → HasUniqueMembers ps
      → ((c : ℕ) → spent i c ps ≡ 0)
      → HavePoints i row.starting_points ps
      → IsByHand i ps
      → Steady i row (record s { auctions = save_by auction_key row s.auctions; participants = ps })
  pending-Steady h q k n u m z p b =
      let before = h.untouched q in
      all-Steady i a row s ps s.bids h k (unspent-Balanced i row.starting_points ps u m z p b)
        (stray_active i ps s.bids before.no_bids) (λ t e. absurd (cc (n, e)))
        (λ _. record { unspent = z; no_target = n; no_bids = before.no_bids })

pub save_same :
    (i : ℕ) (a : AuctionRow) (s : Auctions) (ps : List Participant)
    → Steady i a s
    → Steady i a (record s { auctions = save_by auction_key a s.auctions; participants = ps })
    → Steady i a (record s { participants = ps })
save_same i a s ps h g = record {
  found = h.found;
  balanced = g.balanced;
  bidders = g.bidders;
  target = g.target;
  untouched = λ q.
      let u = g.untouched q in
      record { unspent = u.unspent; no_target = u.no_target; no_bids = u.no_bids };
}

pub had_points :
    (i : ℕ) (a : AuctionRow) (s : Auctions)
    → Steady i a s
    → is_pending a.status ≡ true
    → HavePoints i a.starting_points s.participants
had_points i a s h q c p f r =
    unspent_points p.current_points (spent i c s.participants) a.starting_points c
      (h.balanced.captains c p f r) ((h.untouched q).unspent c)

-- A participant is removed.
removed-Steady :
    (i : ℕ) (a : AuctionRow) (p : Participant) (s t : Auctions) (r : Unit {0})
    → Steady i a s
    → is_pending a.status ≡ true
    → remove_participant_row p s ≡ ok (r, t)
    → Steady i a t
removed-Steady i a p s t r h q e =
    let ps = select (λ x. not (x.id == p.id)) s.participants in
    let b = h.balanced in
    let all : t ≡ record s { participants = ps } = ground arith in
    let back : (u : ℕ) (x : Participant)
        → find_one (is_member i u) ps ≡ some x
        → find_one (is_member i u) s.participants ≡ some x =
      λ u x f. find_removed i u p.id x s.participants b.members f in
    subst (Steady i a) (sym all) (
      save_same i a s ps h (
        pending-Steady i a a s ps h q refl (h.untouched q).no_target
          (removed-HasUniqueKeys p.id s.participants b.keys)
          (removed-HasUniqueMembers p.id s.participants b.members)
          (λ c.
            zero_below _ _ (tally_removed (team_of i c) (λ x. not (x.id == p.id)) s.participants)
              ((h.untouched q).unspent c))
          (λ c x f. had_points i a s h q c x (back c x f)) (λ u x f. b.by_hand u x (back u x f))))

pub remove_participant-IsSteady :
    (i admin target : ℕ) (s t : Auctions) (r : Unit {0})
    → IsSteady i s
    → remove_participant i admin target s ≡ ok (r, t)
    → IsSteady i t
unfolding remove_participant
remove_participant-IsSteady i admin target s t r (a, h) e =
    let (q, e1) = by_pending i admin _ s t r a h e in
    let (p, f, e2) =
      or_throw_inv (find_one (is_member i target) s.participants) Error.participant_not_found
        remove_participant_row {s = s} e1 in
    (a, removed-Steady i a p s t r h q e2)

pub remove_captain-IsSteady :
    (i admin user : ℕ) (s t : Auctions) (r : Unit {0})
    → IsSteady i s
    → remove_captain i admin user s ≡ ok (r, t)
    → IsSteady i t
unfolding remove_captain
remove_captain-IsSteady i admin user s t r (a, h) e =
    let (q, e1) = by_pending i admin _ s t r a h e in
    let (p, f, e2) =
      or_throw_inv (find_one (λ p. is_member i user p && is_captain p.role) s.participants)
        Error.captain_not_found remove_participant_row {s = s} e1 in
    (a, removed-Steady i a p s t r h q e2)
