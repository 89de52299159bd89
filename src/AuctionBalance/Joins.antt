-- ===== src/AuctionBalance/Joins.antt =====
-- Who joins an auction, or is registered for it.
use mathlib.Core.Path.{subst₂}
use potg.Base.{
  ℕ, ◌≡◌, refl, sym, ◌∙◌, ap, subst, true, false, not, none, some, List, [], ◌∷◌, arith, ◌==◌,
  if◌then◌else◌, inl, inr, Bool-cases,
}
use potg.Base.Int.{pos, ◌+ℤ◌}
use potg.Base.Rows.{find_one, any_of}
use potg.Base.Keyed.{find_by}
use potg.Base.Tx.{Tx, ok, Error, pure, throw_if, get, ◌>>=◌, ◌>>◌, >>=-inv, >>-inv, or_throw_inv}
use potg.AuctionTables.{
  AuctionRow, Participant, Bid, Auctions, AuctionRole, auction_key, participant_key, is_member,
  is_captain,
}
use potg.AuctionSetup.{is_pending}
use potg.AuctionBalance.Owing.{unspent_due}
use potg.AuctionBalance.Owing.{Balanced, spent}
use potg.AuctionBalance.Steady.{stray_bid, Steady, IsSteady, by_creator}
use potg.Auction.{load_auction}
use potg.AuctionSetup.{has_joined, new_participant, add_participant, join, load_pending, add_player}
use potg.AuctionBalance.Members.{tally}
use potg.AuctionBalance.Owing.{stray_of, due}

-- The row that joins.
module _ (i user points new_id : ℕ) (role : AuctionRole) (ps : List Participant) where
  abbrev pub joined : List Participant
  joined = new_participant new_id i user role points ∷ ps

  joined_member :
      (u : ℕ)
      → find_one (is_member i u) joined ≡ (
          if user == u
          then some (new_participant new_id i user role points)
          else find_one (is_member i u) ps)
  joined_member u = ground arith

  joined-tally :
      (c : ℕ)
      → (spent i c joined ≡ spent i c ps) × (tally (stray_of i c) joined ≡ tally (stray_of i c) ps)
  joined-tally c = (ground arith, ground arith)

module _ (i start user points new_id : ℕ) (role : AuctionRole) (ps : List Participant) where
  joined_captain :
      Balanced i start ps
      → find_one (is_member i user) ps ≡ none
      → (is_captain role ≡ true → points ≡ start)
      → (c : ℕ) (p : Participant)
      → find_one (is_member i c) (joined i user points new_id role ps) ≡ some p
      → is_captain p.role ≡ true
      → p.current_points +ℤ pos (spent i c (joined i user points new_id role ps))
        ≡ pos start +ℤ due c 0 (pos 0)
  joined_captain h n k c p f r =
      let m = joined_member i user points new_id role ps c in
      let t = (joined-tally i user points new_id role ps c).0 in
      elim (Bool-cases (user == c)) [
        | inl e ↦
            let own : p ≡ new_participant new_id i user role points = ground arith in
            let zero : spent i c ps ≡ 0 = h.only_captains c (ground arith) in
            unspent_due p.current_points (spent i c (joined i user points new_id role ps)) start c
              (ap (λ z. z.current_points) own
                ∙ ap pos (k (ap (λ z. is_captain z.role) (sym own) ∙ r)))
              (t ∙ zero)
        | inr e ↦ ap (λ z. p.current_points +ℤ pos z) t ∙ h.captains c p (ground arith) r
      ]

  joined-Balanced :
      Balanced i start ps
      → find_one (is_member i user) ps ≡ none
      → find_by participant_key new_id ps ≡ none
      → (is_captain role ≡ true → points ≡ start)
      → Balanced i start (joined i user points new_id role ps)
  joined-Balanced h n w k = record {
    keys = (w, h.keys);
    members = (n, h.members);
    captains = joined_captain h n k;
    only_captains = λ c e.
        let m = joined_member i user points new_id role ps c in
        ground (arith, (joined-tally i user points new_id role ps c).0, h.only_captains c);
    stray = λ c. (joined-tally i user points new_id role ps c).1 ∙ h.stray c;
    by_hand = λ u p f b.
        let m = joined_member i user points new_id role ps u in ground (arith, h.by_hand u p);
  }

  joined_stray :
      (bs : List Bid)
      → find_one (is_member i user) ps ≡ none
      → any_of (stray_bid i ps) bs ≡ false
      → any_of (stray_bid i (joined i user points new_id role ps)) bs ≡ false
  joined_stray [] n e = refl
  joined_stray (b ∷ bs) n e =
      ground (arith, joined_stray bs n, joined_member i user points new_id role ps b.bidder_id)

  pub joined-Steady :
      (a : AuctionRow) (s : Auctions)
      → s.participants ≡ ps
      → a.starting_points ≡ start
      → Steady i a s
      → find_one (is_member i user) ps ≡ none
      → find_by participant_key new_id ps ≡ none
      → (is_captain role ≡ true → points ≡ start)
      → Steady i a (record s { participants = joined i user points new_id role ps })
  joined-Steady a s x y h n w k =
      let b : Balanced i start ps = subst₂ (λ z v. Balanced i v z) x y h.balanced in
      record {
        found = h.found;
        balanced =
            subst (λ v. Balanced i v (joined i user points new_id role ps)) (sym y)
              (joined-Balanced b n w k);
        bidders =
            joined_stray s.bids n (subst (λ z. any_of (stray_bid i z) s.bids ≡ false) x h.bidders);
        target = λ t e.
            let m = joined_member i user points new_id role ps t in ground (arith, h.target t e);
        untouched = λ q.
            let u = h.untouched q in
            record {
              unspent = λ c.
                  (joined-tally i user points new_id role ps c).0
                  ∙ ap (spent i c) (sym x)
                  ∙ u.unspent c;
              no_target = u.no_target;
              no_bids = u.no_bids;
            };
      }

pub not_joined :
    (i user : ℕ) (s : Auctions)
    → has_joined i user s ≡ false
    → find_one (is_member i user) s.participants ≡ none
not_joined i user s e = ground arith

pub join-IsSteady :
    (i user : ℕ) (role : AuctionRole) (new_id : ℕ) (s t : Auctions) (p : Participant)
    → IsSteady i s
    → find_by participant_key new_id s.participants ≡ none
    → join i user role new_id s ≡ ok (p, t)
    → IsSteady i t
unfolding join load_auction
join-IsSteady i user role new_id s t p (a, h) w e =
    let add : AuctionRow → Tx Auctions Participant = λ a.
      add_participant
        (new_participant new_id i user role (if is_captain role then a.starting_points else 0)) in
    let check : AuctionRow → Tx Auctions Participant =
      λ a. get >>= λ v. throw_if (has_joined i user v) Error.already_joined >> add a in
    let (b, f, e1) =
      or_throw_inv (find_by auction_key i s.auctions) Error.auction_not_found check {s = s} e in
    let same : b ≡ a = ground (arith, h.found) in
    let (n, e2) = >>-inv (has_joined i user s) Error.already_joined (add b) {s = s} e1 in
    let points = if is_captain role then a.starting_points else 0 in
    let all : t ≡ record s { participants = joined i user points new_id role s.participants } =
      subst
        (λ z. t ≡ record s {
          participants =
              joined i user (if is_captain role then z.starting_points else 0) new_id role
                s.participants;
        })
        same (ground arith) in
    subst (IsSteady i) (sym all) (
      a,
      joined-Steady i a.starting_points user points new_id role s.participants a s refl refl h
          (not_joined i user s n) w (λ k. rw k refl),
    )

-- The actions behind the check that the auction is pending.
pub by_pending :
    {A : Type 0} (i admin : ℕ) (f : AuctionRow → Tx Auctions A) (s t : Auctions) (r : A)
    (a : AuctionRow)
    → Steady i a s
    → (load_pending i admin >>= f) s ≡ ok (r, t)
    → (is_pending a.status ≡ true) × (f a s ≡ ok (r, t))
unfolding load_pending
by_pending i admin f s t r a h e =
    let (b, v, l, e1) = >>=-inv (load_pending i admin) f {s = s} e in
    let e2 = by_creator i admin _ s v b a h l in
    let (p, e3) = >>-inv (not (is_pending a.status)) Error.not_pending (pure a) {s = s} e2 in
    (ground arith, subst₂ (λ y z. f y z ≡ ok (r, t)) (ground arith) (ground arith) e1)

pub add_player-IsSteady :
    (i admin target new_id : ℕ) (s t : Auctions) (p : Participant)
    → IsSteady i s
    → find_by participant_key new_id s.participants ≡ none
    → add_player i admin target new_id s ≡ ok (p, t)
    → IsSteady i t
unfolding add_player
add_player-IsSteady i admin target new_id s t p (a, h) w e =
    let add : Tx Auctions Participant =
      add_participant (new_participant new_id i target AuctionRole.player 0) in
    let (_, e1) = by_pending i admin _ s t p a h e in
    let (n, e2) = >>-inv (has_joined i target s) Error.already_joined add {s = s} e1 in
    let all : t
        ≡ record s { participants = joined i target 0 new_id AuctionRole.player s.participants } =
      ground arith in
    subst (IsSteady i) (sym all) (
      a,
      joined-Steady i a.starting_points target 0 new_id AuctionRole.player s.participants a s refl
          refl h (not_joined i target s n) w (λ k. absurd (cc k)),
    )
