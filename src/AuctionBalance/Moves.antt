-- ===== src/AuctionBalance/Moves.antt =====
-- The three writes that sales, refunds and assignments are made of.
use mathlib.Core.Path.{subst₂}
use potg.Base.{
  ℕ, ◌+◌, ◌≡◌, refl, sym, ◌∙◌, ap, Bool, true, false, none, some, List, arith, ◌==◌, if◌then◌else◌,
  inl, inr, Bool-cases,
}
use potg.Base.Int.{ℤ, pos, ◌+ℤ◌, int_laws}
use potg.Base.Rows.{find_one}
use potg.Base.Keyed.{save_by, HasUniqueKeys, save_by-HasUniqueKeys}
use potg.AuctionTables.{Participant, AuctionRole, participant_key, is_member, is_captain, is_player}
use potg.AuctionBalance.Members.{IsRow, find_member_lem, find_member-save, save-HasUniqueMembers}
use potg.AuctionBalance.Owing.{
  team_of, stray_of, spent, is_captain_id, due, Owing, captain_id-save, tally-save,
}

pub player-captain : (r : AuctionRole) → is_player r ≡ true → is_captain r ≡ false
player-captain AuctionRole.captain e = absurd (cc e)
player-captain AuctionRole.player e = refl
player-captain AuctionRole.spectator e = refl

owes : (x : ℤ) (n s y : ℕ) → x +ℤ pos n ≡ pos s +ℤ pos 0 → x +ℤ pos (n + y) ≡ pos s +ℤ pos y
owes x n s y e = grind int_laws

owed : (x : ℤ) (n s y : ℕ) → x +ℤ pos (n + y) ≡ pos s +ℤ pos y → x +ℤ pos n ≡ pos s +ℤ pos 0
owed x n s y e = grind int_laws

pos_due : (c d y : ℕ) → pos (if c == d then y else 0) ≡ due c d (pos y)
pos_due c d y = ground arith

pub no_due : (c d : ℕ) → due c d (pos 0) ≡ pos 0
no_due c d = ground arith

-- A row `p` of the auction that was found under the user `u`, and what is written for it.
module _ (i u start d : ℕ) (p q : Participant) (ps : List Participant) where
  spent_joined :
      HasUniqueKeys participant_key ps
      → find_one (is_member i u) ps ≡ some p
      → IsRow p q
      → p.assigned_captain ≡ none
      → q.assigned_captain ≡ some d
      → (c : ℕ)
      → spent i c (save_by participant_key q ps)
        ≡ spent i c ps + (if c == d then q.sold_price else 0)
  spent_joined k f r a b c =
      ground (arith, tally-save i u p q ps (team_of i c) k f r, find_member_lem i u p ps f)

  spent_left :
      HasUniqueKeys participant_key ps
      → find_one (is_member i u) ps ≡ some p
      → IsRow p q
      → p.assigned_captain ≡ some d
      → q.assigned_captain ≡ none
      → (c : ℕ)
      → spent i c ps
        ≡ spent i c (save_by participant_key q ps) + (if c == d then p.sold_price else 0)
  spent_left k f r a b c =
      ground (arith, tally-save i u p q ps (team_of i c) k f r, find_member_lem i u p ps f)

  spent_same :
      HasUniqueKeys participant_key ps
      → find_one (is_member i u) ps ≡ some p
      → IsRow p q
      → q.assigned_captain ≡ p.assigned_captain
      → q.sold_price ≡ p.sold_price
      → (c : ℕ) → spent i c (save_by participant_key q ps) ≡ spent i c ps
  spent_same k f r a b c = ground (arith, tally-save i u p q ps (team_of i c) k f r)

  -- Another captain's row is what it was.
  other_captain :
      HasUniqueKeys participant_key ps
      → find_one (is_member i u) ps ≡ some p
      → IsRow p q
      → is_player q.role ≡ true
      → (c : ℕ) (v : Participant) → find_one (is_member i c) (save_by participant_key q ps) ≡ some v
      → is_captain v.role ≡ true
      → find_one (is_member i c) ps ≡ some v
  other_captain k f r l c v g e =
      ground (arith, find_member-save i u i c p q ps k f r, player-captain q.role)

module _ (i u start d : ℕ) (p : Participant) (ps : List Participant) where
  -- A player without a team joins the captain's, who owes the price.
  pub assign-Owing :
      (y : ℕ) (b : Bool)
      → Owing i start d (pos 0) ps
      → find_one (is_member i u) ps ≡ some p
      → is_player p.role ≡ true
      → p.assigned_captain ≡ none
      → is_captain_id i d ps ≡ true
      → (b ≡ true → y ≡ 0)
      → Owing i start d (pos y) (
          save_by participant_key
            (record p { assigned_captain = some d; sold_price = y; was_unsold = b })
            ps)
  assign-Owing y b h f r a k z =
      let q : Participant = record p {
        assigned_captain = some d;
        sold_price = y;
        was_unsold = b;
      } in
      let own : IsRow p q = (refl, refl, refl) in
      let m = find_member_lem i u p ps f in
      record {
        keys = save_by-HasUniqueKeys participant_key q ps h.keys;
        members = save-HasUniqueMembers i u p q ps h.keys h.members f own;
        captains = λ c v g l.
            let n = spent_joined i u start d p q ps h.keys f own a refl c in
            let o = other_captain i u start d p q ps h.keys f own r c v g l in
            let e =
              owes v.current_points (spent i c ps) start (if c == d then y else 0)
                (h.captains c v o l ∙ ap (λ t. pos start +ℤ t) (no_due c d)) in
            ap (λ t. v.current_points +ℤ pos t) n ∙ (e ∙ ap (λ t. pos start +ℤ t) (pos_due c d y));
        only_captains = λ c g. ground (
          arith,
          spent_joined i u start d p q ps h.keys f own a refl c,
          captain_id-save i u p q ps h.keys f own refl c,
          h.only_captains c,
        );
        stray = λ c. ground (arith, tally-save i u p q ps (stray_of i c) h.keys f own, h.stray c);
        by_hand = λ v w g l.
            ground (arith, find_member-save i u i v p q ps h.keys f own, h.by_hand v w, z);
      }

  -- A player leaves the captain's team, who was paid back the price.
  pub release-Owing :
      Owing i start d (pos p.sold_price) ps
      → find_one (is_member i u) ps ≡ some p
      → is_player p.role ≡ true
      → p.assigned_captain ≡ some d
      → Owing i start d (pos 0) (
          save_by participant_key
            (record p { assigned_captain = none; sold_price = 0; was_unsold = false })
            ps)
  release-Owing h f r a =
      let q : Participant = record p {
        assigned_captain = none;
        sold_price = 0;
        was_unsold = false;
      } in
      let own : IsRow p q = (refl, refl, refl) in
      let after = save_by participant_key q ps in
      record {
        keys = save_by-HasUniqueKeys participant_key q ps h.keys;
        members = save-HasUniqueMembers i u p q ps h.keys h.members f own;
        captains = λ c v g l.
            let n = spent_left i u start d p q ps h.keys f own a refl c in
            let o = other_captain i u start d p q ps h.keys f own r c v g l in
            let e : v.current_points +ℤ pos (spent i c after + (if c == d then p.sold_price else 0))
                ≡ pos start +ℤ pos (if c == d then p.sold_price else 0) =
              ap (λ t. v.current_points +ℤ pos t) (sym n)
              ∙ (h.captains c v o l ∙ ap (λ t. pos start +ℤ t) (sym (pos_due c d p.sold_price))) in
            owed v.current_points (spent i c after) start (if c == d then p.sold_price else 0) e
            ∙ ap (λ t. pos start +ℤ t) (sym (no_due c d));
        only_captains = λ c g. ground (
          arith,
          spent_left i u start d p q ps h.keys f own a refl c,
          captain_id-save i u p q ps h.keys f own refl c,
          h.only_captains c,
        );
        stray = λ c. ground (arith, tally-save i u p q ps (stray_of i c) h.keys f own, h.stray c);
        by_hand =
            λ v w g l. ground (arith, find_member-save i u i v p q ps h.keys f own, h.by_hand v w);
      }

-- Points that move together with what is owed.
shifted :
    (a b x y : ℤ) (n s : ℕ) → a +ℤ pos n ≡ pos s +ℤ x → b +ℤ x ≡ a +ℤ y → b +ℤ pos n ≡ pos s +ℤ y
shifted a b x y n s e h = grind int_laws

due_self : (d : ℕ) (x : ℤ) → due d d x ≡ x
due_self d x = ground arith

due_other : (c d : ℕ) (x : ℤ) → (c == d) ≡ false → due c d x ≡ pos 0
due_other c d x n = ground arith

module _ (i start d : ℕ) (p : Participant) (ps : List Participant) (x y b : ℤ) where
  repointed :
      Owing i start d x ps
      → find_one (is_member i d) ps ≡ some p
      → b +ℤ x ≡ p.current_points +ℤ y
      → (c : ℕ) (v : Participant)
      → find_one (is_member i c) (save_by participant_key (record p { current_points = b }) ps)
        ≡ some v
      → is_captain v.role ≡ true
      → v.current_points
          +ℤ pos (spent i c (save_by participant_key (record p { current_points = b }) ps))
        ≡ pos start +ℤ due c d y
  repointed h f e c v g l =
      let q : Participant = record p { current_points = b } in
      let own : IsRow p q = (refl, refl, refl) in
      let found = find_member-save i d i c p q ps h.keys f own in
      let n = spent_same i d start d p q ps h.keys f own refl refl c in
      elim (Bool-cases (c == d)) [
        | inl m ↦
            let same : c ≡ d = ground arith in
            let w : v ≡ q = ground arith in
            let old : p.current_points +ℤ pos (spent i d ps) ≡ pos start +ℤ x =
              h.captains d p f (ground arith) ∙ ap (λ t. pos start +ℤ t) (due_self d x) in
            let new = shifted p.current_points b x y (spent i d ps) start old e in
            let here : due c d y ≡ y = ground arith in
            let paid : v.current_points ≡ b = ground arith in
            let sum : spent i c (save_by participant_key q ps) ≡ spent i d ps =
              n ∙ ap (λ t. spent i t ps) same in
            subst₂ (λ t k. t +ℤ pos k ≡ pos start +ℤ due c d y) (sym paid) (sym sum)
              (new ∙ ap (λ t. pos start +ℤ t) (sym here))
        | inr m ↦
            let o : find_one (is_member i c) ps ≡ some v = ground arith in
            ap (λ t. v.current_points +ℤ pos t) n
            ∙ (h.captains c v o l
                ∙ ap (λ t. pos start +ℤ t) (due_other c d x m ∙ sym (due_other c d y m)))
      ]

  -- The captain `d` gets other points, and owes as much more.
  pub repoint-Owing :
      Owing i start d x ps
      → find_one (is_member i d) ps ≡ some p
      → b +ℤ x ≡ p.current_points +ℤ y
      → Owing i start d y (save_by participant_key (record p { current_points = b }) ps)
  repoint-Owing h f e =
      let q : Participant = record p { current_points = b } in
      let own : IsRow p q = (refl, refl, refl) in
      record {
        keys = save_by-HasUniqueKeys participant_key q ps h.keys;
        members = save-HasUniqueMembers i d p q ps h.keys h.members f own;
        captains = repointed h f e;
        only_captains = λ c g. ground (
          arith,
          spent_same i d start d p q ps h.keys f own refl refl c,
          captain_id-save i d p q ps h.keys f own refl c,
          h.only_captains c,
        );
        stray = λ c. ground (arith, tally-save i d p q ps (stray_of i c) h.keys f own, h.stray c);
        by_hand = λ v w g l.
            ground
              (arith, find_member-save i d i v p q ps h.keys f own, h.by_hand v w, h.by_hand v p);
      }
