-- ===== src/AuctionBalance/Refunds.antt =====
-- The refund of a captain.
use potg.Base.{
  ℕ, ◌≤◌, ◌≡◌, refl, sym, ap, subst, Bool, true, false, some, List, [], ◌∷◌, arith, ◌==◌, inl, inr,
  Bool-cases, Option-cases,
}
use potg.Base.Int.{ℤ, pos, ◌+ℤ◌, int_laws}
use potg.Base.Rows.{find_one}
use potg.Base.Keyed.{save_by}
use potg.Base.Tx.{ok}
use potg.AuctionTables.{Participant, Auctions, participant_key, is_member, is_player}
use potg.AuctionBalance.Members.{find_member_lem, find_member-save}
use potg.AuctionBalance.Owing.{
  Owing, Balanced, Owing-none, spent, is_captain_id, is_player_id, captain_id-save, player_id-save,
}
use potg.AuctionBalance.Moves.{repoint-Owing, player-captain}
use potg.AuctionControl.{refund_captain}
use potg.AuctionBalance.Members.{tally}
use potg.AuctionBalance.Owing.{team_of, tally-save}

price_in :
    (i u : ℕ) (w : Participant → Bool) (p : Participant) (ps : List Participant)
    → find_one (is_member i u) ps ≡ some p
    → w p ≡ true
    → p.sold_price ≤ tally w ps
price_in i u w p [] f k = absurd (cc f)
price_in i u w p (x ∷ xs) f k = elim (Bool-cases (is_member i u x)) [
  | inl m ↦ ground arith
  | inr m ↦ ground (arith, price_in i u w p xs)
]

-- A player of somebody who is no captain has cost nothing.
no_captain-price :
    (i start u d : ℕ) (p : Participant) (ps : List Participant)
    → Balanced i start ps
    → find_one (is_member i u) ps ≡ some p
    → p.assigned_captain ≡ some d
    → is_captain_id i d ps ≡ false
    → p.sold_price ≡ 0
no_captain-price i start u d p ps h f a k =
    ground
      (arith, find_member_lem i u p ps f, price_in i u (team_of i d) p ps f, h.only_captains d k)

no_price :
    (i start d n : ℕ) (ps : List Participant)
    → n ≡ 0
    → Balanced i start ps
    → Owing i start d (pos n) ps
no_price i start d n ps e h =
    subst (λ m. Owing i start d (pos m) ps) (sym e) (Owing-none i start 0 d ps h)

-- The participants after the captain got the price back.
pub record Refunded (i start d u : ℕ) (p : Participant) (s t : Auctions) : Type 0 where
  pub rest : t ≡ record s { participants = t.participants }
  pub owing : Owing i start d (pos p.sold_price) t.participants
  pub still : find_one (is_member i u) t.participants ≡ some p
  pub captains : (c : ℕ) → is_captain_id i c t.participants ≡ is_captain_id i c s.participants
  pub players : (c : ℕ) → is_player_id i c t.participants ≡ is_player_id i c s.participants
  pub same_spent : (c : ℕ) → spent i c t.participants ≡ spent i c s.participants

-- Nothing was paid back, as nothing was paid.
Refunded-free :
    (i start d u : ℕ) (p : Participant) (s : Auctions)
    → Balanced i start s.participants
    → find_one (is_member i u) s.participants ≡ some p
    → p.sold_price ≡ 0
    → Refunded i start d u p s s
Refunded-free i start d u p s h f z = record {
  rest = refl;
  owing = no_price i start d p.sold_price s.participants z h;
  still = f;
  captains = λ c. refl;
  players = λ c. refl;
  same_spent = λ c. refl;
}

abbrev refunded_row : Participant → Participant → Participant
refunded_row c p = record c { current_points = c.current_points +ℤ pos p.sold_price }

paid_back : (x : ℤ) (n : ℕ) → (x +ℤ pos n) +ℤ pos 0 ≡ x +ℤ pos n
paid_back x n = grind int_laws

nothing_back : (x : ℤ) (n : ℕ) → n ≡ 0 → x +ℤ pos n ≡ x
nothing_back x n e = grind int_laws

module _ (i start d u : ℕ) (p c : Participant) (s : Auctions) where
  -- The player's own row stays.
  still_there :
      Balanced i start s.participants
      → find_one (is_member i u) s.participants ≡ some p
      → is_player p.role ≡ true
      → p.assigned_captain ≡ some d
      → find_one (is_member i d) s.participants ≡ some c
      → find_one (is_member i u) (save_by participant_key (refunded_row c p) s.participants)
        ≡ some p
  still_there h f r a g =
      let m =
        find_member-save i d i u c (refunded_row c p) s.participants h.keys g (refl, refl, refl) in
      elim (Bool-cases (u == d)) [
        | inr n ↦ ground arith
        | inl n ↦
            let same : c ≡ p = ground arith in
            let z : p.sold_price ≡ 0 =
              no_captain-price i start u d p s.participants h f a
                (ground (arith, player-captain p.role)) in
            let q : refunded_row c p ≡ c =
              ap (λ x. record c { current_points = x })
                (nothing_back c.current_points p.sold_price z) in
            ground arith
      ]

  Refunded-paid :
      Balanced i start s.participants
      → find_one (is_member i u) s.participants ≡ some p
      → is_player p.role ≡ true
      → p.assigned_captain ≡ some d
      → find_one (is_member i d) s.participants ≡ some c
      → Refunded i start d u p s
          (record s { participants = save_by participant_key (refunded_row c p) s.participants })
  Refunded-paid h f r a g = record {
    rest = refl;
    owing =
        repoint-Owing i start d c s.participants (pos 0) (pos p.sold_price)
          (c.current_points +ℤ pos p.sold_price) (Owing-none i start 0 d s.participants h) g
          (paid_back c.current_points p.sold_price);
    still = still_there h f r a g;
    captains =
        captain_id-save i d c (refunded_row c p) s.participants h.keys g (refl, refl, refl) refl;
    players =
        player_id-save i d c (refunded_row c p) s.participants h.keys g (refl, refl, refl) refl;
    same_spent = λ e. ground (
      arith,
      tally-save i d c (refunded_row c p) s.participants (team_of i e) h.keys g (refl, refl, refl),
    );
  }

pub refund_captain_lem :
    (i start d u : ℕ) (p : Participant) (s t : Auctions) (r : Unit {0})
    → Balanced i start s.participants
    → find_one (is_member i u) s.participants ≡ some p
    → is_player p.role ≡ true
    → p.assigned_captain ≡ some d
    → refund_captain i p d s ≡ ok (r, t)
    → Refunded i start d u p s t
unfolding refund_captain
refund_captain_lem i start d u p s t r h f k a e =
    elim (Option-cases (find_one (is_member i d) s.participants)) [
      | inl n ↦
          let q : t ≡ s = ground arith in
          subst (Refunded i start d u p s) (sym q) (
            Refunded-free i start d u p s h f
              (no_captain-price i start u d p s.participants h f a (ground arith)))
      | inr (c, g) ↦ elim (Bool-cases p.was_unsold) [
        | inl w ↦
            let q : t ≡ s = ground arith in
            subst (Refunded i start d u p s) (sym q)
              (Refunded-free i start d u p s h f (h.by_hand u p f w).0)
        | inr w ↦
            let q : t ≡ record s {
              participants = save_by participant_key (refunded_row c p) s.participants;
            } =
              ground arith in
            subst (Refunded i start d u p s) (sym q) (Refunded-paid i start d u p c s h f k a g)
      ]
    ]
