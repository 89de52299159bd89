-- ===== src/AuctionBalance/Lists.antt =====
-- The registration of a list of players.
use potg.Base.{
  ℕ, ◌≡◌, refl, sym, subst, Option, none, some, List, [], ◌∷◌, arith, ◌==◌, inl, inr, Bool-cases,
}
use potg.Base.Rows.{find_one}
use potg.Base.Keyed.{find_by}
use potg.Base.Tx.{Tx, ok, pure, ◌>>=◌, >>=-inv}
use potg.AuctionTables.{Participant, Auctions, AuctionRole, participant_key}
use potg.AuctionBalance.Steady.{IsSteady}
use potg.AuctionSetup.{has_joined, new_participant, add_one, add_each, add_players}
use potg.AuctionBalance.Joins.{joined, joined-Steady, not_joined, by_pending}

-- The ids that the database gives are new, and different from each other.
abbrev pub AreFresh : List (ℕ × ℕ) → List Participant → Type 0
AreFresh [] ps = Unit {0}
AreFresh ((user, new_id) ∷ rest) ps =
    (find_by participant_key new_id ps ≡ none)
    × (find_one (λ x. x.1 == new_id) rest ≡ none)
    × AreFresh rest ps

fresh_cons :
    (users : List (ℕ × ℕ)) (p : Participant) (ps : List Participant)
    → find_one (λ x. x.1 == p.id) users ≡ none
    → AreFresh users ps
    → AreFresh users (p ∷ ps)
fresh_cons [] p ps n h = tt
fresh_cons ((user, new_id) ∷ rest) p ps n h = ground (arith, fresh_cons rest p ps)

add_one-IsSteady :
    (i user new_id : ℕ) (rest : List (ℕ × ℕ)) (s t : Auctions) (o : Option Participant)
    → IsSteady i s
    → AreFresh ((user, new_id) ∷ rest) s.participants
    → add_one i user new_id s ≡ ok (o, t)
    → IsSteady i t × AreFresh rest t.participants
unfolding add_one
add_one-IsSteady i user new_id rest s t o (a, h) w e = elim (Bool-cases (has_joined i user s)) [
  | inl m ↦
      let q : t ≡ s = ground arith in
      subst (λ z. IsSteady i z × AreFresh rest z.participants) (sym q) ((a, h), w.2)
  | inr m ↦
      let all : t
          ≡ record s { participants = joined i user 0 new_id AuctionRole.player s.participants } =
        ground arith in
      subst (λ z. IsSteady i z × AreFresh rest z.participants) (sym all)
        (
          (
            a,
            joined-Steady i a.starting_points user 0 new_id AuctionRole.player s.participants a s
                refl refl h (not_joined i user s m) w.0 (λ k. absurd (cc k)),
          ),
          fresh_cons rest (new_participant new_id i user AuctionRole.player 0) s.participants w.1
              w.2,
        )
]

add_each-IsSteady :
    (i : ℕ) (users : List (ℕ × ℕ)) (s t : Auctions) (r : List Participant)
    → IsSteady i s
    → AreFresh users s.participants
    → add_each i users s ≡ ok (r, t)
    → IsSteady i t
unfolding add_each
add_each-IsSteady i [] s t r h w e = let q : t ≡ s = ground arith in subst (IsSteady i) (sym q) h
add_each-IsSteady i ((user, new_id) ∷ rest) s t r h w e =
    let later : Option Participant → Tx Auctions (List Participant) =
      λ added. add_each i rest >>= λ ps. pure (elim added [ none ↦ ps | some p ↦ p ∷ ps ]) in
    let (o, v, e1, e2) = >>=-inv (add_one i user new_id) later {s = s} e in
    let (ps, z, e3, e4) =
      >>=-inv (add_each i rest) (λ ps. pure (elim o [ none ↦ ps | some p ↦ p ∷ ps ])) {s = v} e2 in
    let (h', w') = add_one-IsSteady i user new_id rest s v o h w e1 in
    let q : t ≡ z = ground arith in
    subst (IsSteady i) (sym q) (add_each-IsSteady i rest v z ps h' w' e3)

pub add_players-IsSteady :
    (i admin : ℕ) (users : List (ℕ × ℕ)) (s t : Auctions) (r : List Participant)
    → IsSteady i s
    → AreFresh users s.participants
    → add_players i admin users s ≡ ok (r, t)
    → IsSteady i t
unfolding add_players
add_players-IsSteady i admin users s t r (a, h) w e =
    let (_, e1) = by_pending i admin (λ _. add_each i users) s t r a h e in
    add_each-IsSteady i users s t r (a, h) w e1
