-- ===== src/AuctionBalance/Captains.antt =====
-- Captains and settings before the start.
use potg.Base.{
  ℕ, leb, ◌≡◌, refl, sym, ◌∙◌, subst, true, ◌&&◌, none, some, List, [], ◌∷◌, arith, ◌==◌,
  if◌then◌else◌, inl, inr, Bool-cases, Option-cases,
}
use potg.Base.Int.{pos}
use potg.Base.Rows.{select, length, find_one, update_where}
use potg.Base.Keyed.{find_by, save_by, HasUniqueKeys, save_by-HasUniqueKeys}
use potg.Base.Tx.{Tx, ok, Error, >>-inv}
use potg.AuctionTables.{
  AuctionRow, Participant, Auctions, AuctionRole, auction_key, participant_key, is_member,
}
use potg.AuctionSetup.{is_pending}
use potg.AuctionBalance.Members.{find_member_lem, find_member-save}
use potg.AuctionBalance.Owing.{spent}
use potg.AuctionBalance.Steady.{Steady, IsSteady}
use potg.AuctionSetup.{
  promote, add_captain, is_captain_of, add_participant, new_participant, Settings, give_points,
  or_default, update_auction_settings,
}
use potg.AuctionBalance.Members.{HasUniqueMembers, IsRow, save-HasUniqueMembers}
use potg.AuctionBalance.Owing.{team_of, tally-save}
use potg.AuctionBalance.Joins.{by_pending, joined-Steady, joined}
use potg.AuctionBalance.Pending.{HavePoints, IsByHand, pending-Steady, save_same, had_points}

abbrev promoted : ℕ → Participant → Participant
promoted start p = record p { role = AuctionRole.captain; current_points = pos start }

promoted-Steady :
    (i user : ℕ) (a : AuctionRow) (p : Participant) (s : Auctions)
    → Steady i a s
    → is_pending a.status ≡ true
    → find_one (is_member i user) s.participants ≡ some p
    → Steady i a (record s {
      participants = save_by participant_key (promoted a.starting_points p) s.participants;
    })
promoted-Steady i user a p s h q f =
    let row = promoted a.starting_points p in
    let ps = save_by participant_key row s.participants in
    let b = h.balanced in
    let own : IsRow p row = (refl, refl, refl) in
    let m : (u : ℕ)
        → find_one (is_member i u) ps
          ≡ (if i == i && u == user then some row else find_one (is_member i u) s.participants) =
      λ u. find_member-save i user i u p row s.participants b.keys f own in
    save_same i a s ps h (
      pending-Steady i a a s ps h q refl (h.untouched q).no_target
        (save_by-HasUniqueKeys participant_key row s.participants b.keys)
        (save-HasUniqueMembers i user p row s.participants b.keys b.members f own)
        (λ c. ground (
          arith,
          tally-save i user p row s.participants (team_of i c) b.keys f own,
          (h.untouched q).unspent c,
        ))
        (λ c x g r. ground (arith, m c, had_points i a s h q c x))
        (λ u x g. ground (arith, m u, b.by_hand u x, b.by_hand user p f)))

pub add_captain-IsSteady :
    (i admin user new_id : ℕ) (s t : Auctions) (r : Participant)
    → IsSteady i s
    → find_by participant_key new_id s.participants ≡ none
    → add_captain i admin user new_id s ≡ ok (r, t)
    → IsSteady i t
unfolding add_captain promote
add_captain-IsSteady i admin user new_id s t r (a, h) w e =
    let (q, e1) = by_pending i admin _ s t r a h e in
    let add : Auctions → Tx Auctions Participant = λ v.
      elim (find_one (is_member i user) v.participants) [
        | some p ↦ promote a p
        | none ↦
            add_participant (new_participant new_id i user AuctionRole.captain a.starting_points)
      ] in
    let (_, e2) =
      >>-inv (leb a.team_count (length (select (is_captain_of i) s.participants)))
        Error.too_many_teams (add s) {s = s} e1 in
    elim (Option-cases (find_one (is_member i user) s.participants)) [
      | inl n ↦
          let ps = joined i user a.starting_points new_id AuctionRole.captain s.participants in
          let all : t ≡ record s { participants = ps } = ground arith in
          subst (IsSteady i) (sym all) (
            a,
            joined-Steady i a.starting_points user a.starting_points new_id AuctionRole.captain
                s.participants a s refl refl h n w (λ _. refl),
          )
      | inr (p, f) ↦
          let ps = save_by participant_key (promoted a.starting_points p) s.participants in
          let all : t ≡ record s { participants = ps } = ground arith in
          subst (IsSteady i) (sym all) (a, promoted-Steady i user a p s h q f)
    ]

abbrev given : ℕ → ℕ → List Participant → List Participant
given i x ps = update_where (is_captain_of i) (λ p. record p { current_points = pos x }) ps

module _ (i x : ℕ) where
  given_member :
      (j u : ℕ) (ps : List Participant)
      → find_one (is_member j u) (given i x ps) ≡ elim (find_one (is_member j u) ps) [
        | none ↦ none
        | some p ↦ some (if is_captain_of i p then record p { current_points = pos x } else p)
      ]
  given_member j u [] = refl
  given_member j u (p ∷ ps) = elim (Bool-cases (is_captain_of i p)) [
    | inl m ↦ ground (arith, given_member j u ps)
    | inr m ↦ ground (arith, given_member j u ps)
  ]

  given_key :
      (n : ℕ) (ps : List Participant)
      → find_by participant_key n ps ≡ none
      → find_by participant_key n (given i x ps) ≡ none
  given_key n [] e = refl
  given_key n (p ∷ ps) e = ground (arith, given_key n ps)

  given-HasUniqueKeys :
      (ps : List Participant)
      → HasUniqueKeys participant_key ps
      → HasUniqueKeys participant_key (given i x ps)
  given-HasUniqueKeys [] h = tt
  given-HasUniqueKeys (p ∷ ps) h = ground (arith, given_key p.id ps, given-HasUniqueKeys ps h.1)

  given-HasUniqueMembers :
      (ps : List Participant) → HasUniqueMembers ps → HasUniqueMembers (given i x ps)
  given-HasUniqueMembers [] h = tt
  given-HasUniqueMembers (p ∷ ps) h =
      ground (arith, given_member p.auction_id p.user_id ps, given-HasUniqueMembers ps h.1)

  spent-given : (c : ℕ) (ps : List Participant) → spent i c (given i x ps) ≡ spent i c ps
  spent-given c [] = refl
  spent-given c (p ∷ ps) = ground (arith, spent-given c ps)

given-HavePoints : (i x : ℕ) (ps : List Participant) → HavePoints i x (given i x ps)
given-HavePoints i x ps c p f r =
    let m = given_member i x i c ps in
    elim (Option-cases (find_one (is_member i c) ps)) [
      | inl n ↦ absurd (ground arith)
      | inr (v, g) ↦
          let own = (find_member_lem i c v ps g).0 in
          elim (Bool-cases (is_captain_of i v)) [
            | inl k ↦ ground arith
            | inr k ↦ absurd (ground arith)
          ]
    ]

given-IsByHand : (i x : ℕ) (ps : List Participant) → IsByHand i ps → IsByHand i (given i x ps)
given-IsByHand i x ps h u p f w =
    let m = given_member i x i u ps in
    elim (Option-cases (find_one (is_member i u) ps)) [
      | inl n ↦ absurd (ground arith)
      | inr (v, g) ↦ elim (Bool-cases (is_captain_of i v)) [
        | inl k ↦ ground (arith, h u v g)
        | inr k ↦ ground (arith, h u v g)
      ]
    ]

abbrev set_row : Settings → AuctionRow → AuctionRow
set_row settings a = record a {
  team_count = or_default settings.team_count a.team_count;
  starting_points = or_default settings.starting_points a.starting_points;
  turn_time_limit = or_default settings.turn_time_limit a.turn_time_limit;
}

pub update_auction_settings-IsSteady :
    (i admin : ℕ) (settings : Settings) (s t : Auctions) (r : AuctionRow)
    → IsSteady i s
    → update_auction_settings i admin settings s ≡ ok (r, t)
    → IsSteady i t
unfolding update_auction_settings give_points
update_auction_settings-IsSteady i admin settings s t r (a, h) e =
    let (q, e1) = by_pending i admin _ s t r a h e in
    let b = h.balanced in
    let row = set_row settings a in
    let n = (h.untouched q).no_target in
    let z = (h.untouched q).unspent in
    elim (Option-cases settings.starting_points) [
      | inl m ↦
          let all : t ≡ record s { auctions = save_by auction_key row s.auctions } = ground arith in
          let same : row.starting_points ≡ a.starting_points = ground arith in
          subst (IsSteady i) (sym all) (
            row,
            pending-Steady i a row s s.participants h q refl n b.keys b.members z
                (subst (λ k. HavePoints i k s.participants) (sym same) (had_points i a s h q))
                b.by_hand,
          )
      | inr (x, m) ↦
          let ps = given i x s.participants in
          let all : t
              ≡ record s { auctions = save_by auction_key row s.auctions; participants = ps } =
            ground arith in
          let same : row.starting_points ≡ x = ground arith in
          subst (IsSteady i) (sym all) (
            row,
            pending-Steady i a row s ps h q refl n (given-HasUniqueKeys i x s.participants b.keys)
                (given-HasUniqueMembers i x s.participants b.members)
                (λ c. spent-given i x c s.participants ∙ z c)
                (subst (λ k. HavePoints i k ps) (sym same) (given-HavePoints i x s.participants))
                (given-IsByHand i x s.participants b.by_hand),
          )
    ]
