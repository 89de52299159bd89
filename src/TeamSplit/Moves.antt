-- ===== src/TeamSplit/Moves.antt =====
-- The command as a whole, where it moves people.
use mathlib.Core.List.{Perm}
use mathlib.Core.List.Perm
use potg.Base.{
  ℕ, zero, suc, ◌-◌, ◌≤◌, ◌≡◌, refl, sym, ◌∙◌, ap, subst, Bool, not, ◌&&◌, List, [], ◌∷◌, Option,
  none, some, inl, inr, Bool-cases, arith, leb, ltb,
}
use potg.Base.Rows.{select, length, take}
use potg.TeamSplit.{
  Member, Channel, Outcome, find_empty_voice_channels, place_groups, execute, shuffle, split,
}
use potg.TeamSplit.Shuffle.{shuffle_perm}
use potg.TeamSplit.Groups.{all_members, split-HasSizes}

length-take : {A : Type 0} (n : ℕ) (xs : List A) → n ≤ length xs → length (take n xs) ≡ n
length-take zero xs h = refl
length-take (suc n) [] h = absurd (ground arith)
length-take (suc n) (x ∷ xs) h = ap suc (length-take n xs (ground arith))

one_less : (n : ℕ) → 2 ≤ n → suc (n - 1) ≡ n
one_less n h = ground arith

abbrev pub people_of : Channel → List Member
people_of c = select (λ m. not m.is_bot) c.members

-- The number of groups that the command's option allows.
abbrev pub IsAllowed : Option ℕ → Type 0
IsAllowed none = Unit {0}
IsAllowed (some n) = (2 ≤ n) × (n ≤ 4)

abbrev pub group_count : Option ℕ → ℕ
group_count none = 2
group_count (some n) = n

allowed_count :
    (asked : Option ℕ) → IsAllowed asked → (2 ≤ group_count asked) × (group_count asked ≤ 4)
allowed_count none h = (omega arith, omega arith)
allowed_count (some n) h = h

pub record AllMoved (current : Channel) (count : ℕ) (groups : List (List Member))
    (targets : List Channel) : Type 0 where
  pub stay : (cs : List Channel) × (targets ≡ current ∷ cs)
  pub one_each : length targets ≡ length groups
  pub counted : length groups ≡ count
  pub everybody : Perm (all_members groups) (people_of current)
  pub enough : count ≤ length (people_of current)

place_groups_inv :
    (channels : List Channel) (can_move : Bool) (current : Channel) (count : ℕ)
    (given groups : List (List Member)) (targets : List Channel)
    → place_groups channels can_move current count given ≡ Outcome.moved groups targets
    → (groups ≡ given)
      × (targets ≡ current ∷ take (count - 1) (find_empty_voice_channels channels current))
      × (count - 1 ≤ length (find_empty_voice_channels channels current))
unfolding place_groups
place_groups_inv channels can_move current count given groups targets e =
    elim (Bool-cases can_move) [
      | inr m ↦ absurd (ground arith)
      | inl m ↦
          elim (Bool-cases
            (leb (count - 1) (length (find_empty_voice_channels channels current)))) [
              | inr k ↦ absurd (ground arith)
              | inl k ↦ (ground arith, ground arith, ground arith)
            ]
    ]

module _ (random : ℕ → ℕ) (channels : List Channel) (can_move confirmed : Bool)
    (current : Channel) where
  execute_inv :
      (asked : Option ℕ) (groups : List (List Member)) (targets : List Channel)
      → execute random channels can_move confirmed (some current) asked
        ≡ Outcome.moved groups targets
      → (group_count asked ≤ length (people_of current))
        × (place_groups channels can_move current
              (group_count asked)
              (split (group_count asked) (shuffle random (people_of current)))
            ≡ Outcome.moved groups targets)
  unfolding execute
  execute_inv none groups targets e = elim (Bool-cases (ltb (length (people_of current)) 2)) [
    | inl m ↦ absurd (ground arith)
    | inr m ↦ elim (Bool-cases (leb 2 (length (people_of current)) && not confirmed)) [
      | inl k ↦ absurd (ground arith)
      | inr k ↦ (ground arith, ground arith)
    ]
  ]
  execute_inv (some n) groups targets e = elim (Bool-cases (ltb (length (people_of current)) n)) [
    | inl m ↦ absurd (ground arith)
    | inr m ↦ elim (Bool-cases (leb 2 (length (people_of current)) && not confirmed)) [
      | inl k ↦ absurd (ground arith)
      | inr k ↦ (ground arith, ground arith)
    ]
  ]

-- For an allowed number of groups, when the command moves people, there are as many groups as
-- asked for and one channel for each, the first being the current one; there are at least as many
-- people as groups; and the groups together hold exactly the people of the channel, without its
-- bots.
pub execute-AllMoved :
    (random : ℕ → ℕ) (channels : List Channel) (can_move confirmed : Bool) (current : Channel)
    (asked : Option ℕ) (groups : List (List Member)) (targets : List Channel)
    → IsAllowed asked
    → execute random channels can_move confirmed (some current) asked ≡ Outcome.moved groups targets
    → AllMoved current (group_count asked) groups targets
execute-AllMoved random channels can_move confirmed current asked groups targets h e =
    let count = group_count asked in
    let (l, u) = allowed_count asked h in
    let (enough, e1) =
      execute_inv random channels can_move confirmed current asked groups targets e in
    let mixed = shuffle random (people_of current) in
    let (g, t, n) =
      place_groups_inv channels can_move current count (split count mixed) groups targets e1 in
    let (size, _, perm) = split-HasSizes count mixed l u in
    let counted : length groups ≡ count = ap length g ∙ size in
    record {
      stay = (take (count - 1) (find_empty_voice_channels channels current), t);
      one_each =
          ap length t
          ∙ (ap suc (length-take (count - 1) (find_empty_voice_channels channels current) n)
              ∙ (one_less count l ∙ sym counted));
      counted = counted;
      everybody =
          subst (λ z. Perm (all_members z) (people_of current)) (sym g)
            (Perm.trans perm (shuffle_perm random (people_of current)));
      enough = enough;
    }
