-- ===== src/Tests/Teams.antt =====
-- Five people in a voice channel.
use mathlib.Core.List.{Perm}
use potg.Base.{ℕ, List, false, true, ◌≡◌, refl, none, some, [], ◌∷◌, arith, zero}
use potg.Base.Rows.{length}
use potg.TeamSplit.{
  Member, Channel, Outcome, shuffle, shuffle_from, deal, split, place_groups, execute,
  find_empty_voice_channels,
}
use potg.TeamSplit.Groups.{all_members, HasSizes, even_share, split-HasSizes}
use potg.TeamSplit.Channels.{Found, find_empty_voice_channels-Found}
use potg.TeamSplit.Moves.{AllMoved, execute-AllMoved}

abbrev person : ℕ → Member
person i = record { id = i; is_bot = false }

abbrev bot : Member
bot = record { id = 9; is_bot = true }

abbrev channel : ℕ → ℕ → List Member → Channel
channel i place people = record {
  id = i;
  is_voice = true;
  parent_id = some 7;
  position = place;
  members = people;
}

abbrev here : Channel
here = channel 1 1 (person 1 ∷ person 2 ∷ bot ∷ person 3 ∷ person 4 ∷ person 5 ∷ [])

abbrev guild : List Channel
guild = channel 3 3 [] ∷ here ∷ channel 2 2 [] ∷ []

-- Draws that are always the first place.
abbrev first : ℕ → ℕ
first n = zero

abbrev five : List ℕ
five = 1 ∷ 2 ∷ 3 ∷ 4 ∷ 5 ∷ []

split-HasSizes_example :
    (length (split 2 five) ≡ 2)
    × HasSizes (even_share 2 5) (split 2 five)
    × Perm (all_members (split 2 five)) five
split-HasSizes_example = split-HasSizes 2 five (omega arith) (omega arith)

find_empty_voice_channels-Found_example : Found guild here (find_empty_voice_channels guild here)
find_empty_voice_channels-Found_example = find_empty_voice_channels-Found guild here

abbrev groups_of : Outcome → List (List Member)
groups_of (Outcome.moved gs cs) = gs
groups_of _ = []

abbrev targets_of : Outcome → List Channel
targets_of (Outcome.moved gs cs) = cs
targets_of _ = []

abbrev outcome : Outcome
outcome = execute first guild true true (some here) none

outcome_run : outcome ≡ Outcome.moved (groups_of outcome) (targets_of outcome)
unfolding execute place_groups shuffle shuffle_from split deal find_empty_voice_channels
outcome_run = refl

execute-AllMoved_example : AllMoved here 2 (groups_of outcome) (targets_of outcome)
execute-AllMoved_example =
    execute-AllMoved first guild true true here none (groups_of outcome) (targets_of outcome) tt
      outcome_run
