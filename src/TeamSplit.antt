-- ===== src/TeamSplit.antt =====
-- The random teams of a voice channel: shuffle, findEmptyVoiceChannels and execute of
-- backend/src/modules/discord-bot/commands/team-split.command.ts
pub mod Shuffle
pub mod Groups
pub mod Channels
pub mod Moves
use potg.Base.{
  ℕ, zero, suc, ◌+◌, ◌-◌, ◌%◌, Bool, true, false, not, ◌&&◌, ◌||◌, Option, none, some, List, [],
  ◌∷◌, ◌++◌, ◌==◌, same_id, ltb, leb, if◌then◌else◌,
}
use potg.Base.Rows.{select, length, take}

module _ {ℓ} {A : Type ℓ} where
  abbrev pub get_elem? : List A → ℕ → Option A
  get_elem? [] i = none
  get_elem? (x ∷ xs) zero = some x
  get_elem? (x ∷ xs) (suc i) = get_elem? xs i

  abbrev pub set : List A → ℕ → A → List A
  set [] i y = []
  set (x ∷ xs) zero y = y ∷ xs
  set (x ∷ xs) (suc i) y = x ∷ set xs i y

  -- `[arr[i], arr[j]] = [arr[j], arr[i]]`, for places that are in the array.
  abbrev pub swap : ℕ → ℕ → List A → List A
  swap i j xs = elim (get_elem? xs i) [
    | none ↦ xs
    | some x ↦ elim (get_elem? xs j) [ none ↦ xs | some y ↦ set (set xs i y) j x ]
  ]

  -- `random n` is `Math.floor(Math.random() * n)` in the round for it.
  unfoldable pub shuffle_from : (ℕ → ℕ) → ℕ → List A → List A
  shuffle_from random zero xs = xs
  shuffle_from random (suc i) xs = shuffle_from random i (swap (suc i) (random (suc i + 1)) xs)

  unfoldable pub shuffle : (ℕ → ℕ) → List A → List A
  shuffle random xs = shuffle_from random (length xs - 1) xs

  abbrev pub replicate : ℕ → A → List A
  replicate zero x = []
  replicate (suc n) x = x ∷ replicate n x

  -- `groups[k].push(m)`
  abbrev pub push_at : ℕ → A → List (List A) → List (List A)
  push_at k m [] = []
  push_at zero m (g ∷ gs) = (g ++ (m ∷ [])) ∷ gs
  push_at (suc k) m (g ∷ gs) = g ∷ push_at k m gs

  -- `shuffled.forEach((m, idx) => groups[idx % groupCount].push(m))`, from an index on.
  unfoldable pub deal : ℕ → ℕ → List A → List (List A) → List (List A)
  deal count i [] gs = gs
  deal count i (m ∷ ms) gs = deal count (i + 1) ms (push_at (i % count) m gs)

unfoldable pub split : {A : Type 0} → ℕ → List A → List (List A)
split count ms = deal count 0 ms (replicate count [])

pub record Member : Type 0 where
  pub id : ℕ
  pub is_bot : Bool

pub record Channel : Type 0 where
  pub id : ℕ
  pub is_voice : Bool
  pub parent_id : Option ℕ
  pub position : ℕ
  pub members : List Member

abbrev pub is_none_in : Channel → Bool
is_none_in c = elim c.members [ [] ↦ true | _ ∷ _ ↦ false ]

-- `sort((a, b) => a.position - b.position)`, which keeps the order of equal positions.
abbrev pub insert : Channel → List Channel → List Channel
insert c [] = c ∷ []
insert c (d ∷ ds) = if leb c.position d.position then c ∷ d ∷ ds else d ∷ insert c ds

abbrev pub sort : List Channel → List Channel
sort [] = []
sort (c ∷ cs) = insert c (sort cs)

abbrev pub is_empty_voice : Channel → Channel → Bool
is_empty_voice current c = c.is_voice && not (c.id == current.id) && is_none_in c

abbrev pub same_category : Channel → Channel → Bool
same_category current c = same_id c.parent_id current.parent_id

-- The first list, or the second where the first is empty.
abbrev pub or_all : List Channel → List Channel → List Channel
or_all [] all = all
or_all (c ∷ cs) all = c ∷ cs

unfoldable pub find_empty_voice_channels : List Channel → Channel → List Channel
find_empty_voice_channels channels current =
    let all = sort (select (is_empty_voice current) channels) in
    or_all (select (same_category current) all) all

-- What the command does: it refuses, is cancelled, or shows groups, with the channels that they are
-- moved to where they are.
pub data Outcome : Type 0 where
  no_voice_channel too_few cancelled : Outcome
  no_permission : List (List Member) → Outcome
  few_channels : List (List Member) → Outcome
  moved : List (List Member) → List Channel → Outcome

-- Everything behind the answer of `askConfirmation`.
unfoldable pub place_groups : List Channel → Bool → Channel → ℕ → List (List Member) → Outcome
place_groups channels can_move current count groups =
    let free = find_empty_voice_channels channels current in
    if not can_move
    then Outcome.no_permission groups
    else if leb (count - 1) (length free)
    then Outcome.moved groups (current ∷ take (count - 1) free)
    else Outcome.few_channels groups

-- `execute` on a server: `confirmed` is that nobody cancelled, which is asked of two or more.
unfoldable pub execute : (ℕ → ℕ) → List Channel → Bool → Bool → Option Channel → Option ℕ → Outcome
execute random channels can_move confirmed voice asked = elim voice [
  | none ↦ Outcome.no_voice_channel
  | some current ↦
      let count : ℕ = elim asked [ none ↦ 2 | some n ↦ n ] in
      let people = select (λ m. not m.is_bot) current.members in
      if ltb (length people) count
      then Outcome.too_few
      else if leb 2 (length people) && not confirmed
      then Outcome.cancelled
      else place_groups channels can_move current count (split count (shuffle random people))
]
