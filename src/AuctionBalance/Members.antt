-- ===== src/AuctionBalance/Members.antt =====
-- The participants of an auction under the writes of one row.
use potg.Base.{
  ℕ, ◌≤◌, ◌≡◌, refl, Bool, true, not, ◌&&◌, none, some, List, [], ◌∷◌, arith, ◌==◌, if◌then◌else◌,
  inl, inr, Bool-cases,
}
use potg.Base.Rows.{select, find_one, sum_of}
use potg.Base.Keyed.{find_by, save_by, HasUniqueKeys, save_by_absent, find_by_found}
use potg.AuctionTables.{Participant, participant_key, is_member}

-- No user takes part twice in an auction.
abbrev pub HasUniqueMembers : List Participant → Type 0
HasUniqueMembers [] = Unit {0}
HasUniqueMembers (p ∷ ps) =
    (find_one (is_member p.auction_id p.user_id) ps ≡ none) × HasUniqueMembers ps

abbrev pub IsRow : Participant → Participant → Type 0
IsRow p q = (q.id ≡ p.id) × (q.auction_id ≡ p.auction_id) × (q.user_id ≡ p.user_id)

pub find_member_lem :
    (i u : ℕ) (p : Participant) (ps : List Participant)
    → find_one (is_member i u) ps ≡ some p
    → (p.auction_id ≡ i) × (p.user_id ≡ u)
find_member_lem i u p [] e = absurd (cc e)
find_member_lem i u p (x ∷ xs) e = ground (arith, find_member_lem i u p xs)

pub find_member-save :
    (i u j v : ℕ) (p q : Participant) (ps : List Participant)
    → HasUniqueKeys participant_key ps
    → find_one (is_member i u) ps ≡ some p
    → IsRow p q
    → find_one (is_member j v) (save_by participant_key q ps)
      ≡ (if j == i && v == u then some q else find_one (is_member j v) ps)
find_member-save i u j v p q [] h e r = absurd (cc e)
find_member-save i u j v p q (x ∷ xs) h e r = elim (Bool-cases (is_member i u x)) [
  | inl m ↦ ground (arith, save_by_absent participant_key q xs)
  | inr m ↦ ground (
    arith,
    find_member_lem i u p xs,
    find_by_found participant_key (is_member i u) xs p h.1,
    find_member-save i u j v p q xs h.1,
  )
]

pub save-HasUniqueMembers :
    (i u : ℕ) (p q : Participant) (ps : List Participant)
    → HasUniqueKeys participant_key ps
    → HasUniqueMembers ps
    → find_one (is_member i u) ps ≡ some p
    → IsRow p q
    → HasUniqueMembers (save_by participant_key q ps)
save-HasUniqueMembers i u p q [] h k e r = absurd (cc e)
save-HasUniqueMembers i u p q (x ∷ xs) h k e r = elim (Bool-cases (is_member i u x)) [
  | inl m ↦ ground (arith, save_by_absent participant_key q xs)
  | inr m ↦ ground (
    arith,
    find_member_lem i u p xs,
    find_by_found participant_key (is_member i u) xs p h.1,
    find_member-save i u x.auction_id x.user_id p q xs h.1,
    save-HasUniqueMembers i u p q xs h.1 k.1,
  )
]

pub find_removed :
    (j v n : ℕ) (p : Participant) (ps : List Participant)
    → HasUniqueMembers ps
    → find_one (is_member j v) (select (λ q. not (q.id == n)) ps) ≡ some p
    → find_one (is_member j v) ps ≡ some p
find_removed j v n p [] k e = e
find_removed j v n p (x ∷ xs) k e = elim (Bool-cases (is_member j v x)) [
  | inl m ↦ elim (Bool-cases (x.id == n)) [
    | inl o ↦ absurd (ground (arith, find_removed j v n p xs k.1))
    | inr o ↦ ground arith
  ]
  | inr m ↦ ground (arith, find_removed j v n p xs k.1)
]

find_removed_none :
    (j v n : ℕ) (ps : List Participant)
    → find_one (is_member j v) ps ≡ none
    → find_one (is_member j v) (select (λ q. not (q.id == n)) ps) ≡ none
find_removed_none j v n [] e = refl
find_removed_none j v n (x ∷ xs) e = ground (arith, find_removed_none j v n xs)

pub removed-HasUniqueMembers :
    (n : ℕ) (ps : List Participant)
    → HasUniqueMembers ps
    → HasUniqueMembers (select (λ q. not (q.id == n)) ps)
removed-HasUniqueMembers n [] k = tt
removed-HasUniqueMembers n (x ∷ xs) k =
    ground (arith, find_removed_none x.auction_id x.user_id n xs, removed-HasUniqueMembers n xs k.1)

find_by_removed_none :
    (j n : ℕ) (ps : List Participant)
    → find_by participant_key j ps ≡ none
    → find_by participant_key j (select (λ q. not (q.id == n)) ps) ≡ none
find_by_removed_none j n [] e = refl
find_by_removed_none j n (x ∷ xs) e = ground (arith, find_by_removed_none j n xs)

pub removed-HasUniqueKeys :
    (n : ℕ) (ps : List Participant)
    → HasUniqueKeys participant_key ps
    → HasUniqueKeys participant_key (select (λ q. not (q.id == n)) ps)
removed-HasUniqueKeys n [] k = tt
removed-HasUniqueKeys n (x ∷ xs) k =
    ground (arith, find_by_removed_none x.id n xs, removed-HasUniqueKeys n xs k.1)

-- A sum of prices over some participants.
abbrev pub price : Participant → ℕ
price p = p.sold_price

abbrev pub tally : (Participant → Bool) → List Participant → ℕ
tally r ps = sum_of price (select r ps)

pub tally_removed :
    (r w : Participant → Bool) (ps : List Participant) → tally r (select w ps) ≤ tally r ps
tally_removed r w [] = omega arith
tally_removed r w (x ∷ xs) = ground (arith, tally_removed r w xs)

-- A member that satisfies a condition is the member.
pub find_both :
    (i u : ℕ) (w : Participant → Bool) (p : Participant) (ps : List Participant)
    → HasUniqueMembers ps
    → find_one (λ q. is_member i u q && w q) ps ≡ some p
    → (find_one (is_member i u) ps ≡ some p) × (w p ≡ true)
find_both i u w p [] k e = absurd (cc e)
find_both i u w p (x ∷ xs) k e = elim (Bool-cases (is_member i u x)) [
  | inr m ↦ ground (arith, find_both i u w p xs k.1)
  | inl m ↦ elim (Bool-cases (w x)) [
    | inl o ↦ (ground arith, ground arith)
    | inr o ↦ absurd (ground (arith, find_both i u w p xs k.1))
  ]
]
