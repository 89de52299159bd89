-- ===== src/TeamSplit/Channels.antt =====
-- The search for channels that groups are moved to.
use mathlib.Core.List.{Perm}
use mathlib.Core.List.Perm
use potg.Base.{
  ◌||◌, ◌≤◌, ◌≡◌, refl, sym, ◌∙◌, subst, Bool, true, false, ◌&&◌, List, [], ◌∷◌, inl, inr,
  Bool-cases, arith, leb, ◌⊎◌,
}
use potg.Base.Rows.{select, all_of, any_of}
use potg.TeamSplit.{
  Channel, insert, sort, is_empty_voice, same_category, or_all, find_empty_voice_channels,
}

-- Positions from low to high.
abbrev pub IsSorted : List Channel → Type 0
IsSorted [] = Unit {0}
IsSorted (c ∷ cs) = (all_of (λ d. leb c.position d.position) cs ≡ true) × IsSorted cs

all_insert :
    (p : Channel → Bool) (c : Channel) (cs : List Channel)
    → all_of p (insert c cs) ≡ p c && all_of p cs
all_insert p c [] = ground arith
all_insert p c (d ∷ ds) = ground (arith, all_insert p c ds)

all_higher :
    (c d : Channel) (cs : List Channel)
    → c.position ≤ d.position
    → all_of (λ e. leb d.position e.position) cs ≡ true
    → all_of (λ e. leb c.position e.position) cs ≡ true
all_higher c d [] h e = refl
all_higher c d (x ∷ xs) h e = ground (arith, all_higher c d xs h)

insert-IsSorted : (c : Channel) (cs : List Channel) → IsSorted cs → IsSorted (insert c cs)
insert-IsSorted c [] h = (refl, tt)
insert-IsSorted c (d ∷ ds) h = elim (Bool-cases (leb c.position d.position)) [
  | inl m ↦ ground (arith, all_higher c d ds)
  | inr m ↦
      ground (arith, insert-IsSorted c ds h.1, all_insert (λ e. leb d.position e.position) c ds)
]

sort-IsSorted : (cs : List Channel) → IsSorted (sort cs)
sort-IsSorted [] = tt
sort-IsSorted (c ∷ cs) = insert-IsSorted c (sort cs) (sort-IsSorted cs)

all_sort : (p : Channel → Bool) (cs : List Channel) → all_of p (sort cs) ≡ all_of p cs
all_sort p [] = refl
all_sort p (c ∷ cs) = ground (arith, all_insert p c (sort cs), all_sort p cs)

all_select :
    (p q : Channel → Bool) (cs : List Channel) → all_of p cs ≡ true → all_of p (select q cs) ≡ true
all_select p q [] h = refl
all_select p q (c ∷ cs) h = ground (arith, all_select p q cs)

selected : (p : Channel → Bool) (cs : List Channel) → all_of p (select p cs) ≡ true
selected p [] = refl
selected p (c ∷ cs) = ground (arith, selected p cs)

select-IsSorted : (p : Channel → Bool) (cs : List Channel) → IsSorted cs → IsSorted (select p cs)
select-IsSorted p [] h = tt
select-IsSorted p (c ∷ cs) h =
    ground (arith, select-IsSorted p cs h.1, all_select (λ d. leb c.position d.position) p cs)

no_near : (p : Channel → Bool) (cs : List Channel) → select p cs ≡ [] → any_of p cs ≡ false
no_near p [] h = refl
no_near p (c ∷ cs) h = ground (arith, no_near p cs)

some_near :
    (p : Channel → Bool) (cs : List Channel) (d : Channel) (ds : List Channel)
    → select p cs ≡ d ∷ ds
    → any_of p cs ≡ true
some_near p [] d ds h = cc
some_near p (c ∷ cs) d ds h = ground (arith, some_near p cs d ds)

any_insert :
    (p : Channel → Bool) (c : Channel) (cs : List Channel)
    → any_of p (insert c cs) ≡ (p c || any_of p cs)
any_insert p c [] = ground arith
any_insert p c (d ∷ ds) = ground (arith, any_insert p c ds)

any_sort : (p : Channel → Bool) (cs : List Channel) → any_of p (sort cs) ≡ any_of p cs
any_sort p [] = refl
any_sort p (c ∷ cs) = ground (arith, any_insert p c (sort cs), any_sort p cs)

any_select :
    (p q : Channel → Bool) (cs : List Channel)
    → any_of p (select q cs) ≡ any_of (λ c. q c && p c) cs
any_select p q [] = refl
any_select p q (c ∷ cs) = ground (arith, any_select p q cs)

-- Sorting loses and doubles no channel, of all or of those that meet a condition.
insert_perm : (c : Channel) (cs : List Channel) → Perm (insert c cs) (c ∷ cs)
insert_perm c [] = Perm.refl (c ∷ [])
insert_perm c (d ∷ ds) = elim (Bool-cases (leb c.position d.position)) [
  | inl m ↦ rw m (Perm.refl (c ∷ d ∷ ds))
  | inr m ↦ rw m (Perm.trans (Perm.cons d (insert_perm c ds)) (Perm.swap c d ds))
]

sort_perm : (cs : List Channel) → Perm (sort cs) cs
sort_perm [] = Perm.refl []
sort_perm (c ∷ cs) = Perm.trans (insert_perm c (sort cs)) (Perm.cons c (sort_perm cs))

select_insert_perm :
    (p : Channel → Bool) (c : Channel) (cs : List Channel)
    → Perm (select p (insert c cs)) (select p (c ∷ cs))
select_insert_perm p c [] = Perm.refl (select p (c ∷ []))
select_insert_perm p c (d ∷ ds) = elim (Bool-cases (leb c.position d.position)) [
  | inl m ↦ rw m (Perm.refl (select p (c ∷ d ∷ ds)))
  | inr m ↦
      let rest = select_insert_perm p c ds in
      elim (Bool-cases (p d)) [
        | inr k ↦ rw (m, k) rest
        | inl k ↦ elim (Bool-cases (p c)) [
          | inr n ↦ rw (m, k, n) (Perm.cons d (rw n at rest))
          | inl n ↦
              rw (m, k, n) (Perm.trans (Perm.cons d (rw n at rest)) (Perm.swap c d (select p ds)))
        ]
      ]
]

select_sort_perm :
    (p : Channel → Bool) (cs : List Channel) → Perm (select p (sort cs)) (select p cs)
select_sort_perm p [] = Perm.refl []
select_sort_perm p (c ∷ cs) = elim (Bool-cases (p c)) [
  | inl n ↦
      let first = select_insert_perm p c (sort cs) in
      rw n (Perm.trans (rw n at first) (Perm.cons c (select_sort_perm p cs)))
  | inr n ↦
      let first = select_insert_perm p c (sort cs) in
      rw n (Perm.trans (rw n at first) (select_sort_perm p cs))
]

select-select :
    (p q : Channel → Bool) (cs : List Channel)
    → select p (select q cs) ≡ select (λ c. q c && p c) cs
select-select p q [] = refl
select-select p q (c ∷ cs) = ground (arith, select-select p q cs)

abbrev pub is_near : Channel → Channel → Bool
is_near current c = is_empty_voice current c && same_category current c

-- What the search promises: only empty voice channels but the current one, sorted. They are those
-- of the same category, if there is one, and all there are otherwise; each is there once.
pub record Found (channels : List Channel) (current : Channel) (cs : List Channel) : Type 0 where
  pub all_empty : all_of (is_empty_voice current) cs ≡ true
  pub sorted : IsSorted cs
  pub nearest :
      ((any_of (is_near current) channels ≡ true) × Perm cs (select (is_near current) channels))
      ⊎ ((any_of (is_near current) channels ≡ false)
          × Perm cs (select (is_empty_voice current) channels))

module _ (channels : List Channel) (current : Channel) where
  abbrev all_found : List Channel
  all_found = sort (select (is_empty_voice current) channels)

  all_found-empty : all_of (is_empty_voice current) all_found ≡ true
  all_found-empty =
      all_sort (is_empty_voice current) (select (is_empty_voice current) channels)
      ∙ selected (is_empty_voice current) channels

  any_near : any_of (same_category current) all_found ≡ any_of (is_near current) channels
  any_near =
      any_sort (same_category current) (select (is_empty_voice current) channels)
      ∙ any_select (same_category current) (is_empty_voice current) channels

  near-Found :
      (c : Channel) (cs : List Channel)
      → select (same_category current) all_found ≡ c ∷ cs
      → Found channels current (c ∷ cs)
  near-Found c cs e = subst (Found channels current) e (record {
    all_empty =
        all_select (is_empty_voice current) (same_category current) all_found all_found-empty;
    sorted =
        select-IsSorted (same_category current) all_found
          (sort-IsSorted (select (is_empty_voice current) channels));
    nearest = inl (
      sym any_near ∙ some_near (same_category current) all_found c cs e,
      subst (Perm (select (same_category current) all_found))
          (select-select (same_category current) (is_empty_voice current) channels)
          (select_sort_perm (same_category current) (select (is_empty_voice current) channels)),
    );
  })

  far-Found : select (same_category current) all_found ≡ [] → Found channels current all_found
  far-Found e = record {
    all_empty = all_found-empty;
    sorted = sort-IsSorted (select (is_empty_voice current) channels);
    nearest = inr (
      sym any_near ∙ no_near (same_category current) all_found e,
      sort_perm (select (is_empty_voice current) channels),
    );
  }

or_all-Found :
    (channels : List Channel) (current : Channel) (near : List Channel)
    → select (same_category current) (all_found channels current) ≡ near
    → Found channels current (or_all near (all_found channels current))
or_all-Found channels current [] e = far-Found channels current e
or_all-Found channels current (c ∷ cs) e = near-Found channels current c cs e

-- The search returns only empty voice channels other than the current one, by rising position.
-- Where one of them is in the category of the current one, they are exactly those in that
-- category, each as often as it is in the guild; where none is, they are exactly all there are.
pub find_empty_voice_channels-Found :
    (channels : List Channel) (current : Channel)
    → Found channels current (find_empty_voice_channels channels current)
unfolding find_empty_voice_channels
find_empty_voice_channels-Found channels current =
    or_all-Found channels current (select (same_category current) (all_found channels current)) refl
