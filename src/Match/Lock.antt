-- ===== src/Match/Lock.antt =====
-- Closing the betting of a match closes every market on it.
use mathlib.Core.Path.{subst₂}
use potg.Base.{
  ℕ, ◌≡◌, ◌≢◌, refl, sym, ◌∙◌, ap, subst, Bool, true, false, List, [], ◌∷◌, arith, ◌⊎◌, inl, inr,
  some, ◌==◌, Bool-cases,
}
use potg.Base.Rows.{select}
use potg.Base.Keyed.{find_by, save_by, find_by_key, find_by-save_by}
use potg.Base.Tx.{
  Tx, ok, >>=-inv, or_throw_inv, market_not_found, match_not_found, ◌>>=◌, ◌>>◌, pure,
}
use potg.Store.{MatchStatus, MarketStatus, Match, Market, Store, match_id_of, market_id_of}
use potg.Betting.{lock_market, lock_market_row, lock_by_status}
use potg.Match.{open_market_of, lock_markets, lock_match, lock_match_row, set_status}
use potg.Match.Transitions.{set_status_inv}

-- What locking one market does to the table: that row is locked, the others are as they were.
pub record Locked (i : ℕ) (s t : Store) : Type 0 where
  pub frame : t ≡ record s { markets = t.markets }
  pub after :
      (j : ℕ) (g : Market)
      → find_by market_id_of j t.markets ≡ some g
      → (j ≡ i) × (g.status ≡ MarketStatus.locked)
        ⊎ (j ≢ i) × (find_by market_id_of j s.markets ≡ some g)

untouched_row :
    (i j : ℕ) (m g : Market) (ms : List Market)
    → find_by market_id_of i ms ≡ some m
    → m.status ≡ MarketStatus.locked
    → find_by market_id_of j ms ≡ some g
    → (j ≡ i) × (g.status ≡ MarketStatus.locked) ⊎ (j ≢ i) × (find_by market_id_of j ms ≡ some g)
untouched_row i j m g ms f q h = elim (Bool-cases (j == i)) [
  | inl z ↦ inl (ground arith, ground arith)
  | inr z ↦ inr (ground arith, h)
]

written_row :
    (i j : ℕ) (m d g : Market) (ms : List Market)
    → find_by market_id_of i ms ≡ some m
    → d.id ≡ m.id
    → d.status ≡ MarketStatus.locked
    → find_by market_id_of j (save_by market_id_of d ms) ≡ some g
    → (j ≡ i) × (g.status ≡ MarketStatus.locked) ⊎ (j ≢ i) × (find_by market_id_of j ms ≡ some g)
written_row i j m d g ms f di ds h =
    let own = find_by_key market_id_of i ms m f in
    let here = sym (find_by-save_by market_id_of j d ms) ∙ h in
    elim (Bool-cases (j == i)) [
      | inl z ↦ inl (ground arith, ground arith)
      | inr z ↦ inr (ground arith, ground arith)
    ]

lock_by_status-Locked :
    (i : ℕ) (m : Market) (s t : Store) (r : Market)
    → find_by market_id_of i s.markets ≡ some m
    → lock_by_status m.status m s ≡ ok (r, t)
    → Locked i s t
unfolding lock_by_status
lock_by_status-Locked i m s t r f e = by_status m.status refl e
  where
    by_status : (x : MarketStatus) → m.status ≡ x → lock_by_status x m s ≡ ok (r, t) → Locked i s t
    by_status MarketStatus.locked q e = record {
      frame = ground arith;
      after = λ j g h.
          untouched_row i j m g s.markets f q
            (subst (λ z. find_by market_id_of j z ≡ some g) (ground arith) h);
    }
    by_status MarketStatus.opened q e =
        let done : Market = record m {
          status = MarketStatus.locked;
          locked_at = some s.book.now;
        } in
        record {
          frame = ground arith;
          after = λ j g h.
              written_row i j m done g s.markets f refl refl
                (subst (λ z. find_by market_id_of j z ≡ some g) (ground arith) h);
        }
    by_status MarketStatus.settled q e = cc
    by_status MarketStatus.cancelled q e = cc

pub lock_market-Locked :
    (i : ℕ) (s t : Store) (r : Market) → lock_market i s ≡ ok (r, t) → Locked i s t
unfolding lock_market lock_market_row
lock_market-Locked i s t r e =
    let (m, f, g) =
      or_throw_inv (find_by market_id_of i s.markets) market_not_found
        (λ m. lock_by_status m.status m) {s = s} e in
    lock_by_status-Locked i m s t r f g

-- Every open market of the match is still to be locked.
abbrev Remaining : ℕ → Store → List Market → Type 0
Remaining k s ms =
    (j : ℕ) (g : Market)
    → find_by market_id_of j s.markets ≡ some g
    → open_market_of k g ≡ true
    → (h : Market) × (find_by market_id_of j ms ≡ some h)

Remaining-step :
    (k : ℕ) (m : Market) (ms : List Market) (s t : Store)
    → Locked m.id s t
    → Remaining k s (m ∷ ms)
    → Remaining k t ms
Remaining-step k m ms s t l r j g f o = elim (l.after j g f) [
  | inl (_, locked) ↦ absurd (ground arith)
  | inr (ne, old) ↦ let (h, q) = r j g old o in (h, ground arith)
]

lock_markets-frame :
    (k : ℕ) (ms : List Market) (s t : Store)
    → lock_markets ms s ≡ ok (tt, t)
    → Remaining k s ms
    → (t ≡ record s { markets = t.markets }) × Remaining k t []
unfolding lock_markets
lock_markets-frame k [] s t e r =
    let q : s ≡ t = ground arith in (ground arith, subst (λ z. Remaining k z []) q r)
lock_markets-frame k (m ∷ ms) s t e r =
    let (a, u, f, g) = >>=-inv (lock_market m.id) (λ _. lock_markets ms) {s = s} e in
    let l = lock_market-Locked m.id s u a f in
    let (p, q) = lock_markets-frame k ms u t g (Remaining-step k m ms s u l r) in
    let fr = l.frame in (ground arith, q)

selected :
    (p : Market → Bool) (ms : List Market) (j : ℕ) (g : Market)
    → find_by market_id_of j ms ≡ some g
    → p g ≡ true
    → (h : Market) × (find_by market_id_of j (select p ms) ≡ some h)
selected p [] j g f o = cc
selected p (m ∷ ms) j g f o = elim (Bool-cases (m.id == j)) [
  | inl z ↦ (g, ground arith)
  | inr z ↦
      let (h, q) = selected p ms j g (ground arith) o in
      elim (Bool-cases (p m)) [ inl y ↦ (h, ground arith) | inr y ↦ (h, ground arith) ]
]

abbrev locked_rest : Match → Match → Tx Store Match
locked_rest m moved s = (lock_markets (select (open_market_of m.id) s.markets) >> pure moved) s

-- No row is left in an empty list.
closed_of :
    (i k : ℕ) (g : Market)
    → k ≡ i
    → (open_market_of k g ≡ true → (h : Market) × (find_by market_id_of g.id [] ≡ some h))
    → open_market_of i g ≡ false
closed_of i k g e h = elim (Bool-cases (open_market_of k g)) [
  | inl o ↦ cc ((h o).1)
  | inr o ↦ ground arith
]

-- After a `lockMatch` that goes through, the match is stored as locked, and no market on it is
-- open.
pub lock_match_closes :
    (i : ℕ) (s t : Store) (r : Match)
    → lock_match i s ≡ ok (r, t)
    → (r.status ≡ MatchStatus.locked)
      × (find_by match_id_of i t.matches ≡ some r)
      × ((j : ℕ) (g : Market)
          → find_by market_id_of j t.markets ≡ some g
          → open_market_of i g ≡ false)
unfolding lock_match lock_match_row
lock_match_closes i s t r e =
    let (m, f, e1) =
      or_throw_inv (find_by match_id_of i s.matches) match_not_found
        (λ m. set_status m MatchStatus.locked >>= locked_rest m) {s = s} e in
    let (moved, u, q, e2) = >>=-inv (set_status m MatchStatus.locked) (locked_rest m) {s = s} e1 in
    let (a, mr, uq) = set_status_inv m MatchStatus.locked s u moved q in
    let (_, v, q2, e3) =
      >>=-inv (lock_markets (select (open_market_of m.id) u.markets)) (λ _. pure moved) {s = u}
        e2 in
    let own = find_by_key match_id_of i s.matches m f in
    let tv : v ≡ t = ground arith in
    let rm : moved ≡ r = ground arith in
    let start : Remaining m.id u (select (open_market_of m.id) u.markets) =
      λ j g x o. selected (open_market_of m.id) u.markets j g x o in
    let (fr, done) =
      lock_markets-frame m.id (select (open_market_of m.id) u.markets) u v q2 start in
    let row : Match = record m { status = MatchStatus.locked } in
    (
      ground arith,
      subst₂ (λ x y. find_by match_id_of i x ≡ some y)
          (ap (λ z. z.matches) (sym uq) ∙ (sym (ap (λ z. z.matches) fr) ∙ ap (λ z. z.matches) tv))
          (sym mr ∙ rm) (find_by-save_by match_id_of i row s.matches ∙ ground arith),
      λ j g x.
          closed_of i m.id g own
            (λ o. done j g (subst (λ z. find_by market_id_of j z.markets ≡ some g) (sym tv) x) o),
    )
