-- ===== src/Match/Transitions.antt =====
-- The state machine of a match.
use potg.Base.{
  ℕ, String, Option, ◌≤◌, ◌<◌, ◌≡◌, refl, Bool, true, false, List, arith, not, some, ◌↔◌,
}
use potg.Base.Int.{ℤ}
use potg.Base.Keyed.{find_by, save_by}
use potg.Base.Tx.{ok, err, bad_transition, >>-inv, ◌>>=◌, ◌>>◌, pure}
use potg.Store.{MatchStatus, Match, Store, match_id_of, save_match}
use potg.Match.{is_allowed, assert_transition, lock_match_row, set_status, open_betting, lock_match}
use potg.MatchResult.{settle_match, cancel_match}

-- The diagram that the service documents.
infix 40 ◌⟶◌ ◌⟶*◌
pub data ◌⟶◌ : MatchStatus → MatchStatus → Type 0 where
  start : MatchStatus.draft ⟶ MatchStatus.betting_open
  close : MatchStatus.betting_open ⟶ MatchStatus.locked
  finish : MatchStatus.locked ⟶ MatchStatus.settled
  drop_draft : MatchStatus.draft ⟶ MatchStatus.cancelled
  drop_open : MatchStatus.betting_open ⟶ MatchStatus.cancelled
  drop_locked : MatchStatus.locked ⟶ MatchStatus.cancelled

pub data ◌⟶*◌ : MatchStatus → MatchStatus → Type 0 where
  here : {s : MatchStatus} → s ⟶* s
  step : {s t u : MatchStatus} → s ⟶ t → t ⟶* u → s ⟶* u

ruleset edges = (start, close, finish, drop_draft, drop_open, drop_locked)

allowed→edge : (s t : MatchStatus) → is_allowed s t ≡ true → s ⟶ t
allowed→edge s t h = grind (arith, edges)

edge→allowed : (s t : MatchStatus) → s ⟶ t → is_allowed s t ≡ true
edge→allowed s t start = refl
edge→allowed s t close = refl
edge→allowed s t finish = refl
edge→allowed s t drop_draft = refl
edge→allowed s t drop_open = refl
edge→allowed s t drop_locked = refl

-- The transition test passes exactly on the edges of the documented diagram.
pub assert_transition_iff :
    (from to : MatchStatus) (s : Store) → (assert_transition from to s ≡ ok (tt, s)) ↔ (from ⟶ to)
unfolding assert_transition
assert_transition_iff from to s =
    (λ e. allowed→edge from to (ground arith), λ e. let a = edge→allowed from to e in ground arith)

-- How far a match has come.
abbrev pub stage : MatchStatus → ℕ
stage MatchStatus.draft = 0
stage MatchStatus.betting_open = 1
stage MatchStatus.locked = 2
stage MatchStatus.settled = 3
stage MatchStatus.cancelled = 3

edge_stage : {s t : MatchStatus} → s ⟶ t → stage s < stage t
edge_stage start = omega arith
edge_stage close = omega arith
edge_stage finish = omega arith
edge_stage drop_draft = omega arith
edge_stage drop_open = omega arith
edge_stage drop_locked = omega arith

pub path_stage : {s t : MatchStatus} → s ⟶* t → stage s ≤ stage t
path_stage here = omega arith
path_stage (step e p) = omega (arith, edge_stage e, path_stage p)

-- No status that a match has left comes back.
pub no_return : {s t : MatchStatus} → s ⟶ t → ¬ (t ⟶* s)
no_return e p = omega (arith, edge_stage e, path_stage p)

-- A change of status that returned followed an edge and wrote the one row.
pub set_status_inv :
    (m : Match) (to : MatchStatus) (s t : Store) (r : Match)
    → set_status m to s ≡ ok (r, t)
    → (is_allowed m.status to ≡ true)
      × (r ≡ record m { status = to })
      × (t ≡ record s { matches = save_by match_id_of (record m { status = to }) s.matches })
unfolding set_status assert_transition
set_status_inv m to s t r e =
    let moved : Match = record m { status = to } in
    let (g, f) =
      >>-inv (not (is_allowed m.status to)) bad_transition (save_match moved >> pure moved) {s = s}
        e in
    (ground arith, ground arith, ground arith)

pub set_status_ok :
    (m : Match) (to : MatchStatus) (s : Store)
    → is_allowed m.status to ≡ true
    → set_status m to s
      ≡ ok (
        record m { status = to },
        record s { matches = save_by match_id_of (record m { status = to }) s.matches },
      )
unfolding set_status assert_transition
set_status_ok m to s a = rw a

abbrev pub is_over : MatchStatus → Bool
is_over MatchStatus.settled = true
is_over MatchStatus.cancelled = true
is_over _ = false

not_allowed : (from to : MatchStatus) → is_over from ≡ true → is_allowed from to ≡ false
not_allowed from to h = ground arith

-- Each operation on the status of a match refuses a match that is settled or cancelled.
pub over_refused :
    (i : ℕ) (winner : String) (placements : Option (List (String × ℤ))) (s : Store) (m : Match)
    → find_by match_id_of i s.matches ≡ some m
    → is_over m.status ≡ true
    → (open_betting i s ≡ err bad_transition)
      × (lock_match i s ≡ err bad_transition)
      × (settle_match i winner placements s ≡ err bad_transition)
      × (cancel_match i s ≡ err bad_transition)
unfolding open_betting lock_match settle_match cancel_match lock_match_row set_status
    assert_transition
over_refused i winner placements s m f h =
    let open_no = not_allowed m.status MatchStatus.betting_open h in
    let lock_no = not_allowed m.status MatchStatus.locked h in
    let settle_no = not_allowed m.status MatchStatus.settled h in
    let cancel_no = not_allowed m.status MatchStatus.cancelled h in
    (
      rw (f, ◌>>=◌) (rw open_no),
      rw (f, ◌>>=◌) (rw lock_no),
      rw (f, ◌>>=◌) (rw settle_no),
      rw (f, ◌>>=◌) (rw cancel_no),
    )
