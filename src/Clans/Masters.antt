-- ===== src/Clans/Masters.antt =====
-- The masters of a clan, and the operations that add or remove a member.
use potg.Base.{
  ℕ, ◌+◌, ◌≡◌, refl, sym, ◌∙◌, subst, Bool, true, false, not, ◌&&◌, none, some, List, [], ◌∷◌,
  arith, ◌==◌, if◌then◌else◌, inl, inr, Bool-cases,
}
use potg.Base.Rows.{select, find_one, any_of, sum_of}
use potg.Base.Keyed.{find_by, save_by, HasUniqueKeys, find_by_found, sum_of-save_by}
use potg.Base.Tx.{Tx, ok, Error, pure, throw_if, or_throw, ◌>>=◌, ◌>>◌, >>-inv, or_throw_inv}
use potg.Clans.{
  ClanRole, Clan, Membership, ClanTables, membership_key, is_master, is_manager, is_plain, is_in,
  find_membership, insert_membership, remove_membership, add_member, leave_clan, kick_member,
}

abbrev pub is_master_of : ℕ → Membership → Bool
is_master_of c m = m.clan_id == c && is_master m.role

abbrev pub one : Membership → ℕ
one m = 1

-- How many masters a clan has.
abbrev pub masters : ℕ → List Membership → ℕ
masters c ms = sum_of one (select (is_master_of c) ms)

abbrev pub has_clan : ℕ → List Clan → Bool
has_clan c cs = any_of (λ k. k.id == c) cs

pub record IsLed (s : ClanTables) : Type 0 where
  pub keys : HasUniqueKeys membership_key s.members
  pub led : (c : ℕ) → has_clan c s.clans ≡ true → masters c s.members ≡ 1

find_by_gone :
    (j n : ℕ) (ms : List Membership)
    → find_by membership_key j ms ≡ none
    → find_by membership_key j (select (λ x. not (x.id == n)) ms) ≡ none
find_by_gone j n [] e = refl
find_by_gone j n (m ∷ ms) e = ground (arith, find_by_gone j n ms)

gone-HasUniqueKeys :
    (n : ℕ) (ms : List Membership)
    → HasUniqueKeys membership_key ms
    → HasUniqueKeys membership_key (select (λ x. not (x.id == n)) ms)
gone-HasUniqueKeys n [] h = tt
gone-HasUniqueKeys n (m ∷ ms) h =
    ground (arith, find_by_gone m.id n ms, gone-HasUniqueKeys n ms h.1)

masters_absent :
    (c n : ℕ) (ms : List Membership)
    → find_by membership_key n ms ≡ none
    → masters c (select (λ x. not (x.id == n)) ms) ≡ masters c ms
masters_absent c n [] e = refl
masters_absent c n (m ∷ ms) e = ground (arith, masters_absent c n ms)

masters_gone :
    (c : ℕ) (p : Membership) (ms : List Membership)
    → HasUniqueKeys membership_key ms
    → find_by membership_key p.id ms ≡ some p
    → is_master p.role ≡ false
    → masters c (select (λ x. not (x.id == p.id)) ms) ≡ masters c ms
masters_gone c p [] h e r = absurd (cc e)
masters_gone c p (m ∷ ms) h e r = elim (Bool-cases (m.id == p.id)) [
  | inl k ↦ ground (arith, masters_absent c p.id ms)
  | inr k ↦ ground (arith, masters_gone c p ms h.1)
]

-- A member who is no master is removed.
removed-IsLed :
    (w : Membership → Bool) (p : Membership) (s t : ClanTables) (r : Unit {0})
    → IsLed s
    → find_one w s.members ≡ some p
    → is_master p.role ≡ false
    → remove_membership p s ≡ ok (r, t)
    → IsLed t
removed-IsLed w p s t r h f k e =
    let all : t ≡ record s { members = select (λ x. not (x.id == p.id)) s.members } =
      ground arith in
    subst IsLed (sym all) record {
      keys = gone-HasUniqueKeys p.id s.members h.keys;
      led = λ c n.
          masters_gone c p s.members h.keys (find_by_found membership_key w s.members p h.keys f) k
          ∙ h.led c n;
    }

-- A row that is written over, with another role.
module _ (w : Membership → Bool) (p : Membership) (role : ClanRole) (ms : List Membership) where
  abbrev pub with_role : Membership
  with_role = record p { role = role }

  pub masters-save :
      (c : ℕ)
      → HasUniqueKeys membership_key ms
      → find_one w ms ≡ some p
      → masters c (save_by membership_key with_role ms) + (if is_master_of c p then 1 else 0)
        ≡ masters c ms + (if is_master_of c with_role then 1 else 0)
  masters-save c h f =
      sum_of-save_by membership_key (is_master_of c) one with_role p ms h
        (find_by_found membership_key w ms p h f)

pub add_member-IsLed :
    (clan user n : ℕ) (s t : ClanTables) (m : Membership)
    → IsLed s
    → find_by membership_key n s.members ≡ none
    → add_member clan user n s ≡ ok (m, t)
    → IsLed t
unfolding add_member
add_member-IsLed clan user n s t m h w e =
    let new : Membership = record {
      id = n;
      clan_id = clan;
      user_id = user;
      role = ClanRole.member;
    } in
    let (_, e1) =
      >>-inv (any_of (is_in clan user) s.members) Error.member_exists
        (insert_membership new >> pure new) {s = s} e in
    let all : t ≡ record s { members = new ∷ s.members } = ground arith in
    subst IsLed (sym all) record { keys = (w, h.keys); led = λ c k. ground (arith, h.led c k) }

pub leave_clan-IsLed :
    (user : ℕ) (s t : ClanTables) (r : Unit {0}) → IsLed s → leave_clan user s ≡ ok (r, t) → IsLed t
unfolding leave_clan
leave_clan-IsLed user s t r h e =
    let (p, f, e1) =
      or_throw_inv (find_membership user s) Error.no_clan
        (λ m. throw_if (is_master m.role) Error.master_stays >> remove_membership m) {s = s} e in
    let (k, e2) = >>-inv (is_master p.role) Error.master_stays (remove_membership p) {s = s} e1 in
    removed-IsLed (λ m. m.user_id == user) p s t r h f k e2

pub kick_member-IsLed :
    (clan target requester : ℕ) (s t : ClanTables) (r : Unit {0})
    → IsLed s
    → kick_member clan target requester s ≡ ok (r, t)
    → IsLed t
unfolding kick_member
kick_member-IsLed clan target requester s t r h e =
    let last : Membership → Membership → Tx ClanTables (Unit {0}) = λ a b.
      throw_if (is_manager a.role && is_manager b.role) Error.manager_kicked
      >> remove_membership b in
    let check : Membership → Membership → Tx ClanTables (Unit {0}) =
      λ a b. throw_if (is_master b.role) Error.master_kicked >> last a b in
    let look : Membership → Tx ClanTables (Unit {0}) =
      λ a. or_throw (find_one (is_in clan target) s.members) Error.not_a_member >>= check a in
    let (a, f, e1) =
      or_throw_inv (find_one (is_in clan requester) s.members) Error.not_manager
        (λ a. throw_if (is_plain a.role) Error.not_manager >> look a) {s = s} e in
    let (_, e2) = >>-inv (is_plain a.role) Error.not_manager (look a) {s = s} e1 in
    let (b, g, e3) =
      or_throw_inv (find_one (is_in clan target) s.members) Error.not_a_member (check a) {s = s}
        e2 in
    let (k, e4) = >>-inv (is_master b.role) Error.master_kicked (last a b) {s = s} e3 in
    let (_, e5) =
      >>-inv (is_manager a.role && is_manager b.role) Error.manager_kicked (remove_membership b)
        {s = s} e4 in
    removed-IsLed (is_in clan target) b s t r h g k e5
