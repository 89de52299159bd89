-- ===== src/Clans/Changes.antt =====
-- The operations that make a clan, change roles or approve a member.
use potg.Base.{
  ℕ, ◌≤◌, ◌≡◌, sym, subst, String, Bool, true, false, not, none, some, List, [], ◌∷◌, arith, ◌==◌,
  inl, inr, Bool-cases,
}
use potg.Base.Rows.{find_one}
use potg.Base.Keyed.{
  find_by, save_by, HasUniqueKeys, save_by-HasUniqueKeys, find_by_found, sum_of-save_by,
  find_by-save_by,
}
use potg.Base.Tx.{
  Tx, Result, ok, err, Error, pure, throw_if, or_throw, put, run_tx, ◌>>=◌, ◌>>◌, >>-inv,
  or_throw_inv, Result-cases,
}
use potg.Clans.{
  ClanRole, Clan, Membership, JoinRequest, RequestStatus, ClanTables, membership_key, request_key,
  is_master, is_in, save_membership, insert_membership, create, add_member, approve_request,
  load_decision, approve_loaded, update_member_role, transfer_master,
}
use potg.Clans.Masters.{is_master_of, one, masters, has_clan, IsLed, masters-save, add_member-IsLed}

find_in :
    (c u : ℕ) (p : Membership) (ms : List Membership)
    → find_one (is_in c u) ms ≡ some p
    → (p.clan_id ≡ c) × (p.user_id ≡ u)
find_in c u p [] e = absurd (cc e)
find_in c u p (m ∷ ms) e = ground (arith, find_in c u p ms)

one_master :
    (c u : ℕ) (p : Membership) (ms : List Membership)
    → find_one (is_in c u) ms ≡ some p
    → is_master p.role ≡ true
    → 1 ≤ masters c ms
one_master c u p [] f k = absurd (cc f)
one_master c u p (m ∷ ms) f k = elim (Bool-cases (is_in c u m)) [
  | inl n ↦ ground arith
  | inr n ↦ ground (arith, one_master c u p ms)
]

-- Two masters under different users are two.
two_masters :
    (c u v : ℕ) (p q : Membership) (ms : List Membership)
    → (u == v) ≡ false
    → find_one (is_in c u) ms ≡ some p
    → find_one (is_in c v) ms ≡ some q
    → is_master p.role ≡ true
    → is_master q.role ≡ true
    → 2 ≤ masters c ms
two_masters c u v p q [] n f g k l = absurd (cc f)
two_masters c u v p q (m ∷ ms) n f g k l = elim (Bool-cases (is_in c u m)) [
  | inl a ↦ ground (arith, one_master c v q ms)
  | inr a ↦ elim (Bool-cases (is_in c v m)) [
    | inl b ↦ ground (arith, one_master c u p ms)
    | inr b ↦ ground (arith, two_masters c u v p q ms)
  ]
]

-- A clan that has one master, and another member.
other_plain :
    (c u v : ℕ) (p q : Membership) (s : ClanTables)
    → IsLed s
    → has_clan c s.clans ≡ true
    → (u == v) ≡ false
    → find_one (is_in c u) s.members ≡ some p
    → find_one (is_in c v) s.members ≡ some q
    → is_master p.role ≡ true
    → is_master q.role ≡ false
other_plain c u v p q s h y n f g k = elim (Bool-cases (is_master q.role)) [
  | inr l ↦ l
  | inl l ↦ absurd (ground (arith, two_masters c u v p q s.members, h.led c y))
]

pub create-IsLed :
    (name tag : String) (user clan_id new_id : ℕ) (s t : ClanTables) (k : Clan)
    → IsLed s
    → masters clan_id s.members ≡ 0
    → find_by membership_key new_id s.members ≡ none
    → create name tag user clan_id new_id s ≡ ok (k, t)
    → IsLed t
unfolding create
create-IsLed name tag user clan_id new_id s t k h z w e =
    let clan : Clan = record { id = clan_id; name = name; tag = tag } in
    let new : Membership = record {
      id = new_id;
      clan_id = clan_id;
      user_id = user;
      role = ClanRole.master;
    } in
    let writes : Tx ClanTables Clan =
      put (record s { clans = clan ∷ s.clans }) >> (insert_membership new >> pure clan) in
    let (_, e1) = >>-inv _ Error.clan_exists writes {s = s} e in
    let all : t ≡ record s { clans = clan ∷ s.clans; members = new ∷ s.members } = ground arith in
    subst IsLed (sym all) record {
      keys = (w, h.keys);
      led = λ c y. elim (Bool-cases (clan_id == c)) [
        | inl m ↦ ground arith
        | inr m ↦ ground (arith, h.led c)
      ];
    }

role_written :
    (w : Membership → Bool) (p : Membership) (role : ClanRole) (s t : ClanTables) (r : Unit {0})
    → IsLed s
    → find_one w s.members ≡ some p
    → is_master p.role ≡ false
    → is_master role ≡ false
    → save_membership (record p { role = role }) s ≡ ok (r, t)
    → IsLed t
role_written w p role s t r h f k l e =
    let q : Membership = record p { role = role } in
    let all : t ≡ record s { members = save_by membership_key q s.members } = ground arith in
    subst IsLed (sym all) record {
      keys = save_by-HasUniqueKeys membership_key q s.members h.keys;
      led = λ c y. ground (arith, masters-save w p role s.members c h.keys f, h.led c y);
    }

pub update_member_role-IsLed :
    (clan target : ℕ) (role : ClanRole) (requester : ℕ) (s t : ClanTables) (r : Unit {0})
    → IsLed s
    → has_clan clan s.clans ≡ true
    → update_member_role clan target role requester s ≡ ok (r, t)
    → IsLed t
unfolding update_member_role
update_member_role-IsLed clan target role requester s t r h y e =
    let last : Membership → Tx ClanTables (Unit {0}) = λ b.
      throw_if (requester == target) Error.own_role >> save_membership (record b { role = role }) in
    let check : Membership → Tx ClanTables (Unit {0}) =
      λ b. throw_if (is_master role) Error.use_transfer >> last b in
    let look : Tx ClanTables (Unit {0}) =
      or_throw (find_one (is_in clan target) s.members) Error.not_a_member >>= check in
    let (a, f, e1) =
      or_throw_inv (find_one (is_in clan requester) s.members) Error.not_master
        (λ a. throw_if (not (is_master a.role)) Error.not_master >> look) {s = s} e in
    let (k, e2) = >>-inv (not (is_master a.role)) Error.not_master look {s = s} e1 in
    let (b, g, e3) =
      or_throw_inv (find_one (is_in clan target) s.members) Error.not_a_member check {s = s} e2 in
    let (l, e4) = >>-inv (is_master role) Error.use_transfer (last b) {s = s} e3 in
    let (n, e5) =
      >>-inv (requester == target) Error.own_role (save_membership (record b { role = role }))
        {s = s} e4 in
    role_written (is_in clan target) b role s t r h g
      (other_plain clan requester target a b s h y n f g (ground arith)) l e5

-- Two rows are written: the old master's, then the new one's.
module _ (clan u v : ℕ) (p q : Membership) (s : ClanTables) where
  abbrev first_saved : List Membership
  first_saved = save_by membership_key (record p { role = ClanRole.manager }) s.members

  second_found :
      HasUniqueKeys membership_key s.members
      → (u == v) ≡ false
      → find_one (is_in clan u) s.members ≡ some p
      → find_one (is_in clan v) s.members ≡ some q
      → find_by membership_key q.id first_saved ≡ some q
  second_found h n f g =
      let a = find_by_found membership_key (is_in clan u) s.members p h f in
      let b = find_by_found membership_key (is_in clan v) s.members q h g in
      let c =
        find_by-save_by membership_key q.id (record p { role = ClanRole.manager }) s.members in
      ground (arith, find_in clan u p s.members f, find_in clan v q s.members g)

  transferred :
      IsLed s
      → has_clan clan s.clans ≡ true
      → (u == v) ≡ false
      → find_one (is_in clan u) s.members ≡ some p
      → find_one (is_in clan v) s.members ≡ some q
      → is_master p.role ≡ true
      → (c : ℕ) → has_clan c s.clans ≡ true
      → masters c (save_by membership_key (record q { role = ClanRole.master }) first_saved) ≡ 1
  transferred h y n f g k c z =
      let plain = other_plain clan u v p q s h y n f g k in
      let one_less = masters-save (is_in clan u) p ClanRole.manager s.members c h.keys f in
      let keys =
        save_by-HasUniqueKeys membership_key (record p { role = ClanRole.manager }) s.members
          h.keys in
      let one_more =
        sum_of-save_by membership_key (is_master_of c) one (record q { role = ClanRole.master }) q
          first_saved keys (second_found h.keys n f g) in
      let at = (find_in clan u p s.members f).0 in
      let to = (find_in clan v q s.members g).0 in ground (arith, h.led c z)

pub transfer_master-IsLed :
    (clan next current : ℕ) (s t : ClanTables) (r : Unit {0})
    → IsLed s
    → has_clan clan s.clans ≡ true
    → (current == next) ≡ false
    → transfer_master clan next current s ≡ ok (r, t)
    → IsLed t
unfolding transfer_master
transfer_master-IsLed clan next current s t r h y n e =
    let write : Membership → Membership → Tx ClanTables (Unit {0}) = λ a b.
      save_membership (record a { role = ClanRole.manager })
      >> save_membership (record b { role = ClanRole.master }) in
    let look : Membership → Tx ClanTables (Unit {0}) =
      λ a. or_throw (find_one (is_in clan next) s.members) Error.not_a_member >>= write a in
    let (a, f, e1) =
      or_throw_inv (find_one (is_in clan current) s.members) Error.not_master
        (λ a. throw_if (not (is_master a.role)) Error.not_master >> look a) {s = s} e in
    let (k, e2) = >>-inv (not (is_master a.role)) Error.not_master (look a) {s = s} e1 in
    let (b, g, e3) =
      or_throw_inv (find_one (is_in clan next) s.members) Error.not_a_member (write a) {s = s} e2 in
    let ms = first_saved clan current next a b s in
    let all : t
        ≡ record s { members = save_by membership_key (record b { role = ClanRole.master }) ms } =
      ground arith in
    let first_keys =
      save_by-HasUniqueKeys membership_key (record a { role = ClanRole.manager }) s.members
        h.keys in
    subst IsLed (sym all) record {
      keys =
          save_by-HasUniqueKeys membership_key (record b { role = ClanRole.master }) ms first_keys;
      led = transferred clan current next a b s h y n f g (ground arith);
    }

requests-IsLed :
    (s : ClanTables) (rs : List JoinRequest) → IsLed s → IsLed (record s { requests = rs })
requests-IsLed s rs h = record { keys = h.keys; led = h.led }

-- A transaction that keeps the invariant where it goes through.
run_tx-IsLed :
    (m : Tx ClanTables Membership) (s : ClanTables)
    → IsLed s
    → ((q : Membership) (t : ClanTables) → m s ≡ ok (q, t) → IsLed t)
    → IsLed (run_tx m s).1
unfolding run_tx
run_tx-IsLed m s h f = elim (Result-cases (m s)) [
  | inr (x, k) ↦ rw (k, run_tx) h
  | inl ((q, t), k) ↦ rw (k, run_tx) (f q t k)
]

approve_loaded-IsLed :
    (o : Result ((JoinRequest × Membership) × ClanTables)) (n : ℕ) (s : ClanTables)
    → IsLed s
    → find_by membership_key n s.members ≡ none
    → IsLed (approve_loaded o n s).1
unfolding approve_loaded
approve_loaded-IsLed (err e) n s h w = h
approve_loaded-IsLed (ok ((r, m), v)) n s h w =
    let rs = save_by request_key (record r { status = RequestStatus.approved }) s.requests in
    let h' = requests-IsLed s rs h in
    run_tx-IsLed (add_member m.clan_id r.user_id n) (record s { requests = rs }) h'
      (λ q t k. add_member-IsLed m.clan_id r.user_id n (record s { requests = rs }) t q h' w k)

-- An approval, whether or not the member could be added.
pub approve_request-IsLed :
    (request admin n : ℕ) (s : ClanTables)
    → IsLed s
    → find_by membership_key n s.members ≡ none
    → IsLed (approve_request request admin n s).1
unfolding approve_request
approve_request-IsLed request admin n s h w =
    approve_loaded-IsLed (load_decision request admin s) n s h w
