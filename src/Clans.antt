-- ===== src/Clans.antt =====
-- The membership of clans: create, requestJoin, approveRequest, rejectRequest, addMember, leaveClan,
-- updateMemberRole, transferMaster and kickMember of backend/src/modules/clans/clans.service.ts
pub mod Masters
pub mod Changes
pub mod History
use text.Mathlib.Text.{◌==◌ as ◌=ˢ◌}
use potg.Base.{
  ℕ, String, Bool, true, false, not, ◌&&◌, ◌||◌, Option, none, some, List, [], ◌∷◌, ◌==◌,
  if◌then◌else◌,
}
use potg.Base.Rows.{select, find_one, any_of}
use potg.Base.Keyed.{find_by, save_by}
use potg.Base.Tx.{
  Tx, Result, ok, err, pure, throw_if, or_throw, get, put, run_tx, ◌>>=◌, ◌>>◌, clan_exists,
  already_in_clan, request_pending, request_not_found, not_manager, not_master, member_exists,
  no_clan, master_stays, not_a_member, use_transfer, own_role, master_kicked, manager_kicked,
}

pub data ClanRole : Type 0 where
  master manager member : ClanRole

pub data RequestStatus : Type 0 where
  pending approved rejected : RequestStatus

pub record Clan : Type 0 where
  pub id : ℕ
  pub name : String
  pub tag : String

-- A row of `clan_members`, less its two counters.
pub record Membership : Type 0 where
  pub id : ℕ
  pub clan_id : ℕ
  pub user_id : ℕ
  pub role : ClanRole

pub record JoinRequest : Type 0 where
  pub id : ℕ
  pub user_id : ℕ
  pub status : RequestStatus

pub record ClanTables : Type 0 where
  pub clans : List Clan
  pub members : List Membership
  pub requests : List JoinRequest

abbrev pub membership_key : Membership → ℕ
membership_key m = m.id

abbrev pub request_key : JoinRequest → ℕ
request_key r = r.id

abbrev pub is_master : ClanRole → Bool
is_master ClanRole.master = true
is_master _ = false

abbrev pub is_manager : ClanRole → Bool
is_manager ClanRole.manager = true
is_manager _ = false

abbrev pub is_plain : ClanRole → Bool
is_plain ClanRole.member = true
is_plain _ = false

abbrev pub is_open_request : RequestStatus → Bool
is_open_request RequestStatus.pending = true
is_open_request _ = false

-- `findOne(ClanMember, { where: { clanId, userId } })`, and by the user alone.
abbrev pub is_in : ℕ → ℕ → Membership → Bool
is_in clan user m = m.clan_id == clan && m.user_id == user

abbrev pub find_membership : ℕ → ClanTables → Option Membership
find_membership user s = find_one (λ m. m.user_id == user) s.members

abbrev pub is_some : {A : Type 0} → Option A → Bool
is_some none = false
is_some (some a) = true

abbrev pub save_membership : Membership → Tx ClanTables (Unit {0})
save_membership m = do s ← get; put (record s { members = save_by membership_key m s.members })

abbrev pub insert_membership : Membership → Tx ClanTables (Unit {0})
insert_membership m = do s ← get; put (record s { members = m ∷ s.members })

-- `remove(row)`
abbrev pub remove_membership : Membership → Tx ClanTables (Unit {0})
remove_membership m = do
  s ← get
  put (record s { members = select (λ x. not (x.id == m.id)) s.members })

unfoldable pub create : String → String → ℕ → ℕ → ℕ → Tx ClanTables Clan
create name tag user clan_id new_id = do
  s ← get
  throw_if (any_of (λ c. c.name =ˢ name || c.tag =ˢ tag) s.clans) clan_exists
  let clan : Clan = record { id = clan_id; name = name; tag = tag }
  put (record s { clans = clan ∷ s.clans })
  insert_membership
      (record { id = new_id; clan_id = clan_id; user_id = user; role = ClanRole.master })
  pure clan

unfoldable pub request_join : ℕ → ℕ → Tx ClanTables JoinRequest
request_join user new_id = do
  s ← get
  throw_if (is_some (find_membership user s)) already_in_clan
  throw_if (any_of (λ r. r.user_id == user && is_open_request r.status) s.requests) request_pending
  let request : JoinRequest = record { id = new_id; user_id = user; status = RequestStatus.pending }
  put (record s { requests = request ∷ s.requests })
  pure request

unfoldable pub add_member : ℕ → ℕ → ℕ → Tx ClanTables Membership
add_member clan user new_id = do
  s ← get
  throw_if (any_of (is_in clan user) s.members) member_exists
  let m : Membership = record {
    id = new_id;
    clan_id = clan;
    user_id = user;
    role = ClanRole.member;
  }
  insert_membership m
  pure m

-- The request, and the administrator who decides on it.
unfoldable pub load_decision : ℕ → ℕ → Tx ClanTables (JoinRequest × Membership)
load_decision request admin = do
  s ← get
  r ← or_throw (find_by request_key request s.requests) request_not_found
  m ← or_throw (find_membership admin s) not_manager
  throw_if (is_plain m.role) not_manager
  pure (r, m)

-- `approveRequest` is no transaction: the request stays approved where `addMember` throws.
unfoldable pub approve_loaded :
    Result ((JoinRequest × Membership) × ClanTables)
    → ℕ
    → ClanTables
    → Result Membership × ClanTables
approve_loaded (err e) new_id s = (err e, s)
approve_loaded (ok ((r, m), _)) new_id s =
    run_tx (add_member m.clan_id r.user_id new_id) (record s {
      requests = save_by request_key (record r { status = RequestStatus.approved }) s.requests;
    })

unfoldable pub approve_request : ℕ → ℕ → ℕ → ClanTables → Result Membership × ClanTables
approve_request request admin new_id s = approve_loaded (load_decision request admin s) new_id s

unfoldable pub reject_request : ℕ → ℕ → Tx ClanTables (Unit {0})
reject_request request user = do
  (r, m) ← load_decision request user
  s ← get
  put (record s {
    requests = save_by request_key (record r { status = RequestStatus.rejected }) s.requests;
  })

unfoldable pub leave_clan : ℕ → Tx ClanTables (Unit {0})
leave_clan user = do
  s ← get
  m ← or_throw (find_membership user s) no_clan
  throw_if (is_master m.role) master_stays
  remove_membership m

unfoldable pub update_member_role : ℕ → ℕ → ClanRole → ℕ → Tx ClanTables (Unit {0})
update_member_role clan target role requester = do
  s ← get
  r ← or_throw (find_one (is_in clan requester) s.members) not_master
  throw_if (not (is_master r.role)) not_master
  t ← or_throw (find_one (is_in clan target) s.members) not_a_member
  throw_if (is_master role) use_transfer
  throw_if (requester == target) own_role
  save_membership (record t { role = role })

unfoldable pub transfer_master : ℕ → ℕ → ℕ → Tx ClanTables (Unit {0})
transfer_master clan next current = do
  s ← get
  m ← or_throw (find_one (is_in clan current) s.members) not_master
  throw_if (not (is_master m.role)) not_master
  n ← or_throw (find_one (is_in clan next) s.members) not_a_member
  save_membership (record m { role = ClanRole.manager })
  save_membership (record n { role = ClanRole.master })

unfoldable pub kick_member : ℕ → ℕ → ℕ → Tx ClanTables (Unit {0})
kick_member clan target requester = do
  s ← get
  r ← or_throw (find_one (is_in clan requester) s.members) not_manager
  throw_if (is_plain r.role) not_manager
  t ← or_throw (find_one (is_in clan target) s.members) not_a_member
  throw_if (is_master t.role) master_kicked
  throw_if (is_manager r.role && is_manager t.role) manager_kicked
  remove_membership t
