-- ===== src/Clans/History.antt =====
-- Sequences of operations on memberships.
use potg.Base.{ℕ, ◌≡◌, String, true, false, none, ◌==◌}
use potg.Base.Keyed.{find_by}
use potg.Base.Tx.{ok}
use potg.Clans.{
  ClanRole, Clan, Membership, ClanTables, membership_key, create, add_member, approve_request,
  leave_clan, update_member_role, transfer_master, kick_member,
}
use potg.Clans.Masters.{masters, has_clan}

-- One operation on the memberships.
pub data ClanStep (s : ClanTables) : ClanTables → Type 0 where
  create_step :
      (name tag : String) (user clan_id new_id : ℕ) {t : ClanTables} {k : Clan}
      → masters clan_id s.members ≡ 0
      → find_by membership_key new_id s.members ≡ none
      → create name tag user clan_id new_id s ≡ ok (k, t)
      → ClanStep s t
  add_step :
      (clan user new_id : ℕ) {t : ClanTables} {m : Membership}
      → find_by membership_key new_id s.members ≡ none
      → add_member clan user new_id s ≡ ok (m, t)
      → ClanStep s t
  approve_step :
      (request admin new_id : ℕ)
      → find_by membership_key new_id s.members ≡ none
      → ClanStep s (approve_request request admin new_id s).1
  leave_step :
      (user : ℕ) {t : ClanTables} {r : Unit {0}} → leave_clan user s ≡ ok (r, t) → ClanStep s t
  role_step :
      (clan target : ℕ) (role : ClanRole) (requester : ℕ) {t : ClanTables} {r : Unit {0}}
      → has_clan clan s.clans ≡ true
      → update_member_role clan target role requester s ≡ ok (r, t)
      → ClanStep s t
  transfer_step :
      (clan next current : ℕ) {t : ClanTables} {r : Unit {0}}
      → has_clan clan s.clans ≡ true
      → (current == next) ≡ false
      → transfer_master clan next current s ≡ ok (r, t)
      → ClanStep s t
  kick_step :
      (clan target requester : ℕ) {t : ClanTables} {r : Unit {0}}
      → kick_member clan target requester s ≡ ok (r, t)
      → ClanStep s t

pub data ClanReach (s : ClanTables) : ClanTables → Type 0 where
  begin : ClanReach s s
  more : {t u : ClanTables} → ClanReach s t → ClanStep t u → ClanReach s u
