-- ===== src/AuctionBalance/Owing.antt =====
-- The balance of an auction's captains, and the writes that move it.
use potg.Base.{
  ◌≤◌, ℕ, ◌+◌, ◌≡◌, sym, subst, Bool, true, false, not, ◌&&◌, none, some, List, arith, ◌==◌,
  same_id, if◌then◌else◌,
}
use potg.Base.Int.{ℤ, pos, ◌+ℤ◌}
use potg.Base.Rows.{find_one}
use potg.Base.Keyed.{find_by, save_by, HasUniqueKeys, find_by_found, sum_of-save_by}
use potg.AuctionTables.{Participant, participant_key, is_member, is_captain, is_player, is_assigned}
use potg.AuctionBalance.Members.{HasUniqueMembers, IsRow, find_member-save, price, tally}

-- The players of a captain's team, and those rows of it that are no players.
abbrev pub team_of : ℕ → ℕ → Participant → Bool
team_of i c p = p.auction_id == i && same_id p.assigned_captain (some c)

abbrev pub stray_of : ℕ → ℕ → Participant → Bool
stray_of i c p = team_of i c p && not (is_player p.role)

abbrev pub spent : ℕ → ℕ → List Participant → ℕ
spent i c ps = tally (team_of i c) ps

abbrev pub is_captain_id : ℕ → ℕ → List Participant → Bool
is_captain_id i c ps = elim (find_one (is_member i c) ps) [
  | none ↦ false
  | some p ↦ is_captain p.role
]

abbrev pub is_player_id : ℕ → ℕ → List Participant → Bool
is_player_id i c ps = elim (find_one (is_member i c) ps) [
  | none ↦ false
  | some p ↦ is_player p.role
]

abbrev pub due : ℕ → ℕ → ℤ → ℤ
due c d x = if c == d then x else pos 0

-- Every captain's points and the team's prices make the starting points, but for the captain `d`,
-- who has `x` too much. Only captains have teams, and only of players; who was assigned by hand has a
-- team and cost nothing.
pub record Owing (i start d : ℕ) (x : ℤ) (ps : List Participant) : Type 0 where
  pub keys : HasUniqueKeys participant_key ps
  pub members : HasUniqueMembers ps
  pub captains :
      (c : ℕ) (p : Participant)
      → find_one (is_member i c) ps ≡ some p
      → is_captain p.role ≡ true
      → p.current_points +ℤ pos (spent i c ps) ≡ pos start +ℤ due c d x
  pub only_captains : (c : ℕ) → is_captain_id i c ps ≡ false → spent i c ps ≡ 0
  pub stray : (c : ℕ) → tally (stray_of i c) ps ≡ 0
  pub by_hand :
      (u : ℕ) (p : Participant)
      → find_one (is_member i u) ps ≡ some p
      → p.was_unsold ≡ true
      → (p.sold_price ≡ 0) × (is_assigned (some p) ≡ true)

abbrev pub Balanced : ℕ → ℕ → List Participant → Type 0
Balanced i start ps = Owing i start 0 (pos 0) ps

-- Nobody owes nothing.
pub Owing-none :
    (i start d e : ℕ) (ps : List Participant)
    → Owing i start d (pos 0) ps
    → Owing i start e (pos 0) ps
Owing-none i start d e ps h = record {
  keys = h.keys;
  members = h.members;
  captains = λ c p f k. ground (arith, h.captains c p f k);
  only_captains = h.only_captains;
  stray = h.stray;
  by_hand = h.by_hand;
}

-- The starting points, where nothing was spent.
pub unspent_due : (x : ℤ) (n s c : ℕ) → x ≡ pos s → n ≡ 0 → x +ℤ pos n ≡ pos s +ℤ due c 0 (pos 0)
unspent_due x n s c e z = ground arith

pub zero_below : (n k : ℕ) → n ≤ k → k ≡ 0 → n ≡ 0
zero_below n k l e = omega arith

-- One row is written, with its role.
module _ (i u : ℕ) (p q : Participant) (ps : List Participant) where
  pub captain_id-save :
      HasUniqueKeys participant_key ps
      → find_one (is_member i u) ps ≡ some p
      → IsRow p q
      → q.role ≡ p.role
      → (c : ℕ) → is_captain_id i c (save_by participant_key q ps) ≡ is_captain_id i c ps
  captain_id-save h e r k c = ground (arith, find_member-save i u i c p q ps h e)

  pub player_id-save :
      HasUniqueKeys participant_key ps
      → find_one (is_member i u) ps ≡ some p
      → IsRow p q
      → q.role ≡ p.role
      → (c : ℕ) → is_player_id i c (save_by participant_key q ps) ≡ is_player_id i c ps
  player_id-save h e r k c = ground (arith, find_member-save i u i c p q ps h e)

  pub tally-save :
      (w : Participant → Bool)
      → HasUniqueKeys participant_key ps
      → find_one (is_member i u) ps ≡ some p
      → IsRow p q
      → tally w (save_by participant_key q ps) + (if w p then p.sold_price else 0)
        ≡ tally w ps + (if w q then q.sold_price else 0)
  tally-save w h e r = sum_of-save_by participant_key w price q p ps h (
      subst (λ n. find_by participant_key n ps ≡ some p) (sym (r.0))
        (find_by_found participant_key (is_member i u) ps p h e))
