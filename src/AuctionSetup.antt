-- ===== src/AuctionSetup.antt =====
-- The registration of players and teams: create, join, addPlayer, addPlayers, removeParticipant,
-- addCaptain, removeCaptain, updateAuctionSettings and deleteAuction of
-- backend/src/modules/auctions/auctions.service.ts
use potg.Base.{
  ℕ, Bool, true, false, not, ◌&&◌, Option, none, some, List, [], ◌∷◌, leb, ◌==◌, if◌then◌else◌,
}
use potg.Base.Int.{pos}
use potg.Base.Rows.{select, find_one, length, update_where}
use potg.Base.Tx.{
  Tx, pure, throw, throw_if, or_throw, get, put, ◌>>=◌, ◌>>◌, already_joined, not_pending,
  participant_not_found, too_many_teams, captain_not_found, not_deletable,
}
use potg.AuctionTables.{
  AuctionStatus, BiddingPhase, AuctionRole, AuctionRow, Participant, Auctions, is_captain,
  is_player, is_member,
}
use potg.Auction.{load_auction, load_as_creator, save_auction, save_participant}

abbrev pub is_pending : AuctionStatus → Bool
is_pending AuctionStatus.pending = true
is_pending _ = false

-- `CreateAuctionDto`: what is left out takes the column's default.
pub record AuctionDto : Type 0 where
  pub starting_points : ℕ
  pub turn_time_limit : Option ℕ
  pub team_count : Option ℕ

abbrev pub or_default : Option ℕ → ℕ → ℕ
or_default none d = d
or_default (some x) d = x

unfoldable pub create : AuctionDto → ℕ → ℕ → Tx Auctions AuctionRow
create dto user new_id = do
  s ← get
  let row : AuctionRow = record {
    id = new_id;
    creator_id = user;
    status = AuctionStatus.pending;
    starting_points = dto.starting_points;
    turn_time_limit = or_default dto.turn_time_limit 60;
    team_count = or_default dto.team_count 2;
    current_player = none;
    current_end_time = none;
    phase = BiddingPhase.waiting;
    timer_paused = false;
    paused_time_remaining = none;
  }
  put (record s { auctions = row ∷ s.auctions })
  pure row

abbrev pub new_participant : ℕ → ℕ → ℕ → AuctionRole → ℕ → Participant
new_participant new_id i user role points = record {
  id = new_id;
  auction_id = i;
  user_id = user;
  role = role;
  current_points = pos points;
  assigned_captain = none;
  sold_price = 0;
  was_unsold = false;
}

abbrev pub add_participant : Participant → Tx Auctions Participant
add_participant p = do s ← get; put (record s { participants = p ∷ s.participants }); pure p

abbrev pub has_joined : ℕ → ℕ → Auctions → Bool
has_joined i user s = elim (find_one (is_member i user) s.participants) [
  | none ↦ false
  | some _ ↦ true
]

unfoldable pub join : ℕ → ℕ → AuctionRole → ℕ → Tx Auctions Participant
join i user role new_id = do
  a ← load_auction i
  s ← get
  throw_if (has_joined i user s) already_joined
  add_participant
      (new_participant new_id i user role (if is_captain role then a.starting_points else 0))

-- `loadAsCreator`, and that the auction has not started.
unfoldable pub load_pending : ℕ → ℕ → Tx Auctions AuctionRow
load_pending i admin = do
  a ← load_as_creator i admin
  throw_if (not (is_pending a.status)) not_pending
  pure a

unfoldable pub add_player : ℕ → ℕ → ℕ → ℕ → Tx Auctions Participant
add_player i admin target new_id = do
  a ← load_pending i admin
  s ← get
  throw_if (has_joined i target s) already_joined
  add_participant (new_participant new_id i target AuctionRole.player 0)

-- One round of the loop of `addPlayers`: who is registered already is passed over.
unfoldable pub add_one : ℕ → ℕ → ℕ → Tx Auctions (Option Participant)
add_one i user new_id s =
    if has_joined i user s
    then pure none s
    else (do
      p ← add_participant (new_participant new_id i user AuctionRole.player 0)
      pure (some p))
        s

-- Each user comes with the id that the database gives the row.
unfoldable pub add_each : ℕ → List (ℕ × ℕ) → Tx Auctions (List Participant)
add_each i [] = pure []
add_each i ((user, new_id) ∷ rest) = do
  added ← add_one i user new_id
  ps ← add_each i rest
  pure (elim added [ none ↦ ps | some p ↦ p ∷ ps ])

unfoldable pub add_players : ℕ → ℕ → List (ℕ × ℕ) → Tx Auctions (List Participant)
add_players i admin users = do a ← load_pending i admin; add_each i users

-- `remove(row)`
abbrev pub remove_participant_row : Participant → Tx Auctions (Unit {0})
remove_participant_row p = do
  s ← get
  put (record s { participants = select (λ q. not (q.id == p.id)) s.participants })

unfoldable pub remove_participant : ℕ → ℕ → ℕ → Tx Auctions (Unit {0})
remove_participant i admin target = do
  a ← load_pending i admin
  s ← get
  p ← or_throw (find_one (is_member i target) s.participants) participant_not_found
  remove_participant_row p

abbrev pub is_captain_of : ℕ → Participant → Bool
is_captain_of i p = p.auction_id == i && is_captain p.role

-- A registered player becomes a captain; a captain or a spectator is refused.
unfoldable pub promote : AuctionRow → Participant → Tx Auctions Participant
promote a p =
    if is_player p.role
    then (do
      let row : Participant = record p {
        role = AuctionRole.captain;
        current_points = pos a.starting_points;
      }
      save_participant row
      pure row)
    else throw already_joined

unfoldable pub add_captain : ℕ → ℕ → ℕ → ℕ → Tx Auctions Participant
add_captain i admin user new_id = do
  a ← load_pending i admin
  s ← get
  throw_if (leb a.team_count (length (select (is_captain_of i) s.participants))) too_many_teams
  elim (find_one (is_member i user) s.participants) [
    | some p ↦ promote a p
    | none ↦ add_participant (new_participant new_id i user AuctionRole.captain a.starting_points)
  ]

unfoldable pub remove_captain : ℕ → ℕ → ℕ → Tx Auctions (Unit {0})
remove_captain i admin user = do
  a ← load_pending i admin
  s ← get
  p ←
      or_throw (find_one (λ p. is_member i user p && is_captain p.role) s.participants)
        captain_not_found
  remove_participant_row p

pub record Settings : Type 0 where
  pub team_count : Option ℕ
  pub starting_points : Option ℕ
  pub turn_time_limit : Option ℕ

-- New starting points are given to every captain.
unfoldable pub give_points : ℕ → Option ℕ → Tx Auctions (Unit {0})
give_points i none = pure tt
give_points i (some x) = do
  s ← get
  put (record s {
    participants =
        update_where (is_captain_of i) (λ p. record p { current_points = pos x }) s.participants;
  })

unfoldable pub update_auction_settings : ℕ → ℕ → Settings → Tx Auctions AuctionRow
update_auction_settings i admin settings = do
  a ← load_pending i admin
  give_points i settings.starting_points
  let row : AuctionRow = record a {
    team_count = or_default settings.team_count a.team_count;
    starting_points = or_default settings.starting_points a.starting_points;
    turn_time_limit = or_default settings.turn_time_limit a.turn_time_limit;
  }
  save_auction row
  pure row

abbrev pub is_deletable : AuctionStatus → Bool
is_deletable AuctionStatus.pending = true
is_deletable AuctionStatus.cancelled = true
is_deletable AuctionStatus.completed = true
is_deletable _ = false

unfoldable pub delete_auction : ℕ → ℕ → Tx Auctions (Unit {0})
delete_auction i admin = do
  a ← load_as_creator i admin
  throw_if (not (is_deletable a.status)) not_deletable
  s ← get
  put (record s {
    participants = select (λ p. not (p.auction_id == i)) s.participants;
    bids = select (λ b. not (b.auction_id == i)) s.bids;
    auctions = select (λ b. not (b.id == a.id)) s.auctions;
  })
