-- ===== src/AuctionRoom/Shown.antt =====
-- The state for the page, beside the balance of an auction and its confirmations.
use potg.Base.{
  ℕ, ◌+◌, ◌≡◌, refl, sym, ◌∙◌, ap, subst, true, not, ◌&&◌, none, some, List, [], ◌∷◌, map, arith,
  ◌==◌, inl, inr, Bool-cases,
}
use potg.Base.Int.{pos, ◌+ℤ◌}
use potg.Base.Rows.{select, find_one, sum_of}
use potg.Base.Keyed.{find_by}
use potg.Base.Tx.{ok}
use potg.AuctionTables.{
  AuctionRow, Participant, Bid, Auctions, auction_key, is_captain, is_player, is_member, active_on,
  highest, is_assigned,
}
use potg.AuctionBalance.Members.{HasUniqueMembers, tally}
use potg.AuctionBalance.Owing.{stray_of, spent}
use potg.Base.Keyed.{find_by_key}
use potg.Auction.{Sale, confirm_current_bid}
use potg.Auction.Buyer.{confirm_current_bid-SoldTo}
use potg.AuctionSetup.{AuctionDto, create}
use potg.AuctionBalance.Steps.{Reach, reach-IsSteady}
use potg.AuctionBalance.History.{AddsUp, Steady-AddsUp, IsNew, create-IsSteady}
use potg.AuctionRoom.{
  TeamMember, TeamView, RoomState, participants_of, bids_of, is_team_member, member_view, team_view,
  current_bid_of, current_player_of, get_room_state, unsold_view,
}

abbrev pub member_price : TeamMember → ℕ
member_price m = m.price

-- Of each team that is shown, the points and the prices make the starting points.
abbrev pub ShowSums : ℕ → List TeamView → Type 0
ShowSums start [] = Unit {0}
ShowSums start (t ∷ ts) =
    (t.points +ℤ pos (sum_of member_price t.members) ≡ pos start) × ShowSums start ts

-- What is shown of a team costs what the team has cost.
shown_prices :
    (i c : ℕ) (ps : List Participant)
    → sum_of member_price (map member_view (select (is_team_member c) (participants_of i ps)))
        + tally (stray_of i c) ps
      ≡ spent i c ps
shown_prices i c [] = refl
shown_prices i c (p ∷ ps) = elim (Bool-cases (p.auction_id == i)) [
  | inr m ↦ ground (arith, shown_prices i c ps)
  | inl m ↦ elim (Bool-cases (is_player p.role)) [
    | inl k ↦ ground (arith, shown_prices i c ps)
    | inr k ↦ ground (arith, shown_prices i c ps)
  ]
]

-- Each row of a list is the one that its user is found by.
abbrev AllFound : ℕ → List Participant → List Participant → Type 0
AllFound i ps [] = Unit {0}
AllFound i ps (q ∷ qs) =
    (find_one (is_member i q.user_id) ps ≡ some q) × (is_captain q.role ≡ true) × AllFound i ps qs

found_later :
    (i : ℕ) (x : Participant) (xs qs : List Participant)
    → find_one (is_member x.auction_id x.user_id) xs ≡ none
    → AllFound i xs qs
    → AllFound i (x ∷ xs) qs
found_later i x xs [] n h = tt
found_later i x xs (q ∷ qs) n h = ground (arith, found_later i x xs qs n h.2)

all_found :
    (i : ℕ) (ps : List Participant)
    → HasUniqueMembers ps
    → AllFound i ps (select (λ p. is_captain p.role) (participants_of i ps))
all_found i [] h = tt
all_found i (p ∷ ps) h =
    let rest =
      found_later i p ps (select (λ p. is_captain p.role) (participants_of i ps)) h.0
        (all_found i ps h.1) in
    elim (Bool-cases (p.auction_id == i)) [
      | inr m ↦ ground arith
      | inl m ↦ elim (Bool-cases (is_captain p.role)) [
        | inl k ↦ ground arith
        | inr k ↦ ground arith
      ]
    ]

full_price : (n m k : ℕ) → n + m ≡ k → m ≡ 0 → k ≡ n
full_price n m k e z = omega arith

shown_sums :
    (i : ℕ) (a : AuctionRow) (s : Auctions) (qs : List Participant)
    → AddsUp i a s
    → ((c : ℕ) → tally (stray_of i c) s.participants ≡ 0)
    → AllFound i s.participants qs
    → ShowSums a.starting_points (map (team_view (participants_of i s.participants)) qs)
shown_sums i a s [] h z f = tt
shown_sums i a s (q ∷ qs) h z f =
    let price = full_price _ _ _ (shown_prices i q.user_id s.participants) (z q.user_id) in
    (
      ap (λ n. q.current_points +ℤ pos n) (sym price) ∙ h q.user_id q f.0 f.1,
      shown_sums i a s qs h z f.2,
    )

-- The bids on a player among those of the auction.
bids_on :
    (i target : ℕ) (bs : List Bid)
    → select (λ b. b.target_id == target && b.is_active) (bids_of i bs)
      ≡ select (active_on i target) bs
bids_on i target [] = refl
bids_on i target (b ∷ bs) = elim (Bool-cases (b.auction_id == i)) [
  | inl m ↦ ground (arith, bids_on i target bs)
  | inr m ↦ ground (arith, bids_on i target bs)
]

abbrev shown : ℕ → AuctionRow → Auctions → RoomState
shown i a s =
    let ps = participants_of i s.participants in
    record {
      auction = a;
      participants = ps;
      current_bid = current_bid_of a.current_player (bids_of i s.bids);
      current_player = current_player_of a.current_player ps;
      teams = map (team_view ps) (select (λ p. is_captain p.role) ps);
      unsold_players =
          map unsold_view (select (λ p. is_player p.role && not (is_assigned (some p))) ps);
    }

get_room_state_ok :
    (i : ℕ) (a : AuctionRow) (s : Auctions)
    → find_by auction_key i s.auctions ≡ some a
    → get_room_state i s ≡ ok (shown i a s, s)
unfolding get_room_state
get_room_state_ok i a s f = rw f refl

shown_bid :
    (target : ℕ) (bs : List Bid) (bid : Bid) (x : Sale)
    → highest (select (λ b. b.target_id == target && b.is_active) bs) ≡ some bid
    → x.captain_id ≡ bid.bidder_id
    → x.amount ≡ bid.amount
    → current_bid_of (some target) bs
      ≡ some (record { bidder_id = x.captain_id; amount = x.amount })
shown_bid target bs bid x h k l = ground arith

-- From the creation of an auction under a new number, after any sequence of the steps of `Step`,
-- the state for the page is given, and in each team that it shows the captain's points and the
-- prices of the shown members make the starting points.
pub room_adds_up :
    (i user : ℕ) (dto : AuctionDto) (s t u : Auctions) (row : AuctionRow)
    → IsNew i s
    → create dto user i s ≡ ok (row, t)
    → Reach i t u
    → (r : RoomState) × (get_room_state i u ≡ ok (r, u))
      × ShowSums r.auction.starting_points r.teams
room_adds_up i user dto s t u row n e p =
    let (a, h) = reach-IsSteady (create-IsSteady i user dto s t row n e) p in
    (
      shown i a u,
      get_room_state_ok i a u h.found,
      shown_sums i a u (select (λ p. is_captain p.role) (participants_of i u.participants))
          (Steady-AddsUp i a u h) h.balanced.stray (all_found i u.participants h.balanced.members),
    )

-- Whenever a confirmation sells a player, the state for the page that could be read just before
-- shows, as the current bid, the captain and the amount that the sale is made with.
pub room_shows_sale :
    (i admin : ℕ) (s t : Auctions) (x : Sale)
    → confirm_current_bid i admin s ≡ ok (some x, t)
    → (r : RoomState) × (get_room_state i s ≡ ok (r, s))
      × (r.current_bid ≡ some (record { bidder_id = x.captain_id; amount = x.amount }))
room_shows_sale i admin s t x e =
    let (a, f, _, _, sold) = confirm_current_bid-SoldTo i admin s t x e in
    let own = find_by_key auction_key i s.auctions a f in
    let (bid, w, q) = sold.winner in
    let highest_on : highest
          (select (λ b. b.target_id == x.player_id && b.is_active) (bids_of i s.bids))
        ≡ some bid =
      ap highest (bids_on i x.player_id s.bids)
      ∙ subst (λ j. highest (select (active_on j x.player_id) s.bids) ≡ some bid) own w in
    let bidder : x.captain_id ≡ bid.bidder_id = ap (λ z. z.captain_id) q in
    let amount : x.amount ≡ bid.amount = ap (λ z. z.amount) q in
    (
      shown i a s,
      get_room_state_ok i a s f,
      ap (λ z. current_bid_of z (bids_of i s.bids)) sold.on_turn
          ∙ shown_bid x.player_id (bids_of i s.bids) bid x highest_on bidder amount,
    )
