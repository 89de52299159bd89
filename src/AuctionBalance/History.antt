-- ===== src/AuctionBalance/History.antt =====
-- An auction from its creation on.
use potg.Base.{
  ℕ, ◌≡◌, refl, sym, ◌∙◌, ap, subst, true, false, none, some, List, [], ◌∷◌, arith, ◌==◌,
}
use potg.Base.Int.{pos, ◌+ℤ◌, int_laws}
use potg.Base.Rows.{find_one, any_of}
use potg.Base.Keyed.{find_by, HasUniqueKeys}
use potg.Base.Tx.{ok}
use potg.AuctionTables.{
  AuctionRow, Participant, Bid, Auctions, auction_key, participant_key, is_member, is_captain,
}
use potg.AuctionBalance.Owing.{spent}
use potg.AuctionBalance.Moves.{no_due}
use potg.AuctionBalance.Steady.{active_in, IsSteady, Steady}
use potg.AuctionSetup.{AuctionDto, create}
use potg.AuctionBalance.Members.{HasUniqueMembers}
use potg.AuctionBalance.Pending.{unspent-Balanced, stray_active}
use potg.AuctionBalance.Steps.{Reach, reach-IsSteady}

-- What the database's foreign keys say of the number that a new auction gets.
pub record IsNew (i : ℕ) (s : Auctions) : Type 0 where
  pub keys : HasUniqueKeys participant_key s.participants
  pub members : HasUniqueMembers s.participants
  pub nobody : any_of (λ p. p.auction_id == i) s.participants ≡ false
  pub unbid : any_of (λ b. b.auction_id == i) s.bids ≡ false

nobody_spent :
    (i c : ℕ) (ps : List Participant)
    → any_of (λ p. p.auction_id == i) ps ≡ false
    → spent i c ps ≡ 0
nobody_spent i c [] e = refl
nobody_spent i c (p ∷ ps) e = ground (arith, nobody_spent i c ps)

nobody_found :
    (i u : ℕ) (ps : List Participant)
    → any_of (λ p. p.auction_id == i) ps ≡ false
    → find_one (is_member i u) ps ≡ none
nobody_found i u [] e = refl
nobody_found i u (p ∷ ps) e = ground (arith, nobody_found i u ps)

none_active :
    (i : ℕ) (bs : List Bid)
    → any_of (λ b. b.auction_id == i) bs ≡ false
    → any_of (active_in i) bs ≡ false
none_active i [] e = refl
none_active i (b ∷ bs) e = ground (arith, none_active i bs)

pub create-IsSteady :
    (i user : ℕ) (dto : AuctionDto) (s t : Auctions) (r : AuctionRow)
    → IsNew i s
    → create dto user i s ≡ ok (r, t)
    → IsSteady i t
unfolding create
create-IsSteady i user dto s t r h e =
    let ps = s.participants in
    let all : t ≡ record s { auctions = r ∷ s.auctions } = ground arith in
    let id : r.id ≡ i = ground arith in
    let idle : r.current_player ≡ none = ground arith in
    let active = none_active i s.bids h.unbid in
    let spare : (c : ℕ) → spent i c ps ≡ 0 = λ c. nobody_spent i c ps h.nobody in
    subst (IsSteady i) (sym all) (
      r,
      record {
        found = ground arith;
        balanced =
            unspent-Balanced i r.starting_points ps h.keys h.members spare
              (λ c p f k. absurd (cc (f, nobody_found i c ps h.nobody)))
              (λ u p f w. absurd (cc (f, nobody_found i u ps h.nobody)));
        bidders = stray_active i ps s.bids active;
        target = λ u k. absurd (cc (idle, k));
        untouched = λ q. record { unspent = spare; no_target = idle; no_bids = active };
      },
    )

-- What an auction's captains have and what their teams have cost.
abbrev pub AddsUp : ℕ → AuctionRow → Auctions → Type 0
AddsUp i a s =
    (c : ℕ) (p : Participant)
    → find_one (is_member i c) s.participants ≡ some p
    → is_captain p.role ≡ true
    → p.current_points +ℤ pos (spent i c s.participants) ≡ pos a.starting_points

plus_nothing : (n : ℕ) → pos n +ℤ pos 0 ≡ pos n
plus_nothing n = grind int_laws

pub Steady-AddsUp : (i : ℕ) (a : AuctionRow) (s : Auctions) → Steady i a s → AddsUp i a s
Steady-AddsUp i a s h c q f k =
    h.balanced.captains c q f k
    ∙ (ap (λ z. pos a.starting_points +ℤ z) (no_due c 0) ∙ plus_nothing a.starting_points)

-- An auction is created, under a number that no participant and no bid has, in a store with
-- unique participants. After any sequence of the steps of `Step` on it (joining, registering and
-- removing people, changing settings, every control of the master, bids, sales, passes, timeouts
-- and time that passes; new rows get new ids), the auction is there, and for each of its captains
-- the points he has and the prices of his team add up to the starting points.
pub points_add_up :
    (i user : ℕ) (dto : AuctionDto) (s t u : Auctions) (r : AuctionRow)
    → IsNew i s
    → create dto user i s ≡ ok (r, t)
    → Reach i t u
    → (a : AuctionRow) × (find_by auction_key i u.auctions ≡ some a) × AddsUp i a u
points_add_up i user dto s t u r n e p =
    let (a, h) = reach-IsSteady (create-IsSteady i user dto s t r n e) p in
    (a, h.found, Steady-AddsUp i a u h)
