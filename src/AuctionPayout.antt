-- ===== src/AuctionPayout.antt =====
-- The reward for everybody who took part in an auction: payoutKey, payoutParticipants, detail and
-- listCompleted of backend/src/modules/auctions/services/auctions-admin.service.ts
pub mod Rounds
pub mod Once
use potg.Base.{
  ℕ, ◌+◌, Bool, true, false, not, ◌&&◌, ◌||◌, Option, none, some, List, [], ◌∷◌, ◌==◌,
  if◌then◌else◌,
}
use potg.Base.Int.{ℤ, pos}
use potg.Base.Rows.{select, length}
use potg.Base.Keyed.{find_by}
use potg.Base.Tx.{
  Tx, pure, throw_if, or_throw, get, ◌>>=◌, ◌>>◌, auction_not_found, not_completed_auction,
}
use potg.AuctionTables.{
  AuctionStatus, AuctionRow, Participant, Auctions, auction_key, is_captain, is_player,
}
use potg.Ledger.{Book, PointTx, IdempotencyKey, same_key, has_key, mint}

abbrev pub payout_key : ℕ → ℕ → IdempotencyKey
payout_key auction user = record { auction_id = auction; user_id = user }

abbrev pub is_completed : AuctionStatus → Bool
is_completed AuctionStatus.completed = true
is_completed _ = false

-- The roles of `REWARD_ROLES`, among the participants of the auction.
abbrev pub is_recipient : ℕ → Participant → Bool
is_recipient i p = p.auction_id == i && (is_player p.role || is_captain p.role)

abbrev pub is_paid : ℕ → ℕ → List PointTx → Bool
is_paid i user txs = has_key (some (payout_key i user)) txs

-- How many recipients were paid, and how many had been paid before.
pub record Counts : Type 0 where
  pub paid : ℕ
  pub skipped : ℕ

abbrev pub no_counts : Counts
no_counts = record { paid = 0; skipped = 0 }

-- One round of the loop: whether the recipient was paid now.
unfoldable pub pay_one : ℕ → ℤ → Participant → Tx Book Bool
pay_one i amount p b =
    if is_paid i p.user_id b.txs
    then pure false b
    else (do
      _ ← mint p.user_id amount "AUCTION_PAYOUT" (record {
        ref_type = some "Auction";
        ref_id = some i;
        idempotency_key = some (payout_key i p.user_id);
      })
      pure true)
        b

unfoldable pub pay_each : ℕ → ℤ → List Participant → Tx Book Counts
pay_each i amount [] = pure no_counts
pay_each i amount (p ∷ ps) = do
  now ← pay_one i amount p
  rest ← pay_each i amount ps
  pure (
      if now
      then record rest { paid = rest.paid + 1 }
      else record rest { skipped = rest.skipped + 1 })

pub record Payout : Type 0 where
  pub recipients : ℕ
  pub paid : ℕ
  pub skipped : ℕ

unfoldable pub payout_participants : ℕ → ℤ → Auctions → Tx Book Payout
payout_participants i amount s = do
  a ← or_throw (find_by auction_key i s.auctions) auction_not_found
  throw_if (not (is_completed a.status)) not_completed_auction
  let recipients = select (is_recipient i) s.participants
  counts ← pay_each i amount recipients
  pure (record { recipients = length recipients; paid = counts.paid; skipped = counts.skipped })

-- The totals that `detail` shows: who may be paid, and who was.
abbrev pub paid_count : ℕ → List Participant → List PointTx → ℕ
paid_count i ps txs = length (select (λ p. is_paid i p.user_id txs) (select (is_recipient i) ps))

-- `payout` of `detail`
pub record PayoutState : Type 0 where
  pub total_recipients : ℕ
  pub paid_recipients : ℕ

unfoldable pub detail : ℕ → Auctions → Tx Book PayoutState
detail i s = do
  a ← or_throw (find_by auction_key i s.auctions) auction_not_found
  throw_if (not (is_completed a.status)) not_completed_auction
  b ← get
  pure (record {
    total_recipients = length (select (is_recipient i) s.participants);
    paid_recipients = paid_count i s.participants b.txs;
  })
