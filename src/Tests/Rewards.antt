-- ===== src/Tests/Rewards.antt =====
-- A payout of an auction, and a daily reward.
use potg.Base.{arith, Option, String, false, true, ◌≡◌, ◌⊎◌, ◌+◌, ◌*◌, refl, none, some, [], ◌∷◌}
use potg.Base.Int.{ℤ, pos, ◌+ℤ◌, ◌-ℤ◌}
use potg.Base.Tx.{Result, ok, err}
use potg.AuctionTables.{AuctionStatus, BiddingPhase, AuctionRole, Auctions}
use potg.AuctionSetup.{new_participant}
use potg.Ledger.{Book, mint, transfer, run, debit, credit, save_tx}
use potg.Ledger.Users.{total_balance}
use potg.Ledger.Integrity.{IsSound}
use potg.AuctionPayout.{Payout, payout_participants, pay_each, pay_one, detail}
use potg.AuctionPayout.Once.{payout_counts}
use potg.Attendance.{
  get_value, get_number, Claim, award, claim_daily, not_awarded, maybe_apply_streak_bonus,
  pay_bonus, calculate_streak_days, count_back, kst_day,
}
use potg.Attendance.Streak.{IsRun, attended, calculate_streak_days-IsRun}
use potg.Attendance.Daily.{Awarded, claim_daily-Awarded, claim_daily_once}
use potg.Attendance.Early.{claim_daily_early}
use potg.Tests.Money.{book, book-IsSound}

abbrev over : Auctions
over = record {
  auctions =
      record {
        id = 6;
        creator_id = 5;
        status = AuctionStatus.completed;
        starting_points = 100;
        turn_time_limit = 60;
        team_count = 2;
        current_player = none;
        current_end_time = none;
        phase = BiddingPhase.waiting;
        timer_paused = false;
        paused_time_remaining = none;
      }
      ∷ [];
  participants =
      new_participant 1 6 1 AuctionRole.captain 100
      ∷ new_participant 2 6 2 AuctionRole.player 0
      ∷ new_participant 3 6 8 AuctionRole.spectator 0
      ∷ [];
  bids = [];
  now = 7;
}

abbrev paid_book : {A : Type 0} → Result (A × Book) → Book
paid_book (ok (a, c)) = c
paid_book (err e) = book

abbrev rewarded : Book
rewarded = paid_book (payout_participants 6 (pos 20) over book)

abbrev first_payout : Payout
first_payout = record { recipients = 2; paid = 2; skipped = 0 }

payout_run : payout_participants 6 (pos 20) over book ≡ ok (first_payout, rewarded)
unfolding payout_participants pay_each pay_one mint transfer run debit credit save_tx ◌+ℤ◌ ◌-ℤ◌
payout_run = refl

payout_counts_example :
    (2 + 0 ≡ 2)
    × IsSound rewarded
    × (total_balance rewarded.users ≡ total_balance book.users +ℤ pos (2 * 20))
    × (detail 6 over rewarded ≡ ok (record { total_recipients = 2; paid_recipients = 2 }, rewarded))
payout_counts_example = payout_counts 6 20 over book rewarded first_payout book-IsSound payout_run

abbrev number_of : String → Option ℤ
number_of s = some (pos 50)

-- The book on a day of 2025.
abbrev today : Book
today = record book { now = 1760000000000 }

today-IsSound : IsSound today
today-IsSound = record {
  unique = book-IsSound.unique;
  nonneg = book-IsSound.nonneg;
  backed = book-IsSound.backed;
}

abbrev claimed : Book
claimed = paid_book (claim_daily number_of [] 1 today)

abbrev claim : Claim
claim = record {
  awarded = true;
  amount = pos 50;
  balance_after = pos 150;
  already_claimed = false;
  streak_days = 0;
  streak_bonus = pos 0;
}

claim_run : claim_daily number_of [] 1 today ≡ ok (claim, claimed)
unfolding claim_daily award get_number get_value mint transfer run debit credit save_tx ◌+ℤ◌ ◌-ℤ◌
    maybe_apply_streak_bonus pay_bonus calculate_streak_days count_back
claim_run = refl

calculate_streak_days-IsRun_example :
    IsRun (attended 1 claimed.txs) 11 (kst_day claimed.now) (calculate_streak_days 1 claimed)
calculate_streak_days-IsRun_example = calculate_streak_days-IsRun 1 claimed

claim_daily-Awarded_example :
    ((claim.awarded ≡ false) × (claimed ≡ today)) ⊎ Awarded 1 today claimed claim
claim_daily-Awarded_example =
    claim_daily-Awarded number_of [] 1 today claimed claim today-IsSound claim_run

-- At 17:53 in Seoul the query puts the new reward on the day before.
claim_daily_early_example : claim.streak_days ≡ 0
claim_daily_early_example =
    claim_daily_early number_of [] 1 today claimed claim today-IsSound refl (omega arith) claim_run
      refl

-- A second later.
claim_daily_once_example :
    (z : ℤ) × (claim_daily number_of [] 1 (record claimed { now = 1760000001000 })
      ≡ ok (not_awarded z, record claimed { now = 1760000001000 }))
claim_daily_once_example =
    claim_daily_once number_of [] 1 today claimed claim 1760000001000 today-IsSound claim_run refl
      refl
