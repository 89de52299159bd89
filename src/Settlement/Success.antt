-- ===== src/Settlement/Success.antt =====
-- A settlement and a cancellation go through whenever the stakers have accounts.
use potg.Base.{
  ℕ, String, ◌-◌, ◌≡◌, ◌≢◌, true, refl, ◌∙◌, List, [], ◌∷◌, arith, ◌==◌, inl, inr, Bool-cases, some,
  ◌||◌,
}
use potg.Base.Int.{ℤ, pos, ◌+ℤ◌, ◌≤ℤ◌, ltb_ℤ}
use potg.Base.Rows.{length}
use potg.Base.Keyed.{find_by, save_by}
use potg.Base.Texts.{fits}
use potg.Base.Tx.{ok, Result, >>=-ok, pure}
use potg.Ledger.{mint}
use potg.Ledger.Integrity.{IsSound}
use potg.Ledger.Issue.{HasUser, mint_succeeds}
use potg.Store.{Stake, StakeStatus, Market, Store, MarketStatus, market_id_of, stake_id_of, on_book}
use potg.Betting.{lock_market_row, market_ref}
use potg.Settlement.{
  payout_of, rake_of, wins, settle_stakes, lose_stakes, pay_market, settle_market, settle_by_status,
  SettleSummary, pay_winner, settle_stake,
}
use potg.Settlement.Laws.{
  stakes_on, winners_on, winning_pool_on, pool_on, pay_loop, close_market, settled_row,
}
use potg.Settlement.Effects.{settle_stake-Paid}

-- Every staker has an account, and none is the system's.
abbrev pub HasStakers : List Stake → Store → Type 0
HasStakers [] s = Unit {0}
HasStakers (x ∷ xs) s = (x.user_id ≢ 0) × HasUser x.user_id s.book × HasStakers xs s

-- What a step of a loop returned, when it is known to return.
abbrev pub Returns : {A : Type 0} → Result A → Type 0
Returns {A} r = (a : A) × (r ≡ ok a)

keeps_stakers :
    (xs : List Stake) (s t : Store)
    → ((j : ℕ) → HasUser j s.book → HasUser j t.book)
    → HasStakers xs s
    → HasStakers xs t
keeps_stakers [] s t k h = tt
keeps_stakers (x ∷ xs) s t k (n, u, h) = (n, k x.user_id u, keeps_stakers xs s t k h)

mint-Returns :
    (user : ℕ) (x : ℤ) (r : String) (k : ℕ) (s : Store)
    → user ≢ 0
    → HasUser user s.book
    → pos 1 ≤ℤ x
    → fits 64 r ≡ true
    → Returns (on_book (mint user x r (market_ref k)) s)
mint-Returns user x r k s n u p short =
    let (t, c, e) = mint_succeeds user x r (market_ref k) s.book n p u refl short refl in
    ((t, record s { book = c }), rw (e, on_book))

pay_winner-Returns :
    (k user : ℕ) (payout : ℤ) (s : Store)
    → user ≢ 0
    → HasUser user s.book
    → Returns (pay_winner k user payout s)
unfolding pay_winner
pay_winner-Returns k user payout s n u = elim (Bool-cases (ltb_ℤ (pos 0) payout)) [
  | inr z ↦ ((pos 0, s), rw z)
  | inl z ↦
      let ((a, t), e) = mint-Returns user payout "BET_PAYOUT" k s n u (ground arith) refl in
      (
        (payout, t),
        rw z (>>=-ok (on_book (mint user payout "BET_PAYOUT" (market_ref k))) (λ _. pure payout) e),
      )
]

settle_stake-Returns :
    (k : ℕ) (option : String) (pool : ℤ) (winning : ℕ) (x : Stake) (s : Store)
    → x.user_id ≢ 0
    → HasUser x.user_id s.book
    → Returns (settle_stake k option pool winning x s)
unfolding settle_stake
settle_stake-Returns k option pool winning x s n u = elim (Bool-cases (wins option x)) [
  | inr z ↦
      let y : Stake = record x { status = StakeStatus.lost; payout = some (pos 0) } in
      ((pos 0, record s { stakes = save_by stake_id_of y s.stakes }), rw z refl)
  | inl z ↦
      let payout = payout_of x.stake pool winning in
      let y : Stake = record x { status = StakeStatus.won; payout = some payout } in
      let (r, e) =
        pay_winner-Returns k x.user_id payout (record s { stakes = save_by stake_id_of y s.stakes })
          n u in
      (r, rw z e)
]

settle_stakes-Returns :
    (k : ℕ) (option : String) (pool : ℤ) (winning : ℕ) (xs : List Stake) (acc : ℤ) (s : Store)
    → IsSound s.book
    → HasStakers xs s
    → Returns (settle_stakes k option pool winning xs acc s)
unfolding settle_stakes
settle_stakes-Returns k option pool winning [] acc s h w = ((acc, s), refl)
settle_stakes-Returns k option pool winning (x ∷ xs) acc s h (n, u, w) =
    let ((d, t), e) = settle_stake-Returns k option pool winning x s n u in
    let (_, p) = settle_stake-Paid k option pool winning x s t d h e in
    let (r, f) =
      settle_stakes-Returns k option pool winning xs (acc +ℤ d) t p.sound
        (keeps_stakers xs s t p.keeps w) in
    (
      r,
      >>=-ok (settle_stake k option pool winning x)
            (λ a. settle_stakes k option pool winning xs (acc +ℤ a)) e
          ∙ f,
    )

lose_stakes-Returns : (xs : List Stake) (s : Store) → Returns (lose_stakes xs s)
unfolding lose_stakes
lose_stakes-Returns [] s = ((pos 0, s), refl)
lose_stakes-Returns (x ∷ xs) s =
    let y : Stake = record x { status = StakeStatus.lost; payout = some (pos 0) } in
    lose_stakes-Returns xs (record s { stakes = save_by stake_id_of y s.stakes })

pay_loop-Returns :
    (m : Market) (option : String) (s : Store)
    → IsSound s.book
    → HasStakers (stakes_on m s) s
    → Returns (pay_loop m option s s)
pay_loop-Returns m option s h w =
    elim (Bool-cases (length (winners_on m option s) == 0 || winning_pool_on m option s == 0)) [
      | inl n ↦ rw n (lose_stakes-Returns (stakes_on m s) s)
      | inr n ↦ rw n (
          settle_stakes-Returns m.id option (pool_on m) (winning_pool_on m option s) (stakes_on m s)
            (pos 0) s h w)
    ]

settle_market_at :
    (i : ℕ) (option : String) (s : Store) (m : Market)
    → find_by market_id_of i s.markets ≡ some m
    → m.status ≡ MarketStatus.locked
    → settle_market i option s ≡ pay_market m option s
unfolding settle_market lock_market_row settle_by_status
settle_market_at i option s m f l = ground arith

-- With a sound ledger, a locked market is settled by any option of at most 64 characters, if each
-- of its stakers is a user other than the system.
pub settle_market_succeeds :
    (i : ℕ) (option : String) (s : Store) (m : Market)
    → IsSound s.book
    → find_by market_id_of i s.markets ≡ some m
    → m.status ≡ MarketStatus.locked
    → HasStakers (stakes_on m s) s
    → fits 64 option ≡ true
    → (r : SettleSummary) × (t : Store) × (settle_market i option s ≡ ok (r, t))
unfolding pay_market
settle_market_succeeds i option s m h f l w short =
    let ((d, u), e) = pay_loop-Returns m option s h w in
    let r : SettleSummary = record {
      market_id = m.id;
      total_pool = m.total_pool;
      rake_amount = rake_of m.total_pool m.rake_bps;
      winning_pool = winning_pool_on m option s;
      winners_count = length (winners_on m option s);
      losers_count = length (stakes_on m s) - length (winners_on m option s);
      payout_distributed = d;
    } in
    let t : Store = record u {
      markets = save_by market_id_of (settled_row m option s) u.markets;
    } in
    (
      r,
      t,
      settle_market_at i option s m f l
          ∙ >>=-ok (pay_loop m option s) (close_market m option s) e
          ∙ rw short refl,
    )
