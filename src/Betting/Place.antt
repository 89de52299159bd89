-- ===== src/Betting/Place.antt =====
-- What a placed stake has passed, and what it wrote.
use potg.Base.{ℕ, String, ◌+◌, ◌≡◌, refl, ◌∙◌, ap, subst, Bool, true, false, arith, not, some}
use potg.Base.Int.{ℤ, pos, pos_part, ◌≤ℤ◌, leb_ℤ}
use potg.Base.Keyed.{find_by, save_by}
use potg.Base.Tx.{
  Tx, ok, >>=-inv, >>-inv, ◌>>=◌, ◌>>◌, pure, throw_if, amount_not_positive, betting_closed_market,
  betting_closed_match, Error, market_not_found, match_not_found, or_throw_inv,
}
use potg.Ledger.{PointTx, Book, burn}
use potg.Store.{
  MarketType, Stake, Market, Match, Store, MarketStatus, MatchStatus, market_id_of, match_id_of,
  on_book_inv, same_status, save_market, on_book,
}
use potg.Betting.{
  is_open, market_ref, lock_market_row, find_match, assert_open_for_staking, validate_side,
  add_to_stake, place_stake,
}

-- What `placeStake` documents as its guards, with the ledger's debit.
pub record Passed (market_id user_id : ℕ) (side : String) (amount : ℤ) (s : Store) (m : Market)
    (b : Book) : Type 0 where
  pub positive : pos 1 ≤ℤ amount
  pub found : find_by market_id_of market_id s.markets ≡ some m
  pub market_open : m.status ≡ MarketStatus.opened
  pub match_open :
      (g : Match) × (find_by match_id_of m.match_id s.matches ≡ some g)
      × (g.status ≡ MatchStatus.betting_open)
  pub side_valid : validate_side m.market_type side s ≡ ok (tt, s)
  pub charged :
      (t : PointTx) × (burn user_id amount "BET_STAKE" (market_ref m.id) s.book ≡ ok (t, b))

opened_of : (x : MarketStatus) → not (is_open x) ≡ false → x ≡ MarketStatus.opened
opened_of x e = ground arith

betting_open_of :
    (x : MatchStatus)
    → not (same_status x MatchStatus.betting_open) ≡ false
    → x ≡ MatchStatus.betting_open
betting_open_of x e = ground arith

throw_if_inv :
    (c : Bool) (x : Error) (s t : Store) (a : Unit {0})
    → throw_if c x s ≡ ok (a, t)
    → (c ≡ false) × (t ≡ s)
throw_if_inv true x s t a e = absurd (cc e)
throw_if_inv false x s t a e = (refl, ground arith)

assert_open_inv :
    (m : Market) (g : Match) (s t : Store) (a : Unit {0})
    → assert_open_for_staking m g s ≡ ok (a, t)
    → (t ≡ s) × (m.status ≡ MarketStatus.opened) × (g.status ≡ MatchStatus.betting_open)
unfolding assert_open_for_staking
assert_open_inv m g s t a e =
    let (c, f) =
      >>-inv (not (is_open m.status)) betting_closed_market
        (throw_if (not (same_status g.status MatchStatus.betting_open)) betting_closed_match)
        {s = s} e in
    let (d, h) =
      throw_if_inv (not (same_status g.status MatchStatus.betting_open)) betting_closed_match s t a
        f in
    (h, opened_of m.status c, betting_open_of g.status d)

validate_side_inv :
    (y : MarketType) (side : String) (s t : Store) (a : Unit {0})
    → validate_side y side s ≡ ok (a, t)
    → t ≡ s
unfolding validate_side
validate_side_inv MarketType.win side s t a e = ground arith
validate_side_inv MarketType.rank side s t a e = ground arith

abbrev pub grown_market : Market → ℤ → Market
grown_market m amount = record m { total_pool = m.total_pool + pos_part amount }

-- The parts of `place_stake`, each what is left after a step.
abbrev paid_part : Market → ℕ → String → ℤ → ℕ → PointTx → Tx Store Stake
paid_part m u side amount n tx = do
  row ← add_to_stake m.id u side (pos_part amount) n
  save_market (grown_market m amount)
  pure row

abbrev valid_part : Market → ℕ → String → ℤ → ℕ → Tx Store Stake
valid_part m u side amount n =
    on_book (burn u amount "BET_STAKE" (market_ref m.id)) >>= paid_part m u side amount n

abbrev checked_part : Market → ℕ → String → ℤ → ℕ → Tx Store Stake
checked_part m u side amount n = validate_side m.market_type side >> valid_part m u side amount n

abbrev match_part : Market → ℕ → String → ℤ → ℕ → Match → Tx Store Stake
match_part m u side amount n g = assert_open_for_staking m g >> checked_part m u side amount n

abbrev market_part : ℕ → String → ℤ → ℕ → Market → Tx Store Stake
market_part u side amount n m = find_match m.match_id >>= match_part m u side amount n

abbrev locked_part : ℕ → ℕ → String → ℤ → ℕ → Tx Store Stake
locked_part k u side amount n = lock_market_row k >>= market_part u side amount n

pub place_stake_inv :
    (k u : ℕ) (side : String) (amount : ℤ) (n : ℕ) (s t : Store) (r : Stake)
    → place_stake k u side amount n s ≡ ok (r, t)
    → (m : Market) × (b : Book) × (v : Store) × Passed k u side amount s m b
      × (add_to_stake m.id u side (pos_part amount) n (record s { book = b }) ≡ ok (r, v))
      × (t ≡ record v { markets = save_by market_id_of (grown_market m amount) v.markets })
unfolding place_stake lock_market_row find_match
place_stake_inv k u side amount n s t r e =
    let (g1, e1) =
      >>-inv (leb_ℤ amount (pos 0)) amount_not_positive (locked_part k u side amount n) {s = s} e in
    let (m, f, e2) =
      or_throw_inv (find_by market_id_of k s.markets) market_not_found (market_part u side amount n)
        {s = s} e1 in
    let (g, y, e3) =
      or_throw_inv (find_by match_id_of m.match_id s.matches) match_not_found
        (match_part m u side amount n) {s = s} e2 in
    let (a1, s1, o, e4) =
      >>=-inv (assert_open_for_staking m g) (λ _. checked_part m u side amount n) {s = s} e3 in
    let (same1, mo, go) = assert_open_inv m g s s1 a1 o in
    let (a2, s2, w, e5) =
      >>=-inv (validate_side m.market_type side) (λ _. valid_part m u side amount n) {s = s1} e4 in
    let same2 = validate_side_inv m.market_type side s1 s2 a2 w in
    let (tx, s3, q, e6) =
      >>=-inv (on_book (burn u amount "BET_STAKE" (market_ref m.id))) (paid_part m u side amount n)
        {s = s2} e5 in
    let (bq, s3e) = on_book_inv (burn u amount "BET_STAKE" (market_ref m.id)) s2 s3 tx q in
    let (row, v, ad, e7) =
      >>=-inv (add_to_stake m.id u side (pos_part amount) n)
        (λ row. save_market (grown_market m amount) >> pure row) {s = s3} e6 in
    let all : s2 ≡ s = same2 ∙ same1 in
    let row_same : row ≡ r = ground arith in
    (
      m,
      s3.book,
      v,
      record {
        positive = ground arith;
        found = f;
        market_open = mo;
        match_open = (g, y, go);
        side_valid =
            subst (λ z. validate_side m.market_type side z ≡ ok (tt, z)) same1
              (subst (λ z. validate_side m.market_type side s1 ≡ ok (tt, z)) same2 w);
        charged = (
          tx,
          subst (λ z. burn u amount "BET_STAKE" (market_ref m.id) z.book ≡ ok (tx, s3.book)) all bq,
        );
      },
      subst (λ z. add_to_stake m.id u side (pos_part amount) n z ≡ ok (r, v))
          (s3e ∙ ap (λ (z : Store). record z { book = s3.book }) all)
          (subst (λ z. add_to_stake m.id u side (pos_part amount) n s3 ≡ ok (z, v)) row_same ad),
      ground arith,
    )
