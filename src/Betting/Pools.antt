-- ===== src/Betting/Pools.antt =====
-- The pool of every market is the sum of the stakes on it, before and after a placed stake.
use text.Mathlib.TextPositions.{eq_refl}
use mathlib.Core.Path.{subst₂}
use potg.Base.{
  ℕ, String, ◌+◌, ◌≡◌, refl, sym, ◌∙◌, ap, subst, true, List, ◌∷◌, arith, ◌==◌, if◌then◌else◌, inl,
  inr, Bool-cases, Option-cases, some, none,
}
use potg.Base.Int.{ℤ, pos_part, ◌+ℤ◌, int_laws}
use potg.Base.Rows.{sum_of, select, find_one, find_one_holds}
use potg.Base.Keyed.{
  find_by, save_by, HasUniqueKeys, find_by_key, find_by-save_by, find_by_found, sum_of-save_by,
  save_by-HasUniqueKeys,
}
use potg.Base.Tx.{ok}
use potg.Ledger.Users.{total_balance}
use potg.Ledger.Integrity.{IsSound}
use potg.Ledger.Issue.{burn_effect}
use potg.Store.{Stake, StakeStatus, Market, Store, market_id_of, stake_id_of}
use potg.Betting.{market_ref, is_stake_of, add_to_stake, place_stake, on_market, stake_amount}
use potg.Betting.Place.{Passed, place_stake_inv, grown_market}

-- What is staked on a market.
abbrev pub staked : ℕ → List Stake → ℕ
staked i xs = sum_of stake_amount (select (on_market i) xs)

created_stake_sum :
    (i : ℕ) (x : Stake) (xs : List Stake)
    → staked i (x ∷ xs) ≡ staked i xs + (if x.market_id == i then x.stake else 0)
created_stake_sum i x xs = ground arith

abbrev new_stake : ℕ → ℕ → String → ℕ → ℕ → Stake
new_stake k u side amount n = record {
  id = n;
  market_id = k;
  user_id = u;
  side = side;
  stake = amount;
  payout = none;
  status = StakeStatus.placed;
}

-- What `add_to_stake` leaves, by whether the user had a stake on that side.
pub record Added (k u : ℕ) (side : String) (amount : ℕ) (s v : Store) (r : Stake) : Type 0 where
  pub frame : v ≡ record s { stakes = v.stakes }
  pub unique : HasUniqueKeys stake_id_of v.stakes
  pub sums : (i : ℕ) → staked i v.stakes ≡ staked i s.stakes + (if k == i then amount else 0)
  pub mine : is_stake_of k u side r ≡ true
  pub stored : find_by stake_id_of r.id v.stakes ≡ some r

new_stake-Added :
    (k u : ℕ) (side : String) (amount n : ℕ) (s : Store)
    → HasUniqueKeys stake_id_of s.stakes
    → find_by stake_id_of n s.stakes ≡ none
    → let c = new_stake k u side amount n in
      Added k u side amount s (record s { stakes = c ∷ s.stakes }) c
new_stake-Added k u side amount n s h f = record {
  frame = refl;
  unique = (f, h);
  sums = λ i. created_stake_sum i (new_stake k u side amount n) s.stakes;
  mine = ground (arith, eq_refl side);
  stored = ground arith;
}

grown_stake-Added :
    (k u : ℕ) (side : String) (amount : ℕ) (s : Store) (old : Stake)
    → HasUniqueKeys stake_id_of s.stakes
    → find_one (is_stake_of k u side) s.stakes ≡ some old
    → let c : Stake = record old { stake = old.stake + amount } in
      Added k u side amount s (record s { stakes = save_by stake_id_of c s.stakes }) c
grown_stake-Added k u side amount s old h f =
    let c : Stake = record old { stake = old.stake + amount } in
    let at = find_by_found stake_id_of (is_stake_of k u side) s.stakes old h f in
    let mine = find_one_holds (is_stake_of k u side) s.stakes old f in
    let market : old.market_id ≡ k = ground arith in
    record {
      frame = refl;
      unique = save_by-HasUniqueKeys stake_id_of c s.stakes h;
      sums = λ i.
          ground (arith, sum_of-save_by stake_id_of (on_market i) stake_amount c old s.stakes h at);
      mine = mine;
      stored = ground (arith, find_by-save_by stake_id_of old.id c s.stakes);
    }

-- The row that is enlarged or made carries the amount, on its own market alone.
pub add_to_stake-Added :
    (k u : ℕ) (side : String) (amount n : ℕ) (s v : Store) (r : Stake)
    → HasUniqueKeys stake_id_of s.stakes
    → find_by stake_id_of n s.stakes ≡ none
    → add_to_stake k u side amount n s ≡ ok (r, v)
    → Added k u side amount s v r
unfolding add_to_stake
add_to_stake-Added k u side amount n s v r h fresh e =
    elim (Option-cases (find_one (is_stake_of k u side) s.stakes)) [
      | inl z ↦
          let c = new_stake k u side amount n in
          let rc : c ≡ r = ground arith in
          let vc : record s { stakes = c ∷ s.stakes } ≡ v = ground arith in
          subst₂ (λ a b. Added k u side amount s a b) vc rc
            (new_stake-Added k u side amount n s h fresh)
      | inr (old, z) ↦
          let c : Stake = record old { stake = old.stake + amount } in
          let rc : c ≡ r = ground arith in
          let vc : record s { stakes = save_by stake_id_of c s.stakes } ≡ v = ground arith in
          subst₂ (λ a b. Added k u side amount s a b) vc rc
            (grown_stake-Added k u side amount s old h z)
    ]

pub record PoolsMatch (s : Store) : Type 0 where
  pub market_ids : HasUniqueKeys market_id_of s.markets
  pub stake_ids : HasUniqueKeys stake_id_of s.stakes
  pub pools :
      (i : ℕ) (m : Market)
      → find_by market_id_of i s.markets ≡ some m
      → staked i s.stakes ≡ m.total_pool

-- What a placed stake does to the three tables.
pub record Placed (k u : ℕ) (side : String) (amount : ℤ) (s t : Store) (r : Stake) : Type 0 where
  pub sound : IsSound t.book
  pub charged : total_balance t.book.users +ℤ amount ≡ total_balance s.book.users
  pub sums :
      (i : ℕ) → staked i t.stakes ≡ staked i s.stakes + (if k == i then pos_part amount else 0)
  pub mine : is_stake_of k u side r ≡ true
  pub stored : find_by stake_id_of r.id t.stakes ≡ some r
  pub consistent : PoolsMatch t

pools_after :
    (s v : Store) (m : Market) (amount : ℤ)
    → PoolsMatch s
    → v.markets ≡ s.markets
    → find_by market_id_of m.id s.markets ≡ some m
    → ((i : ℕ) → staked i v.stakes ≡ staked i s.stakes + (if m.id == i then pos_part amount else 0))
    → (i : ℕ) (g : Market)
    → find_by market_id_of i (save_by market_id_of (grown_market m amount) v.markets) ≡ some g
    → staked i v.stakes ≡ g.total_pool
pools_after s v m amount h e f sums i g q =
    let q' =
      sym (find_by-save_by market_id_of i (grown_market m amount) s.markets)
      ∙ (ap (λ x. find_by market_id_of i (save_by market_id_of (grown_market m amount) x)) (sym e)
          ∙ q) in
    elim (Bool-cases (i == m.id)) [
      | inl z ↦ ground (arith, sums i, h.pools m.id m f)
      | inr z ↦ ground (arith, sums i, h.pools i g)
    ]

-- From a sound ledger, with pools that match the stakes and a new row id: a stake that is
-- accepted passed every guard of `Passed`; it lowers the sum of all balances by the amount, adds
-- the amount to what is staked on that market, is stored under the user and the side, and leaves
-- every market's pool equal to the stakes on it.
pub place_stake-Placed :
    (k u : ℕ) (side : String) (amount : ℤ) (n : ℕ) (s t : Store) (r : Stake)
    → IsSound s.book
    → PoolsMatch s
    → find_by stake_id_of n s.stakes ≡ none
    → place_stake k u side amount n s ≡ ok (r, t)
    → (m : Market) × Passed k u side amount s m t.book × Placed k u side amount s t r
place_stake-Placed k u side amount n s t r h w fresh e =
    let (m, b, v, p, ad, q) = place_stake_inv k u side amount n s t r e in
    let (tx, bq) = p.charged in
    let c = burn_effect u amount "BET_STAKE" (market_ref m.id) s.book tx b h bq in
    let a =
      add_to_stake-Added m.id u side (pos_part amount) n (record s { book = b }) v r w.stake_ids
        fresh ad in
    let fr = a.frame in
    let same : m.id ≡ k = find_by_key market_id_of k s.markets m p.found in
    let tb : t.book ≡ b = ground arith in
    let ts : t.stakes ≡ v.stakes = ground arith in
    let tm : t.markets ≡ save_by market_id_of (grown_market m amount) v.markets = ground arith in
    let vm : v.markets ≡ s.markets = ground arith in
    let own : find_by market_id_of m.id s.markets ≡ some m =
      subst (λ z. find_by market_id_of z s.markets ≡ some m) (sym same) p.found in
    let sums_at_k : (i : ℕ)
        → staked i t.stakes ≡ staked i s.stakes + (if k == i then pos_part amount else 0) =
      λ i.
        ap (λ z. staked i z) ts
        ∙ (a.sums i ∙ ap (λ z. staked i s.stakes + (if z == i then pos_part amount else 0)) same) in
    (
      m,
      subst (λ z. Passed k u side amount s m z) (sym tb) p,
      record {
        sound = subst IsSound (sym tb) c.sound;
        charged =
            subst (λ z. total_balance z.users +ℤ amount ≡ total_balance s.book.users) (sym tb)
              (c.total ∙ omega int_laws);
        sums = sums_at_k;
        mine = subst (λ z. is_stake_of z u side r ≡ true) same a.mine;
        stored = subst (λ z. find_by stake_id_of r.id z ≡ some r) (sym ts) a.stored;
        consistent = record {
          market_ids =
              subst (λ z. HasUniqueKeys market_id_of z) (sym tm)
                (save_by-HasUniqueKeys market_id_of (grown_market m amount) v.markets
                  (subst (λ z. HasUniqueKeys market_id_of z) (sym vm) w.market_ids));
          stake_ids = subst (λ z. HasUniqueKeys stake_id_of z) (sym ts) a.unique;
          pools = λ i g f.
              subst (λ z. staked i z ≡ g.total_pool) (sym ts)
                (pools_after s v m amount w vm own a.sums i g
                  (subst (λ z. find_by market_id_of i z ≡ some g) tm f));
        };
      },
    )
