-- ===== src/MatchResult/Laws.antt =====
-- What recording the result of a match pays.
use text.Mathlib.Text.{◌==◌ as str_eq}
use potg.Base.{
  ℕ, String, ◌≡◌, sym, ◌∙◌, ap, subst, Bool, true, false, List, [], ◌∷◌, arith, not, inl, inr, some,
  none, Option, Bool-cases, ◌||◌,
}
use potg.Base.Int.{ℤ, pos, ◌+ℤ◌, ltb_ℤ, int_laws}
use potg.Base.Rows.{select, find_one, update_where}
use potg.Base.Keyed.{find_by, save_by, find_by_key, find_by-save_by_found}
use potg.Base.Tx.{
  Tx, ok, >>=-inv, >>-inv, or_throw_inv, match_not_found, bad_transition, not_match_team,
  bad_placement, ◌>>=◌, ◌>>◌, pure,
}
use potg.Ledger.Users.{total_balance}
use potg.Ledger.Integrity.{IsSound}
use potg.Store.{MarketType, MatchStatus, Match, Team, Market, Store, match_id_of, save_match}
use potg.Settlement.{settle_market, SettleSummary}
use potg.Settlement.Laws.{settle_market-Settled}
use potg.Match.{lock_match_row, assert_transition, is_allowed}
use potg.MatchResult.{
  MarketSettlement, settle_one, settle_all, settle_match, winning_option, is_locked, is_team_of,
  find_team, save_team, apply_placements, market_of,
}

-- The ledger stays sound, the sum of all balances changes by `x`, and no match is written.
pub record Moves (s t : Store) (x : ℤ) : Type 0 where
  pub sound : IsSound t.book
  pub total : total_balance t.book.users ≡ total_balance s.book.users +ℤ x
  pub matches : t.matches ≡ s.matches

abbrev pub paid_by : MarketSettlement → ℤ
paid_by r = elim r.summary [ none ↦ pos 0 | some x ↦ x.payout_distributed ]

abbrev pub paid_by_all : List MarketSettlement → ℤ
paid_by_all [] = pos 0
paid_by_all (r ∷ rs) = paid_by r +ℤ paid_by_all rs

plus_zero : (a : ℤ) → a ≡ a +ℤ pos 0
plus_zero a = omega int_laws

plus_assoc : (a b c : ℤ) → a +ℤ b +ℤ c ≡ a +ℤ (b +ℤ c)
plus_assoc a b c = omega int_laws

Moves-trans : (s t u : Store) (x y : ℤ) → Moves s t x → Moves t u y → Moves s u (x +ℤ y)
Moves-trans s t u x y p q = record {
  sound = q.sound;
  total = q.total ∙ (ap (λ z. z +ℤ y) p.total ∙ plus_assoc (total_balance s.book.users) x y);
  matches = q.matches ∙ p.matches;
}

Moves-same :
    (s t : Store) → t.book ≡ s.book → t.matches ≡ s.matches → IsSound s.book → Moves s t (pos 0)
Moves-same s t e k h = record {
  sound = subst IsSound (sym e) h;
  total = ap (λ b. total_balance b.users) e ∙ plus_zero (total_balance s.book.users);
  matches = k;
}

abbrev report : Market → SettleSummary → Tx Store MarketSettlement
report m x = pure (record {
  market_id = m.id;
  market_type = m.market_type;
  summary = some x;
  skipped_reason = none;
})

abbrev settled_part : Market → String → Tx Store MarketSettlement
settled_part m option = settle_market m.id option >>= report m

winning_option_inv :
    (y : MarketType) (winner : String) (has : Bool) (s t : Store) (o : String)
    → winning_option y winner has s ≡ ok (o, t)
    → t ≡ s
unfolding winning_option
winning_option_inv MarketType.win winner has s t o e = ground arith
winning_option_inv MarketType.rank winner true s t o e = ground arith
winning_option_inv MarketType.rank winner false s t o e = cc

settle_one-Moves :
    (winner : String) (has : Bool) (m : Market) (s t : Store) (r : MarketSettlement)
    → IsSound s.book
    → settle_one winner has m s ≡ ok (r, t)
    → Moves s t (paid_by r)
unfolding settle_one
settle_one-Moves winner has m s t r h e = elim (Bool-cases (is_locked m.status)) [
  | inr n ↦
      let q : t.book ≡ s.book = ground arith in
      let z : pos 0 ≡ paid_by r = ground arith in
      subst (λ x. Moves s t x) z (Moves-same s t q (ground arith) h)
  | inl n ↦
      let f : (winning_option m.market_type winner has >>= settled_part m) s ≡ ok (r, t) =
        rw n at e in
      let (option, u, p, g) =
        >>=-inv (winning_option m.market_type winner has) (settled_part m) {s = s} f in
      let (x, v, q, k) = >>=-inv (settle_market m.id option) (report m) {s = u} g in
      let us : u ≡ s = winning_option_inv m.market_type winner has s u option p in
      let (m', _, _, z) =
        settle_market-Settled m.id option s v x h
          (subst (λ y. settle_market m.id option y ≡ ok (x, v)) us q) in
      let tv : v ≡ t = ground arith in
      let rx : x.payout_distributed ≡ paid_by r = ground arith in
      subst (λ y. Moves s y (paid_by r)) tv
        (subst (λ y. Moves s v y) rx
          (record { sound = z.sound; total = z.total; matches = z.others.0 }))
]

settle_all-Moves :
    (winner : String) (has : Bool) (ms : List Market) (s t : Store) (r : List MarketSettlement)
    → IsSound s.book
    → settle_all winner has ms s ≡ ok (r, t)
    → Moves s t (paid_by_all r)
unfolding settle_all
settle_all-Moves winner has [] s t r h e =
    let q : t.book ≡ s.book = ground arith in
    let z : pos 0 ≡ paid_by_all r = ground arith in
    subst (λ x. Moves s t x) z (Moves-same s t q (ground arith) h)
settle_all-Moves winner has (m ∷ ms) s t r h e =
    let (one, u, p, f) =
      >>=-inv (settle_one winner has m)
        (λ one. settle_all winner has ms >>= λ rest. pure (one ∷ rest)) {s = s} e in
    let (rest, v, q, g) =
      >>=-inv (settle_all winner has ms) (λ rest. pure (one ∷ rest)) {s = u} f in
    let a = settle_one-Moves winner has m s u one h p in
    let b = settle_all-Moves winner has ms u v rest a.sound q in
    let tv : v ≡ t = ground arith in
    let rr : paid_by one +ℤ paid_by_all rest ≡ paid_by_all r = ground arith in
    subst (λ y. Moves s y (paid_by_all r)) tv
      (subst (λ y. Moves s v y) rr (Moves-trans s u v (paid_by one) (paid_by_all rest) a b))

abbrev placed_part : ℕ → String → ℤ → List (String × ℤ) → Tx Store (Unit {0})
placed_part k id place ps = find_team id k >>= λ team.
    save_team (record team { placement = some place }) >> apply_placements k ps

apply_placements-frame :
    (k : ℕ) (ps : List (String × ℤ)) (s t : Store)
    → apply_placements k ps s ≡ ok (tt, t)
    → t ≡ record s { teams = t.teams }
unfolding apply_placements find_team
apply_placements-frame k [] s t e = ground arith
apply_placements-frame k ((id, place) ∷ ps) s t e =
    let (_, e1) =
      >>-inv (ltb_ℤ place (pos 1) || ltb_ℤ (pos 4) place) bad_placement (placed_part k id place ps)
        {s = s} e in
    let (team, f, e2) =
      or_throw_inv (find_one (is_team_of id k) s.teams) not_match_team
        (λ team. save_team (record team { placement = some place }) >> apply_placements k ps)
        {s = s} e1 in
    let row : Team = record team { placement = some place } in
    let u : Store = record s {
      teams = update_where (λ x. str_eq x.id row.id) (λ _. row) s.teams;
    } in
    let fr = apply_placements-frame k ps u t e2 in ground arith

-- The steps of `settle_match` behind the winner's lookup.
abbrev settled_row : Match → String → Store → Match
settled_row m winner s = record m {
  winner_team_id = some winner;
  status = MatchStatus.settled;
  settled_at = some s.book.now;
}

abbrev stored_match : Match → String → Team → Store → Match
stored_match m winner team s = record (settled_row m winner s) { winner_team_id = some team.id }

abbrev pay_part :
    Match → String → Option (List (String × ℤ)) → Team → Tx Store (Match × List MarketSettlement)
pay_part m winner ps team s =
    (save_match (stored_match m winner team s) >> λ t.
    (settle_all winner (elim ps [ none ↦ false | some _ ↦ true ])
          (select (market_of m.id) t.markets)
        >>= λ r. pure (settled_row m winner s, r))
      t)
      s

abbrev place_all : Match → Option (List (String × ℤ)) → Tx Store (Unit {0})
place_all m ps = elim ps [ none ↦ pure tt | some qs ↦ apply_placements m.id qs ]

place_all-frame :
    (m : Match) (ps : Option (List (String × ℤ))) (s t : Store)
    → place_all m ps s ≡ ok (tt, t)
    → t ≡ record s { teams = t.teams }
place_all-frame m none s t e = ground arith
place_all-frame m (some qs) s t e = apply_placements-frame m.id qs s t e

abbrev found_part :
    Match → String → Option (List (String × ℤ)) → Tx Store (Match × List MarketSettlement)
found_part m winner ps =
    find_team winner m.id >>= λ team. place_all m ps >> pay_part m winner ps team

-- From a sound ledger, a match result that is recorded is for a locked match and for one of its
-- teams, whatever the case of the letters in the given id. Afterwards the match is stored as it
-- is returned, settled, with that team as the winner, the ledger is sound, and the sum of all
-- balances has grown by exactly the payouts that are reported.
pub settle_match_pays :
    (i : ℕ) (winner : String) (ps : Option (List (String × ℤ))) (s t : Store)
    (r : Match × List MarketSettlement)
    → IsSound s.book
    → settle_match i winner ps s ≡ ok (r, t)
    → (m : Match) × (find_by match_id_of i s.matches ≡ some m)
      × (m.status ≡ MatchStatus.locked)
      × ((w : Team) × (find_one (is_team_of winner i) s.teams ≡ some w)
          × (find_by match_id_of i t.matches ≡ some (record r.0 { winner_team_id = some w.id })))
      × (r.0.status ≡ MatchStatus.settled)
      × (r.0.winner_team_id ≡ some winner)
      × IsSound t.book
      × (total_balance t.book.users ≡ total_balance s.book.users +ℤ paid_by_all r.1)
unfolding settle_match lock_match_row assert_transition find_team
settle_match_pays i winner ps s t r h e =
    let (m, f, e1) =
      or_throw_inv (find_by match_id_of i s.matches) match_not_found
        (λ m. assert_transition m.status MatchStatus.settled >> found_part m winner ps) {s = s} e in
    let (a, e2) =
      >>-inv (not (is_allowed m.status MatchStatus.settled)) bad_transition (found_part m winner ps)
        {s = s} e1 in
    let (team, g, e3) =
      or_throw_inv (find_one (is_team_of winner m.id) s.teams) not_match_team
        (λ team. place_all m ps >> pay_part m winner ps team) {s = s} e2 in
    let (_, u, q, e4) = >>=-inv (place_all m ps) (λ _. pay_part m winner ps team) {s = s} e3 in
    let fr = place_all-frame m ps s u q in
    let row = settled_row m winner u in
    let kept = stored_match m winner team u in
    let v : Store = record u { matches = save_by match_id_of kept u.matches } in
    let (rs, w, p, e5) =
      >>=-inv
        (settle_all winner (elim ps [ none ↦ false | some _ ↦ true ])
          (select (market_of m.id) v.markets))
        (λ rs. pure (row, rs)) {s = v} e4 in
    let own = find_by_key match_id_of i s.matches m f in
    let ub : u.book ≡ s.book = ground arith in
    let vb : v.book ≡ s.book = ub in
    let mv =
      settle_all-Moves winner (elim ps [ none ↦ false | some _ ↦ true ])
        (select (market_of m.id) v.markets) v w rs (subst IsSound (sym vb) h) p in
    let tw : w ≡ t = ground arith in
    let rr : (row, rs) ≡ r = ground arith in
    let stored : find_by match_id_of i t.matches ≡ some kept =
      ap (λ z. find_by match_id_of i z.matches) (sym tw)
      ∙ (ap (find_by match_id_of i) mv.matches
          ∙ (ap (λ z. find_by match_id_of i (save_by match_id_of kept z.matches)) fr
              ∙ find_by-save_by_found match_id_of i kept m s.matches own f)) in
    (
      m,
      f,
      ground arith,
      (
        team,
        subst (λ z. find_one (is_team_of winner z) s.teams ≡ some team) own g,
        stored ∙ ap (λ z. some (record z.0 { winner_team_id = some team.id })) rr,
      ),
      ap (λ z. z.0.status) (sym rr),
      ap (λ z. z.0.winner_team_id) (sym rr),
      subst (λ x. IsSound x.book) tw mv.sound,
      ap (λ z. total_balance z.book.users) (sym tw)
          ∙ (mv.total
              ∙ (ap (λ b. total_balance b.users +ℤ paid_by_all rs) vb
                  ∙ ap (λ z. total_balance s.book.users +ℤ paid_by_all z.1) rr)),
    )
