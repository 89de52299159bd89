-- ===== src/Base/Tx.antt =====
-- A database transaction over a store `S`: state that is threaded through, and an exception that
-- ends it. `run_tx` is `dataSource.transaction`: on an exception the store is rolled back.
use mathlib.Core.Path.{◌≡◌, refl, sym, ◌∙◌}
use mathlib.Core.Bool.{Bool, true, false}
use mathlib.Core.Logic.{◌⊎◌, inl, inr}
use mathlib.Core.Option.{Option, none, some}
use potg.Base.Tests.{if◌then◌else◌}

-- The exceptions that the services throw, one for each message, and the database's own.
pub data Error : Type 0 where
  amount_not_positive no_user_side same_user from_not_found insufficient_balance : Error
  to_not_found user_not_found duplicate_key value_too_long : Error
  match_not_found market_exists market_not_found betting_closed_market betting_closed_match : Error
  side_not_uuid side_not_rank cannot_lock already_settled cannot_settle cancel_settled : Error
  title_required too_few_options bad_transition not_match_team bad_placement : Error
  rank_needs_placements : Error
  bad_quantity product_not_found product_not_active out_of_stock limit_exceeded : Error
  no_coupons order_not_found not_completed already_cancelled cancel_delivered : Error
  item_not_found already_owned member_not_found : Error
  auction_not_found not_creator not_ongoing player_not_found already_assigned : Error
  not_current_player only_captains bid_too_low points_short no_bids no_current_player : Error
  not_completed_auction reward_zero not_numeric config_not_found : Error
  clan_exists already_in_clan request_pending request_not_found not_manager not_master : Error
  member_exists no_clan master_stays not_a_member use_transfer own_role : Error
  master_kicked manager_kicked : Error
  already_joined not_pending participant_not_found too_many_teams captain_not_found : Error
  not_deletable already_started not_resettable not_completable not_pausable not_paused : Error
  timer_paused_already timer_running not_assigned not_assigning : Error

pub data Result (A : Type 0) : Type 0 where
  ok : A → Result A
  err : Error → Result A

abbrev pub Tx : Type 0 → Type 0 → Type 0
Tx S A = S → Result (A × S)

module _ {S : Type 0} where
  abbrev pub pure : {A : Type 0} → A → Tx S A
  pure a s = ok (a, s)

  abbrev pub throw : {A : Type 0} → Error → Tx S A
  throw e s = err e

  abbrev pub get : Tx S S
  get s = ok (s, s)

  abbrev pub put : S → Tx S (Unit {0})
  put t s = ok (tt, t)

  abbrev pub throw_if : Bool → Error → Tx S (Unit {0})
  throw_if b e s = if b then err e else ok (tt, s)

  abbrev pub or_throw : {A : Type 0} → Option A → Error → Tx S A
  or_throw none e s = err e
  or_throw (some a) e s = ok (a, s)

infixl 5 ◌>>=◌ ◌>>◌
abbrev pub ◌>>=◌ : {S A B : Type 0} → Tx S A → (A → Tx S B) → Tx S B
◌>>=◌ m f s = elim (m s) [ ok (a, t) ↦ f a t | err e ↦ err e ]

abbrev pub ◌>>◌ : {S B : Type 0} → Tx S (Unit {0}) → Tx S B → Tx S B
m >> k = m >>= λ _. k

-- `dataSource.transaction(run)`: commit the store, or roll it back and rethrow.
unfoldable pub run_tx : {S A : Type 0} → Tx S A → S → Result A × S
run_tx m s = elim (m s) [ ok (a, t) ↦ (ok a, t) | err e ↦ (err e, s) ]

pub Result-cases :
    {A : Type 0} (r : Result A) → ((a : A) × (r ≡ ok a)) ⊎ ((e : Error) × (r ≡ err e))
Result-cases (ok a) = inl (a, refl)
Result-cases (err e) = inr (e, refl)

-- A step that returned, or threw, decides what the rest sees.
pub >>=-ok :
    {S A B : Type 0} (m : Tx S A) (f : A → Tx S B) {s t : S} {a : A}
    → m s ≡ ok (a, t)
    → (m >>= f) s ≡ f a t
>>=-ok m f e = rw (e, ◌>>=◌)

pub >>=-err :
    {S A B : Type 0} (m : Tx S A) (f : A → Tx S B) {s : S} {x : Error}
    → m s ≡ err x
    → (m >>= f) s ≡ err x
>>=-err m f e = rw (e, ◌>>=◌)

pub >>-ok :
    {S B : Type 0} (m : Tx S (Unit {0})) (k : Tx S B) {s t : S}
    → m s ≡ ok (tt, t)
    → (m >> k) s ≡ k t
>>-ok m k e = rw (e, ◌>>=◌)

pub >>-pass :
    {S B : Type 0} (c : Bool) (x : Error) (k : Tx S B) (s : S)
    → c ≡ false
    → (throw_if c x >> k) s ≡ k s
>>-pass c x k s e = rw e

pub >>-stop :
    {S B : Type 0} (c : Bool) (x : Error) (k : Tx S B) (s : S)
    → c ≡ true
    → (throw_if c x >> k) s ≡ err x
>>-stop c x k s e = rw e

-- A sequence that returned: each part did.
pub >>=-inv :
    {S A B : Type 0} (m : Tx S A) (f : A → Tx S B) {s u : S} {b : B}
    → (m >>= f) s ≡ ok (b, u)
    → (a : A) × (t : S) × (m s ≡ ok (a, t)) × (f a t ≡ ok (b, u))
>>=-inv m f {s} e = elim (Result-cases (m s)) [
  | inl ((a, t), h) ↦ (a, t, h, sym (>>=-ok m f h) ∙ e)
  | inr (x, h) ↦ cc (sym (>>=-err m f h) ∙ e)
]

pub >>-inv :
    {S B : Type 0} (c : Bool) (x : Error) (k : Tx S B) {s u : S} {b : B}
    → (throw_if c x >> k) s ≡ ok (b, u)
    → (c ≡ false) × (k s ≡ ok (b, u))
>>-inv true x k e = cc
>>-inv false x k e = (refl, e)

pub or_throw_inv :
    {S A B : Type 0} (o : Option A) (x : Error) (f : A → Tx S B) {s u : S} {b : B}
    → (or_throw o x >>= f) s ≡ ok (b, u)
    → (a : A) × (o ≡ some a) × (f a s ≡ ok (b, u))
or_throw_inv none x f e = cc
or_throw_inv (some a) x f e = (a, refl, e)
