-- ===== src/Structure.antt =====
-- src/tabdeal_signal/strategy/engine.py: swings, trend and structure breaks of a series of candles, as of
-- a reference time, and the evaluator that combines them over three timeframes.
pub mod Swings
pub mod Lookahead
pub mod Evaluator
pub mod Trends
pub mod Breaks
pub mod Sides
pub mod Cases
use tabdeal_futures_signal_b.Prelude.{
  ℕ, suc, Bool, true, false, not, ◌&&◌, Option, none, some, List, [], ◌∷◌, ltb, if◌then◌else◌,
  Result, ok, value_error, ◌>>=◌, ◌>>◌, raise_if, keep,
}
use tabdeal_futures_signal_b.Times.{DateTime, Number, is_naive, before, lt_num, max_num, min_num}
use tabdeal_futures_signal_b.Domain.{Direction, long, short, direction_eq, Candle}

pub record SwingPoint : Type 0 where
  pub index : ℕ
  pub price : Number
  pub confirmed_at : DateTime

-- `_require_timezone_aware`
unfoldable pub require_timezone_aware : DateTime → Result (Unit {0})
require_timezone_aware t =
    raise_if (is_naive t) (value_error "reference_time must be timezone-aware")

-- `candle.high if high else candle.low`
abbrev pub side_price : Bool → Candle → Number
side_price high c = if high then c.high else c.low

-- `c` against its two neighbours on either side.
unfoldable pub is_swing : Bool → Candle → Candle → Candle → Candle → Candle → Bool
is_swing high a b c d e =
    let value = side_price high in
    if high
    then lt_num (max_num (max_num (max_num (value a) (value b)) (value d)) (value e)) (value c)
    else lt_num (value c) (min_num (min_num (min_num (value a) (value b)) (value d)) (value e))

-- The loop of `_confirmed_swings` over the windows of five candles that start with `a b c d`; `c` has the
-- given index.
unfoldable pub swings_from :
    Bool → ℕ → Candle → Candle → Candle → Candle → List Candle → List SwingPoint
unfolding is_swing
swings_from high i a b c d [] = []
swings_from high i a b c d (e ∷ rest) =
    let later = swings_from high (suc i) b c d e rest in
    if is_swing high a b c d e
    then (record { index = i; price = side_price high c; confirmed_at = e.close_time } ∷ later)
    else later

unfoldable pub confirmed_swings : Bool → List Candle → List SwingPoint
unfolding swings_from
confirmed_swings high (a ∷ b ∷ c ∷ d ∷ rest) = swings_from high 2 a b c d rest
confirmed_swings high _ = []

unfoldable pub pit_swings : List SwingPoint → DateTime → Result (List SwingPoint)
unfolding require_timezone_aware
pit_swings points t = do require_timezone_aware t; ok (keep (λ p. before p.confirmed_at t) points)

-- `points[-1]` and `points[-2:]`
unfoldable pub last_of {ℓ} : {A : Type ℓ} → List A → Option A
last_of [] = none
last_of (x ∷ []) = some x
last_of (x ∷ y ∷ rest) = last_of (y ∷ rest)

unfoldable pub last_two {ℓ} : {A : Type ℓ} → List A → Option (A × A)
last_two [] = none
last_two (x ∷ []) = none
last_two (x ∷ y ∷ []) = some (x, y)
last_two (x ∷ y ∷ z ∷ rest) = last_two (y ∷ z ∷ rest)

-- The trend of the last two highs and the last two lows.
unfoldable pub trend_of :
    Option (SwingPoint × SwingPoint) → Option (SwingPoint × SwingPoint) → Option Direction
trend_of none lows = none
trend_of (some highs) none = none
trend_of (some (h1, h2)) (some (l1, l2)) =
    if lt_num h1.price h2.price && lt_num l1.price l2.price
    then some long
    else if lt_num h2.price h1.price && lt_num l2.price l1.price
    then some short
    else none

unfoldable pub trend : List Candle → DateTime → Result (Option Direction)
unfolding require_timezone_aware pit_swings confirmed_swings last_two trend_of
trend candles t = do
  require_timezone_aware t
  highs ← pit_swings (confirmed_swings true candles) t
  lows ← pit_swings (confirmed_swings false candles) t
  ok (trend_of (last_two highs) (last_two lows))

-- `p.index < index and p.confirmed_at < candle.close_time`
abbrev pub is_prior : ℕ → Candle → SwingPoint → Bool
is_prior i c p = ltb p.index i && before p.confirmed_at c.close_time

abbrev pub above : Candle → Option SwingPoint → Bool
above c none = false
above c (some p) = lt_num p.price c.close

abbrev pub below : Candle → Option SwingPoint → Bool
below c none = false
below c (some p) = lt_num c.close p.price

-- The loop of `_break_events` over the candles from the given index on.
unfoldable pub events_from :
    List SwingPoint → List SwingPoint → DateTime → ℕ → List Candle → List (DateTime × Direction)
unfolding last_of
events_from highs lows t i [] = []
events_from highs lows t i (c ∷ rest) =
    let later = events_from highs lows t (suc i) rest in
    if not (before c.close_time t)
    then later
    else if above c (last_of (keep (is_prior i c) highs))
    then (c.close_time, long) ∷ later
    else if below c (last_of (keep (is_prior i c) lows))
    then (c.close_time, short) ∷ later
    else later

unfoldable pub break_events : List Candle → DateTime → Result (List (DateTime × Direction))
unfolding require_timezone_aware events_from confirmed_swings
break_events candles t = do
  require_timezone_aware t
  ok (events_from (confirmed_swings true candles) (confirmed_swings false candles) t 0 candles)

-- The latest break in the direction, and the latest later one against it.
unfoldable pub bos_and_choch :
    Option (DateTime × Direction)
    → List (DateTime × Direction)
    → Direction
    → Option (DateTime × Direction) × Option (DateTime × Direction)
unfolding last_of
bos_and_choch none events direction = (none, none)
bos_and_choch (some bos) events direction =
    (some bos, last_of (keep (λ e. before bos.0 e.0 && not (direction_eq e.1 direction)) events))

unfoldable pub latest_bos_and_choch :
    List Candle
    → DateTime
    → Direction
    → Result (Option (DateTime × Direction) × Option (DateTime × Direction))
unfolding require_timezone_aware break_events bos_and_choch last_of
latest_bos_and_choch candles t direction = do
  require_timezone_aware t
  events ← break_events candles t
  ok (bos_and_choch (last_of (keep (λ e. direction_eq e.1 direction) events)) events direction)
