-- ===== src/Structure/Trends.antt =====
-- What a trend is: two highs and two lows, confirmed in time, that both rise or both fall.
use tabdeal_futures_signal_b.Prelude.{
  ◌≡◌, refl, Bool, true, false, Option, none, some, List, [], ◌∷◌, ok, arith, keep, In, here, there,
  In-keep, bind-ok, raise_if-ok,
}
use tabdeal_futures_signal_b.Times.{DateTime, is_naive, before, lt_num, Number}
use tabdeal_futures_signal_b.Domain.{Direction, long, short, Candle}
use tabdeal_futures_signal_b.Structure.{
  SwingPoint, confirmed_swings, pit_swings, last_two, trend_of, trend, require_timezone_aware,
}

abbrev pub moves : Direction → Number → Number → Bool
moves long earlier later = lt_num earlier later
moves short earlier later = lt_num later earlier

last_two-In {ℓ} :
    {A : Type ℓ} (xs : List A) {a b : A} → last_two xs ≡ some (a, b) → In a xs × In b xs
unfolding last_two
last_two-In [] h = cc
last_two-In (x ∷ []) h = cc
last_two-In (x ∷ y ∷ []) {a} {b} h =
    let one : x ≡ a = ground arith in
    let two : y ≡ b = ground arith in rw (one, two) (here, there here)
last_two-In (x ∷ y ∷ z ∷ rest) h = let (i, j) = last_two-In (y ∷ z ∷ rest) h in (there i, there j)

-- A swing of the candles that was confirmed before the time.
abbrev pub ConfirmedBy : Bool → List Candle → DateTime → SwingPoint → Type 0
ConfirmedBy high candles t p =
    In p (confirmed_swings high candles) × (before p.confirmed_at t ≡ true)

-- The swings on one side move in the direction.
pub record Moves (d : Direction) (high : Bool) (candles : List Candle) (t : DateTime) : Type 0 where
  pub earlier : SwingPoint
  pub later : SwingPoint
  pub earlier_confirmed : ConfirmedBy high candles t earlier
  pub later_confirmed : ConfirmedBy high candles t later
  pub moving : moves d earlier.price later.price ≡ true

pit_swings-keep :
    (points : List SwingPoint) (t : DateTime) {found : List SwingPoint}
    → pit_swings points t ≡ ok found
    → keep (λ p. before p.confirmed_at t) points ≡ found
unfolding pit_swings require_timezone_aware
pit_swings-keep points t h = let (aware, answer) = raise_if-ok (is_naive t) _ _ h in ground arith

last_two-Moves :
    (d : Direction) (high : Bool) (candles : List Candle) (t : DateTime) (found : List SwingPoint)
    {a b : SwingPoint}
    → pit_swings (confirmed_swings high candles) t ≡ ok found
    → last_two found ≡ some (a, b)
    → moves d a.price b.price ≡ true
    → Moves d high candles t
last_two-Moves d high candles t found {a} {b} at_ two m =
    let kept = pit_swings-keep (confirmed_swings high candles) t at_ in
    let (i, j) = last_two-In found two in
    let points = confirmed_swings high candles in
    record {
      earlier = a;
      later = b;
      earlier_confirmed = In-keep (λ p. before p.confirmed_at t) points (rw kept i);
      later_confirmed = In-keep (λ p. before p.confirmed_at t) points (rw kept j);
      moving = m;
    }

trend_of-moves :
    (d : Direction) (highs lows : Option (SwingPoint × SwingPoint))
    → trend_of highs lows ≡ some d
    → (h1 : SwingPoint) × (h2 : SwingPoint) × (l1 : SwingPoint) × (l2 : SwingPoint) × (highs
        ≡ some (h1, h2))
      × (lows ≡ some (l1, l2))
      × (moves d h1.price h2.price ≡ true)
      × (moves d l1.price l2.price ≡ true)
unfolding trend_of
trend_of-moves d none lows h = absurd (ground arith)
trend_of-moves d (some (h1, h2)) none h = absurd (ground arith)
trend_of-moves long (some (h1, h2)) (some (l1, l2)) h =
    (h1, h2, l1, l2, refl, refl, ground arith, ground arith)
trend_of-moves short (some (h1, h2)) (some (l1, l2)) h =
    (h1, h2, l1, l2, refl, refl, ground arith, ground arith)

pub trend-Moves :
    (d : Direction) (candles : List Candle) (t : DateTime)
    → trend candles t ≡ ok (some d)
    → Moves d true candles t × Moves d false candles t
unfolding trend require_timezone_aware
trend-Moves d candles t h =
    let (aware, h1) = raise_if-ok (is_naive t) _ _ h in
    let (highs, at_highs, h2) = bind-ok (pit_swings (confirmed_swings true candles) t) _ h1 in
    let (lows, at_lows, h3) = bind-ok (pit_swings (confirmed_swings false candles) t) _ h2 in
    let (a, b, e, f, two_highs, two_lows, up, up_lows) =
      trend_of-moves d (last_two highs) (last_two lows) (ground arith) in
    (
      last_two-Moves d true candles t highs at_highs two_highs up,
      last_two-Moves d false candles t lows at_lows two_lows up_lows,
    )
