-- ===== src/Times.antt =====
-- Python's `datetime` as the program uses it: an instant with its zone, and the numbers of candles.
-- A zone is naive (`tzinfo is None`), UTC, or another fixed offset that is named by a number.
-- `micros` counts microseconds from 0001-01-01T00:00:00 (UTC for an aware value).
use tabdeal_futures_signal_b.Prelude.{
  ℕ, ◌+◌, ◌*◌, Bool, true, false, not, ◌||◌, ltb, leb, ◌==◌, if◌then◌else◌, ℤ, ltb_ℤ, leb_ℤ, Result,
  ok, err, overflow_error,
}

pub data Zone : Type 0 where
  naive : Zone
  utc : Zone
  offset : ℕ → Zone

pub record DateTime : Type 0 where
  pub micros : ℕ
  pub zone : Zone

-- `tzinfo == tzinfo`
abbrev pub zone_eq : Zone → Zone → Bool
zone_eq naive naive = true
zone_eq utc utc = true
zone_eq (offset a) (offset b) = a == b
zone_eq _ _ = false

-- `tzinfo is None`
abbrev pub is_naive : DateTime → Bool
is_naive t = zone_eq t.zone naive

-- `tzinfo is None or tzinfo != UTC`
abbrev pub not_utc : DateTime → Bool
not_utc t = is_naive t || not (zone_eq t.zone utc)

-- `a < b`, `a <= b` and `a == b` of two aware values.
abbrev pub before : DateTime → DateTime → Bool
before a b = ltb a.micros b.micros

abbrev pub no_later : DateTime → DateTime → Bool
no_later a b = leb a.micros b.micros

abbrev pub same_time : DateTime → DateTime → Bool
same_time a b = a.micros == b.micros

abbrev pub at_utc : ℕ → DateTime
at_utc n = record { micros = n; zone = utc }

-- 9999-12-31T23:59:59.999999, the last value of `datetime`.
abbrev pub max_micros : ℕ
max_micros = 315537897599999999

-- `value + timedelta(seconds=seconds)` on an instant: past the last value Python raises OverflowError.
unfoldable pub plus_seconds : ℕ → ℕ → Result ℕ
plus_seconds value seconds =
    let sum = value + seconds * 1000000 in if leb sum max_micros then ok sum else err overflow_error

-- A number of a candle. A finite float or int is counted in units of 2^-1074, which is exact.
pub data Number : Type 0 where
  finite : ℤ → Number
  infinite : Number
  minus_infinite : Number
  nan : Number

abbrev pub is_finite : Number → Bool
is_finite (finite n) = true
is_finite _ = false

-- `a < b`; a comparison with NaN is false.
abbrev pub lt_num : Number → Number → Bool
lt_num (finite a) (finite b) = ltb_ℤ a b
lt_num (finite a) infinite = true
lt_num minus_infinite (finite b) = true
lt_num minus_infinite infinite = true
lt_num _ _ = false

-- `a <= b`
abbrev pub le_num : Number → Number → Bool
le_num (finite a) (finite b) = leb_ℤ a b
le_num (finite a) infinite = true
le_num infinite infinite = true
le_num minus_infinite (finite b) = true
le_num minus_infinite minus_infinite = true
le_num minus_infinite infinite = true
le_num _ _ = false

-- `max(a, b)` and `min(a, b)`: the first argument unless the second is strictly beyond it.
abbrev pub max_num : Number → Number → Number
max_num a b = if lt_num a b then b else a

abbrev pub min_num : Number → Number → Number
min_num a b = if lt_num b a then b else a
