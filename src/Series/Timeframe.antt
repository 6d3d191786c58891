-- ===== src/Series/Timeframe.antt =====
-- The codes of timeframes: their canonical form, and the range of their durations.
use Prim.Native.Char.{Char, code}
use Prim.Native.String as Text
use tabdeal_futures_signal_b.Prelude.{
  ℕ, suc, ◌+◌, ◌-◌, ◌*◌, ◌≤◌, ◌≡◌, refl, Bool, not, ◌&&◌, String, some, no_text, strip,
  Option-cases, strip_idempotent, ◌==◌, Bool-cases, inl, inr, Result, ok, ◌>>=◌, arith,
}
use tabdeal_futures_signal_b.Series.{
  TimeframeSpec, unsupported, is_digit, unit_micros, scaled, with_unit, match_rest, match_timeframe,
  parse_timeframe,
}

parsed :
    (m : Result ℕ) (text : String) {spec : TimeframeSpec}
    → (m >>= λ duration. ok (record { text = text; duration = duration })) ≡ ok spec
    → (m ≡ ok spec.duration) × (text ≡ spec.text)
parsed m text h = ground arith

-- The code of a timeframe is canonical: parsing it gives the timeframe again.
pub parse_again :
    (s : String) {spec : TimeframeSpec}
    → parse_timeframe s ≡ ok spec
    → parse_timeframe spec.text ≡ ok spec
unfolding parse_timeframe
parse_again s {spec} h =
    let (found, same) = parsed (match_timeframe (strip s)) (strip s) h in
    rw (← same, strip_idempotent, found, same) refl

-- At least a minute, and within the range of a timedelta.
InRange : ℕ → Type 0
InRange d = (60000000 ≤ d) × (d ≤ 86399999999999999999)

scaled-InRange :
    (count value factor : ℕ) {d : ℕ}
    → 1 ≤ value
    → 60000000 ≤ factor
    → scaled count value factor ≡ ok d
    → InRange d
unfolding scaled InRange
scaled-InRange count value factor v f h =
    let bound : factor ≤ value * factor = grind arith in ground arith

unit_micros_le : (c : Char) {factor : ℕ} → unit_micros c ≡ some factor → 60000000 ≤ factor
unit_micros_le c h = ground arith

with_unit-InRange :
    (count value : ℕ) (c : Char) (last : Bool) {d : ℕ}
    → 1 ≤ value
    → with_unit count value (unit_micros c) last ≡ ok d
    → InRange d
unfolding with_unit
with_unit-InRange count value c last v h = elim (Option-cases (unit_micros c)) [
  | inl none_found ↦ absurd (let no : unsupported ≡ ok _ = rw none_found at h in cc)
  | inr (factor, found) ↦ elim (Bool-cases last) [
    | inl ends ↦
        scaled-InRange count value factor v (unit_micros_le c found) (rw (found, ends) at h)
    | inr more ↦ absurd (let no : unsupported ≡ ok _ = rw (found, more) at h in cc)
  ]
]

match_rest-InRange :
    (count value : ℕ) (s : String) {d : ℕ} → 1 ≤ value → match_rest count value s ≡ ok d → InRange d
unfolding match_rest
match_rest-InRange count value Text.[] v h = cc
match_rest-InRange count value (Text.◌∷◌ c s) v h =
    let rest = match_rest-InRange (suc count) (value * 10 + (code c - 48)) s in
    elim (Bool-cases (is_digit c)) [
      | inl digit ↦ rest (omega arith) (rw digit at h)
      | inr unit ↦ with_unit-InRange count value c (no_text s) v (rw unit at h)
    ]

match_timeframe-InRange : (s : String) {d : ℕ} → match_timeframe s ≡ ok d → InRange d
unfolding match_timeframe
match_timeframe-InRange Text.[] h = cc
match_timeframe-InRange (Text.◌∷◌ c s) h = elim (Bool-cases (is_digit c && not (code c == 48))) [
  | inl start ↦ match_rest-InRange 1 (code c - 48) s (ground arith) (rw start at h)
  | inr other ↦ absurd (let no : unsupported ≡ ok _ = rw other at h in cc)
]

-- The duration of a timeframe is at least a minute, and at most the greatest timedelta.
pub duration_in_range :
    (s : String) {spec : TimeframeSpec}
    → parse_timeframe s ≡ ok spec
    → (60000000 ≤ spec.duration) × (spec.duration ≤ 86399999999999999999)
unfolding parse_timeframe InRange
duration_in_range s {spec} h =
    let (found, same) = parsed (match_timeframe (strip s)) (strip s) h in
    match_timeframe-InRange (strip s) found
