-- ===== src/Snapshot.antt =====
-- src/tabdeal_signal/data/contracts.py: snapshot requests, point-in-time market snapshots, and the
-- check that a snapshot stays inside the scope of its request. A tuple is a list.
use text.Mathlib.Text.{is_lt}
use Prim.Native.String.{compare}
use tabdeal_futures_signal_b.Prelude.{
  Bool, true, false, not, ◌&&◌, ◌||◌, String, List, [], ◌∷◌, ◌++◌, blank, text_eq, if◌then◌else◌,
  Result, ok, value_error, ◌>>=◌, ◌>>◌, raise_if, any, keep,
}
use tabdeal_futures_signal_b.Times.{DateTime, not_utc, before, same_time}
use tabdeal_futures_signal_b.Domain.{Candle, is_available_at}

pub record SnapshotRequest : Type 0 where
  pub symbols : List String
  pub timeframes : List String
  pub reference_time : DateTime

pub record MarketSnapshot : Type 0 where
  pub snapshot_id : String
  pub source_id : String
  pub reference_time : DateTime
  pub candles : List Candle

abbrev pub is_empty {ℓ} : {A : Type ℓ} → List A → Bool
is_empty [] = true
is_empty (x ∷ xs) = false

-- `len(set(xs)) != len(xs)`: some element occurs again further on.
abbrev pub has_duplicates {ℓ} : {A : Type ℓ} → (A → A → Bool) → List A → Bool
has_duplicates eq [] = false
has_duplicates eq (x ∷ xs) = any (eq x) xs || has_duplicates eq xs

-- `SnapshotRequest.__post_init__`
unfoldable pub make_request : SnapshotRequest → Result SnapshotRequest
make_request r = do
  raise_if (is_empty r.symbols || any blank r.symbols)
      (value_error "symbols must contain at least one non-empty symbol")
  raise_if (has_duplicates text_eq r.symbols) (value_error "symbols must not contain duplicates")
  raise_if (is_empty r.timeframes || any blank r.timeframes)
      (value_error "timeframes must contain at least one non-empty timeframe")
  raise_if (has_duplicates text_eq r.timeframes)
      (value_error "timeframes must not contain duplicates")
  raise_if (not_utc r.reference_time) (value_error "reference_time must be UTC")
  ok r

-- The key `(c.symbol, c.timeframe, c.open_time)` of two candles: equality, and `<` of the tuples.
abbrev pub same_key : Candle → Candle → Bool
same_key a b =
    text_eq a.symbol b.symbol
    && text_eq a.timeframe b.timeframe
    && same_time a.open_time b.open_time

abbrev pub key_lt : Candle → Candle → Bool
key_lt a b =
    is_lt (compare a.symbol b.symbol)
    || (text_eq a.symbol b.symbol
        && (is_lt (compare a.timeframe b.timeframe)
            || (text_eq a.timeframe b.timeframe && before a.open_time b.open_time)))

-- `keys != sorted(keys)`: some key is followed by a smaller one.
abbrev pub out_of_order {ℓ} : {A : Type ℓ} → (A → A → Bool) → List A → Bool
out_of_order lt [] = false
out_of_order lt (x ∷ []) = false
out_of_order lt (x ∷ y ∷ rest) = lt y x || out_of_order lt (y ∷ rest)

-- `any(not candle.is_available_at(reference_time) for candle in candles)`
abbrev pub any_unavailable : DateTime → List Candle → Result Bool
any_unavailable t [] = ok false
any_unavailable t (c ∷ rest) =
    let later = any_unavailable t rest in
    is_available_at c t >>= λ available. if available then later else ok true

-- `MarketSnapshot.__post_init__`
unfoldable pub make_snapshot : MarketSnapshot → Result MarketSnapshot
make_snapshot s = do
  raise_if (is_empty s.candles) (value_error "candles must contain Candle instances")
  raise_if (blank s.snapshot_id) (value_error "snapshot_id is required")
  raise_if (blank s.source_id) (value_error "source_id is required")
  raise_if (not_utc s.reference_time) (value_error "reference_time must be UTC")
  raise_if (has_duplicates same_key s.candles) (value_error "snapshot contains duplicate candles")
  raise_if (out_of_order key_lt s.candles) (value_error "candles must be in deterministic order")
  unavailable ← any_unavailable s.reference_time s.candles
  raise_if unavailable (value_error "snapshot contains data unavailable at reference_time")
  ok s

-- `MarketSnapshot.candles_for`
unfoldable pub candles_for : MarketSnapshot → String → String → List Candle
candles_for s symbol timeframe =
    keep (λ c. text_eq c.symbol symbol && text_eq c.timeframe timeframe) s.candles

-- `value in values`
abbrev pub contains : List String → String → Bool
contains xs s = any (λ x. text_eq x s) xs

abbrev pub reason_if : Bool → String → List String
reason_if true reason = reason ∷ []
reason_if false reason = []

unfoldable pub validate_snapshot_request : SnapshotRequest → MarketSnapshot → List String
validate_snapshot_request r s =
    reason_if (not (same_time s.reference_time r.reference_time)) "REFERENCE_TIME_MISMATCH"
    ++ (reason_if (any (λ c. not (contains r.symbols c.symbol)) s.candles) "UNREQUESTED_SYMBOL"
        ++ reason_if (any (λ c. not (contains r.timeframes c.timeframe)) s.candles)
            "UNREQUESTED_TIMEFRAME")
