-- ===== src/Ingestion.antt =====
-- src/tabdeal_signal/data/{validation,ingestion}.py: the integrity report of a snapshot, and the intake of
-- a snapshot from a source. A set of pairs is a list without repetitions. The code and the detail of an
-- issue start with fixed text, so the guards of its constructor cannot fire.
pub mod Sound
pub mod Memory
pub mod Registered
use Prim.Native.String.{compare, ◌++◌ as append}
use text.Mathlib.Text.{is_lt}
use tabdeal_futures_signal_b.Prelude.{
  Bool, true, false, not, ◌&&◌, ◌||◌, String, List, [], ◌∷◌, ◌++◌, map, text_eq, if◌then◌else◌,
  Result, ok, value_error, ingestion_error, ◌>>=◌, ◌>>◌, raise_if, any, all, keep, pos,
}
use tabdeal_futures_signal_b.Times.{DateTime, finite, is_finite, lt_num, le_num, min_num, same_time}
use tabdeal_futures_signal_b.Domain.{Candle, is_available_at}
use tabdeal_futures_signal_b.Snapshot.{
  SnapshotRequest, MarketSnapshot, is_empty, validate_snapshot_request,
}

pub record ValidationIssue : Type 0 where
  pub code : String
  pub detail : String

pub record ValidationReport : Type 0 where
  pub valid : Bool
  pub issues : List ValidationIssue

-- `ValidationReport.__post_init__`
unfoldable pub make_report : Bool → List ValidationIssue → Result ValidationReport
make_report valid issues = do
  raise_if (valid && not (is_empty issues)) (value_error "a valid report cannot contain issues")
  raise_if (not valid && is_empty issues)
      (value_error "an invalid report must contain at least one issue")
  ok (record { valid = valid; issues = issues })

abbrev pub Pair : Type 0
Pair = String × String

abbrev pub pair_eq : Pair → Pair → Bool
pair_eq a b = text_eq a.0 b.0 && text_eq a.1 b.1

abbrev pub pair_lt : Pair → Pair → Bool
pair_lt a b = is_lt (compare a.0 b.0) || (text_eq a.0 b.0 && is_lt (compare a.1 b.1))

abbrev pub is_in : List Pair → Pair → Bool
is_in pairs p = any (pair_eq p) pairs

-- One pair into a sorted set.
unfoldable pub insert_pair : Pair → List Pair → List Pair
insert_pair p [] = p ∷ []
insert_pair p (q ∷ rest) =
    if pair_eq p q then q ∷ rest else if pair_lt q p then q ∷ insert_pair p rest else p ∷ q ∷ rest

-- `sorted({…})`
unfoldable pub sorted_set : List Pair → List Pair
unfolding insert_pair
sorted_set [] = []
sorted_set (p ∷ rest) = insert_pair p (sorted_set rest)

unfoldable pub pairs_of : List String → List String → List Pair
pairs_of [] timeframes = []
pairs_of (s ∷ symbols) timeframes = map (λ t. (s, t)) timeframes ++ pairs_of symbols timeframes

unfoldable pub requested_pairs : SnapshotRequest → List Pair
unfolding pairs_of
requested_pairs r = pairs_of r.symbols r.timeframes

unfoldable pub actual_pairs : MarketSnapshot → List Pair
actual_pairs s = map (λ (c : Candle). (c.symbol, c.timeframe)) s.candles

-- `sorted(a - b)`
unfoldable pub difference : List Pair → List Pair → List Pair
unfolding sorted_set
difference a b = sorted_set (keep (λ p. not (is_in b p)) a)

abbrev pub pair_issue : String → String → Pair → ValidationIssue
pair_issue code what p = record { code = code; detail = append what (append p.0 (append "/" p.1)) }

abbrev pub issue_if : Bool → ValidationIssue → List ValidationIssue
issue_if true issue = issue ∷ []
issue_if false issue = []

-- The issues of one candle.
unfoldable pub candle_issues : DateTime → Candle → Result (List ValidationIssue)
unfolding is_available_at
candle_issues t c = do
  available ← is_available_at c t
  ok (
      issue_if (not (all is_finite (c.open_price ∷ c.high ∷ c.low ∷ c.close ∷ c.volume ∷ [])))
        (pair_issue "NON_FINITE_VALUE" "non-finite OHLCV for " (c.symbol, c.timeframe))
      ++ (issue_if
            (le_num (min_num (min_num (min_num c.open_price c.high) c.low) c.close)
              (finite (pos 0)))
            (pair_issue "NON_POSITIVE_PRICE" "non-positive price for " (c.symbol, c.timeframe))
          ++ (issue_if (lt_num c.volume (finite (pos 0)))
                (pair_issue "NEGATIVE_VOLUME" "negative volume for " (c.symbol, c.timeframe))
              ++ issue_if (not available) (
                  pair_issue "FUTURE_DATA" "candle closes after reference_time for "
                    (c.symbol, c.timeframe)))))

unfoldable pub all_candle_issues : DateTime → List Candle → Result (List ValidationIssue)
unfolding candle_issues
all_candle_issues t [] = ok []
all_candle_issues t (c ∷ rest) =
    let later = all_candle_issues t rest in
    candle_issues t c >>= λ here. later >>= λ there. ok (here ++ there)

unfoldable pub snapshot_issues :
    SnapshotRequest → MarketSnapshot → List ValidationIssue → List ValidationIssue
unfolding difference requested_pairs actual_pairs
snapshot_issues r s candles =
    issue_if (not (same_time s.reference_time r.reference_time)) (record {
      code = "REFERENCE_TIME_MISMATCH";
      detail = "snapshot reference_time differs from request";
    })
    ++ (map (pair_issue "MISSING_DATA" "missing requested pair: ")
          (difference (requested_pairs r) (actual_pairs s))
        ++ (map (pair_issue "UNREQUESTED_DATA" "snapshot contains unrequested pair: ")
              (difference (actual_pairs s) (requested_pairs r))
            ++ candles))

unfoldable pub validate_snapshot : SnapshotRequest → MarketSnapshot → Result ValidationReport
unfolding all_candle_issues snapshot_issues make_report
validate_snapshot r s = do
  candles ← all_candle_issues r.reference_time s.candles
  make_report (is_empty (snapshot_issues r s candles)) (snapshot_issues r s candles)

-- `",".join(…)`
unfoldable pub join_commas : List String → String
join_commas [] = ""
join_commas (x ∷ []) = x
join_commas (x ∷ y ∷ rest) = append x (append "," (join_commas (y ∷ rest)))

-- A source: its identity, and its answer to a request, which may be an error.
pub record MarketDataSource : Type 0 where
  pub source_id : String
  pub snapshot : SnapshotRequest → Result MarketSnapshot

pub record IngestionResult : Type 0 where
  pub snapshot : MarketSnapshot
  pub validation : ValidationReport

unfoldable pub ingest : MarketDataSource → SnapshotRequest → Result IngestionResult
unfolding validate_snapshot_request validate_snapshot join_commas
ingest source request = do
  snapshot ← source.snapshot request
  raise_if (not (text_eq snapshot.source_id source.source_id))
      (ingestion_error "source identity mismatch")
  raise_if (not (is_empty (validate_snapshot_request request snapshot))) (
      ingestion_error (
        append "snapshot scope rejected: "
          (join_commas (validate_snapshot_request request snapshot))))
  report ← validate_snapshot request snapshot
  raise_if (not report.valid) (
      ingestion_error (
        append "snapshot validation failed: "
          (join_commas (map (λ (i : ValidationIssue). i.code) report.issues))))
  ok (record { snapshot = snapshot; validation = report })
