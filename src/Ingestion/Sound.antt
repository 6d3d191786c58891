-- ===== src/Ingestion/Sound.antt =====
-- What an ingested snapshot is.
use tabdeal_futures_signal_b.Prelude.{
  none_refused, ◌≡◌, refl, ap, map, ◌>>=◌, Bool, true, false, not, List, [], ◌∷◌, ◌++◌, arith, all,
  keep, All, text_eq, Result, ok, err, pos,
}
use tabdeal_futures_signal_b.Times.{
  DateTime, finite, is_finite, lt_num, le_num, min_num, before, same_time,
}
use tabdeal_futures_signal_b.Domain.{Candle, is_available_at}
use tabdeal_futures_signal_b.Snapshot.{
  SnapshotRequest, MarketSnapshot, is_empty, contains, validate_snapshot_request,
}
use tabdeal_futures_signal_b.Ingestion.{
  issue_if, ValidationIssue, ValidationReport, Pair, is_in, insert_pair, sorted_set, difference,
  requested_pairs, actual_pairs, make_report, candle_issues, all_candle_issues, snapshot_issues,
  validate_snapshot, MarketDataSource, IngestionResult, ingest,
}

-- A candle that the request asked for, closed before its reference time, with finite values, positive
-- prices and a volume that is not negative.
pub record Usable (r : SnapshotRequest) (c : Candle) : Type 0 where
  pub symbol : contains r.symbols c.symbol ≡ true
  pub timeframe : contains r.timeframes c.timeframe ≡ true
  pub closed : before c.close_time r.reference_time ≡ true
  pub numbers : all is_finite (c.open_price ∷ c.high ∷ c.low ∷ c.close ∷ c.volume ∷ []) ≡ true
  pub positive :
      le_num (min_num (min_num (min_num c.open_price c.high) c.low) c.close) (finite (pos 0))
      ≡ false
  pub volume : lt_num c.volume (finite (pos 0)) ≡ false

abbrev pub Sound : DateTime → Candle → Type 0
Sound t c =
    (before c.close_time t ≡ true)
    × (all is_finite (c.open_price ∷ c.high ∷ c.low ∷ c.close ∷ c.volume ∷ []) ≡ true)
    × (le_num (min_num (min_num (min_num c.open_price c.high) c.low) c.close) (finite (pos 0))
        ≡ false)
    × (lt_num c.volume (finite (pos 0)) ≡ false)

candle_issues-Sound : (t : DateTime) (c : Candle) → candle_issues t c ≡ ok [] → Sound t c
unfolding candle_issues is_available_at
candle_issues-Sound t c h = ground arith

append_empty {ℓ} :
    {A : Type ℓ} (xs ys : List A) → is_empty (xs ++ ys) ≡ true → (xs ≡ []) × (ys ≡ [])
append_empty [] [] h = (refl, refl)
append_empty [] (y ∷ ys) h = cc
append_empty (x ∷ xs) ys h = cc

both_empty :
    (m n : Result (List ValidationIssue))
    → (m >>= λ here. n >>= λ there. ok (here ++ there)) ≡ ok []
    → (m ≡ ok []) × (n ≡ ok [])
both_empty (err e) n h = cc
both_empty (ok here) (err e) h = cc
both_empty (ok here) (ok there) h =
    let (a, b) = append_empty here there (ground arith) in (ap ok a, ap ok b)

all_candle_issues-Sound :
    (t : DateTime) (cs : List Candle) → all_candle_issues t cs ≡ ok [] → All (Sound t) cs
unfolding all_candle_issues
all_candle_issues-Sound t [] h = tt
all_candle_issues-Sound t (c ∷ rest) h =
    let (here, there) = both_empty (candle_issues t c) (all_candle_issues t rest) h in
    (candle_issues-Sound t c here, all_candle_issues-Sound t rest there)

map_empty {ℓ κ} : {A : Type ℓ} {B : Type κ} (f : A → B) (xs : List A) → map f xs ≡ [] → xs ≡ []
map_empty f [] h = refl
map_empty f (x ∷ xs) h = cc

insert_pair_is_not_empty : (p : Pair) (xs : List Pair) → is_empty (insert_pair p xs) ≡ false
unfolding insert_pair
insert_pair_is_not_empty p [] = refl
insert_pair_is_not_empty p (q ∷ rest) = ground arith

sorted_set_empty : (xs : List Pair) → sorted_set xs ≡ [] → xs ≡ []
unfolding sorted_set
sorted_set_empty [] h = refl
sorted_set_empty (p ∷ rest) h =
    absurd (ground (arith, insert_pair_is_not_empty p (sorted_set rest), ap is_empty h))

kept_none {ℓ} :
    {A : Type ℓ} (p : A → Bool) (xs : List A)
    → keep (λ x. not (p x)) xs ≡ []
    → All (λ x. p x ≡ true) xs
kept_none p [] h = tt
kept_none p (x ∷ xs) h = (ground arith, kept_none p xs (ground arith))

-- An empty difference: every pair of the first list is in the second.
difference_empty : (a b : List Pair) → difference a b ≡ [] → All (λ p. is_in b p ≡ true) a
unfolding difference
difference_empty a b h = kept_none (is_in b) a (sorted_set_empty _ h)

no_issue : (b : Bool) (issue : ValidationIssue) → issue_if (not b) issue ≡ [] → b ≡ true
no_issue true issue h = refl
no_issue false issue h = cc

snapshot_issues-empty :
    (r : SnapshotRequest) (s : MarketSnapshot) (candles : List ValidationIssue)
    → is_empty (snapshot_issues r s candles) ≡ true
    → (same_time s.reference_time r.reference_time ≡ true)
      × All (λ p. is_in (actual_pairs s) p ≡ true) (requested_pairs r)
      × (candles ≡ [])
unfolding snapshot_issues
snapshot_issues-empty r s candles h =
    let (time, rest) = append_empty _ _ h in
    let (missing, rest') = append_empty _ _ (ap is_empty rest) in
    let (extra, found) = append_empty _ _ (ap is_empty rest') in
    (
      no_issue (same_time s.reference_time r.reference_time) _ time,
      difference_empty (requested_pairs r) (actual_pairs s) (map_empty _ _ missing),
      found,
    )

validate_snapshot-empty :
    (r : SnapshotRequest) (s : MarketSnapshot) (candles : Result (List ValidationIssue))
    {report : ValidationReport}
    → (candles >>= λ found.
        make_report (is_empty (snapshot_issues r s found)) (snapshot_issues r s found))
      ≡ ok report
    → report.valid ≡ true
    → (same_time s.reference_time r.reference_time ≡ true)
      × All (λ p. is_in (actual_pairs s) p ≡ true) (requested_pairs r)
      × (candles ≡ ok [])
unfolding make_report
validate_snapshot-empty r s (err e) h v = cc
validate_snapshot-empty r s (ok candles) {report} h v =
    let none : is_empty (snapshot_issues r s candles) ≡ true = ground arith in
    let (time, complete, found) = snapshot_issues-empty r s candles none in
    (time, complete, ap ok found)

usable :
    (r : SnapshotRequest) (cs : List Candle)
    → All (Sound r.reference_time) cs
    → All (λ (c : Candle). contains r.symbols c.symbol ≡ true) cs
    → All (λ (c : Candle). contains r.timeframes c.timeframe ≡ true) cs
    → All (Usable r) cs
usable r [] a b d = tt
usable r (c ∷ cs) a b d = (
  record {
    symbol = b.0;
    timeframe = d.0;
    closed = a.0.0;
    numbers = a.0.1;
    positive = a.0.2;
    volume = a.0.3;
  },
  usable r cs a.1 b.1 d.1,
)

scope_empty :
    (r : SnapshotRequest) (s : MarketSnapshot)
    → is_empty (validate_snapshot_request r s) ≡ true
    → All (λ (c : Candle). contains r.symbols c.symbol ≡ true) s.candles
      × All (λ (c : Candle). contains r.timeframes c.timeframe ≡ true) s.candles
unfolding validate_snapshot_request
scope_empty r s h = (
  none_refused (λ (c : Candle). contains r.symbols c.symbol) s.candles (ground arith),
  none_refused (λ (c : Candle). contains r.timeframes c.timeframe) s.candles (ground arith),
)

-- When an intake returns, its snapshot is the source's answer and names that source, has the request's
-- reference time, holds a candle for every requested symbol and timeframe, and only candles that were
-- requested, closed before the reference time, with finite values, positive prices and a volume that is
-- not negative.
pub ingest_sound :
    (source : MarketDataSource) (r : SnapshotRequest) {result : IngestionResult}
    → ingest source r ≡ ok result
    → (source.snapshot r ≡ ok result.snapshot)
      × (text_eq result.snapshot.source_id source.source_id ≡ true)
      × (same_time result.snapshot.reference_time r.reference_time ≡ true)
      × All (λ p. is_in (actual_pairs result.snapshot) p ≡ true) (requested_pairs r)
      × All (Usable r) result.snapshot.candles
unfolding ingest validate_snapshot
ingest_sound source r {result} h =
    let answer : source.snapshot r ≡ ok result.snapshot = ground arith in
    let named : text_eq result.snapshot.source_id source.source_id ≡ true = ground arith in
    let in_scope : is_empty (validate_snapshot_request r result.snapshot) ≡ true = ground arith in
    let reported : validate_snapshot r result.snapshot ≡ ok result.validation = ground arith in
    let is_valid : result.validation.valid ≡ true = ground arith in
    let (time, complete, none) =
      validate_snapshot-empty r result.snapshot
        (all_candle_issues r.reference_time result.snapshot.candles) reported is_valid in
    let (symbols, timeframes) = scope_empty r result.snapshot in_scope in
    (
      answer,
      named,
      time,
      complete,
      usable r result.snapshot.candles
          (all_candle_issues-Sound r.reference_time result.snapshot.candles none) symbols
          timeframes,
    )
