-- ===== src/Examples/Aligned.antt =====
-- Timeframes, a contiguous series and the candle that is aligned with a time.
use tabdeal_futures_signal_b.Prelude.{
  ℕ, ◌+◌, ◌*◌, ◌≡◌, ◌≤◌, refl, Bool, true, false, some, List, [], ◌∷◌, ok, pos, All,
}
use tabdeal_futures_signal_b.Times.{at_utc, finite}
use tabdeal_futures_signal_b.Domain.{Candle}
use tabdeal_futures_signal_b.Snapshot.{is_empty}
use tabdeal_futures_signal_b.Series.{
  TimeframeSpec, SeriesIntegrityReport, parse_timeframe, validate_candle_series,
}
use tabdeal_futures_signal_b.Series.Timeframe.{duration_in_range}
use tabdeal_futures_signal_b.Series.Contiguous.{IsOf, Contiguous, valid_series}
use tabdeal_futures_signal_b.Alignment.{AlignmentResult, align_latest_closed_candle}
use tabdeal_futures_signal_b.Alignment.Latest.{IsLatestClosed, aligned_candle}

abbrev hour : ℕ
hour = 3600000000

abbrev bar : ℕ → Candle
bar n = record {
  symbol = "BTC";
  timeframe = "1h";
  open_time = at_utc (n * hour);
  close_time = at_utc ((n + 1) * hour);
  open_price = finite (pos 1);
  high = finite (pos 3);
  low = finite (pos 1);
  close = finite (pos 2);
  volume = finite (pos 7);
}

abbrev series : List Candle
series = bar 2 ∷ bar 3 ∷ bar 4 ∷ []

abbrev spec : TimeframeSpec
spec = record { text = "1h"; duration = hour }

parsed : parse_timeframe " 1h " ≡ ok spec
unfolding parse_timeframe tabdeal_futures_signal_b.Prelude.is_space
parsed = refl

duration_in_range_example : (60000000 ≤ hour) × (hour ≤ 86399999999999999999)
duration_in_range_example = duration_in_range " 1h " parsed

abbrev report : SeriesIntegrityReport
report = record { valid = true; reason_codes = [] }

checked : validate_candle_series series "1h" ≡ ok report
unfolding validate_candle_series tabdeal_futures_signal_b.Prelude.is_space
checked = refl

valid_series_example :
    (is_empty series ≡ false)
    × ((spec : TimeframeSpec) × (parse_timeframe "1h" ≡ ok spec)
        × All (IsOf "1h" spec.duration) series
        × Contiguous series)
valid_series_example = valid_series series "1h" checked refl

abbrev chosen : AlignmentResult
chosen = record { candle = some (bar 3); reason_codes = [] }

-- At a quarter past the close of the second candle, the third one is still open.
aligned : align_latest_closed_candle series "1h" (at_utc 15300000000) (at_utc 0) ≡ ok chosen
unfolding align_latest_closed_candle tabdeal_futures_signal_b.Prelude.is_space
aligned = refl

aligned_candle_example : IsLatestClosed series "1h" (at_utc 15300000000) (at_utc 0) (bar 3)
aligned_candle_example = aligned_candle series "1h" (at_utc 15300000000) (at_utc 0) aligned refl
