-- ===== src/Domain.antt =====
-- src/tabdeal_signal/domain/contracts.py: the validated values of the domain. A constructor takes the
-- annotated types, so its `isinstance` guards cannot fire, and runs the other guards in order.
use tabdeal_futures_signal_b.Prelude.{
  Bool, true, false, not, ◌||◌, String, [], ◌∷◌, blank, pos, Result, ok, value_error, ◌>>◌,
  raise_if, all,
}
use tabdeal_futures_signal_b.Times.{
  DateTime, Number, finite, is_naive, not_utc, zone_eq, before, no_later, is_finite, lt_num,
  max_num, min_num, utc,
}

pub data Direction : Type 0 where
  long short : Direction

pub data DecisionStatus : Type 0 where
  signal blocked : DecisionStatus

-- `a is b` of two directions, and of two statuses.
abbrev pub direction_eq : Direction → Direction → Bool
direction_eq long long = true
direction_eq short short = true
direction_eq _ _ = false

abbrev pub is_signal : DecisionStatus → Bool
is_signal signal = true
is_signal blocked = false

pub record Candle : Type 0 where
  pub symbol : String
  pub timeframe : String
  pub open_time : DateTime
  pub close_time : DateTime
  pub open_price : Number
  pub high : Number
  pub low : Number
  pub close : Number
  pub volume : Number

-- `Candle.__post_init__`
unfoldable pub make_candle : Candle → Result Candle
make_candle c = do
  raise_if (blank c.symbol) (value_error "symbol must not be empty")
  raise_if (blank c.timeframe) (value_error "timeframe must not be empty")
  raise_if (is_naive c.close_time || is_naive c.open_time)
      (value_error "candle timestamps must be timezone-aware")
  raise_if (not (zone_eq c.open_time.zone utc) || not (zone_eq c.close_time.zone utc))
      (value_error "candle timestamps must be UTC")
  raise_if (no_later c.close_time c.open_time) (value_error "close_time must be after open_time")
  raise_if (not (all is_finite (c.open_price ∷ c.high ∷ c.low ∷ c.close ∷ c.volume ∷ [])))
      (value_error "candle numeric values must be finite")
  raise_if
      (lt_num c.high (max_num c.open_price c.close) || lt_num (min_num c.open_price c.close) c.low)
      (value_error "invalid OHLC bounds")
  raise_if (lt_num c.high c.low) (value_error "low must not exceed high")
  raise_if (lt_num c.volume (finite (pos 0))) (value_error "volume must not be negative")
  ok c

-- `Candle.is_available_at`
unfoldable pub is_available_at : Candle → DateTime → Result Bool
is_available_at c reference_time = do
  raise_if (not_utc reference_time) (value_error "reference_time must be UTC")
  ok (before c.close_time reference_time)

pub record DecisionContext : Type 0 where
  pub decision_time : DateTime
  pub reference_time : DateTime
  pub snapshot_id : String
  pub config_version : String

-- `DecisionContext.__post_init__`
unfoldable pub make_context : DecisionContext → Result DecisionContext
make_context c = do
  raise_if (not_utc c.decision_time) (value_error "decision timestamps must be UTC")
  raise_if (not_utc c.reference_time) (value_error "decision timestamps must be UTC")
  raise_if (blank c.snapshot_id || blank c.config_version)
      (value_error "snapshot_id and config_version are required")
  raise_if (before c.decision_time c.reference_time)
      (value_error "reference_time cannot be after decision_time")
  ok c

pub record SideDecision : Type 0 where
  pub direction : Direction
  pub status : DecisionStatus
  pub reason_code : String

-- `SideDecision.__post_init__`
unfoldable pub make_side : Direction → DecisionStatus → String → Result SideDecision
make_side d s reason = do
  raise_if (blank reason) (value_error "reason_code is required")
  ok (record { direction = d; status = s; reason_code = reason })

pub record SignalDecision : Type 0 where
  pub signal_id : String
  pub direction : Direction
  pub created_at : DateTime
  pub snapshot_id : String
  pub config_version : String
  pub reason_code : String

-- `SignalDecision.__post_init__`
unfoldable pub make_signal : SignalDecision → Result SignalDecision
make_signal s = do
  raise_if (blank s.signal_id) (value_error "signal_id is required")
  raise_if (not_utc s.created_at) (value_error "created_at must be UTC")
  raise_if (blank s.snapshot_id) (value_error "snapshot_id is required")
  raise_if (blank s.config_version) (value_error "config_version is required")
  raise_if (blank s.reason_code) (value_error "reason_code is required")
  ok s
