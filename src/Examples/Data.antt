-- ===== src/Examples/Data.antt =====
-- Concrete values for the tests: a signal that is persisted, claimed by a worker and sent.
use tabdeal_futures_signal_b.Prelude.{
  ℕ, Bool, true, false, String, none, some, [], ◌∷◌, is_ok, ok, ◌≡◌, refl, pos, blank, is_space,
  trim_empty,
}
use tabdeal_futures_signal_b.Times.{at_utc, finite}
use tabdeal_futures_signal_b.Domain.{
  Candle, DecisionContext, SideDecision, SignalDecision, long, short, signal, blocked,
}
use tabdeal_futures_signal_b.Snapshot.{MarketSnapshot}
use tabdeal_futures_signal_b.Strategy.{StrategyEvaluation, IsolatedSideEvaluators}
use tabdeal_futures_signal_b.Decision.{FinalDecision}
use tabdeal_futures_signal_b.Persistence.{PersistenceRequest, make_persistence_request}
use tabdeal_futures_signal_b.Sqlite.Schema.{OutboxRow, Db, aware, processing}
use tabdeal_futures_signal_b.Sqlite.Persist.{persist, new_row}
use tabdeal_futures_signal_b.Sqlite.Claim.{claim_pending_outbox}
use tabdeal_futures_signal_b.Sqlite.Marks.{mark_outbox_sent}
use tabdeal_futures_signal_b.Sqlite.Consistent.{PayloadOk}
use tabdeal_futures_signal_b.Sqlite.Steps.{
  Reach, start, after, persisted, claimed, marked_sent, empty_db,
}

abbrev pub context : DecisionContext
context = record {
  decision_time = at_utc 9;
  reference_time = at_utc 8;
  snapshot_id = "snap";
  config_version = "v1";
}

abbrev pub candle : Candle
candle = record {
  symbol = "BTC";
  timeframe = "1h";
  open_time = at_utc 1;
  close_time = at_utc 5;
  open_price = finite (pos 1);
  high = finite (pos 3);
  low = finite (pos 1);
  close = finite (pos 2);
  volume = finite (pos 7);
}

abbrev pub snapshot : MarketSnapshot
snapshot = record {
  snapshot_id = "snap";
  source_id = "replay";
  reference_time = at_utc 8;
  candles = candle ∷ [];
}

abbrev pub long_yes : StrategyEvaluation
long_yes = record { direction = long; eligible = true; reason_code = "UP" }

abbrev pub short_yes : StrategyEvaluation
short_yes = record { direction = short; eligible = true; reason_code = "DOWN" }

abbrev pub short_no : StrategyEvaluation
short_no = record { direction = short; eligible = false; reason_code = "NO_EVENT" }

abbrev pub evaluators : StrategyEvaluation → StrategyEvaluation → IsolatedSideEvaluators
evaluators l s = record {
  long_evaluator = record { direction = long; evaluate = λ _. ok l };
  short_evaluator = record { direction = short; evaluate = λ _. ok s };
}

abbrev pub long_side : SideDecision
long_side = record { direction = long; status = signal; reason_code = "UP" }

abbrev pub short_side : SideDecision
short_side = record { direction = short; status = blocked; reason_code = "NO_EVENT" }

abbrev pub long_signal : SignalDecision
long_signal = record {
  signal_id = "id";
  direction = long;
  created_at = at_utc 9;
  snapshot_id = "snap";
  config_version = "v1";
  reason_code = "RISK_POLICY_ACCEPTED";
}

abbrev pub decided : FinalDecision
decided = record { status = signal; signal_decision = some long_signal; reason_code = "" }

abbrev pub request : PersistenceRequest
request = record { context = context; decision = decided; idempotency_key = "k1"; event_id = none }

abbrev pub json_text : PersistenceRequest → String
json_text r = "{}"

abbrev pub show_text : ℕ → String
show_text n = "n"

abbrev pub accepted : String → Bool
accepted p = true

abbrev pub tokens : ℕ → String
tokens i = "t"

pub encodes : (r : PersistenceRequest) → PayloadOk accepted accepted (json_text r)
unfolding trim_empty
encodes r = record { valid = refl; object = refl }

pub request_valid : is_ok (make_persistence_request request) ≡ true
unfolding make_persistence_request blank is_space
request_valid = refl

abbrev pub first_row : OutboxRow
first_row = new_row 1 "signal:k1" "k1" "{}" 5

-- The row under the lease of worker `w1` from 10 to 30000010.
abbrev pub leased_row : OutboxRow
leased_row = record first_row {
  status = processing;
  attempt_count = 1;
  locked_until = some 30000010;
  updated_at = 10;
  owner_id = some "w1";
  lease_token = some "t";
}

abbrev pub persisted_db : Db
persisted_db = (persist json_text request 5 empty_db empty_db).1

abbrev pub claimed_db : Db
claimed_db =
    (claim_pending_outbox (some (aware 10)) 30 5 (some "w1") "fresh" tokens 10 persisted_db).1

abbrev pub sent_db : Db
sent_db = (mark_outbox_sent "signal:k1" (some (aware 20)) "w1" "t" 20 claimed_db).1

pub persisted_db-Reach : Reach json_text show_text empty_db persisted_db
persisted_db-Reach = after start (persisted request 5 empty_db request_valid)

pub claimed_db-Reach : Reach json_text show_text persisted_db claimed_db
claimed_db-Reach = after start (claimed (some (aware 10)) 30 5 (some "w1") "fresh" tokens 10)

pub sent_db-Reach : Reach json_text show_text empty_db sent_db
sent_db-Reach =
    after (after persisted_db-Reach (claimed (some (aware 10)) 30 5 (some "w1") "fresh" tokens 10))
      (marked_sent "signal:k1" (some (aware 20)) "w1" "t" 20)
