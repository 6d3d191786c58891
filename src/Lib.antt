-- ===== src/Lib.antt =====
-- Verification of the futures signal bot (src/tabdeal_signal): from validated market values to a decision,
-- from a decision to a durable outbox record, and from there to a notification that is delivered under an
-- exclusive lease. The bot computes and delivers signals; it places no orders.
--
-- The parts and their files (paths from the repository's root):
--   Times, Domain    src/tabdeal_signal/domain/contracts.py: times, numbers and the validated values. A
--                    dataclass is a record, and `make_x` is its `__post_init__`, guards in order.
--   Snapshot         data/contracts.py: requests and point-in-time snapshots (`make_snapshot`,
--                    `candles_for`, `validate_snapshot_request`).
--   Ingestion        data/{validation,ingestion,in_memory_source}.py: the integrity report, the intake from a
--                    source, and the source of registered snapshots (Memory).
--   Strategy, Risk   strategy/{contracts,isolation,conflict}.py and risk/{contracts,gate,policy}.py: the
--                    evaluators, the resolver and the two gates. Protocols are records of functions.
--   Series           data/series.py: codes of timeframes and the integrity report of a series.
--   Alignment        data/alignment.py: the latest closed candle on explicit boundaries.
--   Json, Source     data_sources/contracts.py: the values of payloads, provenance, metadata and normalized
--                    snapshots; Codec: the fixtures of data_sources/replay.py. Lists and tuples are
--                    apart; Json.Plain says which values JSON has.
--   Replay           data_sources/replay.py: stored snapshots, read as of a time.
--   Bybit            data_sources/bybit*.py: Orderbook, OpenInterest, Funding, Tickers, Instruments and
--                    Kline, one module for each source, from its constructor to its `fetch_snapshot` or
--                    `snapshot`. The way from a page to a snapshot that they share stands in the parent.
--   Readiness        data_sources/{source_access,operational_manifest,source_readiness}.py: the lifecycle of
--                    a source and the next gate before it.
--   Structure        strategy/engine.py: swings, trend and structure breaks as of a reference time
--                    (`trend`, `break_events`); Evaluator: the evaluator over three timeframes.
--                    Trends, Breaks and Cases say what these mean in the candles.
--   Decision         decision/{final,pipeline,identity}.py: `evaluate_final_decision` runs the evaluators,
--                    the conflict gate, the risk gates and `resolve_final_decision`.
--   Persistence      persistence/contracts.py: the request and the result of one persistence call.
--   Sqlite           persistence/sqlite.py. Schema: the two tables as lists of rows; Persist, Claim, Marks:
--                    one function per method, from a database to an answer and the next database, with
--                    the SQL of each statement written out as a function on rows; Validate: the checks
--                    made when a database is opened. Rows, Members, Later, Safe, Consistent: what the
--                    statements keep. Steps: every call as a step, with any arguments and any
--                    interleaving of writers and workers. Guarantees: the results.
--   Worker           notifications/worker.py: `run_once` claims a batch and settles each record through
--                    the SQLite operations.
--   Legacy           worker.py: the older worker, over the same operations.
--   Outbox           persistence/{reliability,outbox,in_memory_outbox,in_memory}.py: leases, messages and
--                    the in-memory reference stores, an implementation of the interface
--                    `OutboxRepository`.
--   Notification     notification/{contracts,dispatcher}.py: one delivery attempt over any
--                    `OutboxRepository`.
--   Examples         concrete runs. Prelude holds what all parts share.
--
-- How the program is modelled. A call that may raise returns a `Result`, whose errors carry class and
-- message. A guard that asks only for the type of a value (`isinstance`) has no case, as values are typed.
-- State is passed explicitly: a method takes a database (or store) and returns the next one; one SQL
-- transaction, or one critical section of a lock, is one function. `persist` reads before its transaction,
-- so it takes the database at its reads and the one that its transaction meets; its reads are taken as one. Its
-- two INSERT statements are two functions, and `end_transaction` commits or rolls back what they leave. A mark
-- makes one reading of the clock, where `mark_outbox_sent` without a time reads it twice in a row.
-- The clock, uuid4, json.dumps and json.loads, the texts of times, the parsing of decimals and integers,
-- SHA-256, SQLite's JSON functions, the transports, the sender and the strategy evaluators are parameters,
-- any functions unless a hypothesis says more. A timestamp column holds the instant that its canonical UTC
-- text denotes, in microseconds, and a time past the last one of `datetime` is an OverflowError. Numbers of
-- candles are exact, with infinities and NaN. All loops are recursions on lists, so no fuel is needed.
--
-- Not modelled: the transport over HTTP, the other exchange adapters and the source catalogues (static
-- tables), the text of messages and the Telegram settings, and the migration of tables with old columns. The columns, keys and timestamp texts that opening a
-- database checks hold by the types of the rows.
pub mod Prelude
pub mod Times
pub mod Domain
pub mod Snapshot
pub mod Ingestion
pub mod Series
pub mod Json
pub mod Source
pub mod Replay
pub mod Bybit
pub mod Readiness
pub mod Alignment
pub mod Strategy
pub mod Structure
pub mod Risk
pub mod Decision
pub mod Persistence
pub mod Sqlite
pub mod Worker
pub mod Legacy
pub mod Outbox
pub mod Notification
pub mod Examples
