-- ===== src/Lib.antt =====
-- tokenweir meters the tokens that calls of language models use. A producer builds a usage record
-- (src/tokenweir/contract.py) and hands it to a sink (src/tokenweir/sink.py), mostly through the
-- buffered emitter (src/tokenweir/emitter.py), whose worker thread delivers to an adapter: the
-- broker sink (src/tokenweir/amqp.py) or a store. Drops are logged through a warner that limits its
-- rate (src/tokenweir/_ratelimit.py). The hook for Claude Code (src/tokenweir/claude_code.py) reads
-- a session's transcript and emits what a turn has used, with the attribution that the orchestrator
-- (src/tokenweir/orchestrator.py) has put into its environment. `iter_turns` (src/tokenweir/parity.py)
-- reads the same transcripts to check their counts. A runner
-- (src/tokenweir/migrations/__init__.py) brings the store's tables up to date, and
-- src/tokenweir/reconcile.py compares a database that something else has built with the tables of the
-- migrations, and brings it to them.
--
-- Modules and code
--   Prelude    shared names, lists and tests over the native numbers, dictionaries as association
--              lists
--   Python     floats by what the code asks of them, exceptions, outcomes of calls
--   RateLimit  src/tokenweir/_ratelimit.py. `warn` is the method of that name; Count and Window
--              prove what a sequence of calls logs
--   Contract   src/tokenweir/contract.py. Values: the validators; Record: `UsageRecord`,
--              `__post_init__`, the constructor, `to_dict`; Wire: `from_dict`, `from_json`,
--              `to_json`; Schema: the published JSON Schema. Proofs: Lookup, Shape, RoundTrip,
--              Errors, Successes, Agreement and Publication
--   Sink       src/tokenweir/sink.py. Guard: `build_record`, `emit_record`, `emit_usage`; Direct:
--              `DirectSink`. Proofs: Guarded, Delivery
--   Emitter    src/tokenweir/emitter.py. State: the fields and counters; Producer: `emit`,
--              `close`, `flush`, one function for each critical section; Worker: `_run`, one step
--              for each; System: the step relation of all threads; Options: the checks of the
--              constructor. Proofs: Ledger and Invariant (the accounts), Totals, Progress,
--              Drain and Shutdown (the end of the worker), Handed (what the sink is handed)
--   Amqp       src/tokenweir/amqp.py. State: the fields of `AMQPSink`; Connect: `from_url`;
--              Sink: `emit`, `close` and the internals (`_live_channel`, `_may_dial`,
--              `_invalidate`, `_release`), over a driver that is a parameter. Proofs: Counts,
--              Refusals, Dials, Pace (the cap of the dial window), Backoff
--   Hook       src/tokenweir/claude_code.py. Counts: `TokenTotals`, `_coerce_count`, `turn_delta`;
--              Text: `str.strip`; Transcript: `scan_transcript`; Pipeline: the baseline,
--              `_dropped_count` and `run`; Fields: `read_hook_input`, `attribution_from_env`,
--              `build_fields`; Emitted: `run` from `build_fields` to the record; Selection:
--              `select_sink`. Proofs: Arithmetic, Scan, Identity, Turns, Stripping, Attribution
--              (with the orchestrator's end) and Contracted (with the contract)
--   Postgres   src/tokenweir/postgres.py. Rows: `_timestamp_for`, `row_for`, `rows_for`; Write:
--              `PostgresSource.write` over a connection that is a parameter. Proofs: Atomic
--   Migrations src/tokenweir/migrations/__init__.py. Comments: `_strip_comments` and
--              `destructive_statements`; Shipped: `discover`; Database: the connection, and how a
--              call ends; Runner: `applied_versions`, `_check_applied`, `pending`,
--              `_advisory_lock`; Apply: `apply` and `status`. Proofs: Laws (what is relied on of
--              the connection), Lexing, Reading, Whole, Answer and Stopped
--   Orchestrator src/tokenweir/orchestrator.py. Phase: `PhaseKind`, `_collapse`, `_parse_phase`;
--              Decimal: the print and `int` of a number; Label: `phase_label`, `normalize_phase`,
--              `is_canonical_phase`; Block: `attribution_env`. Proofs: Spaces, Reading, Normal,
--              Canonical
--   Parity     src/tokenweir/parity.py. Turns: `_blocks` and `iter_turns`; Compare:
--              `compare_usage`. Proofs: Keys and Agreement (with the hook's scan), Coverage
--   Reconcile  src/tokenweir/reconcile.py. Text: `_quote`, `_one_line` and other texts; Definitions
--              and Constants: the patterns; Schema: what a snapshot holds; Report: the plan and its
--              rendering; Wording: the discrepancies; Connection: the server; Columns, Tables,
--              RateCard: the comparisons; Catalog: `_snapshot`, `_ordered`, `_normalise_baseline`;
--              Run: `reference_snapshot` and `plan`; Apply: `apply` (here `apply_plan`). Proofs:
--              Laws (what is relied on of the connection), ReadOnly, Matching (when schemas match),
--              Compares, ComparedColumns, ComparedTables, ComparedView, ReportedCard,
--              ComparedRelations, Ordering, Planned, Planning, Settled, Executed, Applied, Quoting
--   Samples    data for the tests; each component's tests and witnesses are in its module Tests
--
-- How code is read
--   A ValueError or TypeError is an `err` of `Result`, another exception an `Outcome`: what
--   `except Exception` catches is an `exception`, the rest a `base_exception`. A record that has
--   passed its checks holds what they establish, so a text that was given as a member of
--   `PricingMode` (a subclass of str) is its value, which is equal to it in Python. Floats are
--   read as: an integer, a fraction with its floor, or one of nan and the infinities. Times are
--   natural numbers of one small unit, and a function that reads a clock takes the reading, except
--   in the broker sink, whose driver has the clock. Log lines are kept where a caller can tell
--   them apart. Objects and locks become explicit states: a function is one critical section, and
--   the emitter's threads are interleaved by a step relation in any order.
--
-- Parameters
--   SHA-256, the classes of characters of Python's `re`, its digits and `str.lower` are parameters,
--   and so are `==` of two values of JSON, the division of two numbers, the searches for CREATE
--   TABLE and CREATE VIEW in the SQL of a migration, and `date.fromisoformat`; `IsDecimal` and
--   `IsLower` say what these are on ASCII. A sink's `emit`, `emit_batch` and `close`, a store's
--   `write` and `close`, the driver of the broker with its clock, a database connection,
--   `json.loads`, `json.dumps` and the parsing of times are parameters, of which nothing is assumed
--   but by the hypotheses of a theorem: `Conforms` says that a sink raises nothing but `Exception`,
--   `IsTransactional` what a database makes durable, `RaisesExceptions` that the statements of a
--   migration raise nothing but `Exception`, `Observed` that the clock is monotonic and that only
--   opening a connection dials, and the round trip through JSON that the library reads back the
--   object that it has written for the record. How PostgreSQL reads a quoted identifier is written
--   down in Quoting after its documentation. In the hook's `run`, the answer of the emitter and the
--   counters after it are parameters of the turn, and so is whether the baseline could be written.
--
-- Bounds and fuel
--   Python's integers are unbounded and so are the model's. The fuel of the emitter's worker in
--   Drain is a number of steps, and `measure` is shown to be enough of it; that of the decimal
--   print is the number itself and one more, with which the print is read back as the number.
--
-- Not modelled
--   The command line of the migrations (src/tokenweir/migrations/__main__.py) and the consistency
--   checks, probes and report of src/tokenweir/parity.py; of the reconciliation, the text of the
--   catalogue's queries; of the emitter, the start of the thread, the waiting itself and the exit
--   hook; of the broker sink, the import of pika and the masking of URLs in log lines; of the
--   PostgreSQL source, the opening and closing of the connection; of the hook, the paths and the
--   writing of files, and `main`. A warning of the broker sink is kept as the message that is
--   passed to its warner.
pub mod Prelude
pub mod Python
pub mod RateLimit
pub mod Contract
pub mod Sink
pub mod Emitter
pub mod Amqp
pub mod Hook
pub mod Postgres
pub mod Migrations
pub mod Orchestrator
pub mod Parity
pub mod Reconcile
pub mod Samples
