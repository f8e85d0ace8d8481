-- ===== src/Emitter/State.antt =====
-- emitter.py: the state of a `BufferedEmitter` and its counters.
use tokenweir.Prelude.{ℕ, ◌+◌, Bool, true, false, List, [], length}
use tokenweir.RateLimit
use tokenweir.RateLimit.{Warner}
use tokenweir.Contract.Record.{UsageRecord}

-- `EmitterStats`
pub record EmitterStats : Type 0 where
  pub accepted : ℕ
  pub delivered : ℕ
  pub failed : ℕ
  pub dropped_buffer_full : ℕ
  pub dropped_not_a_record : ℕ
  pub dropped_closed : ℕ
  pub dropped_at_close : ℕ
  pub buffered : ℕ
  pub worker_alive : Bool

-- `EmitterStats.dropped`
abbrev pub dropped : EmitterStats → ℕ
dropped s =
    s.failed + s.dropped_buffer_full + s.dropped_not_a_record + s.dropped_closed
    + s.dropped_at_close

-- The fields that change or that a bound is read from. (The timeout of `close` only says when the
-- waiting ends.)
pub record Emitter : Type 0 where
  pub max_buffer : ℕ
  pub batch_size : ℕ
  pub linger : ℕ
  pub buffer : List UsageRecord
  pub in_flight : ℕ
  pub flush_waiters : ℕ
  pub stopping : Bool
  pub closed : Bool
  pub sink_closed : Bool
  pub worker_alive : Bool
  pub accepted : ℕ
  pub delivered : ℕ
  pub failed : ℕ
  pub dropped_buffer_full : ℕ
  pub dropped_not_a_record : ℕ
  pub dropped_closed : ℕ
  pub dropped_at_close : ℕ
  pub warner : Warner

-- `BufferedEmitter.__init__`, after its arguments have passed their checks
abbrev pub new : ℕ → ℕ → ℕ → ℕ → Emitter
new max_buffer batch_size linger warn_interval = record {
  max_buffer = max_buffer;
  batch_size = batch_size;
  linger = linger;
  buffer = [];
  in_flight = 0;
  flush_waiters = 0;
  stopping = false;
  closed = false;
  sink_closed = false;
  worker_alive = true;
  accepted = 0;
  delivered = 0;
  failed = 0;
  dropped_buffer_full = 0;
  dropped_not_a_record = 0;
  dropped_closed = 0;
  dropped_at_close = 0;
  warner = RateLimit.new warn_interval;
}

-- `BufferedEmitter.stats`
unfoldable pub stats : Emitter → EmitterStats
stats e = record {
  accepted = e.accepted;
  delivered = e.delivered;
  failed = e.failed;
  dropped_buffer_full = e.dropped_buffer_full;
  dropped_not_a_record = e.dropped_not_a_record;
  dropped_closed = e.dropped_closed;
  dropped_at_close = e.dropped_at_close;
  buffered = length e.buffer;
  worker_alive = e.worker_alive;
}
