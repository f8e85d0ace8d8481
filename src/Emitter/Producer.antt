-- ===== src/Emitter/Producer.antt =====
-- emitter.py: what the threads around the worker do: `emit`, `close` and `flush`. Each function below
-- is one critical section of the source's lock, with the logging that follows it; its first argument
-- is what the clock of the warner reads.
use tokenweir.Prelude.{
  ℕ, ◌+◌, ◌-◌, String, Bool, true, false, ◌&&◌, none, List, [], ◌∷◌, ◌++◌, length, is_empty, leb,
  ◌==◌, if◌then◌else◌,
}
use tokenweir.RateLimit
use tokenweir.Contract.Record.{Object, usage, other_object}
use tokenweir.Emitter.State.{Emitter}

abbrev pub buffer_full : String
buffer_full =
    "tokenweir: dropping usage record — the emitter buffer is full; the sink is not keeping up or is failing. No metering for this call"

abbrev pub not_a_record : String
not_a_record = "tokenweir: refusing to buffer a non-UsageRecord; no metering for this call"

abbrev pub emitter_closed : String
emitter_closed =
    "tokenweir: dropping usage record — the emitter is closed; no metering for this call"

abbrev pub flush_timed_out : String
flush_timed_out =
    "tokenweir: the emitter did not drain within its close timeout; buffered records may be lost"

abbrev pub warned : ℕ → String → Emitter → Emitter
warned now message e = record e { warner = (RateLimit.warn now message none e.warner).0 }

-- `_offer`
unfoldable pub offer : ℕ → Object → Emitter → Emitter × Bool
offer now other_object e = (
  warned now not_a_record (record e { dropped_not_a_record = e.dropped_not_a_record + 1 }),
  false,
)
offer now (usage r) e =
    if e.closed
    then (warned now emitter_closed (record e { dropped_closed = e.dropped_closed + 1 }), false)
    else if leb e.max_buffer (length e.buffer)
    then (
      warned now buffer_full (record e { dropped_buffer_full = e.dropped_buffer_full + 1 }),
      false,
    )
    else (record e { buffer = e.buffer ++ r ∷ []; accepted = e.accepted + 1 }, true)

-- `emit`
unfoldable pub emit : ℕ → Object → Emitter → Emitter
unfolding offer
emit now r e = (offer now r e).0

-- `emit_batch`
unfoldable pub emit_batch : ℕ → List Object → Emitter → Emitter
unfolding emit
emit_batch now [] e = e
emit_batch now (r ∷ rs) e = emit_batch now rs (emit now r e)

-- `close`, up to the wait for the worker: the flag is tested and set
unfoldable pub begin_close : Emitter → Emitter
begin_close e = if e.closed then e else record e { closed = true; stopping = true }

-- `close`, where the wait has ended and the worker is still alive
unfoldable pub abandon : ℕ → Emitter → Emitter
abandon now e =
    warned now flush_timed_out
      (record e { buffer = []; dropped_at_close = e.dropped_at_close + length e.buffer })

-- `flush`, up to its wait
unfoldable pub begin_flush : Emitter → Emitter
begin_flush e = record e { flush_waiters = e.flush_waiters + 1 }

-- the condition that `flush` waits for
unfoldable pub drained : Emitter → Bool
drained e = if e.worker_alive then is_empty e.buffer && e.in_flight == 0 else true

-- `flush`, after its wait: what it returns
unfoldable pub end_flush : Emitter → Emitter × Bool
end_flush e =
    (record e { flush_waiters = e.flush_waiters - 1 }, is_empty e.buffer && e.in_flight == 0)
