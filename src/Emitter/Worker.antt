-- ===== src/Emitter/Worker.antt =====
-- emitter.py: the delivery worker, `_run`, step by step. A step ends where the source waits or gives
-- up its lock; a call of the sink and the counting of its outcome are one step, since only the worker
-- writes what they touch.
use tokenweir.Prelude.{
  ℕ, suc, ◌+◌, String, true, false, ◌&&◌, not, Option, none, some, List, [], ◌∷◌, length, take,
  drop, is_empty, min, ltb, ◌==◌, if◌then◌else◌,
}
use tokenweir.Python.{exception, base_exception, Outcome, returned, raised}
use tokenweir.Contract.Record.{UsageRecord}
use tokenweir.Emitter.State.{Emitter}
use tokenweir.Emitter.Producer.{warned}

abbrev pub delivery_failed : String
delivery_failed =
    "tokenweir: usage records not delivered — the sink failed; no metering for these calls"

abbrev pub worker_died : String
worker_died =
    "tokenweir: the emitter's delivery worker stopped unexpectedly; buffered records will not be delivered"

abbrev pub sink_close_failed : String
sink_close_failed = "tokenweir: the sink raised while closing; releasing it anyway"

-- The wrapped sink, on a state of its own: `emit`, `emit_batch` if it is a `BatchSink`, and `close`
-- if it has one.
pub record Sink (S : Type 0) : Type 0 where
  pub emit : UsageRecord → S → Outcome (Unit {0}) × S
  pub emit_batch : Option (List UsageRecord → S → Outcome (Unit {0}) × S)
  pub close : Option (S → Outcome (Unit {0}) × S)

-- Where the worker stands: at the wait for work, lingering until a deadline, in `_deliver` with the
-- records of the batch that are left, behind its loop and before `_close_sink`, or at its end.
pub data Phase : Type 0 where
  waiting : Phase
  lingering : ℕ → Phase
  delivering : List UsageRecord → Phase
  closing : Phase
  finished : Phase

-- What the worker changes: the emitter, its own place, the sink.
pub record Config (S : Type 0) : Type 0 where
  pub emitter : Emitter
  pub phase : Phase
  pub sink : S

-- the end of `_next_batch`: a batch is taken
unfoldable pub take_batch : {S : Type 0} → Config S → Config S
take_batch c =
    let e = c.emitter in
    let size = min (length e.buffer) e.batch_size in
    record c {
      emitter = record e { buffer = drop size e.buffer; in_flight = size };
      phase = delivering (take size e.buffer);
    }

-- the end of `_run`: its `finally`, up to the closing of the sink
unfoldable pub leave : {S : Type 0} → Config S → Config S
leave c = record c {
  emitter = record c.emitter { worker_alive = false; in_flight = 0 };
  phase = closing;
}

-- `_next_batch`, from its start to the first wait
unfoldable pub look : {S : Type 0} → ℕ → Config S → Config S
look now c =
    let e = c.emitter in
    if is_empty e.buffer
    then (if e.stopping then leave c else c)
    else if ltb 0 e.linger && ltb (length e.buffer) e.batch_size
    then record c { phase = lingering (now + e.linger) }
    else take_batch c

-- the loop of `_next_batch` that lingers: one look at its conditions
unfoldable pub keep_lingering : {S : Type 0} → ℕ → ℕ → Config S → Config S
keep_lingering now deadline c =
    let e = c.emitter in
    if ltb (length e.buffer) e.batch_size
      && not e.stopping
      && e.flush_waiters == 0
      && ltb now deadline
    then c
    else take_batch c

-- what follows a call of the sink with `n` records, after which `rest` is left of the batch
unfoldable pub account :
    {S : Type 0} → ℕ → ℕ → List UsageRecord → Config S → Outcome (Unit {0}) × S → Config S
unfolding leave
account now n rest c (returned _, s) = record c {
  emitter = record c.emitter { delivered = c.emitter.delivered + n };
  phase = delivering rest;
  sink = s;
}
account now n rest c (raised exception, s) = record c {
  emitter = warned now delivery_failed (record c.emitter { failed = c.emitter.failed + n });
  phase = delivering rest;
  sink = s;
}
account now n rest c (raised base_exception, s) =
    leave (record c { emitter = warned now worker_died c.emitter; sink = s })

-- `_deliver`, one call of the sink
unfoldable pub deliver :
    {S : Type 0} → Sink S → ℕ → UsageRecord → List UsageRecord → Config S → Config S
unfolding account
deliver sink now r rest c = elim sink.emit_batch [
  | none ↦ account now 1 rest c (sink.emit r c.sink)
  | some send ↦ account now (suc (length rest)) [] c (send (r ∷ rest) c.sink)
]

-- the outcome of the sink's `close`; whatever it is, the thread ends
unfoldable pub sink_released : {S : Type 0} → ℕ → Config S → Outcome (Unit {0}) × S → Config S
sink_released now c (returned _, s) = record c { phase = finished; sink = s }
sink_released now c (raised exception, s) = record c {
  emitter = warned now sink_close_failed c.emitter;
  phase = finished;
  sink = s;
}
sink_released now c (raised base_exception, s) = record c { phase = finished; sink = s }

-- `_close_sink`
unfoldable pub close_sink : {S : Type 0} → Sink S → ℕ → Config S → Config S
unfolding sink_released
close_sink sink now c =
    if c.emitter.sink_closed
    then record c { phase = finished }
    else let c' = record c { emitter = record c.emitter { sink_closed = true } } in
      elim sink.close [
        | none ↦ record c' { phase = finished }
        | some release ↦ sink_released now c' (release c.sink)
      ]

-- `_run`: one step
unfoldable pub work_at : {S : Type 0} → Sink S → ℕ → Phase → Config S → Config S
unfolding look keep_lingering deliver close_sink
work_at sink now waiting c = look now c
work_at sink now (lingering deadline) c = keep_lingering now deadline c
work_at sink now (delivering []) c = record c {
  emitter = record c.emitter { in_flight = 0 };
  phase = waiting;
}
work_at sink now (delivering (r ∷ rest)) c = deliver sink now r rest c
work_at sink now closing c = close_sink sink now c
work_at sink now finished c = c

unfoldable pub work : {S : Type 0} → Sink S → ℕ → Config S → Config S
unfolding work_at
work sink now c = work_at sink now c.phase c
