-- ===== src/Amqp/Sink.antt =====
-- amqp.py: `message_for`, `emit`, `close` and the internals of `AMQPSink`.
use tokenweir.Prelude.{
  ℕ, ◌+◌, String, Bool, true, false, Option, none, some, List, [], ◌∷◌, ltb, leb, ◌==◌,
  if◌then◌else◌,
}
use tokenweir.Python.{exception, base_exception, Outcome, returned, raised}
use tokenweir.Contract.Record.{UsageRecord, Object, usage, other_object}
use tokenweir.Amqp.Connect.{connect}
use tokenweir.Amqp.State.{
  Warning, publish_failed, reconnect_failed, close_failed, not_a_record, sink_closed, no_channel,
  dial_ceiling_reached, awaiting_redial, awaiting_publishable, Driver, Message, AmqpSink, World,
  max_dials_per_interval,
}

-- `message_for`, over `to_json` with compact separators and sorted keys; the TypeError for what is
-- no record is `none`
unfoldable pub message_for : (UsageRecord → String) → Object → Option String
message_for encode (usage r) = some (encode r)
message_for encode other_object = none

-- `_may_dial` at a reading of the clock, which a zero interval does not take
unfoldable pub may_dial_at :
    {Conn Chan P : Type 0} → ℕ → AmqpSink Conn Chan P → Bool × AmqpSink Conn Chan P
may_dial_at now k =
    let k' =
      if leb k.dial_window_ends now
      then record k { dial_window_ends = now + k.reconnect_interval; dials_in_window = 0 }
      else k in
    if leb max_dials_per_interval k'.dials_in_window
    then (false, k')
    else (true, record k' { dials_in_window = k'.dials_in_window + 1 })

module _ {B Conn Chan P : Type 0} (driver : Driver B Conn Chan P) where
  abbrev pub warn : Warning → World B Conn Chan P → World B Conn Chan P
  warn message w = record w { warnings = message ∷ w.warnings }

  -- a reading of the sink's clock
  abbrev pub tick : World B Conn Chan P → ℕ × World B Conn Chan P
  tick w = let (now, b) = driver.clock w.broker in (now, record w { broker = b })

  -- `_may_dial`
  unfoldable pub may_dial : World B Conn Chan P → Bool × World B Conn Chan P
  unfolding may_dial_at
  may_dial w =
      if w.sink.reconnect_interval == 0
      then (true, w)
      else let (now, w') = tick w in
        let (answer, k) = may_dial_at now w'.sink in (answer, record w' { sink = k })

  -- the outcome of `_reconnect()` in `_live_channel`
  unfoldable pub dialled :
      World B Conn Chan P → Outcome (Conn × Chan) × B → Outcome (Option Chan) × World B Conn Chan P
  dialled w (returned (c, ch), b) = (
    returned (some ch),
    record w { sink = record w.sink { connection = some c; channel = some ch }; broker = b },
  )
  dialled w (raised exception, b) =
      let (now, w') = tick (record w { broker = b }) in
      let k = w'.sink in
      (
        returned none,
        warn reconnect_failed (record w' {
          sink = record k {
            next_reconnect_at = now + k.reconnect_interval;
            backoff_message = awaiting_redial;
          };
        }),
      )
  dialled w (raised base_exception, b) = (raised base_exception, record w { broker = b })

  -- `_live_channel`, with the answer of `_may_dial`
  unfoldable pub redial_if :
      Bool × World B Conn Chan P → Outcome (Option Chan) × World B Conn Chan P
  unfolding dialled
  redial_if (true, w) = dialled w (connect driver w.broker)
  redial_if (false, w) = (returned none, warn dial_ceiling_reached w)

  -- `_live_channel`, once the interval is over
  unfoldable pub redial : World B Conn Chan P → Outcome (Option Chan) × World B Conn Chan P
  unfolding may_dial redial_if
  redial w = redial_if (may_dial w)

  -- `_live_channel`, without a channel
  unfoldable pub reconnect : World B Conn Chan P → Outcome (Option Chan) × World B Conn Chan P
  unfolding redial
  reconnect w =
      if w.sink.reconnects
      then (let (now, w') = tick w in
          if ltb now w'.sink.next_reconnect_at
          then (returned none, warn w'.sink.backoff_message w')
          else redial w')
      else (returned none, warn no_channel w)

  -- `_live_channel`
  unfoldable pub live_channel : World B Conn Chan P → Outcome (Option Chan) × World B Conn Chan P
  unfolding reconnect
  live_channel w = elim w.sink.channel [ some ch ↦ (returned (some ch), w) | none ↦ reconnect w ]

  -- the outcome of `self._connection.close()` in `_release`
  unfoldable pub closing :
      World B Conn Chan P → Outcome (Unit {0}) × B → Outcome (Unit {0}) × World B Conn Chan P
  closing w (returned _, b) = (returned tt, record w { broker = b })
  closing w (raised exception, b) = (returned tt, warn close_failed (record w { broker = b }))
  closing w (raised base_exception, b) = (raised base_exception, record w { broker = b })

  -- `_release`
  unfoldable pub release : World B Conn Chan P → Outcome (Unit {0}) × World B Conn Chan P
  unfolding closing
  release w = elim w.sink.connection [
    | some c ↦
        if w.sink.owns_connection
        then closing w (driver.close_connection c w.broker)
        else (returned tt, w)
    | none ↦ (returned tt, w)
  ]

  -- the first half of `_invalidate`: whether the next dial waits
  unfoldable pub judge : World B Conn Chan P → World B Conn Chan P
  judge w =
      let k = w.sink in
      if k.connection_publishes == 0
      then (let n = k.consecutive_unproductive + 1 in
          if ltb 1 n
          then (let (now, w') = tick w in
              record w' {
                sink = record k {
                  consecutive_unproductive = n;
                  next_reconnect_at = now + k.reconnect_interval;
                  backoff_message = awaiting_publishable;
                };
              })
          else record w { sink = record k { consecutive_unproductive = n } })
      else record w { sink = record k { consecutive_unproductive = 0 } }

  -- the second half of `_invalidate`, after `_release`
  unfoldable pub forget :
      Outcome (Unit {0}) × World B Conn Chan P → Outcome (Unit {0}) × World B Conn Chan P
  forget (returned _, w) = (
    returned tt,
    record w {
      sink = record w.sink { channel = none; connection = none; connection_publishes = 0 };
    },
  )
  forget (raised e, w) = (raised e, w)

  -- `_invalidate`
  unfoldable pub invalidate : World B Conn Chan P → Outcome (Unit {0}) × World B Conn Chan P
  unfolding judge forget
  invalidate w = if w.sink.reconnects then forget (release (judge w)) else (returned tt, w)

  -- a drop that is counted
  abbrev pub drop_one : World B Conn Chan P → World B Conn Chan P
  drop_one w = record w { sink = record w.sink { dropped = w.sink.dropped + 1 } }

  -- the warning about a publish that failed, unless `_invalidate` has raised
  unfoldable pub report :
      Outcome (Unit {0}) × World B Conn Chan P → Outcome (Unit {0}) × World B Conn Chan P
  report (returned _, w) = (returned tt, warn publish_failed w)
  report (raised e, w) = (raised e, w)

  -- the outcome of `channel.basic_publish`
  unfoldable pub publishing :
      World B Conn Chan P → Outcome (Unit {0}) × B → Outcome (Unit {0}) × World B Conn Chan P
  unfolding invalidate report
  publishing w (returned _, b) =
      let k = w.sink in
      (
        returned tt,
        record w {
          sink = record k {
            published = k.published + 1;
            connection_publishes = k.connection_publishes + 1;
          };
          broker = b;
        },
      )
  publishing w (raised exception, b) = report (invalidate (drop_one (record w { broker = b })))
  publishing w (raised base_exception, b) = (raised base_exception, record w { broker = b })

  -- the arguments of `basic_publish`
  abbrev pub message : AmqpSink Conn Chan P → String → Message P
  message k body = record {
    exchange = k.exchange;
    routing_key = k.routing_key;
    body = body;
    properties = k.properties;
  }

  -- `emit`, with the answer of `_live_channel`
  unfoldable pub publish_on :
      String
      → Outcome (Option Chan) × World B Conn Chan P
      → Outcome (Unit {0}) × World B Conn Chan P
  unfolding publishing
  publish_on body (returned (some ch), w) =
      publishing w (driver.basic_publish ch (message w.sink body) w.broker)
  publish_on body (returned none, w) = (returned tt, drop_one w)
  publish_on body (raised e, w) = (raised e, w)

  -- `AMQPSink.emit`
  unfoldable pub emit :
      (UsageRecord → String)
      → Object
      → World B Conn Chan P
      → Outcome (Unit {0}) × World B Conn Chan P
  unfolding message_for live_channel publish_on
  emit encode o w = elim (message_for encode o) [
    | none ↦ (returned tt, warn not_a_record (drop_one w))
    | some body ↦
        if w.sink.closed
        then (returned tt, warn sink_closed (drop_one w))
        else publish_on body (live_channel w)
  ]

  -- `AMQPSink.close`
  unfoldable pub close : World B Conn Chan P → Outcome (Unit {0}) × World B Conn Chan P
  unfolding release
  close w =
      if w.sink.closed
      then (returned tt, w)
      else release (record w { sink = record w.sink { closed = true } })

  -- A run of calls of `emit`. One that raises what is no `Exception` does not end it: the caller may go on.
  unfoldable pub run :
      (UsageRecord → String) → List Object → World B Conn Chan P → World B Conn Chan P
  unfolding emit
  run encode [] w = w
  run encode (o ∷ os) w = run encode os (emit encode o w).1
