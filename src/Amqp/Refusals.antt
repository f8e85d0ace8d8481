-- ===== src/Amqp/Refusals.antt =====
-- Nothing that can be caught is raised, a closed sink publishes nothing, and a channel that was handed
-- over is kept.
use tokenweir.Prelude.{
  ◌+◌, String, true, false, ◌≡◌, ◌≢◌, refl, Option, none, some, List, [], ◌∷◌, arith, Option-cases,
  inl, inr, length,
}
use tokenweir.Python.{exception, base_exception, Outcome, returned, raised}
use tokenweir.Contract.Record.{UsageRecord, Object, usage, other_object}
use tokenweir.Amqp.State.{Driver, AmqpSink, World}
use tokenweir.Amqp.Connect.{connect}
use tokenweir.Amqp.Sink.{
  message_for, may_dial, dialled, redial, redial_if, reconnect, live_channel, closing, release,
  judge, forget, invalidate, drop_one, report, publishing, publish_on, emit, close, run, message,
}
use tokenweir.Amqp.Counts.{release-Kept}

module _ {B Conn Chan P : Type 0} (driver : Driver B Conn Chan P) where
  closing_quiet :
      (w : World B Conn Chan P) (o : Outcome (Unit {0}) × B)
      → (closing driver w o).0 ≢ raised exception
  unfolding closing
  closing_quiet w (returned _, b) = ground arith
  closing_quiet w (raised exception, b) = ground arith
  closing_quiet w (raised base_exception, b) = ground arith

  release_quiet : (w : World B Conn Chan P) → (release driver w).0 ≢ raised exception
  unfolding release
  release_quiet w = elim (Option-cases w.sink.connection) [
    | inl e ↦ ground arith
    | inr (c, e) ↦ ground (arith, closing_quiet w (driver.close_connection c w.broker))
  ]

  invalidated_quiet :
      (o : Outcome (Unit {0}) × World B Conn Chan P)
      → o.0 ≢ raised exception
      → (report driver (forget driver o)).0 ≢ raised exception
  unfolding forget report
  invalidated_quiet (returned _, w) h = ground arith
  invalidated_quiet (raised e, w) h = ground arith

  report_quiet :
      (w : World B Conn Chan P) → (report driver (invalidate driver w)).0 ≢ raised exception
  unfolding invalidate report
  report_quiet w =
      ground
        (arith, release_quiet (judge driver w), invalidated_quiet (release driver (judge driver w)))

  publishing_quiet :
      (w : World B Conn Chan P) (o : Outcome (Unit {0}) × B)
      → (publishing driver w o).0 ≢ raised exception
  unfolding publishing
  publishing_quiet w (returned _, b) = ground arith
  publishing_quiet w (raised base_exception, b) = ground arith
  publishing_quiet w (raised exception, b) =
      ground (arith, report_quiet (drop_one driver (record w { broker = b })))

  publish_on_quiet :
      (body : String) (o : Outcome (Option Chan) × World B Conn Chan P)
      → o.0 ≢ raised exception
      → (publish_on driver body o).0 ≢ raised exception
  unfolding publish_on
  publish_on_quiet body (returned (some ch), w) h = publishing_quiet w _
  publish_on_quiet body (returned none, w) h = ground arith
  publish_on_quiet body (raised e, w) h = ground arith

  dialled_quiet :
      (w : World B Conn Chan P) (o : Outcome (Conn × Chan) × B)
      → (dialled driver w o).0 ≢ raised exception
  unfolding dialled
  dialled_quiet w (returned (c, ch), b) = ground arith
  dialled_quiet w (raised exception, b) = ground arith
  dialled_quiet w (raised base_exception, b) = ground arith

  redial_quiet : (w : World B Conn Chan P) → (redial driver w).0 ≢ raised exception
  unfolding redial redial_if
  redial_quiet w =
      ground
        (arith, dialled_quiet (may_dial driver w).1 (connect driver (may_dial driver w).1.broker))

  live_channel_quiet : (w : World B Conn Chan P) → (live_channel driver w).0 ≢ raised exception
  unfolding live_channel reconnect
  live_channel_quiet w =
      ground (arith, redial_quiet (record w { broker = (driver.clock w.broker).1 }))

  -- Neither `emit` nor `close` raises what `except Exception` can catch.
  pub emit-raised :
      (encode : UsageRecord → String) (o : Object) (w : World B Conn Chan P)
      → ((emit driver encode o w).0 ≢ raised exception) × ((close driver w).0 ≢ raised exception)
  unfolding emit message_for close
  emit-raised encode other_object w =
      ground (arith, release_quiet (record w { sink = record w.sink { closed = true } }))
  emit-raised encode (usage r) w = ground (
    arith,
    release_quiet (record w { sink = record w.sink { closed = true } }),
    live_channel_quiet w,
    publish_on_quiet (encode r) (live_channel driver w),
  )

  closed-run :
      (encode : UsageRecord → String) (os : List Object) (w : World B Conn Chan P)
      → w.sink.closed ≡ true
      → let w' = run driver encode os w in
        (w'.broker ≡ w.broker)
        × (w'.sink.published ≡ w.sink.published)
        × (w'.sink.dropped ≡ w.sink.dropped + length os)
  unfolding run emit message_for
  closed-run encode [] w h = ground arith
  closed-run encode (usage r ∷ os) w h =
      ground (arith, closed-run encode os (emit driver encode (usage r) w).1)
  closed-run encode (other_object ∷ os) w h =
      ground (arith, closed-run encode os (emit driver encode other_object w).1)

  close_lem :
      (w : World B Conn Chan P)
      → let k = (close driver w).1.sink in
        (k.closed ≡ true) × (k.published ≡ w.sink.published) × (k.dropped ≡ w.sink.dropped)
  unfolding close
  close_lem w =
      ground (arith, release-Kept driver (record w { sink = record w.sink { closed = true } }))

  close_again : (w : World B Conn Chan P) → w.sink.closed ≡ true → close driver w ≡ (returned tt, w)
  unfolding close
  close_again w h = rw h

  -- After `close`, however it ended, no call of `emit` changes the state of the broker: each is
  -- counted as dropped, and a second `close` does nothing.
  pub close-run :
      (encode : UsageRecord → String) (os : List Object) (w : World B Conn Chan P)
      → let w' = (close driver w).1 in
        let end = run driver encode os w' in
        (end.broker ≡ w'.broker)
        × (end.sink.published ≡ w.sink.published)
        × (end.sink.dropped ≡ w.sink.dropped + length os)
        × (close driver w' ≡ (returned tt, w'))
  close-run encode os w =
      let w' = (close driver w).1 in
      let off = close_lem w in
      let quiet = closed-run encode os w' off.0 in
      (quiet.0, cc (quiet.1, off.1), omega (arith, quiet.2, off.2), close_again w' off.0)

  -- The world outside after one publish on the channel for each record, in their order.
  abbrev pub after_publishes :
      (UsageRecord → String) → AmqpSink Conn Chan P → Chan → List Object → B → B
  after_publishes encode k ch [] b = b
  after_publishes encode k ch (other_object ∷ os) b = after_publishes encode k ch os b
  after_publishes encode k ch (usage r ∷ os) b =
      after_publishes encode k ch os (driver.basic_publish ch (message driver k (encode r)) b).1

  -- An open sink with a channel that it cannot make again.
  pub record IsBorrowed (ch : Chan) (j k : AmqpSink Conn Chan P) : Type 0 where
    pub channel : k.channel ≡ some ch
    pub connection : k.connection ≡ j.connection
    pub reconnects : k.reconnects ≡ false
    pub closed : k.closed ≡ false
    pub exchange : k.exchange ≡ j.exchange
    pub routing_key : k.routing_key ≡ j.routing_key
    pub properties : k.properties ≡ j.properties

  publishing-IsBorrowed :
      (ch : Chan) (k : AmqpSink Conn Chan P) (w : World B Conn Chan P) (o : Outcome (Unit {0}) × B)
      → IsBorrowed ch k w.sink
      → let w' = (publishing driver w o).1 in IsBorrowed ch k w'.sink × (w'.broker ≡ o.1)
  unfolding publishing invalidate report
  publishing-IsBorrowed ch k w (returned _, b) h = ground arith
  publishing-IsBorrowed ch k w (raised exception, b) h = ground arith
  publishing-IsBorrowed ch k w (raised base_exception, b) h = ground arith

  -- An open sink that cannot reconnect keeps its channel and its connection, whatever the
  -- publishes on the channel do: the broker sees one publish on that channel for each record, in
  -- their order, and nothing else.
  pub run-IsBorrowed :
      (encode : UsageRecord → String) (os : List Object) (ch : Chan) (k : AmqpSink Conn Chan P)
      (w : World B Conn Chan P)
      → IsBorrowed ch k w.sink
      → let w' = run driver encode os w in
        IsBorrowed ch k w'.sink × (w'.broker ≡ after_publishes encode k ch os w.broker)
  unfolding run emit message_for live_channel publish_on
  run-IsBorrowed encode [] ch k w h = (h, refl)
  run-IsBorrowed encode (other_object ∷ os) ch k w h =
      ground (arith, run-IsBorrowed encode os ch k (emit driver encode other_object w).1)
  run-IsBorrowed encode (usage r ∷ os) ch k w h =
      let step =
        publishing-IsBorrowed ch k w
          (driver.basic_publish ch (message driver k (encode r)) w.broker) h in
      ground (arith, run-IsBorrowed encode os ch k (emit driver encode (usage r) w).1, step)
