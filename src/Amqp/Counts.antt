-- ===== src/Amqp/Counts.antt =====
-- Each record is counted once, nothing that can be caught is raised, and a closed sink publishes nothing.
use tokenweir.Prelude.{
  suc, ◌+◌, String, ◌≡◌, Option, none, some, arith, Option-cases, inl, inr, subst,
}
use tokenweir.Python.{exception, base_exception, Outcome, returned, raised}
use tokenweir.Contract.Record.{UsageRecord, Object, usage, other_object}
use tokenweir.Amqp.State.{Driver, AmqpSink, World}
use tokenweir.Amqp.Connect.{connect}
use tokenweir.Amqp.Sink.{
  message_for, may_dial_at, may_dial, dialled, redial, redial_if, reconnect, live_channel, closing,
  release, judge, forget, invalidate, drop_one, report, publishing, publish_on, emit,
}

-- What a reconnection leaves alone.
pub record Kept {Conn Chan P : Type 0} (k k' : AmqpSink Conn Chan P) : Type 0 where
  pub published : k'.published ≡ k.published
  pub dropped : k'.dropped ≡ k.dropped
  pub closed : k'.closed ≡ k.closed
  pub reconnects : k'.reconnects ≡ k.reconnects
  pub owns_connection : k'.owns_connection ≡ k.owns_connection
  pub reconnect_interval : k'.reconnect_interval ≡ k.reconnect_interval

module _ {B Conn Chan P : Type 0} (driver : Driver B Conn Chan P) where
  may_dial-Kept : (w : World B Conn Chan P) → Kept w.sink (may_dial driver w).1.sink
  unfolding may_dial may_dial_at
  may_dial-Kept w = ground arith

  dialled-Kept :
      (w : World B Conn Chan P) (o : Outcome (Conn × Chan) × B)
      → Kept w.sink (dialled driver w o).1.sink
  unfolding dialled
  dialled-Kept w (returned (c, ch), b) = ground arith
  dialled-Kept w (raised exception, b) = ground arith
  dialled-Kept w (raised base_exception, b) = ground arith

  redial-Kept : (w : World B Conn Chan P) → Kept w.sink (redial driver w).1.sink
  unfolding redial redial_if
  redial-Kept w =
      let w' = (may_dial driver w).1 in
      ground (arith, may_dial-Kept w, dialled-Kept w' (connect driver w'.broker))

  pub live_channel-Kept : (w : World B Conn Chan P) → Kept w.sink (live_channel driver w).1.sink
  unfolding live_channel reconnect
  live_channel-Kept w =
      ground (arith, redial-Kept (record w { broker = (driver.clock w.broker).1 }))

  closing-Kept :
      (w : World B Conn Chan P) (o : Outcome (Unit {0}) × B)
      → Kept w.sink (closing driver w o).1.sink
  unfolding closing
  closing-Kept w (returned _, b) = ground arith
  closing-Kept w (raised exception, b) = ground arith
  closing-Kept w (raised base_exception, b) = ground arith

  pub release-Kept : (w : World B Conn Chan P) → Kept w.sink (release driver w).1.sink
  unfolding release
  release-Kept w = elim (Option-cases w.sink.connection) [
    | inl e ↦ ground arith
    | inr (c, e) ↦ ground (arith, closing-Kept w (driver.close_connection c w.broker))
  ]

  judge-Kept : (w : World B Conn Chan P) → Kept w.sink (judge driver w).sink
  unfolding judge
  judge-Kept w = ground arith

  forget-Kept :
      (k : AmqpSink Conn Chan P) (o : Outcome (Unit {0}) × World B Conn Chan P)
      → Kept k o.1.sink
      → Kept k (forget driver o).1.sink
  unfolding forget
  forget-Kept k (returned _, w) h = ground arith
  forget-Kept k (raised e, w) h = ground arith

  pub invalidate-Kept : (w : World B Conn Chan P) → Kept w.sink (invalidate driver w).1.sink
  unfolding invalidate
  invalidate-Kept w = ground (
    arith,
    judge-Kept w,
    release-Kept (judge driver w),
    forget-Kept (judge driver w).sink (release driver (judge driver w)),
  )

  -- One more record is counted, as published or as dropped, if the call has returned.
  abbrev CountsOne : AmqpSink Conn Chan P → Outcome (Unit {0}) × World B Conn Chan P → Type 0
  CountsOne k (returned _, w') = w'.sink.published + w'.sink.dropped ≡ suc (k.published + k.dropped)
  CountsOne k (raised e, w') = Unit

  report-CountsOne :
      (k j : AmqpSink Conn Chan P) (o : Outcome (Unit {0}) × World B Conn Chan P)
      → j.published + j.dropped ≡ suc (k.published + k.dropped)
      → Kept j o.1.sink
      → CountsOne k (report driver o)
  unfolding report
  report-CountsOne k j (returned _, w) h kept = ground arith
  report-CountsOne k j (raised e, w) h kept = tt

  publishing-CountsOne :
      (k : AmqpSink Conn Chan P) (w : World B Conn Chan P) (o : Outcome (Unit {0}) × B)
      → Kept k w.sink
      → CountsOne k (publishing driver w o)
  unfolding publishing
  publishing-CountsOne k w (returned _, b) h = ground arith
  publishing-CountsOne k w (raised base_exception, b) h = tt
  publishing-CountsOne k w (raised exception, b) h =
      let w₁ : World B Conn Chan P = drop_one driver (record w { broker = b }) in
      report-CountsOne k w₁.sink (invalidate driver w₁) (ground arith) (invalidate-Kept w₁)

  publish_on-CountsOne :
      (body : String) (k : AmqpSink Conn Chan P) (o : Outcome (Option Chan) × World B Conn Chan P)
      → Kept k o.1.sink
      → CountsOne k (publish_on driver body o)
  unfolding publish_on
  publish_on-CountsOne body k (returned (some ch), w) h = publishing-CountsOne k w _ h
  publish_on-CountsOne body k (returned none, w) h = ground arith
  publish_on-CountsOne body k (raised e, w) h = tt

  emit-CountsOne :
      (encode : UsageRecord → String) (o : Object) (w : World B Conn Chan P)
      → CountsOne w.sink (emit driver encode o w)
  unfolding emit message_for
  emit-CountsOne encode other_object w = ground arith
  emit-CountsOne encode (usage r) w =
      ground
        (arith, live_channel-Kept w, publish_on-CountsOne (encode r) w.sink (live_channel driver w))

  -- Every record that is given to `emit` is counted once, as published or as dropped, if the call
  -- returns.
  pub emit-counts :
      (encode : UsageRecord → String) (o : Object) (w w' : World B Conn Chan P)
      → emit driver encode o w ≡ (returned tt, w')
      → w'.sink.published + w'.sink.dropped ≡ w.sink.published + w.sink.dropped + 1
  emit-counts encode o w w' h =
      let one = subst (CountsOne w.sink) h (emit-CountsOne encode o w) in omega arith
