-- ===== src/Amqp/Backoff.antt =====
-- After a dial that failed, and after two connections in a row that could not publish, the sink does
-- not dial for one interval.
use tokenweir.Prelude.{
  ℕ, ◌+◌, ◌≤◌, ◌<◌, String, true, ◌≡◌, none, List, [], ◌∷◌, arith, length, Option-cases, inl, inr,
}
use tokenweir.Python.{exception, base_exception, Outcome, returned, raised}
use tokenweir.Contract.Record.{UsageRecord, Object, usage, other_object}
use tokenweir.Amqp.State.{Driver, AmqpSink, World}
use tokenweir.Amqp.Connect.{connect}
use tokenweir.Amqp.Sink.{
  message_for, dialled, reconnect, live_channel, publish_on, emit, run, judge, forget, release,
  closing, invalidate,
}
use tokenweir.Amqp.Dials.{Observed, publish_on-Quiet, connect-Later}
use tokenweir.Amqp.Pace.{redial-Paces, run-Paces}

-- No channel, and no dial before `t`.
pub record IsWaiting {Conn Chan P : Type 0} (t : ℕ) (k : AmqpSink Conn Chan P) : Type 0 where
  pub channel : k.channel ≡ none
  pub until : t ≤ k.next_reconnect_at

module _ {B Conn Chan P : Type 0} (driver : Driver B Conn Chan P) (time dials : B → ℕ)
    (o : Observed driver time dials) where
  live_channel-IsWaiting :
      (t : ℕ) (w : World B Conn Chan P)
      → IsWaiting t w.sink
      → let (answer, w') = live_channel driver w in
        time w'.broker < t
        → (answer ≡ returned none)
          × IsWaiting t w'.sink
          × (dials w'.broker ≡ dials w.broker)
          × (w'.sink.dropped ≡ w.sink.dropped)
  unfolding live_channel reconnect
  live_channel-IsWaiting t w h lt = ground (
    arith,
    o.clock w.broker,
    redial-Paces driver time dials o 0 (record w { broker = (driver.clock w.broker).1 }),
  )

  emit-IsWaiting :
      (t : ℕ) (encode : UsageRecord → String) (r : Object) (w : World B Conn Chan P)
      → IsWaiting t w.sink
      → let w' = (emit driver encode r w).1 in
        time w'.broker < t
        → IsWaiting t w'.sink
          × (dials w'.broker ≡ dials w.broker)
          × (w'.sink.dropped ≡ w.sink.dropped + 1)
  unfolding emit message_for publish_on
  emit-IsWaiting t encode other_object w h lt = ground arith
  emit-IsWaiting t encode (usage r) w h lt = ground (
    arith,
    live_channel-IsWaiting t w h,
    publish_on-Quiet driver time dials o (encode r) (live_channel driver w),
  )

  run-IsWaiting :
      (t : ℕ) (encode : UsageRecord → String) (rs : List Object) (w : World B Conn Chan P)
      → IsWaiting t w.sink
      → let w' = run driver encode rs w in
        time w'.broker < t
        → (dials w'.broker ≡ dials w.broker) × (w'.sink.dropped ≡ w.sink.dropped + length rs)
  unfolding run
  run-IsWaiting t encode [] w h lt = ground arith
  run-IsWaiting t encode (r ∷ rs) w h lt =
      let v = (emit driver encode r w).1 in
      let ahead = (run-Paces driver time dials o 0 encode rs v).ahead in
      let step = emit-IsWaiting t encode r w h (omega arith) in
      let rest = run-IsWaiting t encode rs v step.0 lt in ground (arith, rest, step)

  -- the dial of `_live_channel` has failed
  dialled-IsWaiting :
      (w w' : World B Conn Chan P) (r : Outcome (Conn × Chan) × B)
      → dialled driver w r ≡ (returned none, w')
      → w.sink.channel ≡ none
      → IsWaiting (time r.1 + w.sink.reconnect_interval) w'.sink
  unfolding dialled
  dialled-IsWaiting w w' (returned (c, ch), b) h e = ground arith
  dialled-IsWaiting w w' (raised exception, b) h e = ground (arith, o.clock b)
  dialled-IsWaiting w w' (raised base_exception, b) h e = ground arith

  -- Over a driver whose clock is monotonic and that dials only to open a connection: after a dial
  -- that failed, no dial is made until one reconnect interval is over, and each record that is
  -- given meanwhile is counted as dropped.
  pub failed_dial-run :
      (encode : UsageRecord → String) (rs : List Object) (w w' : World B Conn Chan P)
      → w.sink.channel ≡ none
      → dialled driver w (connect driver w.broker) ≡ (returned none, w')
      → let end = run driver encode rs w' in
        time end.broker < time w.broker + w.sink.reconnect_interval
        → (dials end.broker ≡ dials w'.broker) × (end.sink.dropped ≡ w'.sink.dropped + length rs)
  failed_dial-run encode rs w w' e h lt =
      let waits = dialled-IsWaiting w w' (connect driver w.broker) h e in
      run-IsWaiting _ encode rs w' waits
        (omega (arith, lt, connect-Later driver time dials o w.broker))

  judge-until :
      (w : World B Conn Chan P)
      → w.sink.connection_publishes ≡ 0
      → 1 ≤ w.sink.consecutive_unproductive
      → time w.broker + w.sink.reconnect_interval ≤ (judge driver w).sink.next_reconnect_at
  unfolding judge
  judge-until w h₀ h₁ = ground (arith, o.clock w.broker)

  closing-until :
      (t : ℕ) (w : World B Conn Chan P) (r : Outcome (Unit {0}) × B)
      → t ≤ w.sink.next_reconnect_at
      → t ≤ (closing driver w r).1.sink.next_reconnect_at
  unfolding closing
  closing-until t w (returned _, b) h = h
  closing-until t w (raised exception, b) h = h
  closing-until t w (raised base_exception, b) h = h

  release-until :
      (t : ℕ) (w : World B Conn Chan P)
      → t ≤ w.sink.next_reconnect_at
      → t ≤ (release driver w).1.sink.next_reconnect_at
  unfolding release
  release-until t w h = elim (Option-cases w.sink.connection) [
    | inl e ↦ ground arith
    | inr (c, e) ↦ ground (arith, closing-until t w (driver.close_connection c w.broker) h)
  ]

  forget-IsWaiting :
      (t : ℕ) (w' : World B Conn Chan P) (r : Outcome (Unit {0}) × World B Conn Chan P)
      → t ≤ r.1.sink.next_reconnect_at
      → forget driver r ≡ (returned tt, w')
      → IsWaiting t w'.sink
  unfolding forget
  forget-IsWaiting t w' (returned _, w) h e = ground arith
  forget-IsWaiting t w' (raised x, w) h e = ground arith

  -- Over a driver whose clock is monotonic and that dials only to open a connection: when a sink
  -- that can reconnect gives up a connection that published nothing, after one or more that had
  -- published nothing either, no dial is made until one reconnect interval is over, and each
  -- record that is given meanwhile is counted as dropped.
  pub unproductive-run :
      (encode : UsageRecord → String) (rs : List Object) (w w' : World B Conn Chan P)
      → w.sink.reconnects ≡ true
      → w.sink.connection_publishes ≡ 0
      → 1 ≤ w.sink.consecutive_unproductive
      → invalidate driver w ≡ (returned tt, w')
      → let end = run driver encode rs w' in
        time end.broker < time w.broker + w.sink.reconnect_interval
        → (dials end.broker ≡ dials w'.broker) × (end.sink.dropped ≡ w'.sink.dropped + length rs)
  unfolding invalidate
  unproductive-run encode rs w w' e h₀ h₁ h lt =
      let j = judge driver w in
      let t = time w.broker + w.sink.reconnect_interval in
      let armed = release-until t j (judge-until w h₀ h₁) in
      run-IsWaiting t encode rs w' (forget-IsWaiting t w' (release driver j) armed (ground arith))
        lt
