-- ===== src/Amqp/Pace.antt =====
-- The cap of the dial window: in a span of one interval the sink dials at most five times.
use tokenweir.Prelude.{
  ℕ, ◌+◌, ◌-◌, ◌*◌, ◌≤◌, ◌<◌, String, Bool, true, false, ◌≡◌, List, [], ◌∷◌, ◌⊎◌, arith, leb,
  if◌then◌else◌, inl,
}
use tokenweir.Contract.Record.{UsageRecord, Object, usage, other_object}
use tokenweir.Amqp.State.{Driver, AmqpSink, World, max_dials_per_interval}
use tokenweir.Amqp.Connect.{connect}
use tokenweir.Amqp.Sink.{
  message_for, may_dial_at, may_dial, dialled, redial, redial_if, tick, reconnect, live_channel,
  publish_on, emit, run,
}
use tokenweir.Amqp.Dials.{Observed, connect-Later, Quiet, dialled-Quiet, publish_on-Quiet}

-- A dial window that has been opened has been dialled in, at most as often as the cap allows.
pub record IsPaced {Conn Chan P : Type 0} (k : AmqpSink Conn Chan P) : Type 0 where
  pub capped : k.dials_in_window ≤ max_dials_per_interval
  pub opened : (k.dial_window_ends ≡ 0) ⊎ (1 ≤ k.dials_in_window)

-- How many dials are left in the span of one interval that starts at `a`: a window that ends after
-- the span is the last one, and one that has ended counts no more.
abbrev pub budget : {Conn Chan P : Type 0} → ℕ → AmqpSink Conn Chan P → ℕ
budget a k =
    let left = max_dials_per_interval - k.dials_in_window in
    if leb (a + k.reconnect_interval) k.dial_window_ends
    then left
    else if leb k.dial_window_ends a
    then max_dials_per_interval
    else max_dials_per_interval + left

abbrev pub one_if : Bool → ℕ
one_if b = if b then 1 else 0

may_dial_at-budget :
    {Conn Chan P : Type 0} (a now : ℕ) (k : AmqpSink Conn Chan P)
    → IsPaced k
    → a ≤ now
    → now < a + k.reconnect_interval
    → let (allowed, k') = may_dial_at now k in one_if allowed + budget a k' ≤ budget a k
unfolding may_dial_at
may_dial_at-budget a now k h le lt = ground arith

budget_le :
    {Conn Chan P : Type 0} (a : ℕ) (k : AmqpSink Conn Chan P)
    → IsPaced k
    → budget a k ≤ 2 * max_dials_per_interval - 1
budget_le a k h = ground arith

may_dial_at-IsPaced :
    {Conn Chan P : Type 0} (now : ℕ) (k : AmqpSink Conn Chan P)
    → let k' = (may_dial_at now k).1 in
      (IsPaced k → IsPaced k') × (k'.reconnect_interval ≡ k.reconnect_interval)
unfolding may_dial_at
may_dial_at-IsPaced now k = ((λ h. ground arith), ground arith)

module _ {B Conn Chan P : Type 0} (driver : Driver B Conn Chan P) (time dials : B → ℕ)
    (o : Observed driver time dials) where
  -- What a call does to the budget of the span that starts at `a`, if it ends within the span; `n`
  -- dials are already counted in the budget of `w` and not yet made.
  pub record Paces (a n : ℕ) (w w' : World B Conn Chan P) : Type 0 where
    pub ahead : time w.broker ≤ time w'.broker
    pub interval : w'.sink.reconnect_interval ≡ w.sink.reconnect_interval
    pub valid : IsPaced w.sink → IsPaced w'.sink
    pub paced :
        a ≤ time w.broker
        → time w'.broker < a + w.sink.reconnect_interval
        → IsPaced w.sink
        → dials w'.broker + budget a w'.sink + n ≤ dials w.broker + budget a w.sink

  may_dial-Paces :
      (a : ℕ) (w : World B Conn Chan P)
      → let (allowed, w') = may_dial driver w in Paces a (one_if allowed) w w'
  unfolding may_dial
  may_dial-Paces a w =
      let (now, b) = driver.clock w.broker in
      ground
        (arith, o.clock w.broker, may_dial_at-budget a now w.sink, may_dial_at-IsPaced now w.sink)

  Paces-trans :
      {a : ℕ} {u v w : World B Conn Chan P} → Paces a 0 u v → Paces a 0 v w → Paces a 0 u w
  Paces-trans p q = ground arith

  -- The dials that were counted are made.
  Quiet-Paces :
      {a : ℕ} {u v : World B Conn Chan P} (w : World B Conn Chan P) (n : ℕ)
      → Paces a n u v
      → Quiet driver time dials o n v.sink v.broker w
      → Paces a 0 u w
  Quiet-Paces w n p q = ground arith

  Paces-refl : {a : ℕ} (w : World B Conn Chan P) → Paces a 0 w w
  Paces-refl w = ground arith

  redial_after :
      (a : ℕ) (w : World B Conn Chan P) (r : Bool × World B Conn Chan P)
      → Paces a (one_if r.0) w r.1
      → Paces a 0 w (redial_if driver r).1
  unfolding redial_if
  redial_after a w (true, v) p = Quiet-Paces (dialled driver v (connect driver v.broker)).1 1 p (
      dialled-Quiet driver time dials o 1 v.broker v (connect driver v.broker)
        (connect-Later driver time dials o v.broker))
  redial_after a w (false, v) p = ground arith

  pub redial-Paces : (a : ℕ) (w : World B Conn Chan P) → Paces a 0 w (redial driver w).1
  unfolding redial
  redial-Paces a w = redial_after a w (may_dial driver w) (may_dial-Paces a w)

  tick-Paces : (a : ℕ) (w : World B Conn Chan P) → Paces a 0 w (tick driver w).1
  tick-Paces a w = ground (arith, o.clock w.broker)

  live_channel-Paces : (a : ℕ) (w : World B Conn Chan P) → Paces a 0 w (live_channel driver w).1
  unfolding live_channel reconnect
  live_channel-Paces a w =
      let v = (tick driver w).1 in
      ground
        (arith, tick-Paces a w, redial-Paces a v, Paces-trans (tick-Paces a w) (redial-Paces a v))

  emit-Paces :
      (a : ℕ) (encode : UsageRecord → String) (r : Object) (w : World B Conn Chan P)
      → Paces a 0 w (emit driver encode r w).1
  unfolding emit message_for
  emit-Paces a encode other_object w = ground arith
  emit-Paces a encode (usage r) w =
      let live = live_channel driver w in
      ground (
        arith,
        Quiet-Paces (publish_on driver (encode r) live).1 0 (live_channel-Paces a w)
            (publish_on-Quiet driver time dials o (encode r) live),
      )

  pub run-Paces :
      (a : ℕ) (encode : UsageRecord → String) (rs : List Object) (w : World B Conn Chan P)
      → Paces a 0 w (run driver encode rs w)
  unfolding run
  run-Paces a encode [] w = Paces-refl w
  run-Paces a encode (r ∷ rs) w =
      Paces-trans (emit-Paces a encode r w) (run-Paces a encode rs (emit driver encode r w).1)

  -- Over a driver whose clock is monotonic and that dials only to open a connection, in a span
  -- that is shorter than one reconnect interval, a sink dials at most five times, twice the cap
  -- less one, whatever calls of `emit` came before the span, from a sink whose dial window had
  -- not been opened.
  pub run-dials :
      (encode : UsageRecord → String) (before rs : List Object) (w : World B Conn Chan P)
      → w.sink.dial_window_ends ≡ 0
      → w.sink.dials_in_window ≡ 0
      → let u = run driver encode before w in
        let v = run driver encode rs u in
        time v.broker < time u.broker + w.sink.reconnect_interval
        → dials v.broker ≤ dials u.broker + (2 * max_dials_per_interval - 1)
  run-dials encode before rs w h₀ h₁ lt =
      let u = run driver encode before w in
      let a = time u.broker in
      let p = run-Paces a encode before w in
      let valid = p.valid (record { capped = omega arith; opened = inl h₀ }) in
      let q = run-Paces a encode rs u in
      let spent = q.paced (omega arith) (omega (arith, p.interval, lt)) valid in
      omega (arith, spent, budget_le a u.sink valid)
