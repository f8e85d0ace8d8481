-- ===== src/Amqp/Dials.antt =====
-- What a call of the sink does to the time and to the number of dials: only `_live_channel` dials, and
-- at most once.
use tokenweir.Prelude.{ℕ, ◌+◌, ◌≤◌, String, ◌≡◌, Option, none, some, arith, inl, inr, Option-cases}
use tokenweir.Python.{Raised, exception, base_exception, Outcome, returned, raised}
use tokenweir.Amqp.State.{Driver, AmqpSink, World, Message}
use tokenweir.Amqp.Connect.{give_up, channel_opened, connection_opened, connect}
use tokenweir.Amqp.Sink.{
  dialled, closing, release, judge, forget, invalidate, drop_one, report, publishing, publish_on,
  message,
}

-- A later state of the world outside: time has not gone back, and the number of dials is as told.
abbrev pub Later : {B : Type 0} → (B → ℕ) → (B → ℕ) → ℕ → B → B → Type 0
Later time dials n b b' = (time b ≤ time b') × (dials b' ≡ n + dials b)

-- What is relied on of a driver, for its time and the number of its calls of `BlockingConnection`
-- so far: the clock is monotonic, and no other call dials.
pub record Observed {B Conn Chan P : Type 0} (driver : Driver B Conn Chan P) (time dials : B → ℕ)
    : Type 0 where
  pub open_connection : (b : B) → Later time dials 1 b (driver.open_connection b).1
  pub open_channel : (c : Conn) (b : B) → Later time dials 0 b (driver.open_channel c b).1
  pub basic_publish :
      (ch : Chan) (m : Message P) (b : B) → Later time dials 0 b (driver.basic_publish ch m b).1
  pub close_connection : (c : Conn) (b : B) → Later time dials 0 b (driver.close_connection c b).1
  pub clock :
      (b : B)
      → (time b ≤ (driver.clock b).0)
        × ((driver.clock b).0 ≤ time (driver.clock b).1)
        × (dials (driver.clock b).1 ≡ dials b)

module _ {B Conn Chan P : Type 0} (driver : Driver B Conn Chan P) (time dials : B → ℕ)
    (o : Observed driver time dials) where
  give_up-Later :
      (e : Raised) (b : B) (r : Outcome (Unit {0}) × B)
      → Later time dials 0 b r.1
      → Later time dials 0 b (give_up driver e r).1
  unfolding give_up
  give_up-Later e b (returned _, b') h = h
  give_up-Later e b (raised exception, b') h = h
  give_up-Later e b (raised base_exception, b') h = h

  channel_opened-Later :
      (c : Conn) (b : B) (r : Outcome Chan × B)
      → Later time dials 0 b r.1
      → Later time dials 0 b (channel_opened driver c r).1
  unfolding channel_opened
  channel_opened-Later c b (returned ch, b') h = h
  channel_opened-Later c b (raised e, b') h = ground (
    arith,
    o.close_connection c b',
    give_up-Later e b' (driver.close_connection c b') (o.close_connection c b'),
  )

  connection_opened-Later :
      (b : B) (r : Outcome Conn × B)
      → Later time dials 1 b r.1
      → Later time dials 1 b (connection_opened driver r).1
  unfolding connection_opened
  connection_opened-Later b (returned c, b') h = ground (
    arith,
    o.open_channel c b',
    channel_opened-Later c b' (driver.open_channel c b') (o.open_channel c b'),
  )
  connection_opened-Later b (raised e, b') h = h

  pub connect-Later : (b : B) → Later time dials 1 b (connect driver b).1
  unfolding connect
  connect-Later b = connection_opened-Later b (driver.open_connection b) (o.open_connection b)

-- The same dial window.
pub record SameWindow {Conn Chan P : Type 0} (k k' : AmqpSink Conn Chan P) : Type 0 where
  pub dial_window_ends : k'.dial_window_ends ≡ k.dial_window_ends
  pub dials_in_window : k'.dials_in_window ≡ k.dials_in_window
  pub reconnect_interval : k'.reconnect_interval ≡ k.reconnect_interval

module _ {B Conn Chan P : Type 0} (driver : Driver B Conn Chan P) (time dials : B → ℕ)
    (o : Observed driver time dials) where
  -- `n` dials, and no change of the dial window
  abbrev pub Quiet : ℕ → AmqpSink Conn Chan P → B → World B Conn Chan P → Type 0
  Quiet n k b w = Later time dials n b w.broker × SameWindow k w.sink

  pub dialled-Quiet :
      (n : ℕ) (b : B) (w : World B Conn Chan P) (r : Outcome (Conn × Chan) × B)
      → Later time dials n b r.1
      → Quiet n w.sink b (dialled driver w r).1
  unfolding dialled
  dialled-Quiet n b w (returned (c, ch), b') h = ground arith
  dialled-Quiet n b w (raised exception, b') h = ground (arith, o.clock b')
  dialled-Quiet n b w (raised base_exception, b') h = ground arith

  closing-Quiet :
      (w : World B Conn Chan P) (r : Outcome (Unit {0}) × B)
      → Later time dials 0 w.broker r.1
      → Quiet 0 w.sink w.broker (closing driver w r).1
  unfolding closing
  closing-Quiet w (returned _, b') h = ground arith
  closing-Quiet w (raised exception, b') h = ground arith
  closing-Quiet w (raised base_exception, b') h = ground arith

  release-Quiet : (w : World B Conn Chan P) → Quiet 0 w.sink w.broker (release driver w).1
  unfolding release
  release-Quiet w = elim (Option-cases w.sink.connection) [
    | inl e ↦ ground arith
    | inr (c, e) ↦ ground (
      arith,
      o.close_connection c w.broker,
      closing-Quiet w (driver.close_connection c w.broker) (o.close_connection c w.broker),
    )
  ]

  judge-Quiet : (w : World B Conn Chan P) → Quiet 0 w.sink w.broker (judge driver w)
  unfolding judge
  judge-Quiet w = ground (arith, o.clock w.broker)

  forget-Quiet :
      (k : AmqpSink Conn Chan P) (b : B) (r : Outcome (Unit {0}) × World B Conn Chan P)
      → Quiet 0 k b r.1
      → Quiet 0 k b (report driver (forget driver r)).1
  unfolding forget report
  forget-Quiet k b (returned _, w) h = ground arith
  forget-Quiet k b (raised e, w) h = ground arith

  report-Quiet :
      (w : World B Conn Chan P) → Quiet 0 w.sink w.broker (report driver (invalidate driver w)).1
  unfolding invalidate report
  report-Quiet w =
      let j = judge driver w in
      ground (
        arith,
        judge-Quiet w,
        release-Quiet j,
        forget-Quiet j.sink j.broker (release driver j) (release-Quiet j),
      )

  publishing-Quiet :
      (w : World B Conn Chan P) (r : Outcome (Unit {0}) × B)
      → Later time dials 0 w.broker r.1
      → Quiet 0 w.sink w.broker (publishing driver w r).1
  unfolding publishing
  publishing-Quiet w (returned _, b) h = ground arith
  publishing-Quiet w (raised base_exception, b) h = ground arith
  publishing-Quiet w (raised exception, b) h =
      ground (arith, report-Quiet (drop_one driver (record w { broker = b })))

  pub publish_on-Quiet :
      (body : String) (r : Outcome (Option Chan) × World B Conn Chan P)
      → Quiet 0 r.1.sink r.1.broker (publish_on driver body r).1
  unfolding publish_on
  publish_on-Quiet body (returned (some ch), w) =
      publishing-Quiet w _ (o.basic_publish ch (message driver w.sink body) w.broker)
  publish_on-Quiet body (returned none, w) = ground arith
  publish_on-Quiet body (raised e, w) = ground arith
