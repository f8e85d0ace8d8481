-- ===== src/Amqp/Connect.antt =====
-- amqp.py: `AMQPSink.from_url`, and the `connect` that it keeps for reconnecting.
use tokenweir.Prelude.{ℕ, String, true, some}
use tokenweir.Python.{exception, base_exception, Raised, Outcome, returned, raised}
use tokenweir.Amqp.State.{Driver, AmqpSink, new}

module _ {B Conn Chan P : Type 0} (driver : Driver B Conn Chan P) where
  -- the guarded closing of a connection that got no channel, and `raise`
  unfoldable pub give_up : Raised → Outcome (Unit {0}) × B → Outcome (Conn × Chan) × B
  give_up e (raised base_exception, b) = (raised base_exception, b)
  give_up e (raised exception, b) = (raised e, b)
  give_up e (returned _, b) = (raised e, b)

  -- the `try` around `connection.channel()`
  unfoldable pub channel_opened : Conn → Outcome Chan × B → Outcome (Conn × Chan) × B
  unfolding give_up
  channel_opened c (returned ch, b) = (returned (c, ch), b)
  channel_opened c (raised e, b) = give_up e (driver.close_connection c b)

  unfoldable pub connection_opened : Outcome Conn × B → Outcome (Conn × Chan) × B
  unfolding channel_opened
  connection_opened (returned c, b) = channel_opened c (driver.open_channel c b)
  connection_opened (raised e, b) = (raised e, b)

  -- `connect` of `from_url`, the value of `_reconnect`
  unfoldable pub connect : B → Outcome (Conn × Chan) × B
  unfolding connection_opened
  connect b = connection_opened (driver.open_connection b)

  -- `AMQPSink.from_url`: what is raised here goes to the caller
  unfoldable pub wired :
      String → String → P → ℕ → Outcome (Conn × Chan) × B → Outcome (AmqpSink Conn Chan P) × B
  unfolding new
  wired exchange routing_key properties interval (returned (c, ch), b) =
      let k : AmqpSink Conn Chan P =
        new ch exchange routing_key properties (some c) true interval in
      (returned (record k { reconnects = true }), b)
  wired exchange routing_key properties interval (raised e, b) = (raised e, b)

  unfoldable pub from_url : String → String → P → ℕ → B → Outcome (AmqpSink Conn Chan P) × B
  unfolding wired
  from_url exchange routing_key properties interval b =
      wired exchange routing_key properties interval (connect b)
