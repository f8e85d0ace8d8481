-- ===== src/Amqp/State.antt =====
-- amqp.py: the fields of `AMQPSink`, its messages and what it asks of a broker's driver.
use tokenweir.Prelude.{ℕ, String, Bool, false, Option, some, List}
use tokenweir.Python.{Outcome}

abbrev pub default_exchange : String
default_exchange = ""

abbrev pub default_routing_key : String
default_routing_key = "tokenweir.usage"

abbrev pub max_dials_per_interval : ℕ
max_dials_per_interval = 3

-- `publish_properties`: the content type and the delivery mode
pub record PublishProperties : Type 0 where
  pub content_type : String
  pub delivery_mode : ℕ

unfoldable pub publish_properties : PublishProperties
publish_properties = record { content_type = "application/json"; delivery_mode = 2 }

-- The messages that the sink logs, each by the name of its constant.
pub data Warning : Type 0 where
  publish_failed reconnect_failed close_failed not_a_record sink_closed no_channel : Warning
  dial_ceiling_reached awaiting_redial awaiting_publishable : Warning

pub record Message (P : Type 0) : Type 0 where
  pub exchange : String
  pub routing_key : String
  pub body : String
  pub properties : P

-- The driver (pika) and the clock, on a state `B` of the world outside: `BlockingConnection`,
-- `connection.channel`, `basic_publish`, `connection.close` and `time.monotonic`.
pub record Driver (B Conn Chan P : Type 0) : Type 0 where
  pub open_connection : B → Outcome Conn × B
  pub open_channel : Conn → B → Outcome Chan × B
  pub basic_publish : Chan → Message P → B → Outcome (Unit {0}) × B
  pub close_connection : Conn → B → Outcome (Unit {0}) × B
  pub clock : B → ℕ × B

-- `AMQPSink`: `reconnects` tells whether `_reconnect` is set.
pub record AmqpSink (Conn Chan P : Type 0) : Type 0 where
  pub channel : Option Chan
  pub connection : Option Conn
  pub owns_connection : Bool
  pub exchange : String
  pub routing_key : String
  pub closed : Bool
  pub published : ℕ
  pub dropped : ℕ
  pub properties : P
  pub reconnects : Bool
  pub reconnect_interval : ℕ
  pub next_reconnect_at : ℕ
  pub connection_publishes : ℕ
  pub consecutive_unproductive : ℕ
  pub dial_window_ends : ℕ
  pub dials_in_window : ℕ
  pub backoff_message : Warning

-- The sink, the world outside, and what the sink has passed to its warner, the latest first.
pub record World (B Conn Chan P : Type 0) : Type 0 where
  pub sink : AmqpSink Conn Chan P
  pub broker : B
  pub warnings : List Warning

-- `AMQPSink.__init__`, for a channel that is handed over with what may lie behind it; the interval
-- is the one that `max(0.0, ...)` has made
unfoldable pub new :
    {Conn Chan P : Type 0}
    → Chan
    → String
    → String
    → P
    → Option Conn
    → Bool
    → ℕ
    → AmqpSink Conn Chan P
new channel exchange routing_key properties connection owns_connection reconnect_interval = record {
  channel = some channel;
  connection = connection;
  owns_connection = owns_connection;
  exchange = exchange;
  routing_key = routing_key;
  closed = false;
  published = 0;
  dropped = 0;
  properties = properties;
  reconnects = false;
  reconnect_interval = reconnect_interval;
  next_reconnect_at = 0;
  connection_publishes = 0;
  consecutive_unproductive = 0;
  dial_window_ends = 0;
  dials_in_window = 0;
  backoff_message = awaiting_redial;
}
