-- ===== src/Hook/Selection.antt =====
-- claude_code.py: `SinkChoice` and `select_sink`. Importing and building a transport is a call that may
-- raise: of `AMQPSink.from_url`, and of `DirectSink` over `PostgresSource.from_dsn`.
use tokenweir.Prelude.{String, Bool, true, false, ◌≡◌, refl, Option, none, some}
use tokenweir.Python.{Outcome, returned, raised, exception, base_exception}
use tokenweir.Hook.Fields.{Environment, env_value}

-- where records go
pub data Transport (A D : Type 0) : Type 0 where
  null_sink : Transport A D
  amqp_sink : A → Transport A D
  direct_sink : D → Transport A D

pub record SinkChoice (A D : Type 0) : Type 0 where
  pub sink : Transport A D
  pub degraded : Bool
  pub drop_counter : Option String

module _ {W A D : Type 0} (from_url : String → W → Outcome A × W)
    (from_dsn : String → W → Outcome D × W) where
  -- the `try` around the building of a transport
  unfoldable pub choice_of :
      {T : Type 0} → (T → Transport A D) → Outcome T × W → Outcome (SinkChoice A D) × W
  choice_of wrap (returned t, w) =
      (returned (record { sink = wrap t; degraded = false; drop_counter = some "dropped" }), w)
  choice_of wrap (raised exception, w) =
      (returned (record { sink = null_sink; degraded = true; drop_counter = none }), w)
  choice_of wrap (raised base_exception, w) = (raised base_exception, w)

  -- `select_sink`, by the two variables of the environment
  unfoldable pub select_by : Option String → Option String → W → Outcome (SinkChoice A D) × W
  unfolding choice_of
  select_by (some url) dsn w = choice_of amqp_sink (from_url url w)
  select_by none (some dsn) w = choice_of direct_sink (from_dsn dsn w)
  select_by none none w =
      (returned (record { sink = null_sink; degraded = false; drop_counter = none }), w)

  unfoldable pub select_sink : Environment → W → Outcome (SinkChoice A D) × W
  unfolding env_value select_by
  select_sink env w =
      select_by (env_value env "TOKENWEIR_AMQP_URL") (env_value env "TOKENWEIR_DSN") w

  -- the sink of a transport, if it could be built
  abbrev pub built_as :
      {T : Type 0} → (T → Transport A D) → Outcome T × W → Outcome (Transport A D) × W
  built_as wrap (returned t, w) = (returned (wrap t), w)
  built_as wrap (raised e, w) = (raised e, w)

  -- The transport that is configured, and what came of building it: the broker, or else the store.
  abbrev pub configured : Option String → Option String → W → Option (Outcome (Transport A D) × W)
  configured (some url) dsn w = some (built_as amqp_sink (from_url url w))
  configured none (some dsn) w = some (built_as direct_sink (from_dsn dsn w))
  configured none none w = none

  -- What is answered, by what came of building the transport that is configured.
  abbrev pub Honest :
      W → Option (Outcome (Transport A D) × W) → Outcome (SinkChoice A D) × W → Type 0
  Honest w none (returned c, w') =
      (c.sink ≡ null_sink) × (c.degraded ≡ false) × (c.drop_counter ≡ none) × (w' ≡ w)
  Honest w (some (returned t, w₁)) (returned c, w') =
      (c.sink ≡ t) × (c.degraded ≡ false) × (c.drop_counter ≡ some "dropped") × (w' ≡ w₁)
  Honest w (some (raised exception, w₁)) (returned c, w') =
      (c.sink ≡ null_sink) × (c.degraded ≡ true) × (c.drop_counter ≡ none) × (w' ≡ w₁)
  Honest w (some (raised base_exception, w₁)) (raised base_exception, w') = w' ≡ w₁
  Honest w attempt answer = ⊥

  choice_of-Honest :
      {T : Type 0} (wrap : T → Transport A D) (r : Outcome T × W) (w : W)
      → Honest w (some (built_as wrap r)) (choice_of wrap r)
  unfolding choice_of
  choice_of-Honest wrap (returned t, w') w = (refl, refl, refl, refl)
  choice_of-Honest wrap (raised exception, w') w = (refl, refl, refl, refl)
  choice_of-Honest wrap (raised base_exception, w') w = refl

  select_by-Honest :
      (url dsn : Option String) (w : W) → Honest w (configured url dsn w) (select_by url dsn w)
  unfolding select_by
  select_by-Honest (some url) dsn w = choice_of-Honest amqp_sink (from_url url w) w
  select_by-Honest none (some dsn) w = choice_of-Honest direct_sink (from_dsn dsn w) w
  select_by-Honest none none w = (refl, refl, refl, refl)

  -- `select_sink` tries one transport: the broker if its variable is set and not blank, else the store
  -- if its variable is, with the value without the space around it. It raises nothing that `except
  -- Exception` catches. A transport that was built is the sink of the choice, which is not degraded
  -- and has the name of the drop counter, "dropped"; one whose building raised an `Exception` leaves the sink that
  -- stores nothing, marked degraded and without a drop counter; and where none is configured the
  -- choice is the sink that stores nothing, not marked degraded, and nothing was tried.
  pub select_sink-Honest :
      (env : Environment) (w : W)
      → Honest w
          (configured (env_value env "TOKENWEIR_AMQP_URL") (env_value env "TOKENWEIR_DSN") w)
          (select_sink env w)
  unfolding select_sink
  select_sink-Honest env w =
      select_by-Honest (env_value env "TOKENWEIR_AMQP_URL") (env_value env "TOKENWEIR_DSN") w
