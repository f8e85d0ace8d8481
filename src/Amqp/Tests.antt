-- ===== src/Amqp/Tests.antt =====
-- A broker that refuses every channel and every publish, and the theorems at it.
use tokenweir.Prelude.{
  ℕ, ◌+◌, ◌-◌, ◌*◌, ◌≤◌, String, true, false, ◌≡◌, refl, some, none, List, [], ◌∷◌, arith, length,
}
use tokenweir.Python.{exception, returned, raised}
use tokenweir.Samples.{record_a}
use tokenweir.Contract.Record.{UsageRecord, Object, usage, other_object}
use tokenweir.Amqp.State.{
  Driver, AmqpSink, World, publish_failed, reconnect_failed, not_a_record, new,
  max_dials_per_interval,
}
use tokenweir.Amqp.Connect.{connect}
use tokenweir.Amqp.Sink.{dialled, release, invalidate, emit, close, run}
use tokenweir.Amqp.Counts.{emit-counts}
use tokenweir.Amqp.Refusals.{close-run, after_publishes, IsBorrowed, run-IsBorrowed}
use tokenweir.Amqp.Dials.{Observed}
use tokenweir.Amqp.Pace.{run-dials}
use tokenweir.Amqp.Backoff.{failed_dial-run, unproductive-run}

-- the world outside: the time, and the number of dials so far
abbrev driver : Driver (ℕ × ℕ) ℕ ℕ ℕ
driver = record {
  open_connection = λ b. (returned 1, (b.0, b.1 + 1));
  open_channel = λ c b. (raised exception, b);
  basic_publish = λ ch m b. (raised exception, (b.0 + 1, b.1));
  close_connection = λ c b. (returned tt, b);
  clock = λ b. (b.0, b);
}

abbrev time : ℕ × ℕ → ℕ
time b = b.0

abbrev dials : ℕ × ℕ → ℕ
dials b = b.1

driver-Observed : Observed driver time dials
driver-Observed = record {
  open_connection = λ b. omega arith;
  open_channel = λ c b. omega arith;
  basic_publish = λ ch m b. omega arith;
  close_connection = λ c b. omega arith;
  clock = λ b. omega arith;
}

abbrev borrowed : AmqpSink ℕ ℕ ℕ
borrowed = new 7 "" "tokenweir.usage" 0 none false 10

-- the sink of `from_url`
abbrev owned : AmqpSink ℕ ℕ ℕ
owned = record (new 7 "" "tokenweir.usage" 0 (some 1) true 10) { reconnects = true }

abbrev start : AmqpSink ℕ ℕ ℕ → World (ℕ × ℕ) ℕ ℕ ℕ
start k = record { sink = k; broker = (0, 1); warnings = [] }

abbrev encode : UsageRecord → String
encode r = r.request_id

abbrev records : List Object
records = usage record_a ∷ other_object ∷ usage record_a ∷ []

-- The first publish fails, the next record finds the broker unable to open a channel.
run_warnings :
    (run driver encode records (start owned)).warnings
    ≡ reconnect_failed ∷ not_a_record ∷ publish_failed ∷ []
unfolding run new release connect
run_warnings = refl

emit-counts_example :
    (emit driver encode (usage record_a) (start owned)).1.sink.published
      + (emit driver encode (usage record_a) (start owned)).1.sink.dropped
    ≡ (start owned).sink.published + (start owned).sink.dropped + 1
unfolding new emit release
emit-counts_example =
    emit-counts driver encode (usage record_a) (start owned)
      (emit driver encode (usage record_a) (start owned)).1 refl

close-run_example :
    let w' = (close driver (start owned)).1 in
    let end = run driver encode records w' in
    (end.broker ≡ w'.broker)
    × (end.sink.published ≡ (start owned).sink.published)
    × (end.sink.dropped ≡ (start owned).sink.dropped + length records)
    × (close driver w' ≡ (returned tt, w'))
close-run_example = close-run driver encode records (start owned)

borrowed-IsBorrowed : IsBorrowed driver 7 borrowed borrowed
unfolding new
borrowed-IsBorrowed = record {
  channel = refl;
  connection = refl;
  reconnects = refl;
  closed = refl;
  exchange = refl;
  routing_key = refl;
  properties = refl;
}

run-IsBorrowed_example :
    let w' = run driver encode records (start borrowed) in
    IsBorrowed driver 7 borrowed w'.sink
    × (w'.broker ≡ after_publishes driver encode borrowed 7 records (start borrowed).broker)
run-IsBorrowed_example =
    run-IsBorrowed driver encode records 7 borrowed (start borrowed) borrowed-IsBorrowed

run-dials_example :
    let u = run driver encode records (start owned) in
    let v = run driver encode records u in
    dials v.broker ≤ dials u.broker + (2 * max_dials_per_interval - 1)
unfolding new run release connect
run-dials_example =
    run-dials driver time dials driver-Observed encode records records (start owned) refl refl
      (omega arith)

-- without a channel, at the time of the first dial
abbrev cut : World (ℕ × ℕ) ℕ ℕ ℕ
cut = start (record owned { channel = none; connection = none; consecutive_unproductive = 1 })

failed_dial-run_example :
    let w' = (dialled driver cut (connect driver cut.broker)).1 in
    let end = run driver encode records w' in
    (dials end.broker ≡ dials w'.broker) × (end.sink.dropped ≡ w'.sink.dropped + length records)
unfolding new run connect dialled release
failed_dial-run_example =
    failed_dial-run driver time dials driver-Observed encode records cut
      (dialled driver cut (connect driver cut.broker)).1 refl refl (omega arith)

unproductive-run_example :
    let w' = (invalidate driver cut).1 in
    let end = run driver encode records w' in
    (dials end.broker ≡ dials w'.broker) × (end.sink.dropped ≡ w'.sink.dropped + length records)
unfolding new run invalidate release connect
unproductive-run_example =
    unproductive-run driver time dials driver-Observed encode records cut (invalidate driver cut).1
      refl refl (omega arith) refl (omega arith)
