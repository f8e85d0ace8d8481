-- ===== src/Sink/Tests.antt =====
-- A store that keeps what it is given, and the theorems at it.
use tokenweir.Prelude.{
  true, false, ◌≡◌, refl, some, List, [], ◌∷◌, ◌++◌, ◌+◌, length, drop, is_empty, if◌then◌else◌,
}
use tokenweir.Python.{exception, returned, raised}
use tokenweir.RateLimit
use tokenweir.Samples.{record_a, fields, late}
use tokenweir.Contract.Values.{
  required_str, has_non_blank, optional_str, token_count, version, coerce_mode,
}
use tokenweir.Contract.Record.{UsageRecord, Object, usage, other_object}
use tokenweir.Contract.Wire.{mapping, items}
use tokenweir.Sink.Guard.{Emit, build_record, emit_usage}
use tokenweir.Sink.Guarded.{
  GuardedOver, given_fields, build_record-construct, after_build, Logged, emit_usage-effect,
}
use tokenweir.Sink.Direct.{Store, DirectSink, drained, emit_batch}
use tokenweir.Sink.Delivery.{emit_batch-counts}

-- an adapter that appends to a list, and one that raises
abbrev keep : Emit (List UsageRecord)
keep r s = (returned tt, s ++ r ∷ [])

abbrev fail : Emit (List UsageRecord)
fail r s = (raised exception, s)

emit_usage_kept :
    emit_usage keep (some (mapping (items fields))) late []
    ≡ (returned (some record_a), record_a ∷ [], [])
unfolding emit_usage required_str has_non_blank optional_str token_count version coerce_mode
emit_usage_kept = refl

build_record-construct_example :
    GuardedOver
      (given_fields (some (mapping (items fields))))
      late
      (build_record (some (mapping (items fields))) late)
build_record-construct_example = build_record-construct (some (mapping (items fields))) late

emit_usage-effect_example :
    let (o, s, log) = emit_usage fail (some (mapping (items fields))) late [] in
    (s ≡ after_build fail (build_record (some (mapping (items fields))) late).0 [])
    × Logged fail o log
emit_usage-effect_example = emit_usage-effect fail (some (mapping (items fields))) late []

-- a store that takes batches of at most two records
abbrev store : Store (List UsageRecord)
store = record {
  write = λ rs s.
      if is_empty (drop 2 rs) then (returned (length rs), s ++ rs) else (raised exception, s);
  close = λ s. (raised exception, s);
}

abbrev sink : DirectSink (List UsageRecord)
sink = record {
  source = [];
  owns_source = true;
  closed = false;
  written = 0;
  dropped = 0;
  warner = RateLimit.new 60;
}

abbrev batch : List Object
batch = usage record_a ∷ other_object ∷ usage record_a ∷ []

emit_batch-counts_example :
    let k' = (emit_batch store 0 (drained batch) sink).1 in k'.written + k'.dropped ≡ 3
emit_batch-counts_example =
    emit_batch-counts store 0 batch sink (emit_batch store 0 (drained batch) sink).1 (batch_returns)
  where
    batch_returns :
        emit_batch store 0 (drained batch) sink
        ≡ (returned tt, (emit_batch store 0 (drained batch) sink).1)
    batch_returns = unfold emit_batch in refl
