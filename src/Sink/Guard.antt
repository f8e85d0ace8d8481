-- ===== src/Sink/Guard.antt =====
-- sink.py: `Sink`, `NullSink`, `build_record`, `emit_record` and `emit_usage`. A sink is an action on a
-- state of its own. The lines that `_warn_dropped` logs come back beside the result.
use tokenweir.Prelude.{
  String, Bool, true, false, Option, none, some, List, [], ◌∷◌, Dict, str_eq, if◌then◌else◌,
}
use tokenweir.Python.{exception, base_exception, Outcome, returned, raised}
use tokenweir.Contract.Values.{Value, type_error, Result, ok, err, ◌>>=◌}
use tokenweir.Contract.Record.{UsageRecord, Object, usage, other_object, construct}
use tokenweir.Contract.Wire.{Key, name, other_key, Payload, mapping, not_mapping}

-- `Sink.emit` of an adapter: the outcome of the call and the adapter's state after it.
abbrev pub Emit : Type 0 → Type 0
Emit S = UsageRecord → S → Outcome (Unit {0}) × S

-- `NullSink.emit`
unfoldable pub null_emit : {S : Type 0} → Emit S
null_emit r s = (returned tt, s)

pub data Drop : Type 0 where
  construction_failed emission_failed not_a_record : Drop

-- `dict.update`, one key
unfoldable pub put : String → Value → List (Key × Value) → List (Key × Value)
put k v [] = (name k, v) ∷ []
put k v ((name j, w) ∷ m) = if str_eq j k then (name k, v) ∷ m else (name j, w) ∷ put k v m
put k v ((other_key, w) ∷ m) = (other_key, w) ∷ put k v m

-- `merged.update(overrides)`
unfoldable pub update : List (Key × Value) → Dict Value → List (Key × Value)
unfolding put
update m [] = m
update m ((k, v) ∷ overrides) = update (put k v m) overrides

-- Unpacking with `**`: a key that is no string is a TypeError.
unfoldable pub keywords : List (Key × Value) → Result (Dict Value)
keywords [] = ok []
keywords ((name k, v) ∷ m) = keywords m >>= λ rest. ok ((k, v) ∷ rest)
keywords ((other_key, v) ∷ m) = err type_error

-- `merged = dict(fields) if fields is not None else {}`, behind the check that it is a mapping
unfoldable pub merged : Option Payload → Dict Value → Result (List (Key × Value))
unfolding update
merged none overrides = ok (update [] overrides)
merged (some (mapping m)) overrides = ok (update m overrides)
merged (some not_mapping) overrides = err type_error

-- the `except Exception` of `build_record`
unfoldable pub or_drop : Result UsageRecord → Option UsageRecord × List Drop
or_drop (ok r) = (some r, [])
or_drop (err e) = (none, construction_failed ∷ [])

-- `build_record`
unfoldable pub build_record : Option Payload → Dict Value → Option UsageRecord × List Drop
unfolding merged keywords construct or_drop
build_record fields overrides =
    or_drop (do m ← merged fields overrides; kwargs ← keywords m; construct kwargs)

module _ {S : Type 0} (emit : Emit S) where
  -- the `try` of `emit_record`
  unfoldable pub emitted : Outcome (Unit {0}) × S → Outcome Bool × S × List Drop
  emitted (returned _, s) = (returned true, s, [])
  emitted (raised exception, s) = (returned false, s, emission_failed ∷ [])
  emitted (raised base_exception, s) = (raised base_exception, s, [])

  -- `emit_record`
  unfoldable pub emit_record : Object → S → Outcome Bool × S × List Drop
  unfolding emitted
  emit_record other_object s = (returned false, s, not_a_record ∷ [])
  emit_record (usage r) s = emitted (emit r s)

  -- what `emit_usage` returns for a record that was built
  unfoldable pub answered :
      UsageRecord → Outcome Bool × S × List Drop → Outcome (Option UsageRecord) × S × List Drop
  answered r (returned true, s, log) = (returned (some r), s, log)
  answered r (returned false, s, log) = (returned none, s, log)
  answered r (raised e, s, log) = (raised e, s, log)

  unfoldable pub emit_built :
      Option UsageRecord × List Drop → S → Outcome (Option UsageRecord) × S × List Drop
  unfolding answered emit_record
  emit_built (none, log) s = (returned none, s, log)
  emit_built (some r, log) s = answered r (emit_record (usage r) s)

  -- `emit_usage`
  unfoldable pub emit_usage :
      Option Payload → Dict Value → S → Outcome (Option UsageRecord) × S × List Drop
  unfolding build_record emit_built
  emit_usage fields overrides s = emit_built (build_record fields overrides) s
