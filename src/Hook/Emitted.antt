-- ===== src/Hook/Emitted.antt =====
-- claude_code.py: `run` between the delta of a turn and its record: `build_fields`, and `emit_usage`, whose
-- record is that of `build_record` if the emitter has accepted it.
use Prim.Native.Char.{Char}
use tokenweir.Prelude.{
  ℕ, String, Bool, true, false, ◌≡◌, refl, subst, Option, none, some, [], Dict, lookup, arith,
  if◌then◌else◌,
}
use tokenweir.Python.{Outcome, returned, raised}
use tokenweir.Contract.Values.{Value, Result, ok, err, token_count, non_negative_int}
use tokenweir.Contract.Record.{UsageRecord, construct, attributes}
use tokenweir.Contract.Wire.{mapping, items}
use tokenweir.Contract.Shape.{construct-Counted}
use tokenweir.Sink.Guard.{or_drop, build_record}
use tokenweir.Sink.Guarded.{build_record-items}
use tokenweir.Hook.Counts.{TokenTotals}
use tokenweir.Hook.Transcript.{ScanResult}
use tokenweir.Hook.Fields.{
  Environment, HookInput, Conversion, normalize_ts, fields_at, fields_with, build_fields,
}
use tokenweir.Hook.Contracted.{counts_of}
use tokenweir.Hook.Pipeline.{Emission}

-- What a turn finds: the conversion of times, the present time, the hex of a new uuid, the environment,
-- the input, whether the emitter accepts the record, and what else the rest of the turn shows (of
-- which the record is not read), if the sink's factory or the emitter's `close` does not raise.
pub record Surroundings : Type 0 where
  pub to_utc : String → Conversion
  pub now : String
  pub hex : String
  pub environ : Environment
  pub input : HookInput
  pub accepted : Bool
  pub rest : TokenTotals → ScanResult → Outcome Emission

-- `emit_usage`: the record, by what the emitter answers
unfoldable pub emitted_record : Bool → Dict Value → Option UsageRecord
unfolding build_record
emitted_record accepted fields =
    if accepted then (build_record (some (mapping (items fields))) []).0 else none

unfoldable pub emitted_with : Bool → Outcome Emission → Outcome (Dict Value) → Outcome Emission
unfolding emitted_record
emitted_with accepted (returned e) (returned fields) =
    returned (record e { usage_record = emitted_record accepted fields })
emitted_with accepted (raised x) (returned fields) = raised x
emitted_with accepted rest (raised x) = raised x

same_counts :
    (t : TokenTotals) (r : UsageRecord)
    → ok t.input_tokens ≡ ok r.input_tokens
    → ok t.output_tokens ≡ ok r.output_tokens
    → ok t.cache_creation_input_tokens ≡ ok r.cache_creation_input_tokens
    → ok t.cache_read_input_tokens ≡ ok r.cache_read_input_tokens
    → counts_of r ≡ t
unfolding counts_of
same_counts t r i o c d = ground arith

returned_same : (a b : Dict Value) → returned a ≡ returned b → b ≡ a
returned_same a b h = ground arith

module _ (lower : String → String) (digit : Char → Option ℕ) where
  -- `run`, from `build_fields` to the counters that are read at the end
  unfoldable pub emission_in : Surroundings → TokenTotals → ScanResult → Outcome Emission
  unfolding emitted_with build_fields
  emission_in s delta scan =
      emitted_with s.accepted (s.rest delta scan)
        (build_fields lower digit s.to_utc s.now s.hex s.environ delta scan s.input)

  construct-counts_of :
      (ts hex : String) (environ : Environment) (delta : TokenTotals) (scan : ScanResult)
      (input : HookInput) (r : UsageRecord)
      → construct (fields_at lower digit ts hex environ delta scan input) ≡ ok r
      → counts_of r ≡ delta
  unfolding fields_at token_count non_negative_int attributes lookup
  construct-counts_of ts hex environ delta scan input r h =
      let c = construct-Counted (fields_at lower digit ts hex environ delta scan input) r h in
      let i : ok delta.input_tokens ≡ ok r.input_tokens = c.input_tokens in
      let o : ok delta.output_tokens ≡ ok r.output_tokens = c.output_tokens in
      let w : ok delta.cache_creation_input_tokens ≡ ok r.cache_creation_input_tokens =
        c.creation in
      let d : ok delta.cache_read_input_tokens ≡ ok r.cache_read_input_tokens = c.read in
      same_counts delta r i o w d

or_drop-some : (m : Result UsageRecord) (r : UsageRecord) → (or_drop m).0 ≡ some r → m ≡ ok r
unfolding or_drop
or_drop-some (ok r') r h = ground arith
or_drop-some (err e) r h = cc

emitted_record-construct :
    (accepted : Bool) (fields : Dict Value) (r : UsageRecord)
    → emitted_record accepted fields ≡ some r
    → construct fields ≡ ok r
unfolding emitted_record
emitted_record-construct true fields r h =
    or_drop-some (construct fields) r (rw (build_record-items fields) at h)
emitted_record-construct false fields r h = cc

-- what was emitted has come from fields that were made
emitted_with-some :
    (accepted : Bool) (rest : Outcome Emission) (made : Outcome (Dict Value)) (e : Emission)
    (r : UsageRecord)
    → emitted_with accepted rest made ≡ returned e
    → e.usage_record ≡ some r
    → (fields : Dict Value) × (made ≡ returned fields) × (construct fields ≡ ok r)
unfolding emitted_with
emitted_with-some accepted (returned e') (returned fields) e r h k =
    (fields, refl, emitted_record-construct accepted fields r (ground arith))
emitted_with-some accepted (raised x) (returned fields) e r h k = cc
emitted_with-some accepted (returned e') (raised x) e r h k = cc
emitted_with-some accepted (raised y) (raised x) e r h k = cc

module _ (lower : String → String) (digit : Char → Option ℕ) where
  fields_with-counts_of :
      (ts : Outcome String) (hex : String) (environ : Environment) (delta : TokenTotals)
      (scan : ScanResult) (input : HookInput) (fields : Dict Value) (r : UsageRecord)
      → fields_with lower digit ts hex environ delta scan input ≡ returned fields
      → construct fields ≡ ok r
      → counts_of r ≡ delta
  unfolding fields_with
  fields_with-counts_of (returned ts) hex environ delta scan input fields r h k =
      construct-counts_of lower digit ts hex environ delta scan input r
        (subst (λ made. construct made ≡ ok r) (returned_same _ fields h) k)
  fields_with-counts_of (raised x) hex environ delta scan input fields r h k = cc

  -- A record that was emitted for a delta carries the counts of the delta.
  pub emission_in-counts_of :
      (s : Surroundings) (delta : TokenTotals) (scan : ScanResult) (e : Emission) (r : UsageRecord)
      → emission_in lower digit s delta scan ≡ returned e
      → e.usage_record ≡ some r
      → counts_of r ≡ delta
  unfolding emission_in build_fields
  emission_in-counts_of s delta scan e r h k =
      let (fields, made, built) =
        emitted_with-some s.accepted (s.rest delta scan)
          (build_fields lower digit s.to_utc s.now s.hex s.environ delta scan s.input) e r h k in
      fields_with-counts_of (normalize_ts s.to_utc s.now scan.last_timestamp) s.hex s.environ delta
        scan s.input fields r made built
