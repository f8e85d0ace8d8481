-- ===== src/Hook/Pipeline.antt =====
-- claude_code.py: the baseline, `_dropped_count` and `run`. The files, the sink and the emitter of a
-- turn are what the turn finds; `emission` stands for `build_fields`, the factory, `emit_usage` and
-- `close` between the delta and the counters that are read after them, and may raise.
use tokenweir.Prelude.{
  ℕ, ℤ, ltb_ℤ, String, Bool, true, false, ◌&&◌, not, is_some, Option, none, some, Dict, leb,
  if◌then◌else◌,
}
use tokenweir.Python.{Outcome, returned, raised}
use tokenweir.Contract.Values.{Value, int}
use tokenweir.Contract.Record.{UsageRecord}
use tokenweir.Hook.Counts.{TokenTotals, no_tokens, is_zero, as_dict, from_mapping, turn_delta}
use tokenweir.Hook.Transcript.{Entry, File, ScanResult, scan_transcript}

-- The file of the baseline: not there, not to be read as JSON, JSON of another kind, or an object
-- with what it has under "cumulative" (none, if that is no mapping).
pub data Stored : Type 0 where
  missing unreadable not_an_object : Stored
  object : Option (Dict Value) → Stored

-- `read_baseline`
unfoldable pub read_baseline : Stored → TokenTotals
unfolding from_mapping
read_baseline (object cumulative) = from_mapping cumulative
read_baseline _ = no_tokens

-- `write_baseline`, where `written` tells whether the file system let it
unfoldable pub write_baseline : Bool → TokenTotals → Stored → Stored
unfolding as_dict
write_baseline true totals stored = object (some (as_dict totals))
write_baseline false totals stored = stored

-- What follows a delta: the record that `emit_usage` has returned, the emitter's `delivered`, the name
-- of the sink's drop counter and the sink's attributes before and after, and `degraded`.
pub record Emission : Type 0 where
  pub usage_record : Option UsageRecord
  pub delivered : ℕ
  pub drop_counter : Option String
  pub before : String → Option Value
  pub after : String → Option Value
  pub degraded : Bool

-- the test of `_dropped_count` on an attribute
unfoldable pub as_count : Option Value → Option ℤ
as_count (some (int n)) = some n
as_count _ = none

-- `_dropped_count`
unfoldable pub dropped_count : Option String → (String → Option Value) → Option ℤ
unfolding as_count
dropped_count none attributes = none
dropped_count (some name) attributes = as_count (attributes name)

-- the sink has counted a drop meanwhile
unfoldable pub is_lost : Option ℤ → Option ℤ → Bool
is_lost (some before) (some after) = ltb_ℤ before after
is_lost _ _ = false

-- `kept` of `run`
unfoldable pub kept : Emission → Bool
unfolding is_lost dropped_count
kept e =
    is_some e.usage_record
    && leb 1 e.delivered
    && not (is_lost (dropped_count e.drop_counter e.before) (dropped_count e.drop_counter e.after))
    && not e.degraded

-- A call of the hook: the transcript's path in its input, the file there, whether the baseline can be
-- written, and what follows a delta.
pub record Turn : Type 0 where
  pub transcript_path : Option String
  pub file : File
  pub written : Bool
  pub emission : TokenTotals → ScanResult → Outcome Emission

-- `run`, from the record's emission on
unfoldable pub settle : Emission → Bool → TokenTotals → Stored → Option UsageRecord × Stored
unfolding kept write_baseline
settle e written totals stored =
    if kept e then (e.usage_record, write_baseline written totals stored) else (none, stored)

-- `run`, with what came of the emission: an exception ends it
unfoldable pub emission_ended :
    Outcome Emission → Bool → TokenTotals → Stored → Outcome (Option UsageRecord) × Stored
unfolding settle
emission_ended (returned e) written totals stored =
    let (r, stored') = settle e written totals stored in (returned r, stored')
emission_ended (raised e) written totals stored = (raised e, stored)

-- `run`, with the delta
unfoldable pub emit_delta :
    Turn → ScanResult → Stored → Option TokenTotals → Outcome (Option UsageRecord) × Stored
unfolding emission_ended is_zero write_baseline
emit_delta t scan stored none =
    (returned none, (if scan.readable then write_baseline t.written scan.totals stored else stored))
emit_delta t scan stored (some delta) =
    if is_zero delta
    then (returned none, stored)
    else emission_ended (t.emission delta scan) t.written scan.totals stored

-- `run`
unfoldable pub run : (String → Option Entry) → Turn → Stored → Outcome (Option UsageRecord) × Stored
unfolding emit_delta turn_delta read_baseline scan_transcript
run loads t stored = elim t.transcript_path [
  | none ↦ (returned none, stored)
  | some path ↦
      let scan = scan_transcript loads t.file in
      emit_delta t scan stored (turn_delta scan.totals (read_baseline stored))
]
