-- ===== src/Hook/Fields.antt =====
-- claude_code.py: `_env`, `read_hook_input`, `attribution_from_env`, `_normalize_ts` and
-- `build_fields`. The environment is a function, `lower` and `digit` are the tables that the phase is
-- read with, `to_utc` parses a time, converts it to UTC and prints it, `now` is the print of the present one and
-- `hex` that of a new uuid. Log lines are left out.
use Prim.Native.Char.{Char, code}
use Prim.Native.String as T
use tokenweir.Prelude.{
  ℕ, String, ◌||◌, Option, none, some, [], ◌∷◌, ◌++◌, Dict, lookup, get_or, ◌==◌, if◌then◌else◌,
}
use tokenweir.Python.{Outcome, returned, raised, exception}
use tokenweir.Contract.Values.{
  Value, none_value, str, mode, PricingMode, subscription, coerce_mode, Result, ok,
}
use tokenweir.Hook.Text.{stripped, strip, is_empty_text}
use tokenweir.Hook.Counts.{TokenTotals, as_dict}
use tokenweir.Hook.Transcript.{ScanResult, Member, text}
use tokenweir.Orchestrator.Label.{normalize_phase, joined}

abbrev pub Environment : Type 0
Environment = String → Option String

-- `_env`
unfoldable pub env_value : Environment → String → Option String
unfolding stripped
env_value environ name = elim (environ name) [ none ↦ none | some v ↦ stripped v ]

pub record HookInput : Type 0 where
  pub transcript_path : Option String
  pub session_id : Option String

abbrev pub no_input : HookInput
no_input = record { transcript_path = none; session_id = none }

-- The stream of the hook's input, and what JSON makes of a text: a mapping or not.
unfoldable pub read_hook_input :
    {M : Type 0} → (String → Option (Dict (Member M))) → Option String → HookInput
unfolding is_empty_text strip text lookup
read_hook_input loads none = no_input
read_hook_input loads (some raw) =
    if is_empty_text (strip raw) then no_input else elim (loads raw) [
      | none ↦ no_input
      | some payload ↦ record {
        transcript_path = text (lookup "transcript_path" payload);
        session_id = text (lookup "session_id" payload);
      }
    ]

-- the part of the record that comes from the environment
pub record Attribution : Type 0 where
  pub workload : Option String
  pub queue : Option String
  pub parent_request_id : Option String
  pub pricing_mode : PricingMode

-- a mode that was declared, or subscription
unfoldable pub mode_or_subscription : Result (Option PricingMode) → PricingMode
mode_or_subscription (ok (some m)) = m
mode_or_subscription _ = subscription

unfoldable pub declared_mode : Option String → PricingMode
unfolding mode_or_subscription coerce_mode
declared_mode none = subscription
declared_mode (some s) = mode_or_subscription (coerce_mode (str s))

-- `None` or a text, as a field
abbrev pub optional_field : Option String → Value
optional_field none = none_value
optional_field (some s) = str s

-- the last character of a text is Z or z, which stands for the offset of UTC
unfoldable pub with_offset : String → String
with_offset T.[] = T.[]
with_offset (T.◌∷◌ c s) =
    let more = with_offset s in
    elim s [
      | T.[] ↦ if code c == b'Z' || code c == b'z' then "+00:00" else T.◌∷◌ c T.[]
      | T.◌∷◌ _ _ ↦ T.◌∷◌ c more
    ]

-- What becomes of a text that is read as a time and converted to UTC: it is no time (ValueError), its time
-- in UTC is out of the range of dates (OverflowError), or the print of that time.
pub data Conversion : Type 0 where
  not_a_time out_of_range : Conversion
  in_utc : String → Conversion

unfoldable pub converted : String → Conversion → Outcome String
converted now not_a_time = returned now
converted now out_of_range = raised exception
converted now (in_utc time) = returned time

-- `_normalize_ts`
unfoldable pub normalize_ts : (String → Conversion) → String → Option String → Outcome String
unfolding is_empty_text strip with_offset converted
normalize_ts to_utc now none = returned now
normalize_ts to_utc now (some s) =
    if is_empty_text s then returned now else converted now (to_utc (with_offset (strip s)))

-- the identity of the record, in `build_fields`
unfoldable pub request_id : String → Option String → Option String → String
unfolding joined
request_id hex (some message_id) session = message_id
request_id hex none (some session) = joined session (joined ":" hex)
request_id hex none none = joined "claude-code:" hex

abbrev pub attribution_fields : Attribution → Dict Value
attribution_fields a =
    ("workload", optional_field a.workload)
    ∷ ("queue", optional_field a.queue)
    ∷ ("parent_request_id", optional_field a.parent_request_id)
    ∷ ("pricing_mode", mode a.pricing_mode)
    ∷ []

module _ (lower : String → String) (digit : Char → Option ℕ) where
  -- `attribution_from_env`
  unfoldable pub attribution_from_env : Environment → Attribution
  unfolding env_value declared_mode normalize_phase
  attribution_from_env environ = record {
    workload = env_value environ "MADO_ISSUE_KEY";
    queue = normalize_phase lower digit (env_value environ "MADO_PHASE");
    parent_request_id = env_value environ "MADO_STREAM_ID";
    pricing_mode = declared_mode (env_value environ "MADO_PRICING_MODE");
  }

  -- the fields, with the time
  unfoldable pub fields_at :
      String → String → Environment → TokenTotals → ScanResult → HookInput → Dict Value
  unfolding request_id env_value as_dict attribution_from_env
  fields_at ts hex environ delta scan input =
      ("request_id", str (request_id hex scan.last_message_id input.session_id))
      ∷ ("app_id", str (get_or "claude-code" (env_value environ "TOKENWEIR_APP_ID")))
      ∷ ("endpoint", str (get_or "claude-code/stop-hook" (env_value environ "TOKENWEIR_ENDPOINT")))
      ∷ ("model", str (get_or "unknown" scan.last_model))
      ∷ ("status", str "ok")
      ∷ ("ts", str ts)
      ∷ (as_dict delta ++ attribution_fields (attribution_from_env environ))

  unfoldable pub fields_with :
      Outcome String
      → String
      → Environment
      → TokenTotals
      → ScanResult
      → HookInput
      → Outcome (Dict Value)
  unfolding fields_at
  fields_with (returned ts) hex environ delta scan input =
      returned (fields_at ts hex environ delta scan input)
  fields_with (raised e) hex environ delta scan input = raised e

  -- `build_fields`
  unfoldable pub build_fields :
      (String → Conversion)
      → String
      → String
      → Environment
      → TokenTotals
      → ScanResult
      → HookInput
      → Outcome (Dict Value)
  unfolding normalize_ts fields_with
  build_fields to_utc now hex environ delta scan input =
      fields_with (normalize_ts to_utc now scan.last_timestamp) hex environ delta scan input
