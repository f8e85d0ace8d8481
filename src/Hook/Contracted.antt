-- ===== src/Hook/Contracted.antt =====
-- claude_code.py: what the contract makes of the fields of `build_fields`.
use Prim.Native.Char.{Char}
use Prim.Native.String.{String}
use tokenweir.Prelude.{
  ℕ, true, ◌≡◌, refl, inl, inr, Option, none, some, get_or, Dict, Bool-cases, if◌then◌else◌,
}
use tokenweir.Python.{Outcome, returned, raised, exception}
use tokenweir.Contract.Values.{
  Value, str, is_blank_character, has_non_blank, required_str, optional_str, token_count,
  non_negative_int, version, coerce_mode, ok,
}
use tokenweir.Contract.Record.{UsageRecord, construct, post_init}
use tokenweir.Hook.Text.{strip, is_empty_text}
use tokenweir.Hook.Counts.{TokenTotals}
use tokenweir.Hook.Transcript.{ScanResult}
use tokenweir.Hook.Fields.{
  Environment, env_value, HookInput, optional_field, attribution_from_env, Conversion, not_a_time,
  out_of_range, in_utc, converted, with_offset, normalize_ts, request_id, fields_at, fields_with,
  build_fields,
}

required_str_non_blank :
    (name s : String) → has_non_blank s ≡ true → required_str name (str s) ≡ ok s
unfolding required_str
required_str_non_blank name s h = rw h refl

ok_non_blank : has_non_blank "ok" ≡ true
unfolding has_non_blank is_blank_character
ok_non_blank = refl

optional_str-optional_field :
    (name : String) (o : Option String) → optional_str name (optional_field o) ≡ ok o
unfolding optional_str
optional_str-optional_field name none = refl
optional_str-optional_field name (some s) = refl

-- The counts that a record carries.
unfoldable pub counts_of : UsageRecord → TokenTotals
counts_of r = record {
  input_tokens = r.input_tokens;
  output_tokens = r.output_tokens;
  cache_creation_input_tokens = r.cache_creation_input_tokens;
  cache_read_input_tokens = r.cache_read_input_tokens;
}

-- what the timestamp of the transcript is converted to; none counts as no time
abbrev pub conversion : (String → Conversion) → Option String → Conversion
conversion to_utc none = not_a_time
conversion to_utc (some s) = if is_empty_text s then not_a_time else to_utc (with_offset (strip s))

module _ (lower : String → String) (digit : Char → Option ℕ) (now hex : String)
    (environ : Environment) (delta : TokenTotals) (scan : ScanResult) (input : HookInput) where
  -- the record of a turn, at a time
  abbrev pub turn_record : String → UsageRecord
  turn_record ts = record {
    request_id = request_id hex scan.last_message_id input.session_id;
    app_id = get_or "claude-code" (env_value environ "TOKENWEIR_APP_ID");
    endpoint = get_or "claude-code/stop-hook" (env_value environ "TOKENWEIR_ENDPOINT");
    model = get_or "unknown" scan.last_model;
    status = "ok";
    workload = (attribution_from_env lower digit environ).workload;
    parent_request_id = (attribution_from_env lower digit environ).parent_request_id;
    queue = (attribution_from_env lower digit environ).queue;
    input_tokens = delta.input_tokens;
    output_tokens = delta.output_tokens;
    cache_creation_input_tokens = delta.cache_creation_input_tokens;
    cache_read_input_tokens = delta.cache_read_input_tokens;
    latency_ms = none;
    pricing_mode = some (attribution_from_env lower digit environ).pricing_mode;
    ts = some ts;
    version = 1;
  }

  -- The four texts of the record that come from outside are not blank.
  pub record HasTexts : Type 0 where
    pub request : has_non_blank (request_id hex scan.last_message_id input.session_id) ≡ true
    pub app : has_non_blank (get_or "claude-code" (env_value environ "TOKENWEIR_APP_ID")) ≡ true
    pub endpoint :
        has_non_blank (get_or "claude-code/stop-hook" (env_value environ "TOKENWEIR_ENDPOINT"))
        ≡ true
    pub model : has_non_blank (get_or "unknown" scan.last_model) ≡ true

  pub construct-fields_at :
      (ts : String)
      → HasTexts
      → construct (fields_at lower digit ts hex environ delta scan input) ≡ ok (turn_record ts)
  unfolding construct fields_at post_init coerce_mode token_count non_negative_int version
      optional_str
  construct-fields_at ts t = rw (required_str_non_blank "request_id" _ t.request) (
      rw (required_str_non_blank "app_id" _ t.app) (
        rw (required_str_non_blank "endpoint" _ t.endpoint) (
          rw (required_str_non_blank "model" _ t.model) (
            rw (required_str_non_blank "status" "ok" ok_non_blank) (
              rw (optional_str-optional_field "workload" _) (
                rw (optional_str-optional_field "parent_request_id" _)
                  (rw (optional_str-optional_field "queue" _) refl)))))))

  -- What is made of the fields of a turn, by what the timestamp was converted to.
  abbrev pub Taken : Conversion → Outcome (Dict Value) → Type 0
  Taken not_a_time (returned fields) = construct fields ≡ ok (turn_record now)
  Taken (in_utc time) (returned fields) = construct fields ≡ ok (turn_record time)
  Taken out_of_range (raised exception) = Unit
  Taken _ _ = ⊥

  converted-Taken :
      (c : Conversion)
      → HasTexts
      → Taken c (fields_with lower digit (converted now c) hex environ delta scan input)
  unfolding converted fields_with
  converted-Taken not_a_time t = construct-fields_at now t
  converted-Taken (in_utc time) t = construct-fields_at time t
  converted-Taken out_of_range t = tt

  build_fields-Taken :
      (to_utc : String → Conversion) (timestamp : Option String)
      → HasTexts
      → Taken
          (conversion to_utc timestamp)
          (fields_with lower digit (normalize_ts to_utc now timestamp) hex environ delta scan input)
  unfolding normalize_ts
  build_fields-Taken to_utc none t = converted-Taken not_a_time t
  build_fields-Taken to_utc (some s) t = elim (Bool-cases (is_empty_text s)) [
    | inl e ↦ rw e (converted-Taken not_a_time t)
    | inr e ↦ rw e (converted-Taken (to_utc (with_offset (strip s))) t)
  ]

  -- Whenever the four texts that come from outside are not blank (the identity, the application, the
  -- endpoint and the model), the contract takes the fields that `build_fields` makes, and its record has
  -- the counts of the delta, the attribution of the environment, and the time of the turn, in UTC, or
  -- the present time where the transcript has none that can be read. `build_fields` raises exactly if
  -- the time of the turn can be read and is out of the range of dates in UTC.
  pub construct-build_fields :
      (to_utc : String → Conversion)
      → HasTexts
      → Taken
          (conversion to_utc scan.last_timestamp)
          (build_fields lower digit to_utc now hex environ delta scan input)
  unfolding build_fields
  construct-build_fields to_utc t = build_fields-Taken to_utc scan.last_timestamp t
