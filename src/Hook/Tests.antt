-- ===== src/Hook/Tests.antt =====
-- A transcript of three responses, the second of which repeats the first, and the theorems at it.
use tokenweir.Prelude.{
  ℕ, suc, any, arith, pos, String, true, false, ◌≡◌, refl, Option, some, none, List, [], ◌∷◌,
  str_eq, length, if◌then◌else◌,
}
use tokenweir.Python.{Outcome, returned, raised, exception}
use tokenweir.Contract.Values.{int, str}
use tokenweir.Contract.Values.{
  required_str, optional_str, token_count, version, has_non_blank, is_blank_character,
}
use tokenweir.Contract.Record.{construct}
use tokenweir.Hook.Fields.{
  Environment, no_input, request_id, env_value, Conversion, out_of_range, in_utc, build_fields,
}
use tokenweir.Hook.Contracted.{counts_of, HasTexts, conversion, Taken, construct-build_fields}
use tokenweir.Hook.Counts.{TokenTotals, no_tokens, covers}
use tokenweir.Hook.Transcript.{
  Entry, mapping, plain, read_to_end, ScanResult, empty_scan, scan_transcript,
}
use tokenweir.Hook.Pipeline.{run, missing, read_baseline, Emission}
use tokenweir.Hook.Scan.{responses, firsts, sum_usage, scan_transcript-firsts}
use tokenweir.Hook.Scan.{is_named}
use tokenweir.Hook.Identity.{scan_transcript-identity}
use tokenweir.Hook.Selection.{Honest, configured, select_sink, select_sink-Honest}
use tokenweir.Hook.Emitted.{Surroundings, emission_in}
use tokenweir.Hook.Turns.{Stop, session, Covers, session-metered}

abbrev entry : String → Entry
entry id =
    ("timestamp", plain (str "2026-01-01T00:00:00Z"))
    ∷ (
      "message",
      mapping (
          ("id", plain (str id))
          ∷ ("model", plain (str "m"))
          ∷ ("usage", mapping (("input_tokens", int (pos 3)) ∷ ("output_tokens", int (pos 5)) ∷ []))
          ∷ []),
    )
    ∷ []

-- lines that are read by their text
abbrev loads : String → Option Entry
loads line =
    if str_eq line "a"
    then some (entry "m1")
    else if str_eq line "b"
    then some (entry "m2")
    else none

abbrev lines : List String
lines = "a" ∷ " a " ∷ "{" ∷ "" ∷ "b" ∷ []

scan_lines_found : (scan_transcript loads (read_to_end lines)).totals.output_tokens ≡ 10
unfolding scan_transcript
scan_lines_found = refl

scan_transcript-firsts_example :
    let found = firsts [] (responses loads lines) in
    let scan = scan_transcript loads (read_to_end lines) in
    (scan.totals ≡ sum_usage found) × (scan.counted ≡ length found)
scan_transcript-firsts_example = scan_transcript-firsts loads lines

scan_transcript-identity_example : any (is_named "m2") (responses loads ("a" ∷ [])) ≡ false
unfolding scan_transcript
scan_transcript-identity_example =
    scan_transcript-identity loads ("a" ∷ []) ("b" ∷ []) "m2" (omega arith) refl

-- an environment with an issue only, and a scan that has found a response
abbrev environ : String → Option String
environ name = if str_eq name "MADO_ISSUE_KEY" then some " TOKWEIR-7 " else none

abbrev one_response : ScanResult
one_response = record empty_scan {
  counted = 1;
  last_message_id = some "msg_1";
  last_model = some "model-1";
  last_timestamp = some "2026-01-01T00:00:00+00:00";
}

abbrev few_tokens : TokenTotals
few_tokens = record {
  input_tokens = 3;
  output_tokens = 5;
  cache_creation_input_tokens = 0;
  cache_read_input_tokens = 7;
}

-- a transcript's time is what it is in UTC, but one that is out of range there
abbrev to_utc : String → Conversion
to_utc text = if str_eq text "0001-01-01T00:00:00+01:00" then out_of_range else in_utc text

texts_given : HasTexts (λ s. s) (λ c. none) "now" "0f" environ few_tokens one_response no_input
unfolding has_non_blank is_blank_character request_id env_value
texts_given = record { request = refl; app = refl; endpoint = refl; model = refl }

construct-build_fields_example :
    Taken
      (λ s. s)
      (λ c. none)
      "now"
      "0f"
      environ
      few_tokens
      one_response
      no_input
      (conversion to_utc one_response.last_timestamp)
      (build_fields (λ s. s) (λ c. none) to_utc "now" "0f" environ few_tokens one_response no_input)
construct-build_fields_example =
    construct-build_fields (λ s. s) (λ c. none) "now" "0f" environ few_tokens one_response no_input
      to_utc texts_given

-- what follows a delta over a transport that works, and over one that loses the record
abbrev sent : Emission
sent = record {
  usage_record = none;
  delivered = 1;
  drop_counter = some "dropped";
  before = λ name. some (int (pos 0));
  after = λ name. some (int (pos 0));
  degraded = false;
}

abbrev around : Emission → Surroundings
around e = record {
  to_utc = to_utc;
  now = "now";
  hex = "0f";
  environ = environ;
  input = no_input;
  accepted = true;
  rest = λ delta scan. returned e;
}

abbrev stops : List Stop
stops =
    record {
      path = "t";
      new_lines = "a" ∷ [];
      surroundings = around (record sent { after = λ name. some (int (pos 1)) });
    }
    ∷ record { path = "t"; new_lines = "b" ∷ []; surroundings = around sent }
    ∷ []

session-metered_example :
    let (lines', stored', sum') = session (λ s. s) (λ c. none) loads stops [] missing no_tokens in
    (sum' ≡ read_baseline stored') × Covers loads (read_to_end lines') stored'
unfolding scan_transcript read_baseline covers
session-metered_example =
    session-metered (λ s. s) (λ c. none) loads stops [] missing no_tokens refl refl

-- the record that was lost is metered with the next one
session_found : (session (λ s. s) (λ c. none) loads stops [] missing no_tokens).2.output_tokens ≡ 10
unfolding run emission_in request_id has_non_blank is_blank_character construct required_str
    optional_str token_count version counts_of
session_found = refl

-- a broker is configured, and cannot be reached
abbrev broker_only : Environment
broker_only name = if str_eq name "TOKENWEIR_AMQP_URL" then some "amqp://broker" else none

abbrev unreachable : String → ℕ → Outcome ℕ × ℕ
unreachable url w = (raised exception, suc w)

select_sink-Honest_example :
    Honest unreachable unreachable 0
      (configured unreachable unreachable
        (env_value broker_only "TOKENWEIR_AMQP_URL")
        (env_value broker_only "TOKENWEIR_DSN")
        0)
      (select_sink unreachable unreachable broker_only 0)
select_sink-Honest_example = select_sink-Honest unreachable unreachable broker_only 0
