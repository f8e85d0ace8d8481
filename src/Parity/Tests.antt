-- ===== src/Parity/Tests.antt =====
-- A response on two lines, and one without an identity.
use tokenweir.Prelude.{
  ℤ, pos, String, Bool, true, false, ◌≡◌, refl, Option, some, none, List, [], ◌∷◌, ◌++◌, map,
  length, Dict, str_eq, if◌then◌else◌,
}
use tokenweir.Python.{Float, nan, Outcome, returned, raised}
use tokenweir.Contract.Values.{Value, int, str}
use tokenweir.Hook.Transcript.{Entry, response, mapping, plain, read_to_end, scan_transcript}
use tokenweir.Parity.Turns.{Content, sequence, fields, plain_text, iter_turns, is_anonymous}
use tokenweir.Parity.Compare.{Status, FieldComparison, parity, offset, absent, compare_usage}
use tokenweir.Parity.Coverage.{Reports, compare_usage-names}
use tokenweir.Parity.Agreement.{turn_sum, iter_turns-scan_transcript}

abbrev message : Option String → Entry
message id =
    (
      "message",
      mapping (
          (if (elim id [ none ↦ true | some _ ↦ false ]) then [] else ("id", plain (str "m1")) ∷ [])
          ++ ("usage", mapping (("output_tokens", int (pos 5)) ∷ [])) ∷ []),
    )
    ∷ []

abbrev loads : String → Option Entry
loads line =
    if str_eq line "text"
    then some (message (some "m1"))
    else if str_eq line "tool"
    then some (message (some "m1"))
    else if str_eq line "bare"
    then some (message none)
    else none

abbrev content : String → Content
content line =
    if str_eq line "text"
    then sequence (fields (("type", str "text") ∷ ("text", str "hello") ∷ []) ∷ [])
    else if str_eq line "tool"
    then sequence (fields (("type", str "tool_use") ∷ []) ∷ [])
    else plain_text "ok"

abbrev lines : List String
lines = "text" ∷ "{" ∷ " bare " ∷ "tool" ∷ []

gathered :
    iter_turns loads content (read_to_end lines)
    ≡ record {
      message_id = some "m1";
      model = none;
      timestamp = none;
      usage = ("output_tokens", int (pos 5)) ∷ [];
      output_text = "hello";
      thinking_text = "";
      has_unaccounted_blocks = true;
    }
      ∷ record {
        message_id = none;
        model = none;
        timestamp = none;
        usage = ("output_tokens", int (pos 5)) ∷ [];
        output_text = "ok";
        thinking_text = "";
        has_unaccounted_blocks = false;
      }
      ∷ []
unfolding iter_turns
gathered = refl

iter_turns-scan_transcript_example :
    (turn_sum (iter_turns loads content (read_to_end lines))
      ≡ (scan_transcript loads (read_to_end lines)).totals)
    × (length (iter_turns loads content (read_to_end lines))
        ≡ (scan_transcript loads (read_to_end lines)).counted)
unfolding is_anonymous response
iter_turns-scan_transcript_example = iter_turns-scan_transcript loads content lines refl

abbrev api : Dict Value
api = ("input_tokens", int (pos 3)) ∷ ("output_tokens", int (pos 5)) ∷ []

abbrev claimed : Dict Value
claimed = ("output_tokens", int (pos 5)) ∷ ("input_tokens", int (pos 4)) ∷ ("tier", str "max") ∷ []

abbrev same_int : Value → Value → Bool
same_int v w = false

-- quotients of whole numbers, a float of another kind in their place
abbrev divide : ℤ → ℤ → Outcome Float
divide n m = returned nan

statuses_of : Outcome (List (FieldComparison Float)) → List Status
statuses_of (returned cs) = map (λ c. c.status) cs
statuses_of (raised e) = []

statuses :
    statuses_of (compare_usage same_int divide api claimed)
    ≡ offset ∷ parity ∷ absent ∷ absent ∷ absent ∷ []
unfolding compare_usage statuses_of
statuses = refl

compare_usage-names_example :
    Reports same_int divide api claimed "tier" (compare_usage same_int divide api claimed)
compare_usage-names_example = compare_usage-names same_int divide api claimed "tier"
