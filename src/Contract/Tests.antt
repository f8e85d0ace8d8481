-- ===== src/Contract/Tests.antt =====
-- Concrete payloads, and the theorems at them.
use tokenweir.Prelude.{pos, negsuc, String, true, ◌≡◌, refl, none, some, [], ◌∷◌, Dict, arith}
use tokenweir.Python.{whole}
use tokenweir.Samples.{record_a, fields}
use tokenweir.Contract.Values.{
  Value, int, float, str, value_error, type_error, missing, is_negative, ok, err, has_non_blank,
  required_str, optional_str, token_count, version, coerce_mode,
}
use tokenweir.Contract.Record.{UsageRecord, construct, to_dict}
use tokenweir.Contract.Wire.{Json, object, text, mapping, items, from_dict, from_json}
use tokenweir.Contract.Schema.{usage_record_json_schema, conforms, meets_if_present}
use tokenweir.Contract.Shape.{IsValid, construct-IsValid}
use tokenweir.Contract.RoundTrip.{from_dict-to_dict}
use tokenweir.Contract.Agreement.{conforms-from_dict}
use tokenweir.Contract.Publication.{to_dict-conforms}

record_a-IsValid : IsValid record_a
unfolding has_non_blank
record_a-IsValid = record {
  request_id = refl;
  app_id = refl;
  endpoint = refl;
  model = refl;
  status = refl;
  version = omega arith;
}

-- A float that is an integer, a key that no version 1 record has, and a field that is absent.
abbrev newer : Dict Value
newer =
    ("output_tokens", float (whole (pos 5)))
    ∷ ("input_tokens", int (pos 3))
    ∷ ("tier", str "gold")
    ∷ ("schema_version", int (pos 1))
    ∷ fields

newer_read : from_dict (mapping (items newer)) ≡ ok record_a
unfolding from_dict required_str has_non_blank optional_str token_count version coerce_mode
newer_read = refl

newer-conforms : conforms usage_record_json_schema newer ≡ true
unfolding conforms usage_record_json_schema meets_if_present has_non_blank from_dict
newer-conforms = refl

constructed : construct (to_dict record_a) ≡ ok record_a
unfolding to_dict construct required_str has_non_blank optional_str token_count version coerce_mode
constructed = refl

construct-IsValid_example : IsValid record_a
construct-IsValid_example = construct-IsValid (to_dict record_a) record_a constructed

negative_refused :
    from_dict (mapping (items (("input_tokens", int (negsuc 0)) ∷ fields)))
    ≡ err (value_error is_negative (some "input_tokens"))
unfolding from_dict required_str has_non_blank optional_str token_count version coerce_mode
negative_refused = refl

empty_refused : from_dict (mapping []) ≡ err (value_error missing none)
unfolding from_dict
empty_refused = refl

empty_construct : construct [] ≡ err type_error
unfolding construct
empty_construct = refl

-- A JSON library whose text is a number that stands for nothing, so that every text is read as an
-- empty object.
abbrev empty_object : String → Json
empty_object s = object []

abbrev empty_text : Dict Value → String
empty_text d = "{}"

from_dict-to_dict_example : from_dict (mapping (items (to_dict record_a))) ≡ ok record_a
from_dict-to_dict_example = from_dict-to_dict record_a record_a-IsValid

conforms-from_dict_example : (r : UsageRecord) × (from_dict (mapping (items newer)) ≡ ok r)
conforms-from_dict_example = conforms-from_dict newer newer-conforms

to_dict-conforms_example : conforms usage_record_json_schema (to_dict record_a) ≡ true
to_dict-conforms_example = to_dict-conforms record_a record_a-IsValid refl

empty_json_refused : from_json empty_object empty_text (text "{}") ≡ err (value_error missing none)
unfolding from_json
empty_json_refused = refl

-- A JSON library that knows one text.
abbrev one_object : String → Json
one_object s = object (to_dict record_a)
