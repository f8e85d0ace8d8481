-- ===== src/Contract/Schema.antt =====
-- contract.py: `usage_record_json_schema`, and what JSON Schema says of the keywords that it uses.
use tokenweir.Prelude.{
  ℕ, ℤ, pos, negsuc, String, Bool, true, false, ◌&&◌, Option, none, some, List, [], ◌∷◌, Dict,
  lookup, ◌==◌, all, any, str_eq, if◌then◌else◌,
}
use tokenweir.Python.{Float, whole, fractional}
use tokenweir.Contract.Values.{
  api_metered, subscription, value, Value, none_value, int, float, str, has_non_blank,
}
use tokenweir.Contract.Record.{schema_version, required_fields, has_key}

pub data Kind : Type 0 where
  string null integer : Kind

-- The subschema of a property, by the keywords that constrain it: `type` (one kind or several),
-- `minLength: 1` with the pattern of a character that is not blank, `minimum: 0`, `const`, `enum`.
-- (`default` and `description` constrain nothing.)
pub record Property : Type 0 where
  pub kinds : List Kind
  pub non_blank : Bool
  pub minimum_zero : Bool
  pub const : Option ℕ
  pub enum : Option (List (Option String))

abbrev pub plain : List Kind → Property
plain kinds = record {
  kinds = kinds;
  non_blank = false;
  minimum_zero = false;
  const = none;
  enum = none;
}

abbrev pub nullable_string : Property
nullable_string = plain (string ∷ null ∷ [])

abbrev pub required_string : Property
required_string = record (plain (string ∷ [])) { non_blank = true }

abbrev pub token_count_property : Property
token_count_property = record (plain (integer ∷ [])) { minimum_zero = true }

pub record Document : Type 0 where
  pub properties : Dict Property
  pub required : List String

-- `usage_record_json_schema`
unfoldable pub usage_record_json_schema : Document
usage_record_json_schema = record {
  properties =
      ("schema_version", record (plain (integer ∷ [])) { const = some schema_version })
      ∷ ("request_id", required_string)
      ∷ ("app_id", required_string)
      ∷ ("endpoint", required_string)
      ∷ ("model", required_string)
      ∷ ("status", required_string)
      ∷ ("workload", nullable_string)
      ∷ ("parent_request_id", nullable_string)
      ∷ ("queue", nullable_string)
      ∷ ("input_tokens", token_count_property)
      ∷ ("output_tokens", token_count_property)
      ∷ ("cache_creation_input_tokens", token_count_property)
      ∷ ("cache_read_input_tokens", token_count_property)
      ∷ ("latency_ms", record (plain (integer ∷ null ∷ [])) { minimum_zero = true })
      ∷ (
        "pricing_mode",
        record (plain (string ∷ null ∷ [])) {
          enum = some (some (value api_metered) ∷ some (value subscription) ∷ none ∷ []);
        },
      )
      ∷ ("ts", nullable_string)
      ∷ [];
  required = "schema_version" ∷ required_fields;
}

-- JSON Schema (draft 2020-12), for the keywords above. A number is an integer if it is one
-- mathematically, so `100.0` is.
abbrev pub has_kind : Value → Kind → Bool
has_kind (str s) string = true
has_kind none_value null = true
has_kind (int n) integer = true
has_kind (float (whole n)) integer = true
has_kind _ _ = false

abbrev pub is_non_negative : ℤ → Bool
is_non_negative (pos n) = true
is_non_negative (negsuc n) = false

-- `minimum: 0` says nothing of a value that is no number.
abbrev pub meets_minimum : Value → Bool
meets_minimum (int n) = is_non_negative n
meets_minimum (float (whole n)) = is_non_negative n
meets_minimum (float (fractional n)) = is_non_negative n
meets_minimum (float Float.minus_inf) = false
meets_minimum _ = true

abbrev pub meets_pattern : Value → Bool
meets_pattern (str s) = has_non_blank s
meets_pattern _ = true

abbrev pub equals_number : ℕ → Value → Bool
equals_number c (int (pos n)) = n == c
equals_number c (float (whole (pos n))) = n == c
equals_number c _ = false

abbrev pub equals_text : Value → Option String → Bool
equals_text (str s) (some t) = str_eq s t
equals_text none_value none = true
equals_text _ _ = false

unfoldable pub meets : Property → Value → Bool
meets p v =
    any (has_kind v) p.kinds
    && (if p.non_blank then meets_pattern v else true)
    && (if p.minimum_zero then meets_minimum v else true)
    && elim p.const [ none ↦ true | some c ↦ equals_number c v ]
    && elim p.enum [ none ↦ true | some ts ↦ any (equals_text v) ts ]

-- a property that is absent is not constrained
unfoldable pub meets_if_present : Property → Option Value → Bool
unfolding meets
meets_if_present p none = true
meets_if_present p (some v) = meets p v

unfoldable pub conforms : Document → Dict Value → Bool
conforms schema d =
    all (λ e. meets_if_present e.1 (lookup e.0 d)) schema.properties
    && all (has_key d) schema.required
