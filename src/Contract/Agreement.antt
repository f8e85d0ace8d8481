-- ===== src/Contract/Agreement.antt =====
-- The published schema and the library agree on payloads: the library reads whatever the schema
-- admits.
use tokenweir.Prelude.{
  pos, String, Bool, true, false, ◌≡◌, refl, ◌∙◌, some, List, [], ◌∷◌, ◌&&◌, Dict, arith, lookup,
  is_some, contains, all, eq_iff, if◌then◌else◌,
}
use tokenweir.Contract.Values.{
  Value, none_value, int, ok, required_str, optional_str, non_negative_int, token_count, version,
  coerce_mode,
}
use tokenweir.Contract.Record.{
  UsageRecord, is_known, has_key, required_fields, post_init, attributes, defaults,
}
use tokenweir.Contract.Wire.{
  mapping, items, known_items, coerce_wire_integers, wire_integer_fields, from_dict,
}
use tokenweir.Contract.Lookup.{
  coerced, lookup-coerce_wire_integers, has_key-coerce, keys_known-coerce, keys_known-known_items,
  lookup-known_items,
}
use tokenweir.Contract.Schema.{
  Property, Document, nullable_string, required_string, token_count_property,
  usage_record_json_schema, meets_if_present, conforms,
}
use tokenweir.Contract.Successes.{
  succeeds, success_of, succeeds-bind, text_succeeds, optional_succeeds, count_succeeds,
  latency_succeeds, version_succeeds, mode_succeeds,
}

all-lookup :
    (d : Dict Value) (ps : Dict Property) (k : String) (p : Property)
    → lookup k ps ≡ some p
    → all (λ e. meets_if_present e.1 (lookup e.0 d)) ps ≡ true
    → meets_if_present p (lookup k d) ≡ true
unfolding lookup
all-lookup d [] k p e h = cc
all-lookup d ((j, q) ∷ ps) k p e h = ground (arith, eq_iff j k, all-lookup d ps k p)

all-has_key :
    (d : Dict Value) (ks : List String) (k : String)
    → contains k ks ≡ true
    → all (has_key d) ks ≡ true
    → has_key d k ≡ true
all-has_key d [] k e h = cc
all-has_key d (j ∷ ks) k e h = ground (arith, eq_iff j k, all-has_key d ks k)

and_cases : (a b : Bool) → a && b ≡ true → (a ≡ true) × (b ≡ true)
and_cases true b h = (refl, h)
and_cases false b h = cc

conforms-property :
    (schema : Document) (d : Dict Value) (k : String) (p : Property)
    → lookup k schema.properties ≡ some p
    → conforms schema d ≡ true
    → meets_if_present p (lookup k d) ≡ true
unfolding conforms
conforms-property schema d k p e h =
    all-lookup d schema.properties k p e (and_cases _ (all (has_key d) schema.required) h).0

conforms-required :
    (schema : Document) (d : Dict Value) (k : String)
    → contains k schema.required ≡ true
    → conforms schema d ≡ true
    → has_key d k ≡ true
unfolding conforms
conforms-required schema d k e h =
    all-has_key d schema.required k e
      (and_cases (all (λ e. meets_if_present e.1 (lookup e.0 d)) schema.properties) _ h).1

has_key-lookup :
    (k : String) (d d' : Dict Value) → lookup k d ≡ lookup k d' → has_key d k ≡ has_key d' k
unfolding has_key
has_key-lookup k d d' e = ground arith

is_some-lookup : (k : String) (d : Dict Value) → has_key d k ≡ true → is_some (lookup k d) ≡ true
unfolding has_key
is_some-lookup k d h = ground arith

-- the keyword arguments that `from_dict` passes on
abbrev arguments : Dict Value → Dict Value
arguments d = coerce_wire_integers wire_integer_fields (known_items (items d))

lookup-arguments :
    (d : Dict Value) (k : String)
    → is_known k ≡ true
    → lookup k (arguments d)
      ≡ (if contains k wire_integer_fields then coerced (lookup k d) else lookup k d)
lookup-arguments d k e =
    lookup-coerce_wire_integers wire_integer_fields k (known_items (items d))
    ∙ rw (lookup-known_items k d e)

has_key-arguments :
    (d : Dict Value) (k : String) → is_known k ≡ true → has_key (arguments d) k ≡ has_key d k
has_key-arguments d k e =
    has_key-coerce wire_integer_fields (known_items (items d)) k
    ∙ has_key-lookup k (known_items (items d)) d (lookup-known_items k d e)

module _ (d : Dict Value) (h : conforms usage_record_json_schema d ≡ true) where
  present : (k : String) → contains k required_fields ≡ true → has_key d k ≡ true
  unfolding usage_record_json_schema
  present k e = conforms-required usage_record_json_schema d k (ground arith) h

  text_at :
      (k : String)
      → is_known k ≡ true
      → contains k wire_integer_fields ≡ false
      → contains k required_fields ≡ true
      → lookup k (Document.properties usage_record_json_schema) ≡ some required_string
      → succeeds (required_str k (attributes (arguments d) k)) ≡ true
  unfolding usage_record_json_schema
  text_at k known plain_value needed e =
      rw (lookup-arguments d k known, plain_value)
        (text_succeeds k (defaults k) (lookup k d) (is_some-lookup k d (present k needed))
          (conforms-property usage_record_json_schema d k required_string e h))

  optional_at :
      (k : String)
      → is_known k ≡ true
      → contains k wire_integer_fields ≡ false
      → lookup k (Document.properties usage_record_json_schema) ≡ some nullable_string
      → defaults k ≡ none_value
      → succeeds (optional_str k (attributes (arguments d) k)) ≡ true
  optional_at k known plain_value e dflt =
      rw (lookup-arguments d k known, plain_value, dflt)
        (optional_succeeds k (lookup k d)
          (conforms-property usage_record_json_schema d k nullable_string e h))

  count_at :
      (k : String)
      → is_known k ≡ true
      → contains k wire_integer_fields ≡ true
      → lookup k (Document.properties usage_record_json_schema) ≡ some token_count_property
      → defaults k ≡ int (pos 0)
      → succeeds (token_count k (attributes (arguments d) k)) ≡ true
  count_at k known wire e dflt =
      rw (lookup-arguments d k known, wire, dflt)
        (count_succeeds k (lookup k d)
          (conforms-property usage_record_json_schema d k token_count_property e h))

  latency_at :
      succeeds (non_negative_int "latency_ms" (attributes (arguments d) "latency_ms") true) ≡ true
  unfolding usage_record_json_schema lookup is_known
  latency_at = rw (lookup-arguments d "latency_ms" refl) (
      latency_succeeds "latency_ms" (lookup "latency_ms" d)
        (conforms-property usage_record_json_schema d "latency_ms" _ refl h))

  version_at : succeeds (version (attributes (arguments d) "schema_version")) ≡ true
  unfolding usage_record_json_schema lookup is_known
  version_at = rw (lookup-arguments d "schema_version" refl) (
      version_succeeds (lookup "schema_version" d)
        (conforms-property usage_record_json_schema d "schema_version" _ refl h))

  mode_at : succeeds (coerce_mode (attributes (arguments d) "pricing_mode")) ≡ true
  unfolding usage_record_json_schema lookup is_known
  mode_at = rw (lookup-arguments d "pricing_mode" refl) (
      mode_succeeds (lookup "pricing_mode" d)
        (conforms-property usage_record_json_schema d "pricing_mode" _ refl h))

  post_init-succeeds : succeeds (post_init (attributes (arguments d))) ≡ true
  unfolding post_init usage_record_json_schema lookup is_known
  post_init-succeeds = succeeds-bind _ _ (text_at "request_id" refl refl refl refl) λ _.
      succeeds-bind _ _ (text_at "app_id" refl refl refl refl) λ _.
        succeeds-bind _ _ (text_at "endpoint" refl refl refl refl) λ _.
          succeeds-bind _ _ (text_at "model" refl refl refl refl) λ _.
            succeeds-bind _ _ (text_at "status" refl refl refl refl) λ _.
              succeeds-bind _ _ (optional_at "workload" refl refl refl refl) λ _.
                succeeds-bind _ _ (optional_at "parent_request_id" refl refl refl refl) λ _.
                  succeeds-bind _ _ (optional_at "queue" refl refl refl refl) λ _.
                    succeeds-bind _ _ (optional_at "ts" refl refl refl refl) λ _.
                      succeeds-bind _ _ (count_at "input_tokens" refl refl refl refl) λ _.
                        succeeds-bind _ _ (count_at "output_tokens" refl refl refl refl) λ _.
                          succeeds-bind _ _
                            (count_at "cache_creation_input_tokens" refl refl refl refl)
                            λ _.
                              succeeds-bind _ _
                                (count_at "cache_read_input_tokens" refl refl refl refl)
                                λ _. succeeds-bind _ _ latency_at λ _.
                                  succeeds-bind _ _ version_at
                                    λ _. succeeds-bind _ _ mode_at λ _. refl

  from_dict-succeeds : succeeds (from_dict (mapping (items d))) ≡ true
  unfolding from_dict
  from_dict-succeeds = ground (
    arith,
    keys_known-coerce wire_integer_fields (known_items (items d)) refl
        (keys_known-known_items (items d)),
    has_key-coerce wire_integer_fields (known_items (items d)) "request_id",
    has_key-coerce wire_integer_fields (known_items (items d)) "app_id",
    has_key-coerce wire_integer_fields (known_items (items d)) "endpoint",
    has_key-coerce wire_integer_fields (known_items (items d)) "model",
    has_key-coerce wire_integer_fields (known_items (items d)) "status",
    has_key-arguments d "request_id" refl,
    has_key-arguments d "app_id" refl,
    has_key-arguments d "endpoint" refl,
    has_key-arguments d "model" refl,
    has_key-arguments d "status" refl,
    present "request_id" refl,
    present "app_id" refl,
    present "endpoint" refl,
    present "model" refl,
    present "status" refl,
    post_init-succeeds,
  )

-- The library reads every payload that the published schema admits.
pub conforms-from_dict :
    (d : Dict Value)
    → conforms usage_record_json_schema d ≡ true
    → (r : UsageRecord) × (from_dict (mapping (items d)) ≡ ok r)
conforms-from_dict d h = success_of (from_dict (mapping (items d))) (from_dict-succeeds d h)
