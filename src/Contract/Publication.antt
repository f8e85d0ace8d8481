-- ===== src/Contract/Publication.antt =====
-- The published schema and the library agree on version 1 records: what the library writes, the
-- schema admits.
use tokenweir.Prelude.{ℕ, pos, String, true, ◌≡◌, refl, Option, none, some, [], ◌∷◌, arith, lookup}
use tokenweir.Contract.Values.{int, str, has_non_blank, PricingMode, api_metered, subscription}
use tokenweir.Contract.Record.{
  UsageRecord, has_key, schema_version, to_dict, from_optional_str, from_optional_int, from_mode,
}
use tokenweir.Contract.Schema.{
  plain, string, null, integer, nullable_string, required_string, token_count_property,
  usage_record_json_schema, meets_if_present, conforms,
}
use tokenweir.Contract.Shape.{IsValid}

required_meets :
    (s : String) → has_non_blank s ≡ true → meets_if_present required_string (some (str s)) ≡ true
unfolding meets_if_present
required_meets s h = ground arith

optional_meets :
    (o : Option String) → meets_if_present nullable_string (some (from_optional_str o)) ≡ true
unfolding meets_if_present
optional_meets o = ground arith

latency_meets :
    (o : Option ℕ)
    → meets_if_present
        (record (plain (integer ∷ null ∷ [])) { minimum_zero = true })
        (some (from_optional_int o))
      ≡ true
unfolding meets_if_present
latency_meets o = ground arith

count_meets : (n : ℕ) → meets_if_present token_count_property (some (int (pos n))) ≡ true
unfolding meets_if_present
count_meets n = refl

version_meets :
    (n : ℕ)
    → n ≡ schema_version
    → meets_if_present
        (record (plain (integer ∷ [])) { const = some schema_version })
        (some (int (pos n)))
      ≡ true
unfolding meets_if_present
version_meets n h = ground arith

mode_meets :
    (o : Option PricingMode)
    → meets_if_present
        (record (plain (string ∷ null ∷ [])) {
          enum = some (some "api_metered" ∷ some "subscription" ∷ none ∷ []);
        })
        (some (from_mode o))
      ≡ true
unfolding meets_if_present
mode_meets none = refl
mode_meets (some api_metered) = refl
mode_meets (some subscription) = refl

-- A record that the library has made, if it is of version 1, is written in a form that the
-- published schema admits.
pub to_dict-conforms :
    (r : UsageRecord)
    → IsValid r
    → r.version ≡ schema_version
    → conforms usage_record_json_schema (to_dict r) ≡ true
unfolding conforms usage_record_json_schema to_dict lookup has_key
to_dict-conforms r v e = simp (
  required_meets _ v.request_id,
  required_meets _ v.app_id,
  required_meets _ v.endpoint,
  required_meets _ v.model,
  required_meets _ v.status,
  optional_meets,
  latency_meets,
  count_meets,
  version_meets _ e,
  mode_meets,
)
