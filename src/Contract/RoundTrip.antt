-- ===== src/Contract/RoundTrip.antt =====
-- The wire form loses nothing: what `to_dict` writes, `from_dict` reads back.
use tokenweir.Prelude.{
  ℕ, zero, suc, pos, ◌≤◌, String, true, ◌≡◌, refl, Option, none, some, Dict, arith,
}
use tokenweir.Contract.Values.{
  PricingMode, api_metered, subscription, Value, int, str, ok, has_non_blank, required_str,
  optional_str, non_negative_int, token_count, version, coerce_mode,
}
use tokenweir.Contract.Record.{
  UsageRecord, to_dict, from_optional_str, from_optional_int, from_mode,
}
use tokenweir.Contract.Wire.{Json, object, text, mapping, items, from_dict, from_json, to_json}
use tokenweir.Contract.Shape.{IsValid}

required_str-str : (name s : String) → has_non_blank s ≡ true → required_str name (str s) ≡ ok s
unfolding required_str
required_str-str name s h = rw h

optional_str-from :
    (name : String) (o : Option String) → optional_str name (from_optional_str o) ≡ ok o
unfolding optional_str
optional_str-from name none = refl
optional_str-from name (some s) = refl

non_negative_int-from :
    (name : String) (o : Option ℕ) → non_negative_int name (from_optional_int o) true ≡ ok o
unfolding non_negative_int
non_negative_int-from name none = refl
non_negative_int-from name (some s) = refl

token_count-int : (name : String) (n : ℕ) → token_count name (int (pos n)) ≡ ok n
unfolding token_count
token_count-int name n = refl

version-int : (n : ℕ) → 1 ≤ n → version (int (pos n)) ≡ ok n
unfolding version
version-int zero h = absurd (omega arith)
version-int (suc n) h = refl

coerce_mode-from : (o : Option PricingMode) → coerce_mode (from_mode o) ≡ ok o
unfolding coerce_mode
coerce_mode-from none = refl
coerce_mode-from (some api_metered) = refl
coerce_mode-from (some subscription) = refl

from_dict-to_dict_at :
    (r : UsageRecord) (l : Option ℕ)
    → IsValid r
    → let r' = record r { latency_ms = l } in from_dict (mapping (items (to_dict r'))) ≡ ok r'
unfolding from_dict to_dict
from_dict-to_dict_at r none v = simp (
  required_str-str _ _ v.request_id,
  required_str-str _ _ v.app_id,
  required_str-str _ _ v.endpoint,
  required_str-str _ _ v.model,
  required_str-str _ _ v.status,
  optional_str-from,
  non_negative_int-from "latency_ms" none,
  token_count-int,
  version-int _ v.version,
  coerce_mode-from,
)
from_dict-to_dict_at r (some l) v = simp (
  required_str-str _ _ v.request_id,
  required_str-str _ _ v.app_id,
  required_str-str _ _ v.endpoint,
  required_str-str _ _ v.model,
  required_str-str _ _ v.status,
  optional_str-from,
  non_negative_int-from "latency_ms" (some l),
  token_count-int,
  version-int _ v.version,
  coerce_mode-from,
)

-- A valid record, written by `to_dict`, is read back by `from_dict` as the same record.
pub from_dict-to_dict :
    (r : UsageRecord) → IsValid r → from_dict (mapping (items (to_dict r))) ≡ ok r
from_dict-to_dict r v = from_dict-to_dict_at r r.latency_ms v

-- With a JSON library that reads back the object that it has written for a record, if the record is
-- valid, what `to_json` writes is read back by `from_json` as the same record.
pub from_json-to_json :
    (loads : String → Json) (dumps : Dict Value → String) (r : UsageRecord)
    → loads (dumps (to_dict r)) ≡ object (to_dict r)
    → IsValid r
    → from_json loads dumps (text (to_json loads dumps r)) ≡ ok r
unfolding from_json to_json
from_json-to_json loads dumps r back v = rw (back, from_json) (from_dict-to_dict r v)
