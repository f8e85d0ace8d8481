-- ===== src/Contract/Errors.antt =====
-- At the wire boundary every refusal is a ValueError.
use tokenweir.Prelude.{String, Bool, ◌≡◌, refl, subst, none, Dict, arith}
use tokenweir.Contract.Values.{
  Value, Error, not_an_object, not_json, value_error, type_error, Result, ok, err, ◌>>=◌,
  required_str, optional_str, non_negative_int, token_count, version, coerce_mode,
}
use tokenweir.Contract.Record.{UsageRecord, Attributes, post_init, attributes}
use tokenweir.Contract.Lookup.{has_key-coerce, keys_known-coerce, keys_known-known_items}
use tokenweir.Contract.Wire.{
  Json, Source, text, not_text, object, other_json, invalid, Payload, mapping, not_mapping, items,
  from_dict, from_json, known_items, coerce_wire_integers, wire_integer_fields,
}

abbrev pub IsValueError : Error → Type 0
IsValueError (value_error r f) = Unit
IsValueError type_error = ⊥

abbrev Raises {ℓ} : {A : Type ℓ} → Result A → Type 0
Raises (ok a) = Unit
Raises (err e) = IsValueError e

Raises-bind {ℓ κ} :
    {A : Type ℓ} {B : Type κ} (m : Result A) (f : A → Result B)
    → Raises m
    → ((a : A) → Raises (f a))
    → Raises (m >>= f)
Raises-bind (ok a) f hm hf = hf a
Raises-bind (err e) f hm hf = hm

required_str-Raises : (n : String) (v : Value) → Raises (required_str n v)
unfolding required_str
required_str-Raises n v = ground arith

optional_str-Raises : (n : String) (v : Value) → Raises (optional_str n v)
unfolding optional_str
optional_str-Raises n v = ground arith

non_negative_int-Raises : (n : String) (v : Value) (b : Bool) → Raises (non_negative_int n v b)
unfolding non_negative_int
non_negative_int-Raises n v b = ground arith

token_count-Raises : (n : String) (v : Value) → Raises (token_count n v)
unfolding token_count
token_count-Raises n v = ground arith

version-Raises : (v : Value) → Raises (version v)
unfolding version
version-Raises v = ground arith

coerce_mode-Raises : (v : Value) → Raises (coerce_mode v)
unfolding coerce_mode
coerce_mode-Raises v = ground arith

post_init-Raises : (self : Attributes) → Raises (post_init self)
unfolding post_init
post_init-Raises self = Raises-bind _ _ (required_str-Raises _ _) λ _.
    Raises-bind _ _ (required_str-Raises _ _) λ _. Raises-bind _ _ (required_str-Raises _ _) λ _.
      Raises-bind _ _ (required_str-Raises _ _) λ _. Raises-bind _ _ (required_str-Raises _ _) λ _.
        Raises-bind _ _ (optional_str-Raises _ _) λ _.
          Raises-bind _ _ (optional_str-Raises _ _) λ _.
            Raises-bind _ _ (optional_str-Raises _ _) λ _.
              Raises-bind _ _ (optional_str-Raises _ _) λ _.
                Raises-bind _ _ (token_count-Raises _ _) λ _.
                  Raises-bind _ _ (token_count-Raises _ _) λ _.
                    Raises-bind _ _ (token_count-Raises _ _) λ _.
                      Raises-bind _ _ (token_count-Raises _ _) λ _.
                        Raises-bind _ _ (non_negative_int-Raises _ _ _) λ _.
                          Raises-bind _ _ (version-Raises _)
                            λ _. Raises-bind _ _ (coerce_mode-Raises _) λ _. tt

from_dict-Raises : (p : Payload) → Raises (from_dict p)
unfolding from_dict
from_dict-Raises not_mapping = tt
from_dict-Raises (mapping xs) = ground (
  arith,
  keys_known-coerce wire_integer_fields (known_items xs) refl (keys_known-known_items xs),
  has_key-coerce wire_integer_fields (known_items xs) "request_id",
  has_key-coerce wire_integer_fields (known_items xs) "app_id",
  has_key-coerce wire_integer_fields (known_items xs) "endpoint",
  has_key-coerce wire_integer_fields (known_items xs) "model",
  has_key-coerce wire_integer_fields (known_items xs) "status",
  post_init-Raises (attributes (coerce_wire_integers wire_integer_fields (known_items xs))),
)

-- `from_dict` refuses a payload only with a ValueError, whatever the payload is: a required field
-- that is missing is no TypeError here, as it is of the constructor.
pub from_dict-IsValueError : (p : Payload) (e : Error) → from_dict p ≡ err e → IsValueError e
from_dict-IsValueError p e h = subst Raises h (from_dict-Raises p)

-- So is every refusal of `from_json`, whatever the JSON library returns.
pub from_json-IsValueError :
    (loads : String → Json) (dumps : Dict Value → String) (s : Source) (e : Error)
    → from_json loads dumps s ≡ err e
    → IsValueError e
unfolding from_json
from_json-IsValueError loads dumps not_text e h = ground arith
from_json-IsValueError loads dumps (text s) e h = subst Raises h (from_parsed (loads s))
  where
    from_parsed :
        (j : Json)
        → Raises {A = UsageRecord} (elim j [
          | object d ↦ from_dict (mapping (items d))
          | other_json ↦ err (value_error not_an_object none)
          | invalid ↦ err (value_error not_json none)
        ])
    from_parsed (object d) = from_dict-Raises (mapping (items d))
    from_parsed other_json = tt
    from_parsed invalid = tt
