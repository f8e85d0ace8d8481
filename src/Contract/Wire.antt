-- ===== src/Contract/Wire.antt =====
-- contract.py: `_coerce_wire_integers`, `from_dict`, `from_json` and `to_json`.
use tokenweir.Prelude.{
  String, Option, none, some, List, [], ◌∷◌, Dict, lookup, insert, all, if◌then◌else◌,
}
use tokenweir.Python.{whole}
use tokenweir.Contract.Values.{
  Value, int, float, value_error, missing, not_a_mapping, not_json_text, not_json, not_an_object,
  Result, err, ◌>>◌, require,
}
use tokenweir.Contract.Record.{UsageRecord, required_fields, is_known, has_key, construct, to_dict}

-- A key of a Python mapping: a string, or anything else.
pub data Key : Type 0 where
  name : String → Key
  other_key : Key

-- What may be handed over where a mapping is expected.
pub data Payload : Type 0 where
  mapping : List (Key × Value) → Payload
  not_mapping : Payload

-- `_WIRE_INTEGER_FIELDS`
abbrev pub wire_integer_fields : List String
wire_integer_fields =
    "input_tokens" ∷ "output_tokens" ∷ "cache_creation_input_tokens" ∷ "cache_read_input_tokens"
    ∷ "latency_ms" ∷ "schema_version" ∷ []

-- `if isinstance(value, float) and value.is_integer(): kwargs[name] = int(value)`
unfoldable pub store_integer : String → Dict Value → Option Value → Dict Value
unfolding insert
store_integer field kwargs (some (float (whole n))) = insert field (int n) kwargs
store_integer field kwargs _ = kwargs

-- the body of the loop of `_coerce_wire_integers`
unfoldable pub coerce_wire_integer : String → Dict Value → Dict Value
unfolding lookup store_integer
coerce_wire_integer field kwargs = store_integer field kwargs (lookup field kwargs)

-- `_coerce_wire_integers`
unfoldable pub coerce_wire_integers : List String → Dict Value → Dict Value
unfolding coerce_wire_integer
coerce_wire_integers [] kwargs = kwargs
coerce_wire_integers (field ∷ fields) kwargs =
    coerce_wire_integers fields (coerce_wire_integer field kwargs)

-- `{k: v for k, v in data.items() if k in known}`
unfoldable pub known_items : List (Key × Value) → Dict Value
known_items [] = []
known_items ((name k, v) ∷ items) =
    let rest = known_items items in if is_known k then (k, v) ∷ rest else rest
known_items ((other_key, v) ∷ items) = known_items items

-- `UsageRecord.from_dict`
unfoldable pub from_dict : Payload → Result UsageRecord
unfolding known_items coerce_wire_integers construct lookup
from_dict not_mapping = err (value_error not_a_mapping none)
from_dict (mapping data_items) =
    let kwargs = known_items data_items in
    do
      require (all (has_key kwargs) required_fields) (value_error missing none)
      construct (coerce_wire_integers wire_integer_fields kwargs)

-- `dict` items of a mapping whose keys are strings
abbrev pub items : Dict Value → List (Key × Value)
items [] = []
items ((k, v) ∷ d) = (name k, v) ∷ items d

-- What `json.loads` returns: an object, another JSON value, or an error (a ValueError).
pub data Json : Type 0 where
  object : Dict Value → Json
  other_json : Json
  invalid : Json

-- What `from_json` is given: text or bytes, or anything else.
pub data Source : Type 0 where
  text : String → Source
  not_text : Source

-- `json` is Python's library: its two functions are parameters.
module _ (loads : String → Json) (dumps : Dict Value → String) where
  -- `UsageRecord.from_json`
  unfoldable pub from_json : Source → Result UsageRecord
  unfolding from_dict
  from_json not_text = err (value_error not_json_text none)
  from_json (text payload) = elim (loads payload) [
    | object d ↦ from_dict (mapping (items d))
    | other_json ↦ err (value_error not_an_object none)
    | invalid ↦ err (value_error not_json none)
  ]

  -- `UsageRecord.to_json`
  unfoldable pub to_json : UsageRecord → String
  unfolding to_dict
  to_json r = dumps (to_dict r)
