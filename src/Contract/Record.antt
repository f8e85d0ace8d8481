-- ===== src/Contract/Record.antt =====
-- contract.py: `UsageRecord`, its construction from keyword arguments, and `to_dict`.
use tokenweir.Prelude.{
  ℕ, pos, String, Bool, Option, none, some, List, [], ◌∷◌, Dict, lookup, get_or, all, contains,
}
use tokenweir.Contract.Values.{
  PricingMode, value, Value, none_value, int, str, type_error, Result, ok, ◌>>=◌, ◌>>◌, require,
  coerce_mode, required_str, optional_str, token_count, non_negative_int, version,
}

-- `SCHEMA_VERSION`
abbrev pub schema_version : ℕ
schema_version = 1

-- `REQUIRED_FIELDS`
abbrev pub required_fields : List String
required_fields = "request_id" ∷ "app_id" ∷ "endpoint" ∷ "model" ∷ "status" ∷ []

-- `TOKEN_COUNT_FIELDS`
abbrev pub token_count_fields : List String
token_count_fields =
    "input_tokens" ∷ "output_tokens" ∷ "cache_creation_input_tokens" ∷ "cache_read_input_tokens"
    ∷ []

-- `fields(cls)`, in the order of the class body
abbrev pub field_names : List String
field_names =
    "request_id" ∷ "app_id" ∷ "endpoint" ∷ "model" ∷ "status" ∷ "workload" ∷ "parent_request_id"
    ∷ "queue" ∷ "input_tokens" ∷ "output_tokens" ∷ "cache_creation_input_tokens"
    ∷ "cache_read_input_tokens" ∷ "latency_ms" ∷ "pricing_mode" ∷ "ts" ∷ "schema_version" ∷ []

-- A record that has passed `__post_init__`; a field whose check has passed holds what the check
-- has established of it.
pub record UsageRecord : Type 0 where
  pub request_id : String
  pub app_id : String
  pub endpoint : String
  pub model : String
  pub status : String
  pub workload : Option String
  pub parent_request_id : Option String
  pub queue : Option String
  pub input_tokens : ℕ
  pub output_tokens : ℕ
  pub cache_creation_input_tokens : ℕ
  pub cache_read_input_tokens : ℕ
  pub latency_ms : Option ℕ
  pub pricing_mode : Option PricingMode
  pub ts : Option String
  pub version : ℕ

-- Any Python object, by whether `isinstance(object, UsageRecord)` holds.
pub data Object : Type 0 where
  usage : UsageRecord → Object
  other_object : Object

-- What `__post_init__` reads of an attribute: the value of a field's name.
abbrev pub Attributes : Type 0
Attributes = String → Value

-- `UsageRecord.__post_init__`, its checks in the order of the source
unfoldable pub post_init : Attributes → Result UsageRecord
post_init self = do
  request_id ← required_str "request_id" (self "request_id")
  app_id ← required_str "app_id" (self "app_id")
  endpoint ← required_str "endpoint" (self "endpoint")
  model ← required_str "model" (self "model")
  status ← required_str "status" (self "status")
  workload ← optional_str "workload" (self "workload")
  parent_request_id ← optional_str "parent_request_id" (self "parent_request_id")
  queue ← optional_str "queue" (self "queue")
  ts ← optional_str "ts" (self "ts")
  input_tokens ← token_count "input_tokens" (self "input_tokens")
  output_tokens ← token_count "output_tokens" (self "output_tokens")
  creation ← token_count "cache_creation_input_tokens" (self "cache_creation_input_tokens")
  read ← token_count "cache_read_input_tokens" (self "cache_read_input_tokens")
  latency_ms ← non_negative_int "latency_ms" (self "latency_ms") Bool.true
  number ← version (self "schema_version")
  pricing_mode ← coerce_mode (self "pricing_mode")
  ok (record {
    request_id = request_id;
    app_id = app_id;
    endpoint = endpoint;
    model = model;
    status = status;
    workload = workload;
    parent_request_id = parent_request_id;
    queue = queue;
    input_tokens = input_tokens;
    output_tokens = output_tokens;
    cache_creation_input_tokens = creation;
    cache_read_input_tokens = read;
    latency_ms = latency_ms;
    pricing_mode = pricing_mode;
    ts = ts;
    version = number;
  })

-- The defaults of the class body; a required field has none, and is never read without a value.
abbrev pub defaults : Attributes
defaults name = get_or none_value (
    lookup name (
      ("input_tokens", int (pos 0))
      ∷ ("output_tokens", int (pos 0))
      ∷ ("cache_creation_input_tokens", int (pos 0))
      ∷ ("cache_read_input_tokens", int (pos 0))
      ∷ ("schema_version", int (pos schema_version))
      ∷ []))

-- The attributes that the generated `__init__` sets.
abbrev pub attributes : Dict Value → Attributes
attributes kwargs name = get_or (defaults name) (lookup name kwargs)

-- `k in d`
unfoldable pub has_key : Dict Value → String → Bool
unfolding lookup
has_key d k = elim (lookup k d) [ none ↦ Bool.false | some _ ↦ Bool.true ]

-- `k in known`
unfoldable pub is_known : String → Bool
is_known k = contains k field_names

abbrev pub keys_known : Dict Value → Bool
keys_known d = all (λ e. is_known e.0) d

-- `UsageRecord(**kwargs)`: Python's signature check is a TypeError, then `__post_init__` runs.
unfoldable pub construct : Dict Value → Result UsageRecord
unfolding post_init has_key is_known
construct kwargs = do
  require (keys_known kwargs) type_error
  require (all (has_key kwargs) required_fields) type_error
  post_init (attributes kwargs)

abbrev pub from_optional_str : Option String → Value
from_optional_str none = none_value
from_optional_str (some s) = str s

abbrev pub from_optional_int : Option ℕ → Value
from_optional_int none = none_value
from_optional_int (some n) = int (pos n)

abbrev pub from_mode : Option PricingMode → Value
from_mode none = none_value
from_mode (some m) = str (value m)

-- `UsageRecord.to_dict`
unfoldable pub to_dict : UsageRecord → Dict Value
to_dict r =
    ("request_id", str r.request_id)
    ∷ ("app_id", str r.app_id)
    ∷ ("endpoint", str r.endpoint)
    ∷ ("model", str r.model)
    ∷ ("status", str r.status)
    ∷ ("workload", from_optional_str r.workload)
    ∷ ("parent_request_id", from_optional_str r.parent_request_id)
    ∷ ("queue", from_optional_str r.queue)
    ∷ ("input_tokens", int (pos r.input_tokens))
    ∷ ("output_tokens", int (pos r.output_tokens))
    ∷ ("cache_creation_input_tokens", int (pos r.cache_creation_input_tokens))
    ∷ ("cache_read_input_tokens", int (pos r.cache_read_input_tokens))
    ∷ ("latency_ms", from_optional_int r.latency_ms)
    ∷ ("pricing_mode", from_mode r.pricing_mode)
    ∷ ("ts", from_optional_str r.ts)
    ∷ ("schema_version", int (pos r.version))
    ∷ []
