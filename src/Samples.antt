-- ===== src/Samples.antt =====
-- Data for the tests.
use tokenweir.Prelude.{pos, none, [], ◌∷◌, Dict}
use tokenweir.Contract.Values.{Value, str, int}
use tokenweir.Contract.Record.{UsageRecord}

-- A record, and the fields that it is built from.
abbrev pub record_a : UsageRecord
record_a = record {
  request_id = "r1";
  app_id = "gateway";
  endpoint = "/v1/messages";
  model = "m";
  status = "ok";
  workload = none;
  parent_request_id = none;
  queue = none;
  input_tokens = 3;
  output_tokens = 5;
  cache_creation_input_tokens = 0;
  cache_read_input_tokens = 0;
  latency_ms = none;
  pricing_mode = none;
  ts = none;
  version = 1;
}

abbrev pub fields : Dict Value
fields =
    ("request_id", str "r1")
    ∷ ("app_id", str "gateway")
    ∷ ("endpoint", str "/v1/messages")
    ∷ ("model", str "m")
    ∷ ("status", str "ok")
    ∷ ("input_tokens", int (pos 9))
    ∷ []

abbrev pub late : Dict Value
late = ("input_tokens", int (pos 3)) ∷ ("output_tokens", int (pos 5)) ∷ []
