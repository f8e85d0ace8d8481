-- ===== src/Hook/Transcript.antt =====
-- claude_code.py: `_text` and `scan_transcript`.
use tokenweir.Prelude.{
  [], ◌∷◌, ℕ, suc, String, Bool, true, false, Option, none, some, List, Dict, lookup, contains,
  if◌then◌else◌,
}
use tokenweir.Contract.Values.{Value, as_str}
use tokenweir.Hook.Text.{stripped}
use tokenweir.Hook.Counts.{TokenTotals, no_tokens, add, from_mapping}

-- A member of a JSON object, where the scan looks for a mapping: a mapping, or any other value.
pub data Member (M : Type 0) : Type 0 where
  mapping : M → Member M
  plain : Value → Member M

abbrev pub Usage : Type 0
Usage = Dict Value

abbrev pub Message : Type 0
Message = Dict (Member Usage)

abbrev pub Entry : Type 0
Entry = Dict (Member Message)

-- `_text`, of a member that may be missing
unfoldable pub text : {M : Type 0} → Option (Member M) → Option String
unfolding stripped
text none = none
text (some (mapping m)) = none
text (some (plain v)) = elim (as_str v) [ none ↦ none | some s ↦ stripped s ]

-- `isinstance(value, Mapping)`
unfoldable pub as_mapping : {M : Type 0} → Option (Member M) → Option M
as_mapping (some (mapping m)) = some m
as_mapping _ = none

-- `value or default`, of texts that are not empty
abbrev pub or_last : Option String → Option String → Option String
or_last (some s) last = some s
or_last none last = last

-- `ScanResult`
pub record ScanResult : Type 0 where
  pub totals : TokenTotals
  pub counted : ℕ
  pub last_model : Option String
  pub last_message_id : Option String
  pub last_timestamp : Option String
  pub readable : Bool

abbrev pub empty_scan : ScanResult
empty_scan = record {
  totals = no_tokens;
  counted = 0;
  last_model = none;
  last_message_id = none;
  last_timestamp = none;
  readable = true;
}

-- The locals of `scan_transcript`: the identities it has seen, and what it will return.
pub record Scan : Type 0 where
  pub seen : List String
  pub result : ScanResult

-- An entry with usage: what the scan reads of it.
pub record Response : Type 0 where
  pub identity : Option String
  pub usage : Usage
  pub model : Option String
  pub timestamp : Option String

-- the tests of the loop's body that skip an entry without usage
unfoldable pub response_of_message : Entry → Message → Option Usage → Option Response
unfolding text lookup
response_of_message entry message none = none
response_of_message entry message (some usage) = some (record {
  identity = text (lookup "id" message);
  usage = usage;
  model = text (lookup "model" message);
  timestamp = text (lookup "timestamp" entry);
})

unfoldable pub response_of_entry : Entry → Option Message → Option Response
unfolding response_of_message as_mapping lookup
response_of_entry entry none = none
response_of_entry entry (some message) =
    response_of_message entry message (as_mapping (lookup "usage" message))

-- what `json.loads` makes of a line: a mapping, or anything else, an error included
unfoldable pub response : (String → Option Entry) → String → Option Response
unfolding stripped response_of_entry as_mapping lookup
response loads line = elim (stripped line) [
  | none ↦ none
  | some content ↦ elim (loads content) [
    | none ↦ none
    | some entry ↦ response_of_entry entry (as_mapping (lookup "message" entry))
  ]
]

-- the end of the loop's body: a response is counted
unfoldable pub count_response : Response → ScanResult → ScanResult
unfolding add from_mapping
count_response r s = record s {
  totals = add s.totals (from_mapping (some r.usage));
  counted = suc s.counted;
  last_model = or_last r.model s.last_model;
  last_message_id = r.identity;
  last_timestamp = or_last r.timestamp s.last_timestamp;
}

-- the test on the identity
unfoldable pub scan_response : Response → Scan → Scan
unfolding count_response
scan_response r s = elim r.identity [
  | none ↦ record s { result = count_response r s.result }
  | some i ↦
      if contains i s.seen
      then s
      else record { seen = i ∷ s.seen; result = count_response r s.result }
]

-- a line without a response is skipped
unfoldable pub scan_parsed : Option Response → Scan → Scan
unfolding scan_response
scan_parsed none s = s
scan_parsed (some r) s = scan_response r s

-- the loop's body
unfoldable pub scan_line : (String → Option Entry) → String → Scan → Scan
unfolding response scan_parsed
scan_line loads line s = scan_parsed (response loads line) s

-- the loop
unfoldable pub scan_lines : (String → Option Entry) → List String → Scan → Scan
unfolding scan_line
scan_lines loads [] s = s
scan_lines loads (line ∷ rest) s = scan_lines loads rest (scan_line loads line s)

-- What opening and reading the file gives: nothing, or lines, up to the end or to a read error.
pub data File : Type 0 where
  unopenable : File
  read_to_end : List String → File
  broken_off : List String → File

abbrev pub fresh_scan : Scan
fresh_scan = record { seen = []; result = empty_scan }

-- `scan_transcript`
unfoldable pub scan_transcript : (String → Option Entry) → File → ScanResult
unfolding scan_lines
scan_transcript loads unopenable = record empty_scan { readable = false }
scan_transcript loads (read_to_end lines) = (scan_lines loads lines fresh_scan).result
scan_transcript loads (broken_off lines) = record (scan_lines loads lines fresh_scan).result {
  readable = false;
}
