-- ===== src/Parity/Turns.antt =====
-- parity.py: `_blocks`, `iter_turns` and `is_headline_eligible`. What JSON makes of a line is a
-- parameter, in two parts: the entry as the hook reads it, and the content of its message.
use Prim.Native.Char.{nul, code}
use Prim.Native.String as T
use tokenweir.Prelude.{
  ℕ, suc, String, Bool, true, false, ◌&&◌, ◌||◌, Option, none, some, List, [], ◌∷◌, map, Dict,
  lookup, str_eq, ◌==◌, if◌then◌else◌,
}
use tokenweir.Contract.Values.{Value, as_str}
use tokenweir.Hook.Text.{strip, is_empty_text}
use tokenweir.Hook.Transcript.{
  Entry, Usage, Response, response, File, unopenable, read_to_end, broken_off,
}
use tokenweir.Orchestrator.Decimal.{decimal}
use tokenweir.Orchestrator.Label.{joined}

-- A block of a message's content, by whether it is a mapping.
pub data Block : Type 0 where
  no_mapping : Block
  fields : Dict Value → Block

-- A message's content: a text, a sequence of blocks, or anything else (missing included).
pub data Content : Type 0 where
  plain_text : String → Content
  sequence : List Block → Content
  no_content : Content

pub record Blocks : Type 0 where
  pub text : String
  pub thinking : String
  pub unaccounted : Bool

abbrev no_blocks : Blocks
no_blocks = record { text = ""; thinking = ""; unaccounted = false }

abbrev with_text : String → Blocks → Blocks
with_text s b = record b { text = joined s b.text }

abbrev with_thinking : String → Blocks → Blocks
with_thinking s b = record b { thinking = joined s b.thinking }

abbrev not_accounted : Blocks → Blocks
not_accounted b = record b { unaccounted = true }

-- a member that is a text
unfoldable pub text_member : String → Dict Value → Option String
unfolding lookup
text_member name d = elim (lookup name d) [ none ↦ none | some v ↦ as_str v ]

-- `if isinstance(value, str)`
unfoldable pub text_block : Option String → Blocks → Blocks
text_block none b = not_accounted b
text_block (some s) b = with_text s b

-- `if isinstance(value, str) and value`
unfoldable pub thinking_block : Option String → Blocks → Blocks
unfolding is_empty_text
thinking_block none b = not_accounted b
thinking_block (some s) b = if is_empty_text s then not_accounted b else with_thinking s b

-- one block, before what the blocks behind it make
unfoldable pub block_of_kind : Option String → Dict Value → Blocks → Blocks
unfolding text_block thinking_block text_member
block_of_kind none d b = not_accounted b
block_of_kind (some kind) d b =
    if str_eq kind "text"
    then text_block (text_member "text" d) b
    else if str_eq kind "thinking"
    then thinking_block (text_member "thinking" d) b
    else not_accounted b

unfoldable pub add_block : Block → Blocks → Blocks
unfolding block_of_kind text_member
add_block no_mapping b = not_accounted b
add_block (fields d) b = block_of_kind (text_member "type" d) d b

unfoldable pub blocks_of : List Block → Blocks
unfolding add_block
blocks_of [] = no_blocks
blocks_of (b ∷ bs) = add_block b (blocks_of bs)

-- `_blocks`
unfoldable pub blocks : Content → Blocks
unfolding blocks_of
blocks (plain_text s) = record { text = s; thinking = ""; unaccounted = false }
blocks (sequence bs) = blocks_of bs
blocks no_content = no_blocks

-- `_Accumulator`, its lists of parts joined
pub record Accumulator : Type 0 where
  pub model : Option String
  pub timestamp : Option String
  pub usage : Usage
  pub parts : Blocks

-- `order` and `responses` in one list, and the number of responses without an identity
pub record Gathering : Type 0 where
  pub anonymous : ℕ
  pub turns : Dict Accumulator

unfoldable pub anonymous_key : ℕ → String
unfolding decimal joined
anonymous_key n = T.◌∷◌ nul (joined "anonymous-" (decimal n))

-- the parts of one more line
unfoldable pub extended : Blocks → Accumulator → Accumulator
unfolding joined
extended b a = record a {
  parts = record {
    text = joined a.parts.text b.text;
    thinking = joined a.parts.thinking b.thinking;
    unaccounted = a.parts.unaccounted || b.unaccounted;
  };
}

abbrev pub first_line : Response → Blocks → Accumulator
first_line r b = record { model = r.model; timestamp = r.timestamp; usage = r.usage; parts = b }

-- a line under its key
unfoldable pub gather : String → Response → Blocks → Dict Accumulator → Dict Accumulator
unfolding extended
gather key r b [] = (key, first_line r b) ∷ []
gather key r b ((k, a) ∷ rest) =
    let more = gather key r b rest in
    if str_eq k key then (k, extended b a) ∷ rest else (k, a) ∷ more

unfoldable pub gather_response : Response → Blocks → Gathering → Gathering
unfolding gather anonymous_key
gather_response r b g = elim r.identity [
  | none ↦ record {
    anonymous = suc g.anonymous;
    turns = gather (anonymous_key (suc g.anonymous)) r b g.turns;
  }
  | some i ↦ record { anonymous = g.anonymous; turns = gather i r b g.turns }
]

-- a line without a response is skipped
unfoldable pub gather_parsed : Option Response → Blocks → Gathering → Gathering
unfolding gather_response
gather_parsed none b g = g
gather_parsed (some r) b g = gather_response r b g

-- the loop
unfoldable pub gather_lines :
    (String → Option Entry) → (String → Content) → List String → Gathering → Gathering
unfolding gather_parsed response blocks strip
gather_lines loads content [] g = g
gather_lines loads content (line ∷ rest) g =
    gather_lines loads content rest
      (gather_parsed (response loads line) (blocks (content (strip line))) g)

pub record Turn : Type 0 where
  pub message_id : Option String
  pub model : Option String
  pub timestamp : Option String
  pub usage : Usage
  pub output_text : String
  pub thinking_text : String
  pub has_unaccounted_blocks : Bool

-- `key.startswith(prefix)`
unfoldable pub starts_with : String → String → Bool
starts_with T.[] s = true
starts_with (T.◌∷◌ p prefix) T.[] = false
starts_with (T.◌∷◌ p prefix) (T.◌∷◌ c s) = code p == code c && starts_with prefix s

unfoldable pub is_anonymous : String → Bool
unfolding starts_with
is_anonymous key = starts_with (T.◌∷◌ nul "anonymous-") key

unfoldable pub turn_of : String × Accumulator → Turn
unfolding is_anonymous
turn_of (key, a) = record {
  message_id = if is_anonymous key then none else some key;
  model = a.model;
  timestamp = a.timestamp;
  usage = a.usage;
  output_text = a.parts.text;
  thinking_text = a.parts.thinking;
  has_unaccounted_blocks = a.parts.unaccounted;
}

abbrev pub nothing_gathered : Gathering
nothing_gathered = record { anonymous = 0; turns = [] }

-- `iter_turns`
unfoldable pub iter_turns : (String → Option Entry) → (String → Content) → File → List Turn
unfolding gather_lines turn_of
iter_turns loads content unopenable = []
iter_turns loads content (read_to_end lines) =
    map turn_of (gather_lines loads content lines nothing_gathered).turns
iter_turns loads content (broken_off lines) =
    map turn_of (gather_lines loads content lines nothing_gathered).turns
