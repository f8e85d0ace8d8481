-- ===== src/Postgres/Rows.antt =====
-- postgres.py: `_timestamp_for`, `row_for` and `rows_for`. `datetime.fromisoformat` and the reading of
-- a naive time as UTC are parameters, over a type of times of their own.
use tokenweir.Prelude.{String, pos, Option, none, some, List, [], ◌∷◌, if◌then◌else◌}
use tokenweir.Contract.Values.{Value, int, str}
use tokenweir.Contract.Record.{
  UsageRecord, Object, usage, other_object, from_optional_str, from_optional_int, from_mode,
}
use tokenweir.Hook.Text.{strip, is_empty_text}

-- `COLUMNS`, without the last, "ts"
abbrev pub plain_columns : List String
plain_columns =
    "schema_version" ∷ "request_id" ∷ "app_id" ∷ "endpoint" ∷ "model" ∷ "status" ∷ "workload"
    ∷ "queue" ∷ "parent_request_id" ∷ "input_tokens" ∷ "output_tokens"
    ∷ "cache_creation_input_tokens" ∷ "cache_read_input_tokens" ∷ "latency_ms" ∷ "pricing_mode" ∷ []

-- An insert row: the plain columns, and the time (none lets the server stamp the row).
pub record Row (D : Type 0) : Type 0 where
  pub cells : List Value
  pub ts : Option D

-- Why a record has no row: the TypeError of `row_for`, or the ValueError of `_timestamp_for`.
pub data RowError : Type 0 where
  not_a_record unparsable_ts : RowError

pub data Mapped (A : Type 0) : Type 0 where
  mapped : A → Mapped A
  unmapped : RowError → Mapped A

module _ {D : Type 0} (parse : String → Option D) (in_utc : D → D) where
  unfoldable pub parsed : Option D → Mapped (Option D)
  parsed none = unmapped unparsable_ts
  parsed (some time) = mapped (some (in_utc time))

  -- `_timestamp_for`
  unfoldable pub timestamp_for : Option String → Mapped (Option D)
  unfolding parsed strip is_empty_text
  timestamp_for none = mapped none
  timestamp_for (some raw) = if is_empty_text (strip raw) then mapped none else parsed (parse raw)

  -- the values of the plain columns, in their order
  unfoldable pub cells_of : UsageRecord → List Value
  cells_of r =
      int (pos r.version)
      ∷ str r.request_id
      ∷ str r.app_id
      ∷ str r.endpoint
      ∷ str r.model
      ∷ str r.status
      ∷ from_optional_str r.workload
      ∷ from_optional_str r.queue
      ∷ from_optional_str r.parent_request_id
      ∷ int (pos r.input_tokens)
      ∷ int (pos r.output_tokens)
      ∷ int (pos r.cache_creation_input_tokens)
      ∷ int (pos r.cache_read_input_tokens)
      ∷ from_optional_int r.latency_ms
      ∷ from_mode r.pricing_mode
      ∷ []

  unfoldable pub stamped : List Value → Mapped (Option D) → Mapped (Row D)
  stamped cells (mapped ts) = mapped (record { cells = cells; ts = ts })
  stamped cells (unmapped e) = unmapped e

  -- `row_for`
  unfoldable pub row_for : Object → Mapped (Row D)
  unfolding timestamp_for cells_of stamped
  row_for other_object = unmapped not_a_record
  row_for (usage r) = stamped (cells_of r) (timestamp_for r.ts)

  unfoldable pub cons_row : Mapped (Row D) → Mapped (List (Row D)) → Mapped (List (Row D))
  cons_row (unmapped e) rows = unmapped e
  cons_row (mapped row) (unmapped e) = unmapped e
  cons_row (mapped row) (mapped rows) = mapped (row ∷ rows)

  -- `rows_for`
  unfoldable pub rows_for : List Object → Mapped (List (Row D))
  unfolding row_for cons_row
  rows_for [] = mapped []
  rows_for (o ∷ os) = cons_row (row_for o) (rows_for os)
