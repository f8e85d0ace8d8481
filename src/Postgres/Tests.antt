-- ===== src/Postgres/Tests.antt =====
-- A database of two lists that refuses batches of three rows, and the theorems at it.
use tokenweir.Prelude.{
  ℕ, String, false, refl, Option, none, List, [], ◌∷◌, ◌++◌, drop, is_empty, if◌then◌else◌, arith,
}
use tokenweir.Python.{exception, returned, raised}
use tokenweir.Samples.{record_a}
use tokenweir.Contract.Record.{Object, usage}
use tokenweir.Postgres.Rows.{Row, rows_for, cells_of}
use tokenweir.Postgres.Write.{Connection, write}
use tokenweir.Postgres.Atomic.{IsTransactional, Whole, write-Whole}

abbrev Tables : Type 0
Tables = List (Row ℕ) × List (Row ℕ)

-- the durable rows, and those of the open transaction
abbrev db : Connection Tables ℕ
db = record {
  autocommit = λ b. false;
  execute_many = λ rows b. (returned tt, (b.0, b.1 ++ rows));
  commit =
      λ b. if is_empty (drop 2 b.1) then (returned tt, (b.0 ++ b.1, [])) else (raised exception, b);
  rollback = λ b. (returned tt, (b.0, []));
  close = λ b. (returned tt, b);
}

abbrev durable : Tables → List (Row ℕ)
durable b = b.0

abbrev pending : Tables → List (Row ℕ)
pending b = b.1

db-IsTransactional : IsTransactional db durable pending
db-IsTransactional = record {
  execute_durable = λ rows b a. refl;
  execute_pending = λ rows b a h. refl;
  commit_returned = λ b h. ground arith;
  commit_raised = λ b. ground arith;
  rollback_durable = λ b. refl;
}

abbrev parse : String → Option ℕ
parse s = none

abbrev in_utc : ℕ → ℕ
in_utc t = t

abbrev row : Row ℕ
row = record { cells = cells_of parse in_utc record_a; ts = none }

abbrev records : List Object
records = usage record_a ∷ usage record_a ∷ []

write-Whole_example :
    Whole db parse in_utc durable pending db-IsTransactional []
      (row ∷ row ∷ [])
      (write db parse in_utc records ([], []))
unfolding rows_for
write-Whole_example =
    write-Whole db parse in_utc durable pending db-IsTransactional records (row ∷ row ∷ []) ([], [])
      refl refl
