-- ===== src/Postgres/Write.antt =====
-- postgres.py: `PostgresSource`, over a connection that is a parameter.
use tokenweir.Prelude.{ℕ, String, Bool, Option, List, [], ◌∷◌, length, if◌then◌else◌}
use tokenweir.Python.{exception, base_exception, Raised, Outcome, returned, raised}
use tokenweir.Contract.Record.{Object}
use tokenweir.Postgres.Rows.{Row, RowError, Mapped, mapped, unmapped, rows_for}

-- A connection of the driver, on a state of its own: the attribute `autocommit`, a cursor's
-- `executemany` of the insert, `commit`, `rollback` and `close`.
pub record Connection (B D : Type 0) : Type 0 where
  pub autocommit : B → Bool
  pub execute_many : List (Row D) → B → Outcome (Unit {0}) × B
  pub commit : B → Outcome (Unit {0}) × B
  pub rollback : B → Outcome (Unit {0}) × B
  pub close : B → Outcome (Unit {0}) × B

-- What `write` ends in: a count, a refusal before any statement, or what the driver raised.
pub data Answer : Type 0 where
  written : ℕ → Answer
  autocommit_refused : Answer
  unwritable : RowError → Answer
  failed : Raised → Answer

module _ {B D : Type 0} (db : Connection B D) (parse : String → Option D) (in_utc : D → D) where
  -- after a rollback that was tried because of an `Exception`: `raise`
  unfoldable pub undone : Outcome (Unit {0}) × B → Answer × B
  undone (returned _, b) = (failed exception, b)
  undone (raised e, b) = (failed e, b)

  -- the outcome of `commit`
  unfoldable pub committed : ℕ → Outcome (Unit {0}) × B → Answer × B
  unfolding undone
  committed n (returned _, b) = (written n, b)
  committed n (raised exception, b) = undone (db.rollback b)
  committed n (raised base_exception, b) = (failed base_exception, b)

  -- the outcome of `executemany`
  unfoldable pub executed : ℕ → Outcome (Unit {0}) × B → Answer × B
  unfolding committed undone
  executed n (returned _, b) = committed n (db.commit b)
  executed n (raised exception, b) = undone (db.rollback b)
  executed n (raised base_exception, b) = (failed base_exception, b)

  -- `write`, with its rows
  unfoldable pub write_rows : Mapped (List (Row D)) → B → Answer × B
  unfolding executed
  write_rows (unmapped e) b = (unwritable e, b)
  write_rows (mapped []) b = (written 0, b)
  write_rows (mapped (row ∷ rows)) b =
      executed (length (row ∷ rows)) (db.execute_many (row ∷ rows) b)

  -- `PostgresSource.write`
  unfoldable pub write : List Object → B → Answer × B
  unfolding write_rows rows_for
  write records b =
      if db.autocommit b
      then (autocommit_refused, b)
      else write_rows (rows_for parse in_utc records) b
