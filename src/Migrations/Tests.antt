-- ===== src/Migrations/Tests.antt =====
-- A database that keeps what the migrations have done, and the theorems at it.
use Prim.Native.Char.{Char, code}
use mathlib.Core.List.{append-nil}
use tokenweir.Prelude.{
  ℕ, ◌-◌, String, Bool, true, false, ◌&&◌, ◌||◌, leb, ◌==◌, ◌≡◌, ◌≢◌, inl, inr, Bool-cases, refl,
  ◌∙◌, ap, Option, some, none, List, [], ◌∷◌, ◌++◌, if◌then◌else◌, str_eq, arith,
}
use tokenweir.Python.{exception, base_exception, Outcome, returned, raised}
use tokenweir.Migrations.Comments.{drop, strip_comments, starts, is_pair}
use tokenweir.Migrations.Shipped.{Migration, FileEntry}
use tokenweir.Migrations.Database.{Database, done, failed, refused, destructive}
use tokenweir.Migrations.Runner.{unlock}
use tokenweir.Migrations.Apply.{apply, migrate_one}
use tokenweir.Migrations.Laws.{Effect, ran, recorded, Extends, IsTransactional, RaisesExceptions}
use tokenweir.Migrations.Answer.{Applies, apply-Applies}
use tokenweir.Migrations.Stopped.{migrate_one-unlock}
use tokenweir.Migrations.Lexing.{
  closed, other, nested, unquote, letter, quote, Token, plain, line_comment, block_comment, quoted,
  render, blank, Fits, strip_comments-render,
}

-- durable, and in the open transaction
abbrev Store : Type 0
Store = List Effect × List Effect

abbrev rows_of : List Effect → List (ℕ × Option String)
rows_of [] = []
rows_of (ran sql ∷ es) = rows_of es
rows_of (recorded v n c ∷ es) = (v, some c) ∷ rows_of es

abbrev run : String → Store → Outcome (Unit {0}) × Store
run sql (d, o) =
    if str_eq sql "bad sql"
    then (raised exception, (d, o))
    else (returned tt, (d, o ++ ran sql ∷ []))

abbrev store : Database Store
store = record {
  autocommit = λ b. false;
  commit = λ b. (returned tt, (b.0 ++ b.1, []));
  rollback = λ b. (returned tt, (b.0, []));
  acquire_lock = λ b. (returned tt, b);
  release_lock = λ b. (returned tt, b);
  create_state_table = λ b. (returned tt, b);
  state_columns = λ b. (returned ("name" ∷ []), b);
  add_column = λ c b. (returned tt, b);
  default_applied_at = λ b. (returned tt, b);
  select_applied = λ b. (returned (rows_of b.0), b);
  set_reader_role = λ r b. (returned tt, b);
  execute = run;
  insert_version = λ v n c b. (returned tt, (b.0, b.1 ++ recorded v n c ∷ []));
}

abbrev durable : Store → List Effect
durable b = b.0

abbrev open_ : Store → List Effect
open_ b = b.1

run-Extends : (sql : String) (b : Store) → Extends store durable open_ b (ran sql) (run sql b)
run-Extends sql b = elim (Bool-cases (str_eq sql "bad sql")) [
  | inl e ↦ rw e (refl, refl)
  | inr e ↦ rw e (refl, refl, refl)
]

abbrev has_returned : Outcome (Unit {0}) → Bool
has_returned (returned _) = true
has_returned (raised e) = false

returned_raised : returned (tt {0}) ≢ raised base_exception
returned_raised p = ground arith

run_raises : (sql : String) (b : Store) → (run sql b).0 ≢ raised base_exception
run_raises sql b = elim (Bool-cases (str_eq sql "bad sql")) [
  | inl e ↦ rw e (λ p. ground arith)
  | inr e ↦ rw e returned_raised
]

store-IsTransactional : IsTransactional store durable open_
store-IsTransactional = record {
  commit = λ b a. (refl, refl, refl);
  commit_empty = λ b h. ((refl, refl), ap (λ o. b.0 ++ o) h.1 ∙ append-nil b.0);
  rollback = λ b a. ((refl, refl), refl);
  acquire_lock = λ b h. (h, refl);
  release_lock = λ b h. (h, refl);
  create_state_table = λ b h. (h, refl);
  state_columns = λ b h. (h, refl);
  add_column = λ c b h. (h, refl);
  default_applied_at = λ b h. (h, refl);
  select_applied = λ b h. (h, refl);
  set_reader_role = λ r b h. (h, refl);
  execute = λ sql b a. run-Extends sql b;
  insert_version = λ v n c b a. (refl, refl, refl);
}

store-RaisesExceptions : RaisesExceptions store durable open_
store-RaisesExceptions = record {
  set_reader_role = λ r b. λ p. returned_raised p;
  execute = run_raises;
  insert_version = λ v n c b. λ p. returned_raised p;
  commit = λ b. λ p. returned_raised p;
}

abbrev digit : Char → Option ℕ
digit c = if leb b'0' (code c) && leb (code c) b'9' then some (code c - b'0') else none

abbrev is_word : Char → Bool
is_word c = (leb b'a' (code c) && leb (code c) b'z') || code c == b'_'

abbrev is_space : Char → Bool
is_space c = code c == b' '

abbrev sha256 : String → String
sha256 s = s

abbrev file : String → String → FileEntry
file n c = record { file_name = n; content = c }

abbrev shipped : List FileEntry
shipped =
    file "001_a.sql" "create a"
    ∷ file "002_b.sql" "create b"
    ∷ file "003_c.sql" "bad sql"
    ∷ file "readme.md" ""
    ∷ []

abbrev first_applied : List Effect
first_applied = ran "create a" ∷ recorded 1 "a" "create a" ∷ []

-- The second migration is there with its row, the third is not.
third_fails :
    apply store sha256 digit is_word is_space shipped none false true true (first_applied, [])
    ≡ (failed exception, (first_applied ++ ran "create b" ∷ recorded 2 "b" "create b" ∷ [], []))
unfolding apply
third_fails = refl

apply-Applies_example :
    Applies store durable open_ store-IsTransactional store-RaisesExceptions sha256 is_word is_space
      false
      (first_applied, [])
      (apply store sha256 digit is_word is_space shipped none false true true (first_applied, []))
apply-Applies_example =
    apply-Applies store durable open_ store-IsTransactional store-RaisesExceptions sha256 is_word
      is_space false digit shipped none true true (first_applied, []) refl

abbrev second : Migration
second = record { version = 2; label = "b"; sql = "create b" }

abbrev third : Migration
third = record { version = 3; label = "c"; sql = "bad sql" }

-- A destructive migration is refused, and what its comments say is not read.
abbrev dropping : FileEntry
dropping = file "001_drop.sql" "create a; -- drop b"

abbrev purging : FileEntry
purging = file "001_purge.sql" "insert 'x -- y'; drop table a"

comment_unread :
    (apply store sha256 digit is_word is_space (dropping ∷ []) none false true true ([], [])).0
    ≡ done (record { version = 1; label = "drop"; sql = "create a; -- drop b" } ∷ [])
unfolding apply
comment_unread = refl

literal_read :
    apply store sha256 digit is_word is_space (purging ∷ []) none false true true ([], [])
    ≡ (refused (destructive ((1, drop ∷ []) ∷ [])), ([], []))
unfolding apply
literal_read = refl

-- The same database, with a row that is not written.
abbrev interrupted : Database Store
interrupted = record {
  autocommit = λ b. false;
  commit = store.commit;
  rollback = store.rollback;
  acquire_lock = store.acquire_lock;
  release_lock = store.release_lock;
  create_state_table = store.create_state_table;
  state_columns = store.state_columns;
  add_column = store.add_column;
  default_applied_at = store.default_applied_at;
  select_applied = store.select_applied;
  set_reader_role = store.set_reader_role;
  execute = run;
  insert_version = λ v n c b. (raised base_exception, b);
}

interrupted-IsTransactional : IsTransactional interrupted durable open_
interrupted-IsTransactional = record {
  commit = store-IsTransactional.commit;
  commit_empty = store-IsTransactional.commit_empty;
  rollback = store-IsTransactional.rollback;
  acquire_lock = store-IsTransactional.acquire_lock;
  release_lock = store-IsTransactional.release_lock;
  create_state_table = store-IsTransactional.create_state_table;
  state_columns = store-IsTransactional.state_columns;
  add_column = store-IsTransactional.add_column;
  default_applied_at = store-IsTransactional.default_applied_at;
  select_applied = store-IsTransactional.select_applied;
  set_reader_role = store-IsTransactional.set_reader_role;
  execute = store-IsTransactional.execute;
  insert_version = λ v n c b a. (refl, refl);
}

migrate_one-unlock_example :
    (unlock interrupted (migrate_one interrupted sha256 none second (first_applied, []))).1.0
    ≡ first_applied ++ ran "create b" ∷ []
migrate_one-unlock_example =
    migrate_one-unlock interrupted durable open_ interrupted-IsTransactional sha256 second
      (first_applied, []) (first_applied, ran "create b" ∷ []) (first_applied, ran "create b" ∷ [])
      (first_applied ++ ran "create b" ∷ [], []) (refl, refl) refl refl refl refl (refl, refl) refl

-- a nested comment, a literal with dashes and a quote, and a line comment
abbrev tokens : List Token
tokens =
    plain "a"
    ∷ block_comment (other "b" (nested (other "-" (other "-" closed)) closed))
    ∷ quoted (letter "-" (letter "-" (quote unquote)))
    ∷ line_comment "c"
    ∷ []

tokens-Fits : Fits tokens
unfolding Fits is_pair starts
tokens-Fits = (
  (refl, refl, refl),
  (((refl, refl, ((refl, refl, (refl, refl, tt)), tt)), ((refl, (refl, refl)), ((refl, tt), tt)))),
)

strip_comments-render_example : strip_comments "a/*b/*--*/*/'--'''--c" ≡ "a '--''' "
unfolding render blank
strip_comments-render_example = strip_comments-render tokens tokens-Fits
