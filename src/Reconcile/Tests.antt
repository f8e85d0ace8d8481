-- ===== src/Reconcile/Tests.antt =====
-- A server with one table, and the theorems on it.
use Prim.Native.Char.{Char, code}
use mathlib.Core.List.{Perm}
use tokenweir.Prelude.{
  ℕ, String, Bool, true, false, ◌≡◌, refl, Option, none, some, List, [], ◌∷◌, ◌++◌, ◌==◌, ◌-◌, leb,
  str_eq, if◌then◌else◌,
}
use tokenweir.Python.{Outcome, returned}
use tokenweir.Migrations.Shipped.{Migration, Discovered, found}
use tokenweir.Reconcile.Schema.{Relation, Snapshot}
use tokenweir.Reconcile.Connection.{AttributeRow, Server}
use tokenweir.Reconcile.Catalog.{no_baseline, of_text, ordered}
use tokenweir.Reconcile.Run.{Patterns, plan_body, plan}
use tokenweir.Reconcile.Apply.{apply_plan}
use tokenweir.Reconcile.Laws.{Unmoved, IsTransactional}
use tokenweir.Reconcile.Planning.{Answers, plan_body-Answers}
use tokenweir.Reconcile.Settled.{Closed, plan-Unmoved}
use tokenweir.Reconcile.Applied.{Applies, apply_plan-Applies}
use tokenweir.Reconcile.Ordering.{chain, in_order, ordered-Perm}
use tokenweir.Reconcile.Quoting.{
  is_identifier, read_identifier, no_mark, read_identifier-quote_identifier,
}
use tokenweir.Reconcile.Text.{quote_identifier}
use Prim.Native.String as T

-- what is durable, and what the transaction has
abbrev Db : Type 0
Db = List String × List String

abbrev answer : {A : Type 0} → A → Db → Outcome A × Db
answer a b = (returned a, b)

abbrev attribute : Bool → AttributeRow
attribute not_null = record {
  attname = "body";
  format_type = "text";
  attnotnull = not_null;
  default_expr = none;
  attidentity = none;
  attgenerated = none;
}

-- the live table is 1, and allows NULL; any other is the reference's
abbrev test_server : Server Db
test_server = record {
  autocommit = λ b. false;
  commit = λ b. (returned tt, (b.0 ++ b.1, []));
  rollback = λ b. (returned tt, (b.0, []));
  execute = λ s b. (returned tt, (b.0, b.1 ++ s ∷ []));
  select_oid = λ name. answer (some (if str_eq name "notes" then 1 else 2));
  select_kind = λ oid. answer ("r", "public");
  select_attributes = λ oid. answer (attribute (oid == 2) ∷ []);
  select_key = λ oid. answer [];
  select_indexes = λ oid. answer [];
  select_constraints = λ oid. answer [];
  select_has_nulls = λ r c. answer false;
  select_duplicates = λ r. answer [];
  select_unpriceable = λ r. answer [];
  select_key_name = λ r. answer none;
  select_dependents = λ r. answer [];
  select_grantees = λ r. answer [];
  select_violations = λ r body. answer false;
}

abbrev durable_part : Db → List String
durable_part b = b.0

abbrev open_part : Db → List String
open_part b = b.1

test_server-IsTransactional : IsTransactional test_server durable_part open_part
test_server-IsTransactional = record {
  commit = λ b h. (refl, refl, refl);
  rollback = λ b h. ((refl, refl), refl);
  execute = λ s b h. (refl, refl, refl);
  select_oid = λ n b h. (refl, refl);
  select_kind = λ o b h. (refl, refl);
  select_attributes = λ o b h. (refl, refl);
  select_key = λ o b h. (refl, refl);
  select_indexes = λ o b h. (refl, refl);
  select_constraints = λ o b h. (refl, refl);
  select_has_nulls = λ r c b h. (refl, refl);
  select_duplicates = λ r b h. (refl, refl);
  select_unpriceable = λ r b h. (refl, refl);
  select_key_name = λ r b h. (refl, refl);
  select_dependents = λ r b h. (refl, refl);
  select_grantees = λ r b h. (refl, refl);
  select_violations = λ r body b h. (refl, refl);
}

abbrev ascii_digits : Char → Option ℕ
ascii_digits c =
    if leb b'0' (code c) then (if leb (code c) b'9' then some (code c - b'0') else none) else none

abbrev test_patterns : Patterns
test_patterns = record {
  created = λ sql. "notes" ∷ [];
  creates = λ name sql. str_eq name "notes";
  creates_view = λ name sql. false;
  digit = ascii_digits;
}

abbrev test_shipped : Discovered (List Migration)
test_shipped =
    found (
      record { version = 1; label = "notes"; sql = "CREATE TABLE notes (body TEXT NOT NULL)" } ∷ [])

abbrev no_date : String → Option ℕ
no_date s = none

abbrev print_date : ℕ → String
print_date n = "2026-01-01"

abbrev lower_case : String → String
lower_case s = s

plan_body-Answers_example :
    Answers test_server durable_part open_part test_server-IsTransactional test_patterns
      test_shipped "0123456789abcdef"
      ([], [])
      (plan_body test_server test_patterns test_shipped "0123456789abcdef" none ([], []))
plan_body-Answers_example =
    plan_body-Answers test_server durable_part open_part test_server-IsTransactional test_patterns
      test_shipped "0123456789abcdef" none ([], []) refl

plan-Unmoved_example :
    Unmoved test_server durable_part open_part
      ("SELECT 1" ∷ [], [])
      (plan test_server test_patterns test_shipped "0123456789abcdef" lower_case no_date print_date
        (of_text "-infinity")
        ("SELECT 1" ∷ [], []))
    × Closed test_server durable_part open_part test_server-IsTransactional (
        plan test_server test_patterns test_shipped "0123456789abcdef" lower_case no_date print_date
          (of_text "-infinity")
          ("SELECT 1" ∷ [], []))
plan-Unmoved_example =
    plan-Unmoved test_server durable_part open_part test_server-IsTransactional test_patterns
      test_shipped "0123456789abcdef" lower_case no_date print_date (of_text "-infinity")
      ("SELECT 1" ∷ [], []) refl refl

apply_plan-Applies_example :
    Applies test_server durable_part open_part test_server-IsTransactional test_patterns
      test_shipped "0123456789abcdef" lower_case no_date print_date none
      ([], [])
      (apply_plan test_server test_patterns test_shipped "0123456789abcdef" lower_case no_date
        print_date none no_baseline
        ([], []))
apply_plan-Applies_example =
    apply_plan-Applies test_server durable_part open_part test_server-IsTransactional test_patterns
      test_shipped "0123456789abcdef" lower_case no_date print_date none no_baseline ([], []) refl
      refl

abbrev relation_of : String → String → Relation
relation_of name kind = record {
  name = name;
  kind = kind;
  columns = [];
  primary_key = [];
  indexes = [];
  constraints = [];
}

abbrev three_relations : Snapshot
three_relations = record {
  relations = relation_of "daily" "v" ∷ relation_of "usage" "r" ∷ relation_of "rates" "r" ∷ [];
}

ordered-Perm_example :
    Perm (ordered three_relations) three_relations.relations
    × (chain in_order (ordered three_relations) ≡ true)
ordered-Perm_example = ordered-Perm three_relations

no_mark_rest : no_mark " (id)" ≡ true
unfolding no_mark
no_mark_rest = refl

is_identifier_name : is_identifier "a \"b\"" ≡ true
unfolding is_identifier
is_identifier_name = refl

read_identifier-quote_identifier_example :
    read_identifier (T.◌++◌ (quote_identifier "a \"b\"") " (id)") ≡ some ("a \"b\"", " (id)")
read_identifier-quote_identifier_example =
    read_identifier-quote_identifier "a \"b\"" " (id)" is_identifier_name no_mark_rest
