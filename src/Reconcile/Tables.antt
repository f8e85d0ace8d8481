-- ===== src/Reconcile/Tables.antt =====
-- reconcile.py: `_compare_indexes`, `_compare_constraints` and `_compare_view`.
use tokenweir.Prelude.{
  String, Bool, ◌&&◌, not, Option, none, some, is_empty, List, [], ◌∷◌, map, contains, str_eq,
  if◌then◌else◌,
}
use tokenweir.Hook.Text.{is_empty_text}
use tokenweir.Migrations.Shipped.{Migration, Discovered, found, unshippable}
use tokenweir.Reconcile.Definitions.{index_name, check_body}
use tokenweir.Reconcile.Schema.{Constraint, Relation, column_names}
use tokenweir.Reconcile.Report.{Discrepancy, same_texts}
use tokenweir.Reconcile.Wording.Tables.{
  view_absent, not_a_view, view_dependents_lost, view_grants_lost, view_differs,
}
use tokenweir.Reconcile.Wording.Indexes.{
  index_name_taken, index_missing, kept_index, constraint_uncheckable, constraint_name_taken,
  constraint_unknown, constraint_violated, constraint_missing, kept_constraint,
}
use tokenweir.Reconcile.Connection.{
  unshipped, no_view_migration, Act, ◌>>=◌, conclude, halt, call, Server, Found, nothing_found,
  found_one, noticed, extended_by, for_each,
}

unfoldable pub shapes_of : List (String × String) → List String
shapes_of indexes = map (λ i. i.0) indexes

unfoldable pub names_of_indexes : List (String × String) → List String
unfolding index_name
names_of_indexes indexes = map (λ i. index_name i.1) indexes

-- one turn of the loop over the reference's indexes
unfoldable pub compare_index : String → Relation → String × String → Found
unfolding shapes_of names_of_indexes index_name index_name_taken index_missing is_empty_text
compare_index relation live (shape, definition) =
    let name = index_name definition in
    if contains shape (shapes_of live.indexes)
    then nothing_found
    else if not (is_empty_text name) && contains name (names_of_indexes live.indexes)
    then found_one (index_name_taken relation name shape)
    else found_one (index_missing relation shape definition)

unfoldable pub extra_index : String → Relation → String × String → Found
unfolding shapes_of kept_index
extra_index relation reference (shape, definition) =
    if contains shape (shapes_of reference.indexes)
    then nothing_found
    else noticed (kept_index relation definition)

-- `_compare_indexes`
unfoldable pub compare_indexes : {B : Type 0} → String → Relation → Relation → Act B Found
unfolding extended_by for_each compare_index extra_index
compare_indexes relation reference live =
    extended_by (for_each (λ i. conclude (compare_index relation live i)) reference.indexes)
      (for_each (λ i. conclude (extra_index relation reference i)) live.indexes)

unfoldable pub definitions_of : List Constraint → List String
definitions_of cs = map (λ k. k.definition) cs

unfoldable pub names_of_constraints : List Constraint → List String
names_of_constraints cs = map (λ k. k.name) cs

-- the names that are not among those of the live columns
unfoldable pub absent_names : List String → List String → List String
absent_names live [] = []
absent_names live (name ∷ names) =
    let rest = absent_names live names in if contains name live then rest else name ∷ rest

-- the report on a constraint that is missing, by what its check has answered
unfoldable pub missing_constraint : String → Constraint → Option Bool → Discrepancy
unfolding constraint_unknown constraint_violated constraint_missing
missing_constraint relation k none = constraint_unknown relation k.name k.definition
missing_constraint relation k (some violated) =
    if violated
    then constraint_violated relation k.name k.definition
    else constraint_missing relation k.name k.definition

unfoldable pub extra_constraint : String → Relation → Constraint → Found
unfolding definitions_of kept_constraint
extra_constraint relation reference k =
    if contains k.definition (definitions_of reference.constraints)
    then nothing_found
    else noticed (kept_constraint relation k)

-- the first migration that creates the view, by `re`'s search for `CREATE [OR REPLACE] VIEW` and its name
unfoldable pub sql_creating : (String → String → Bool) → String → List Migration → Option String
sql_creating creates_view view [] = none
sql_creating creates_view view (m ∷ ms) =
    let rest = sql_creating creates_view view ms in
    if creates_view view m.sql then some m.sql else rest

-- a view that nothing depends on is dropped and created again
unfoldable pub recreated_view : String → String → Relation → Relation → List String → Found
unfolding column_names view_differs view_grants_lost
recreated_view relation sql reference live grantees = record {
  discrepancies = view_differs relation sql (column_names live) (column_names reference) ∷ [];
  observations = if is_empty grantees then [] else view_grants_lost relation grantees ∷ [];
}

unfoldable pub sql_or_halt : {B : Type 0} → String → Option String → Act B String
sql_or_halt view none = halt (no_view_migration view)
sql_or_halt view (some sql) = conclude sql

module _ {B : Type 0} (server : Server B) where
  -- the query of `_check_constraint_violations`, if the definition is a CHECK
  unfoldable pub violations_of : String → Option String → Act B (Option Bool)
  violations_of relation none = conclude none
  violations_of relation (some body) = do
    violated ← call (server.select_violations relation body)
    conclude (some violated)

  -- `_check_constraint_violations`
  unfoldable pub check_constraint_violations : String → String → Act B (Option Bool)
  unfolding check_body violations_of
  check_constraint_violations relation definition = violations_of relation (check_body definition)

  -- one turn of the loop over the reference's constraints
  unfoldable pub compare_constraint : String → Relation → Constraint → Act B Found
  unfolding definitions_of names_of_constraints absent_names column_names constraint_uncheckable
      constraint_name_taken check_constraint_violations missing_constraint
  compare_constraint relation live k =
      let absent = absent_names (column_names live) k.columns in
      if contains k.definition (definitions_of live.constraints)
      then conclude nothing_found
      else if not (is_empty absent)
      then conclude (found_one (constraint_uncheckable relation k.name absent))
      else if contains k.name (names_of_constraints live.constraints)
      then conclude (found_one (constraint_name_taken relation k.name k.definition))
      else (do
        violated ← check_constraint_violations relation k.definition
        conclude (found_one (missing_constraint relation k violated)))

  -- `_compare_constraints`
  unfoldable pub compare_constraints : String → Relation → Relation → Act B Found
  unfolding extended_by for_each compare_constraint extra_constraint
  compare_constraints relation reference live =
      extended_by (for_each (compare_constraint relation live) reference.constraints)
        (for_each (λ k. conclude (extra_constraint relation reference k)) live.constraints)

  unfoldable pub replace_view : String → String → Relation → Relation → List String → Act B Found
  unfolding view_dependents_lost recreated_view
  replace_view relation sql reference live dependents =
      if not (is_empty dependents)
      then conclude (found_one (view_dependents_lost relation dependents))
      else (do
        grantees ← call (server.select_grantees relation)
        conclude (recreated_view relation sql reference live grantees))

  -- `_compare_view` behind its search for the migration
  unfoldable pub compare_columns_of_view : String → String → Relation → Relation → Act B Found
  unfolding column_names same_texts not_a_view replace_view
  compare_columns_of_view relation sql reference live =
      if not (str_eq live.kind reference.kind)
      then conclude (found_one (not_a_view relation live.kind))
      else if same_texts (column_names live) (column_names reference)
      then conclude nothing_found
      else (do
        dependents ← call (server.select_dependents relation)
        replace_view relation sql reference live dependents)

  unfoldable pub compare_created_view : String → Relation → Option Relation → String → Act B Found
  unfolding view_absent compare_columns_of_view
  compare_created_view relation reference none sql = conclude (found_one (view_absent relation sql))
  compare_created_view relation reference (some live) sql =
      compare_columns_of_view relation sql reference live

  module _ (creates_view : String → String → Bool) where
    -- `_view_migration_sql`, on what `discover` answers
    unfoldable pub view_migration_sql : Discovered (List Migration) → String → Act B String
    unfolding sql_creating sql_or_halt
    view_migration_sql (unshippable e) view = halt (unshipped e)
    view_migration_sql (found ms) view = sql_or_halt view (sql_creating creates_view view ms)

    -- `_compare_view`
    unfoldable pub compare_view :
        Discovered (List Migration) → String → Relation → Option Relation → Act B Found
    unfolding view_migration_sql compare_created_view
    compare_view shipped relation reference live = do
      sql ← view_migration_sql shipped relation
      compare_created_view relation reference live sql
