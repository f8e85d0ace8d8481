-- ===== src/Reconcile/Run.antt =====
-- reconcile.py: `reference_snapshot` and `plan`.
use Prim.Native.Char.{Char}
use Prim.Native.String as T
use tokenweir.Prelude.{
  ℕ, String, Bool, ◌&&◌, not, is_some, is_empty, Option, none, some, List, [], ◌∷◌, map, str_eq,
  if◌then◌else◌,
}
use tokenweir.Python.{exception, base_exception}
use tokenweir.Migrations.Shipped.{Migration, Discovered, found, unshippable}
use tokenweir.Reconcile.Text.{fstring, quote_identifier, first_characters}
use tokenweir.Reconcile.Schema.{Relation, Snapshot, column, get}
use tokenweir.Reconcile.Report.{ReconciliationPlan, same_texts}
use tokenweir.Reconcile.Wording.Tables.{table_absent, key_differs}
use tokenweir.Reconcile.Connection.{
  in_autocommit, unshipped, unbuilt, Verdict, concluded, halted, broke, Act, ◌>>=◌, ◌>>◌, followed,
  conclude, halt, call, Server, Found, nothing_found, found_one, extended_by, for_each,
}
use tokenweir.Reconcile.Columns.{compare_columns}
use tokenweir.Reconcile.Tables.{compare_indexes, compare_constraints, compare_view}
use tokenweir.Reconcile.RateCard.{rate_card_discrepancy}
use tokenweir.Reconcile.Catalog.{
  ordered, is_table, snapshot, owned_relation_names, creator_of, Baseline, normalise_baseline,
}

-- `re`'s searches in a migration's SQL, and its digits.
pub record Patterns : Type 0 where
  pub created : String → List String
  pub creates : String → String → Bool
  pub creates_view : String → String → Bool
  pub digit : Char → Option ℕ

-- the remedy where the rest of the schema is there
unfoldable pub part_way : String → String
unfolding fstring
part_way creator = fstring (
    "the rest of tokenweir's schema is here, so this database is part-way rather than empty. Do not reach for `apply`: if schema_migrations already records "
    ∷ creator
    ∷ " as applied — which is the ordinary case on a database the gateway migrated, and this module's whole reason for existing — it will return nothing and create nothing. Run src/tokenweir/migrations/sql/"
    ∷ creator ∷ " against the database yourself, then reconcile again to shape it." ∷ [])

abbrev nothing_here : String
nothing_here =
    "there is nothing here to reconcile — this database has none of tokenweir's relations. `python -m tokenweir.migrations apply` creates the schema; reconcile only reshapes what already exists."

unfoldable pub part_way_table :
    {B : Type 0} → (String → String → Bool) → Discovered (List Migration) → String → Act B Found
unfolding part_way creator_of table_absent
part_way_table creates (unshippable e) name = halt (unshipped e)
part_way_table creates (found ms) name =
    conclude (found_one (table_absent name (part_way (creator_of creates name ms))))

-- the rate card of the current values, without `effective_from`
unfoldable pub is_current_valued : String → Relation → Bool
unfolding column
is_current_valued name live =
    str_eq name "model_pricing_rates" && not (is_some (column live "effective_from"))

unfoldable pub compare_key : Bool → String → Relation → Relation → Found
unfolding same_texts key_differs
compare_key skipped name reference live =
    if not skipped && not (same_texts live.primary_key reference.primary_key)
    then found_one (key_differs name live.primary_key reference.primary_key)
    else nothing_found

-- the name of the scratch schema
unfoldable pub schema_name : String → String
unfolding first_characters
schema_name hex = T.◌++◌ "tokenweir_ref_" (first_characters 12 hex)

-- what builds it
unfoldable pub reference_statements : String → List Migration → List String
unfolding schema_name quote_identifier
reference_statements hex ms =
    T.◌++◌ "CREATE SCHEMA " (quote_identifier (schema_name hex))
    ∷ T.◌++◌ "SET LOCAL search_path TO " (quote_identifier (schema_name hex))
    ∷ map (λ m. m.sql) ms

module _ {B : Type 0} (server : Server B) where
  -- `_require_transactional`
  unfoldable pub require_transactional : Act B (Unit {0})
  require_transactional b = (if server.autocommit b then halted in_autocommit else concluded tt, b)

  -- the statements in a cursor, one after the other
  unfoldable pub execute_all : List String → Act B (Unit {0})
  execute_all [] = conclude tt
  execute_all (s ∷ ss) = do call (server.execute s); execute_all ss

  -- `except Exception`: the connection is rolled back, and this follows
  unfoldable pub or_rollback :
      {A : Type 0} → (Verdict A → Verdict A) → Verdict A × B → Verdict A × B
  or_rollback instead (concluded a, b) = (concluded a, b)
  or_rollback instead (halted h, b) =
      followed (λ _ b'. (instead (halted h), b')) (call server.rollback b)
  or_rollback instead (broke exception, b) =
      followed (λ _ b'. (instead (broke exception), b')) (call server.rollback b)
  or_rollback instead (broke base_exception, b) = (broke base_exception, b)

  module _ (patterns : Patterns) (shipped : Discovered (List Migration)) (hex : String) where
    -- the `try` of `reference_snapshot`
    unfoldable pub build_reference : List String → List Migration → Act B Snapshot
    unfolding execute_all snapshot reference_statements
    build_reference names ms = do
      execute_all (reference_statements hex ms)
      snapshot server names (some (schema_name hex))

    unfoldable pub reference_from : List Migration → Act B Snapshot
    unfolding or_rollback build_reference owned_relation_names
    reference_from ms = do
      reference ← λ b.
          or_rollback (λ _. halted unbuilt)
            (build_reference (owned_relation_names patterns.created [] ms) ms b)
      call server.rollback
      conclude reference

    unfoldable pub reference_of : Discovered (List Migration) → Act B Snapshot
    unfolding reference_from
    reference_of (unshippable e) = halt (unshipped e)
    reference_of (found ms) = reference_from ms

    -- `reference_snapshot`; `discover` answers the same each time that it is called
    unfoldable pub reference_snapshot : Act B Snapshot
    unfolding require_transactional reference_of
    reference_snapshot = do require_transactional; reference_of shipped

    -- a table that the database has not got
    unfoldable pub absent_table : Snapshot → String → Act B Found
    unfolding table_absent part_way_table
    absent_table live name =
        if is_empty live.relations
        then conclude (found_one (table_absent name nothing_here))
        else part_way_table patterns.creates shipped name

    unfoldable pub compare_rate_card : Option String → String → Relation → Relation → Act B Found
    unfolding rate_card_discrepancy is_current_valued
    compare_rate_card baseline name reference live =
        if is_current_valued name live
        then (do
          d ← rate_card_discrepancy server name reference live baseline
          conclude (found_one d))
        else conclude nothing_found

    -- a table that the database has
    unfoldable pub compare_table : Option String → String → Relation → Relation → Act B Found
    unfolding compare_rate_card compare_columns compare_key compare_indexes compare_constraints
        extended_by is_current_valued
    compare_table baseline name reference live =
        let skipped = is_current_valued name live in
        extended_by (compare_rate_card baseline name reference live) (
          extended_by
            (compare_columns server patterns.digit name reference live
              (if skipped then "effective_from" ∷ [] else []))
            (extended_by (conclude (compare_key skipped name reference live)) (
              extended_by (compare_indexes name reference live)
                (compare_constraints server name reference live))))

    -- one turn of the loop of `_plan`
    unfoldable pub compare_relation : Option String → Snapshot → Relation → Act B Found
    unfolding is_table get compare_view absent_table compare_table
    compare_relation baseline live r =
        if not (is_table r)
        then compare_view server patterns.creates_view shipped r.name r (get live r.name)
        else (elim (get live r.name) [
          | none ↦ absent_table live r.name
          | some l ↦ compare_table baseline r.name r l
        ])

    -- the loop of `_plan`, and what it returns
    unfoldable pub compare_schemas : Option String → Snapshot → Snapshot → Act B ReconciliationPlan
    unfolding ordered for_each compare_relation
    compare_schemas baseline reference live = do
      f ← for_each (compare_relation baseline live) (ordered reference)
      call server.rollback
      conclude (record {
        discrepancies = f.discrepancies;
        observations = f.observations;
        baseline = baseline;
      })

    -- the live relations that have the names of the reference's
    unfoldable pub live_snapshot : Snapshot → Act B Snapshot
    unfolding snapshot ordered
    live_snapshot reference = snapshot server (map (λ r. r.name) (ordered reference)) none

    unfoldable pub plan_against : Option String → Snapshot → Act B ReconciliationPlan
    unfolding live_snapshot compare_schemas
    plan_against baseline reference = do
      live ← live_snapshot reference
      compare_schemas baseline reference live

    -- `_plan`
    unfoldable pub plan_body : Option String → Act B ReconciliationPlan
    unfolding reference_snapshot plan_against
    plan_body baseline = do reference ← reference_snapshot; plan_against baseline reference

    -- `plan`, of a baseline in its normal form
    unfoldable pub plan_with : Option String → Act B ReconciliationPlan
    unfolding or_rollback plan_body
    plan_with baseline b = or_rollback (λ v. v) (plan_body baseline b)

    module _ {D : Type 0} (lower : String → String) (fromisoformat : String → Option D)
        (isoformat : D → String) where
      -- `plan`
      unfoldable pub plan : Baseline D → Act B ReconciliationPlan
      unfolding require_transactional normalise_baseline plan_with
      plan value = do
        require_transactional
        baseline ← normalise_baseline lower fromisoformat isoformat value
        plan_with baseline
