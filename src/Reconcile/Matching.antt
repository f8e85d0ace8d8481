-- ===== src/Reconcile/Matching.antt =====
-- When a schema as the catalog has it matches the reference, in terms of the two alone.
use tokenweir.Prelude.{
  String, Bool, true, false, ◌&&◌, ◌||◌, not, is_some, is_empty, Option, none, some, List, [], all,
  contains, str_eq, if◌then◌else◌,
}
use tokenweir.Hook.Text.{is_empty_text}
use tokenweir.Migrations.Shipped.{Migration, Discovered, found, unshippable}
use tokenweir.Reconcile.Schema.{Column, Constraint, Relation, Snapshot, column, column_names, get}
use tokenweir.Reconcile.Report.{Discrepancy, is_manual, same_texts}
use tokenweir.Reconcile.Columns.{is_exempt, same_default}
use tokenweir.Reconcile.Tables.{shapes_of, definitions_of, sql_creating}
use tokenweir.Reconcile.Catalog.{is_table}

-- A decision that a human has to make comes without statements, and any other discrepancy with some.
unfoldable pub is_proper : Discrepancy → Bool
unfolding is_manual
is_proper d = if is_manual d then is_empty d.statements else not (is_empty d.statements)

unfoldable pub same_bool : Bool → Bool → Bool
same_bool true b = b
same_bool false b = not b

unfoldable pub columns_agree : Column → Column → Bool
unfolding same_bool same_default
columns_agree c f =
    str_eq f.generated c.generated
    && (str_eq f.identity c.identity
        && (str_eq f.type c.type
            && (same_bool c.not_null f.not_null && same_default f.default c.default)))

unfoldable pub agrees_with : Column → Option Column → Bool
unfolding columns_agree
agrees_with c none = false
agrees_with c (some f) = columns_agree c f

-- the live table has a column of the reference, as it is there
unfoldable pub column_matches : String → Relation → List String → Column → Bool
unfolding is_exempt column agrees_with
column_matches relation live skip c =
    (contains c.name skip || is_exempt relation c.name) || agrees_with c (column live c.name)

-- an INSERT without the column goes through
unfoldable pub may_be_left_out : Column → Bool
unfolding is_empty_text
may_be_left_out c = not (c.not_null && not (is_some c.default) && is_empty_text c.identity)

-- a live column is one of the reference's, or does not get in the writer's way
unfoldable pub extra_matches : String → Relation → Column → Bool
unfolding column_names is_exempt may_be_left_out
extra_matches relation reference c =
    (contains c.name (column_names reference) || is_exempt relation c.name)
    || not (not (may_be_left_out c) && str_eq relation "gateway_usage")

unfoldable pub columns_match : String → Relation → Relation → List String → Bool
unfolding column_matches extra_matches
columns_match relation reference live skip =
    all (column_matches relation live skip) reference.columns
    && all (extra_matches relation reference) live.columns

unfoldable pub index_matches : Relation → String × String → Bool
unfolding shapes_of
index_matches live i = contains i.0 (shapes_of live.indexes)

unfoldable pub constraint_matches : Relation → Constraint → Bool
unfolding definitions_of
constraint_matches live k = contains k.definition (definitions_of live.constraints)

-- a live table: the columns, the key, and every index and constraint of the reference
unfoldable pub table_matches : String → Relation → Relation → Bool
unfolding columns_match same_texts index_matches constraint_matches column
table_matches relation reference live =
    not (str_eq relation "model_pricing_rates" && not (is_some (column live "effective_from")))
    && (columns_match relation reference live []
        && (same_texts live.primary_key reference.primary_key
            && (all (index_matches live) reference.indexes
                && all (constraint_matches live) reference.constraints)))

unfoldable pub table_found : String → Relation → Option Relation → Bool
unfolding table_matches
table_found relation reference none = false
table_found relation reference (some live) = table_matches relation reference live

-- a live view: a view with the same columns in the same order
unfoldable pub view_found : Relation → Option Relation → Bool
unfolding same_texts column_names
view_found reference none = false
view_found reference (some live) =
    str_eq live.kind reference.kind && same_texts (column_names live) (column_names reference)

-- a shipped migration creates the view
unfoldable pub is_created : (String → String → Bool) → Discovered (List Migration) → String → Bool
unfolding sql_creating
is_created creates_view (unshippable e) view = false
is_created creates_view (found ms) view = is_some (sql_creating creates_view view ms)

unfoldable pub relation_matches :
    (String → String → Bool) → Discovered (List Migration) → Snapshot → Relation → Bool
unfolding is_table get table_found view_found is_created
relation_matches creates_view shipped live r =
    if not (is_table r)
    then is_created creates_view shipped r.name && view_found r (get live r.name)
    else table_found r.name r (get live r.name)

-- every relation of the reference is matched by the live schema
unfoldable pub schema_matches :
    (String → String → Bool) → Discovered (List Migration) → Snapshot → Snapshot → Bool
unfolding relation_matches
schema_matches creates_view shipped reference live =
    all (relation_matches creates_view shipped live) reference.relations
