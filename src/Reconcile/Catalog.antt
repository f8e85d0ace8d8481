-- ===== src/Reconcile/Catalog.antt =====
-- reconcile.py: `_snapshot`, `_owned_relation_names`, `_creating_migration`, `_ordered` and `_normalise_baseline`.
use Prim.Native.String as T
use Prim.Native.Nat.{Ordering}
use tokenweir.Prelude.{
  ℕ, String, Bool, true, false, Option, none, some, List, [], ◌∷◌, ◌++◌, map, contains, ltb, str_eq,
  if◌then◌else◌,
}
use tokenweir.Hook.Text.{strip}
use tokenweir.Orchestrator.Decimal.{decimal}
use tokenweir.Migrations.Shipped.{Migration}
use tokenweir.Reconcile.Text.{fstring, quote_identifier, normalise_sql, strip_schema}
use tokenweir.Reconcile.Definitions.{index_shape}
use tokenweir.Reconcile.Schema.{Column, Constraint, Relation, Snapshot}
use tokenweir.Reconcile.Connection.{
  infinite_baseline, unreadable_baseline, Act, ◌>>=◌, conclude, halt, call, AttributeRow,
  ConstraintRow, Server,
}

-- `a <= b`, of texts
unfoldable pub text_leq : String → String → Bool
text_leq a b = elim (T.compare a b) [ Ordering.gt ↦ false | _ ↦ true ]

-- `a <= b`, of tuples of texts
unfoldable pub texts_leq : List String → List String → Bool
unfolding text_leq
texts_leq [] bs = true
texts_leq (a ∷ as_) [] = false
texts_leq (a ∷ as_) (b ∷ bs) = if str_eq a b then texts_leq as_ bs else text_leq a b

-- `sorted`, stable, by a test of `<=`
module _ {A : Type 0} (leq : A → A → Bool) where
  unfoldable pub insert_by : A → List A → List A
  insert_by a [] = a ∷ []
  insert_by a (b ∷ bs) = let rest = insert_by a bs in if leq a b then a ∷ b ∷ bs else b ∷ rest

  unfoldable pub sorted_by : List A → List A
  unfolding insert_by
  sorted_by [] = []
  sorted_by (a ∷ rest) = insert_by a (sorted_by rest)

unfoldable pub index_leq : String × String → String × String → Bool
unfolding text_leq
index_leq (a, p) (b, q) = if str_eq a b then text_leq p q else text_leq a b

-- the order of the dataclass
unfoldable pub constraint_leq : Constraint → Constraint → Bool
unfolding text_leq texts_leq
constraint_leq k l =
    if str_eq k.name l.name
    then (if str_eq k.definition l.definition
        then texts_leq k.columns l.columns
        else text_leq k.definition l.definition)
    else text_leq k.name l.name

unfoldable pub name_leq : Relation → Relation → Bool
unfolding text_leq
name_leq r s = text_leq r.name s.name

-- `r.kind == _TABLE_KIND`
unfoldable pub is_table : Relation → Bool
is_table r = str_eq r.kind "r"

unfoldable pub tables_of : List Relation → List Relation
unfolding is_table
tables_of [] = []
tables_of (r ∷ rs) = let rest = tables_of rs in if is_table r then r ∷ rest else rest

unfoldable pub views_of : List Relation → List Relation
unfolding is_table
views_of [] = []
views_of (r ∷ rs) = let rest = views_of rs in if is_table r then rest else r ∷ rest

-- `_ordered`
unfoldable pub ordered : Snapshot → List Relation
unfolding sorted_by name_leq tables_of views_of
ordered s = sorted_by name_leq (tables_of s.relations) ++ sorted_by name_leq (views_of s.relations)

unfoldable pub text_or_empty : Option String → String
text_or_empty none = ""
text_or_empty (some s) = s

unfoldable pub list_or_empty : Option (List String) → List String
list_or_empty none = []
list_or_empty (some l) = l

unfoldable pub column_of : AttributeRow → Column
unfolding text_or_empty
column_of r = record {
  name = r.attname;
  type = r.format_type;
  not_null = r.attnotnull;
  default = r.default_expr;
  identity = text_or_empty r.attidentity;
  generated = text_or_empty r.attgenerated;
}

unfoldable pub index_of : String → String → String × String
unfolding index_shape strip_schema
index_of namespace row = let d = strip_schema row namespace in (index_shape d, d)

unfoldable pub constraint_of : String → ConstraintRow → Constraint
unfolding normalise_sql strip_schema list_or_empty
constraint_of namespace r = record {
  name = r.conname;
  definition = normalise_sql (strip_schema r.definition namespace);
  columns = list_or_empty r.conkey;
}

-- the name that `_relation_oid` asks for
unfoldable pub qualified_name : Option String → String → String
unfolding fstring quote_identifier
qualified_name none name = name
qualified_name (some schema) name =
    fstring (quote_identifier schema ∷ "." ∷ quote_identifier name ∷ [])

module _ {B : Type 0} (server : Server B) where
  -- the description of one relation, by its oid
  unfoldable pub describe : String → ℕ → Act B Relation
  unfolding column_of index_of constraint_of sorted_by index_leq constraint_leq
  describe name oid = do
    (kind, namespace) ← call (server.select_kind oid)
    columns ← call (server.select_attributes oid)
    primary_key ← call (server.select_key oid)
    indexes ← call (server.select_indexes oid)
    constraints ← call (server.select_constraints oid)
    conclude (record {
      name = name;
      kind = kind;
      columns = map column_of columns;
      primary_key = primary_key;
      indexes = sorted_by index_leq (map (index_of namespace) indexes);
      constraints = sorted_by constraint_leq (map (constraint_of namespace) constraints);
    })

  unfoldable pub described : String → Option ℕ → Act B (List Relation)
  unfolding describe
  described name none = conclude []
  described name (some oid) = do r ← describe name oid; conclude (r ∷ [])

  unfoldable pub describe_all : Option String → List String → Act B (List Relation)
  unfolding described qualified_name
  describe_all schema [] = conclude []
  describe_all schema (name ∷ names) = do
    oid ← call (server.select_oid (qualified_name schema name))
    first ← described name oid
    rest ← describe_all schema names
    conclude (first ++ rest)

  -- `_snapshot`
  unfoldable pub snapshot : List String → Option String → Act B Snapshot
  unfolding describe_all
  snapshot names schema = do
    relations ← describe_all schema names
    conclude (record { relations = relations })

unfoldable pub add_new : List String → List String → List String
add_new names [] = names
add_new names (name ∷ more) =
    add_new (if contains name names then names else names ++ name ∷ []) more

-- `_owned_relation_names`, `re`'s search for what a migration creates being a parameter
unfoldable pub owned_relation_names :
    (String → List String) → List String → List Migration → List String
unfolding add_new
owned_relation_names created names [] = names
owned_relation_names created names (m ∷ ms) =
    owned_relation_names created (add_new names (created m.sql)) ms

-- `Migration.filename`
unfoldable pub filename : Migration → String
unfolding fstring decimal
filename m =
    let zeros = if ltb m.version 10 then "00" else if ltb m.version 100 then "0" else "" in
    fstring (zeros ∷ decimal m.version ∷ "_" ∷ m.label ∷ ".sql" ∷ [])

-- `_creating_migration`, or "the shipped migration"
unfoldable pub creator_of : (String → String → Bool) → String → List Migration → String
unfolding filename
creator_of creates relation [] = "the shipped migration"
creator_of creates relation (m ∷ ms) =
    let rest = creator_of creates relation ms in if creates relation m.sql then filename m else rest

-- What `baseline_effective_from` may be.
pub data Baseline (D : Type 0) : Type 0 where
  no_baseline : Baseline D
  of_date : D → Baseline D
  of_text : String → Baseline D

-- `str.lower`, `date.fromisoformat` and `isoformat` are the library's.
module _ {B D : Type 0} (lower : String → String) (fromisoformat : String → Option D)
    (isoformat : D → String) where
  -- `date.fromisoformat(text).isoformat()`, of what it has read
  unfoldable pub date_or_halt : Option D → Act B (Option String)
  date_or_halt none = halt unreadable_baseline
  date_or_halt (some d) = conclude (some (isoformat d))

  -- `_normalise_baseline`
  unfoldable pub normalise_baseline : Baseline D → Act B (Option String)
  unfolding date_or_halt strip
  normalise_baseline no_baseline = conclude none
  normalise_baseline (of_date d) = conclude (some (isoformat d))
  normalise_baseline (of_text value) =
      let text = strip value in
      if str_eq (lower text) "-infinity"
      then conclude (some "-infinity")
      else if str_eq (lower text) "infinity"
      then halt infinite_baseline
      else date_or_halt (fromisoformat text)
