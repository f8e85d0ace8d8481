-- ===== src/Reconcile/Schema.antt =====
-- reconcile.py: `Column`, `Constraint`, `Relation` and `Snapshot`, what the catalog has of tokenweir's relations.
use tokenweir.Prelude.{String, Bool, Option, none, some, List, [], ◌∷◌, map, str_eq, if◌then◌else◌}

pub record Column : Type 0 where
  pub name : String
  pub type : String
  pub not_null : Bool
  pub default : Option String
  -- "", or "a" for ALWAYS, or "d" for BY DEFAULT
  pub identity : String
  -- "", or "s" for GENERATED ALWAYS AS (...) STORED
  pub generated : String

pub record Constraint : Type 0 where
  pub name : String
  pub definition : String
  pub columns : List String

pub record Relation : Type 0 where
  pub name : String
  -- "r" for a table, "v" for a view
  pub kind : String
  pub columns : List Column
  pub primary_key : List String
  -- the shape and the definition of each
  pub indexes : List (String × String)
  pub constraints : List Constraint

pub record Snapshot : Type 0 where
  pub relations : List Relation

unfoldable pub find_column : String → List Column → Option Column
find_column name [] = none
find_column name (c ∷ cs) =
    let rest = find_column name cs in if str_eq c.name name then some c else rest

-- `Relation.column`
unfoldable pub column : Relation → String → Option Column
unfolding find_column
column r name = find_column name r.columns

unfoldable pub column_names_of : List Column → List String
column_names_of cs = map (λ c. c.name) cs

-- `Relation.column_names`
unfoldable pub column_names : Relation → List String
unfolding column_names_of
column_names r = column_names_of r.columns

unfoldable pub find_relation : String → List Relation → Option Relation
find_relation name [] = none
find_relation name (r ∷ rs) =
    let rest = find_relation name rs in if str_eq r.name name then some r else rest

-- `Snapshot.get`
unfoldable pub get : Snapshot → String → Option Relation
unfolding find_relation
get s name = find_relation name s.relations
