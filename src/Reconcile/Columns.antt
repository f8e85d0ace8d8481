-- ===== src/Reconcile/Columns.antt =====
-- reconcile.py: `_add_column_statements` and `_compare_columns`.
use Prim.Native.Char.{Char}
use tokenweir.Prelude.{
  ℕ, String, Bool, true, false, ◌&&◌, ◌||◌, not, Option, none, some, is_some, List, [], ◌∷◌,
  contains, str_eq, if◌then◌else◌,
}
use tokenweir.Hook.Text.{is_empty_text}
use tokenweir.Reconcile.Text.{fstring, quote_identifier, one_line}
use tokenweir.Reconcile.Constants.{is_constant_default}
use tokenweir.Reconcile.Schema.{Column, Relation, column, column_names}
use tokenweir.Reconcile.Report.{Discrepancy}
use tokenweir.Reconcile.Wording.Columns.{
  missing_undecided, missing_column, generated_differs, identity_differs, type_differs,
  nullable_holding_nulls, nullable_column, not_null_column, unwanted_default, default_differs,
  unwritable_column, kept_unwritable, kept_column,
}
use tokenweir.Reconcile.Connection.{
  Act, ◌>>=◌, conclude, call, Server, Found, nothing_found, found_one, noticed, extended_by,
  for_each,
}

-- `(relation, column.name) in EXEMPT_COLUMNS`
unfoldable pub is_exempt : String → String → Bool
is_exempt relation name = str_eq relation "gateway_usage" && str_eq name "id"

-- `BACKFILL_VALUES.get((relation, column.name))`
unfoldable pub backfill_value : String → String → Option String
backfill_value relation name =
    if str_eq relation "gateway_usage" && str_eq name "schema_version" then some "1" else none

unfoldable pub backfill_note : Option String → String
unfolding fstring
backfill_note none = ""
backfill_note (some value) = fstring ("; existing rows back-filled to " ∷ value ∷ [])

-- The statements, or why there are none.
pub data Addition : Type 0 where
  added_by : List String → Addition
  refused_as : String → Addition

module _ (digit : Char → Option ℕ) where
  -- `_add_column_statements`
  unfoldable pub add_column_statements : String → Column → Addition
  unfolding fstring quote_identifier is_constant_default one_line backfill_value
  add_column_statements relation c =
      let table = quote_identifier relation in
      let name = quote_identifier c.name in
      elim c.default [
        | some default ↦
            if is_constant_default digit default
            then added_by (
                fstring (
                  "ALTER TABLE "
                  ∷ table
                  ∷ " ADD COLUMN "
                  ∷ name
                  ∷ " "
                  ∷ c.type
                  ∷ " DEFAULT "
                  ∷ default
                  ∷ (if c.not_null then " NOT NULL" else "")
                  ∷ [])
                ∷ [])
            else refused_as (
                fstring (
                  "its default ("
                  ∷ one_line 60 default
                  ∷ ") is not a constant, so back-filling the rows already there would stamp them all with whatever it evaluates to at the moment of reconciliation — a value about this run, recorded as though it were about the row"
                  ∷ []))
        | none ↦
            if not c.not_null
            then added_by
                (fstring ("ALTER TABLE " ∷ table ∷ " ADD COLUMN " ∷ name ∷ " " ∷ c.type ∷ []) ∷ [])
            else (elim (backfill_value relation c.name) [
              | none ↦ refused_as "it is NOT NULL with no default"
              | some backfill ↦ added_by (
                  fstring (
                    "ALTER TABLE " ∷ table ∷ " ADD COLUMN " ∷ name ∷ " " ∷ c.type
                    ∷ " NOT NULL DEFAULT " ∷ backfill ∷ [])
                  ∷ fstring
                      ("ALTER TABLE " ∷ table ∷ " ALTER COLUMN " ∷ name ∷ " DROP DEFAULT" ∷ [])
                  ∷ [])
            ])
      ]

  -- a column that the live table has not got
  unfoldable pub absent_column : String → Column → Discrepancy
  unfolding missing_undecided missing_column add_column_statements backfill_value backfill_note
  absent_column relation c = elim (add_column_statements relation c) [
    | refused_as refusal ↦ missing_undecided relation c refusal
    | added_by sqls ↦
        missing_column relation c (backfill_note (backfill_value relation c.name)) sqls
  ]

-- `found.default != column.default`
unfoldable pub same_default : Option String → Option String → Bool
same_default none none = true
same_default (some s) (some t) = str_eq s t
same_default _ _ = false

-- the comparison of the defaults
unfoldable pub compare_default : String → Column → Column → Found
unfolding same_default unwanted_default default_differs
compare_default relation c f =
    if same_default f.default c.default then nothing_found else (elim c.default [
      | none ↦ found_one (unwanted_default relation c f)
      | some default ↦ found_one (default_differs relation c f default)
    ])

module _ {B : Type 0} (server : Server B) where
  -- the comparison of the nullability
  unfoldable pub compare_nullability : String → Column → Column → Act B Found
  unfolding nullable_holding_nulls nullable_column not_null_column
  compare_nullability relation c f =
      if c.not_null && not f.not_null
      then (do
        nulls ← call (server.select_has_nulls relation c.name)
        conclude (
            found_one
              (if nulls then nullable_holding_nulls relation c else nullable_column relation c)))
      else if f.not_null && not c.not_null
      then conclude (found_one (not_null_column relation c))
      else conclude nothing_found

  -- a column that both have, behind the tests of the loop
  unfoldable pub compare_found : String → Column → Column → Act B Found
  unfolding generated_differs identity_differs type_differs compare_nullability compare_default
      extended_by
  compare_found relation c f =
      if not (str_eq f.generated c.generated)
      then conclude (found_one (generated_differs relation c f))
      else if not (str_eq f.identity c.identity)
      then conclude (found_one (identity_differs relation c f))
      else if not (str_eq f.type c.type)
      then conclude (found_one (type_differs relation c f))
      else extended_by (compare_nullability relation c f) (conclude (compare_default relation c f))

  module _ (digit : Char → Option ℕ) where
    -- one turn of the loop over the reference's columns; `skip` is a list of names
    unfoldable pub compare_column : String → Relation → List String → Column → Act B Found
    unfolding is_exempt column compare_found absent_column
    compare_column relation live skip c =
        if contains c.name skip || is_exempt relation c.name
        then conclude nothing_found
        else (elim (column live c.name) [
          | none ↦ conclude (found_one (absent_column digit relation c))
          | some f ↦ compare_found relation c f
        ])

-- one turn of the loop over the live columns
unfoldable pub compare_extra : String → Relation → Column → Found
unfolding column_names is_exempt unwritable_column kept_unwritable kept_column is_empty_text
compare_extra relation reference c =
    let unwritable = c.not_null && not (is_some c.default) && is_empty_text c.identity in
    if contains c.name (column_names reference) || is_exempt relation c.name
    then nothing_found
    else if unwritable && str_eq relation "gateway_usage"
    then found_one (unwritable_column relation c)
    else if unwritable
    then noticed (kept_unwritable relation c)
    else noticed (kept_column relation c)

-- `_compare_columns`
unfoldable pub compare_columns :
    {B : Type 0}
    → Server B
    → (Char → Option ℕ)
    → String
    → Relation
    → Relation
    → List String
    → Act B Found
unfolding extended_by for_each compare_column compare_extra
compare_columns server digit relation reference live skip =
    extended_by (for_each (compare_column server digit relation live skip) reference.columns)
      (for_each (λ c. conclude (compare_extra relation reference c)) live.columns)
