-- ===== src/Reconcile/RateCard.antt =====
-- reconcile.py: `_rate_card_discrepancy`.
use tokenweir.Prelude.{
  String, false, not, Option, none, some, is_some, is_empty, List, [], ◌∷◌, ◌++◌, map, ◌&&◌, str_eq,
  if◌then◌else◌,
}
use tokenweir.Reconcile.Text.{fstring, quote_identifier, comma_list}
use tokenweir.Reconcile.Schema.{Column, Relation, column}
use tokenweir.Reconcile.Report.{Discrepancy}
use tokenweir.Reconcile.Wording.Tables.{
  key_absent, duplicated_models, subscription_models, baseline_missing, key_holding_nulls,
  restructure,
}
use tokenweir.Reconcile.Connection.{Act, ◌>>=◌, conclude, call, Server, select_where}

-- `column != "effective_from" and live.column(column) is None`, for the columns of the key
unfoldable pub absent_key : Relation → List String → List String
unfolding column
absent_key live [] = []
absent_key live (name ∷ names) =
    let rest = absent_key live names in
    if not (str_eq name "effective_from") && not (is_some (column live name))
    then name ∷ rest
    else rest

-- the type of `effective_from` in the reference, which has it
unfoldable pub type_of : Option Column → String
type_of none = ""
type_of (some c) = c.type

unfoldable pub drop_key : String → Option String → List String
unfolding fstring quote_identifier
drop_key relation none = []
drop_key relation (some existing_key) =
    fstring (
      "ALTER TABLE "
      ∷ quote_identifier relation
      ∷ " DROP CONSTRAINT "
      ∷ quote_identifier existing_key
      ∷ [])
    ∷ []

-- the statements of the restructure
unfoldable pub rate_card_statements : String → Relation → String → Option String → List String
unfolding fstring quote_identifier comma_list column type_of drop_key
rate_card_statements relation reference baseline existing_key =
    let table = quote_identifier relation in
    let name = quote_identifier "effective_from" in
    fstring (
      "ALTER TABLE "
      ∷ table
      ∷ " ADD COLUMN "
      ∷ name
      ∷ " "
      ∷ type_of (column reference "effective_from")
      ∷ " NOT NULL DEFAULT DATE '"
      ∷ baseline
      ∷ "'"
      ∷ [])
    ∷ fstring ("ALTER TABLE " ∷ table ∷ " ALTER COLUMN " ∷ name ∷ " DROP DEFAULT" ∷ [])
    ∷ (drop_key relation existing_key
        ++ fstring (
            "ALTER TABLE "
            ∷ table
            ∷ " ADD PRIMARY KEY ("
            ∷ comma_list (map quote_identifier reference.primary_key)
            ∷ ")"
            ∷ [])
          ∷ [])

module _ {B : Type 0} (server : Server B) where
  -- the columns of the key that hold NULLs
  unfoldable pub nullable_key : String → List String → Act B (List String)
  unfolding select_where
  nullable_key relation key =
      select_where
        (λ name.
          if str_eq name "effective_from"
          then conclude false
          else call (server.select_has_nulls relation name))
        key

  -- the restructure, if no column of the key holds NULLs
  unfoldable pub restructured : String → Relation → String → List String → Act B Discrepancy
  unfolding key_holding_nulls restructure rate_card_statements
  restructured relation reference baseline nullable =
      if not (is_empty nullable) then conclude (key_holding_nulls relation nullable) else (do
        existing_key ← call (server.select_key_name relation)
        conclude (
            restructure relation baseline reference.primary_key
              (rate_card_statements relation reference baseline existing_key)))

  unfoldable pub with_baseline : String → Relation → Option String → Act B Discrepancy
  unfolding nullable_key restructured baseline_missing
  with_baseline relation reference none = conclude (baseline_missing relation)
  with_baseline relation reference (some baseline) = do
    nullable ← nullable_key relation reference.primary_key
    restructured relation reference baseline nullable

  unfoldable pub unpriceable_rows : String → Relation → Act B (List String)
  unfolding column
  unpriceable_rows relation live =
      if is_some (column live "pricing_mode")
      then call (server.select_unpriceable relation)
      else conclude []

  unfoldable pub after_unpriceable :
      String → Relation → Option String → List String → Act B Discrepancy
  unfolding subscription_models with_baseline
  after_unpriceable relation reference baseline unpriceable =
      if not (is_empty unpriceable)
      then conclude (subscription_models relation unpriceable)
      else with_baseline relation reference baseline

  unfoldable pub after_duplicates :
      String → Relation → Relation → Option String → List String → Act B Discrepancy
  unfolding duplicated_models unpriceable_rows after_unpriceable
  after_duplicates relation reference live baseline duplicates =
      if not (is_empty duplicates) then conclude (duplicated_models relation duplicates) else (do
        unpriceable ← unpriceable_rows relation live
        after_unpriceable relation reference baseline unpriceable)

  -- `_rate_card_discrepancy`
  unfoldable pub rate_card_discrepancy :
      String → Relation → Relation → Option String → Act B Discrepancy
  unfolding absent_key key_absent after_duplicates
  rate_card_discrepancy relation reference live baseline =
      let absent = absent_key live reference.primary_key in
      if not (is_empty absent)
      then conclude (key_absent relation reference.primary_key absent)
      else (do
        duplicates ← call (server.select_duplicates relation)
        after_duplicates relation reference live baseline duplicates)
