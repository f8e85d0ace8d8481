-- ===== src/Reconcile/Wording/Tables.antt =====
-- reconcile.py: what `_rate_card_discrepancy`, `_compare_view` and `_plan` report.
use tokenweir.Prelude.{String, List, [], ◌∷◌, length}
use tokenweir.Orchestrator.Decimal.{decimal}
use tokenweir.Reconcile.Text.{fstring, comma_list, quote_identifier, comma_or_none}
use tokenweir.Reconcile.Report.{Observation, Discrepancy, automatic, manual}

unfoldable pub key_absent : String → List String → List String → Discrepancy
key_absent relation key absent = record {
  relation = relation;
  description = fstring (
      "rate card cannot be re-keyed: it has not got the column(s) the new key is over ("
      ∷ comma_list absent
      ∷ ")"
      ∷ []);
  resolution = manual;
  statements = [];
  remedy = fstring (
      "tokenweir's rate card is keyed ("
      ∷ comma_list key
      ∷ "), and this table is missing part of that key. Those columns are elsewhere in this plan: resolve them first, then reconcile again."
      ∷ []);
}

unfoldable pub duplicated_models : String → List String → Discrepancy
duplicated_models relation duplicates = record {
  relation = relation;
  description = fstring (
      "rate card is current-valued and cannot be re-keyed automatically: "
      ∷ decimal (length duplicates)
      ∷ " model(s) have more than one row ("
      ∷ comma_list duplicates
      ∷ ")"
      ∷ []);
  resolution = manual;
  statements = [];
  remedy =
      "tokenweir's rate card is keyed (model, effective_from) and has no pricing_mode column, so these rows would collide on one key. Decide which rate each model carries — or give them different effective_from dates by hand — before reconciling. Nothing here can choose for you: the answer changes what every historical row costs.";
}

unfoldable pub subscription_models : String → List String → Discrepancy
subscription_models relation unpriceable = record {
  relation = relation;
  description = fstring (
      "rate card is current-valued and cannot be re-keyed automatically: "
      ∷ decimal (length unpriceable)
      ∷ " model(s) have only a subscription rate, which would become their API rate ("
      ∷ comma_list unpriceable
      ∷ ")"
      ∷ []);
  resolution = manual;
  statements = [];
  remedy =
      "tokenweir's rollup joins the rate card to usage by model alone — pricing_mode does not survive the restructure — so this row would become the model's only rate and every API-metered call for it would price at a subscription rate that carries no per-call dollar by construction, typically zero. That is a confidently wrong cost, not the blank migration 005 returns for usage it cannot price. Add a real API rate for the model before reconciling, or remove the row to leave the model unpriced: nothing here can choose for you, because the answer changes what every historical row costs.";
}

unfoldable pub baseline_missing : String → Discrepancy
baseline_missing relation = record {
  relation = relation;
  description =
      "rate card is current-valued (no effective_from) and must be restructured to the effective-dated key (model, effective_from)";
  resolution = manual;
  statements = [];
  remedy =
      "re-run with a baseline date (--baseline-effective-from). It decides which historical usage the existing rates are taken to have covered, and the rollup prices every day on or after it at these rates. '-infinity' says 'these were always the rates' and must be written --baseline-effective-from=-infinity, with the equals sign, because a leading dash is an option to argparse. There is no default, because every answer is a claim about history. ('infinity' is refused: it would be in force on no day that has happened, and every existing row would stop pricing.)";
}

unfoldable pub key_holding_nulls : String → List String → Discrepancy
key_holding_nulls relation nullable_key = record {
  relation = relation;
  description = fstring (
      "rate card cannot be re-keyed: "
      ∷ comma_list nullable_key
      ∷ " holds NULLs, and a primary key column cannot"
      ∷ []);
  resolution = manual;
  statements = [];
  remedy =
      "decide what those rows should say and update them, then reconcile again. A rate with no model is a price for nothing, so it is worth knowing which rows these are before deciding.";
}

unfoldable pub restructure : String → String → List String → List String → Discrepancy
restructure relation baseline key statements = record {
  relation = relation;
  description = fstring (
      "rate card is current-valued; adding effective_from (back-filled to "
      ∷ baseline
      ∷ ") and re-keying to ("
      ∷ comma_list key
      ∷ ")"
      ∷ []);
  resolution = automatic;
  statements = statements;
  remedy = "";
}

unfoldable pub view_absent : String → String → Discrepancy
view_absent relation sql = record {
  relation = relation;
  description = "rollup view is absent";
  resolution = automatic;
  statements = sql ∷ [];
  remedy = "";
}

unfoldable pub not_a_view : String → String → Discrepancy
not_a_view relation kind = record {
  relation = relation;
  description = fstring (
      relation ∷ " exists but is not a view (relkind " ∷ "'" ∷ kind ∷ "'"
      ∷ "); tokenweir's is a view" ∷ []);
  resolution = manual;
  statements = [];
  remedy =
      "a table with this name may hold rows, and replacing it would destroy them. Move it aside yourself, then reconcile again.";
}

unfoldable pub view_dependents_lost : String → List String → Discrepancy
view_dependents_lost relation dependents = record {
  relation = relation;
  description = fstring (
      "rollup view has tokenweir's columns wrong and "
      ∷ decimal (length dependents)
      ∷ " object(s) depend on it ("
      ∷ comma_list dependents
      ∷ ")"
      ∷ []);
  resolution = manual;
  statements = [];
  remedy =
      "the view has to be dropped and recreated — CREATE OR REPLACE cannot change a view's column set — and dropping it would take the dependents with it. Recreate them against the new shape yourself. Note that tokenweir's rollup groups by pricing_mode, so queries against it return more rows than the gateway's did.";
}

unfoldable pub view_grants_lost : String → List String → Observation
view_grants_lost relation grantees = record {
  relation = relation;
  description = fstring (
      "dropping and recreating the view discards its SELECT grants; "
      ∷ comma_list grantees
      ∷ " will need re-granting afterwards (README, \"Granting a reader role later\"). --reader-role does not reach this: the grant lives in migration 005, which reconcile executes without a reader role set"
      ∷ []);
}

unfoldable pub view_differs : String → String → List String → List String → Discrepancy
view_differs relation sql live_names names = record {
  relation = relation;
  description = fstring (
      "rollup view differs from tokenweir's: columns are ("
      ∷ comma_list live_names
      ∷ "), tokenweir's are ("
      ∷ comma_list names
      ∷ ")"
      ∷ []);
  resolution = automatic;
  statements = fstring ("DROP VIEW " ∷ quote_identifier relation ∷ []) ∷ sql ∷ [];
  remedy = "";
}

unfoldable pub table_absent : String → String → Discrepancy
table_absent name remedy = record {
  relation = name;
  description = "table is absent from this database";
  resolution = manual;
  statements = [];
  remedy = remedy;
}

unfoldable pub key_differs : String → List String → List String → Discrepancy
key_differs name live_key key = record {
  relation = name;
  description = fstring (
      "primary key is ("
      ∷ comma_or_none live_key
      ∷ "); tokenweir's is ("
      ∷ comma_list key
      ∷ ")"
      ∷ []);
  resolution = manual;
  statements = [];
  remedy =
      "re-keying a table decides which rows are duplicates of which. Check the data, then change the key yourself.";
}
