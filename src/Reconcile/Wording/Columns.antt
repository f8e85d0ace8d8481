-- ===== src/Reconcile/Wording/Columns.antt =====
-- reconcile.py: what `_compare_columns` reports, one definition for each place that reports something.
use tokenweir.Prelude.{String, not, List, [], ◌∷◌, if◌then◌else◌}
use tokenweir.Hook.Text.{is_empty_text}
use tokenweir.Reconcile.Text.{fstring, quote_identifier, one_line, default_or}
use tokenweir.Reconcile.Schema.{Column}
use tokenweir.Reconcile.Report.{Observation, Discrepancy, automatic, manual}

unfoldable pub missing_undecided : String → Column → String → Discrepancy
missing_undecided relation c refusal = record {
  relation = relation;
  description = fstring ("column " ∷ c.name ∷ " (" ∷ c.type ∷ ") is missing, and " ∷ refusal ∷ []);
  resolution = manual;
  statements = [];
  remedy =
      "existing rows have no value for it and tokenweir will not invent one. Add the column yourself with a back-fill you can defend, then reconcile again.";
}

unfoldable pub missing_column : String → Column → String → List String → Discrepancy
missing_column relation c note statements = record {
  relation = relation;
  description = fstring ("column " ∷ c.name ∷ " (" ∷ c.type ∷ ") is missing" ∷ note ∷ []);
  resolution = automatic;
  statements = statements;
  remedy = "";
}

unfoldable pub generated_differs : String → Column → Column → Discrepancy
generated_differs relation c f = record {
  relation = relation;
  description =
      if not (is_empty_text f.generated)
      then fstring
          ("column " ∷ c.name ∷ " is a generated column; tokenweir's is an ordinary one" ∷ [])
      else fstring ("column " ∷ c.name ∷ " is ordinary; tokenweir's is generated" ∷ []);
  resolution = manual;
  statements = [];
  remedy =
      "a generated column cannot be made ordinary without dropping it, and this module does not drop columns. It also rejects any INSERT that supplies a value for it, which is every INSERT PostgresSource makes. Rebuild the column yourself.";
}

unfoldable pub identity_differs : String → Column → Column → Discrepancy
identity_differs relation c f = record {
  relation = relation;
  description =
      if not (is_empty_text f.identity)
      then fstring
          ("column " ∷ c.name ∷ " is an identity column; tokenweir's is an ordinary one" ∷ [])
      else fstring ("column " ∷ c.name ∷ " is ordinary; tokenweir's is an identity column" ∷ []);
  resolution = manual;
  statements = [];
  remedy =
      "an identity column refuses any INSERT that supplies a value for it, which is every INSERT PostgresSource makes, and converting one is a table rewrite. Decide and do it yourself — `ALTER TABLE … ALTER COLUMN … DROP IDENTITY` keeps the data, and the sequence has to be reset by hand.";
}

unfoldable pub type_differs : String → Column → Column → Discrepancy
type_differs relation c f = record {
  relation = relation;
  description = fstring ("column " ∷ c.name ∷ " is " ∷ f.type ∷ ", tokenweir's is " ∷ c.type ∷ []);
  resolution = manual;
  statements = [];
  remedy =
      "a widening may be safe and a narrowing truncates; which this is depends on the data, so it is not converted automatically. ALTER … TYPE it yourself once you have checked.";
}

unfoldable pub nullable_holding_nulls : String → Column → Discrepancy
nullable_holding_nulls relation c = record {
  relation = relation;
  description =
      fstring ("column " ∷ c.name ∷ " is nullable and holds NULLs; tokenweir's is NOT NULL" ∷ []);
  resolution = manual;
  statements = [];
  remedy =
      "decide what those rows should say and update them, then reconcile again. Choosing a value for existing rows is not this tool's to do.";
}

unfoldable pub nullable_column : String → Column → Discrepancy
nullable_column relation c = record {
  relation = relation;
  description =
      fstring
        ("column " ∷ c.name ∷ " is nullable; tokenweir's is NOT NULL (no NULLs present)" ∷ []);
  resolution = automatic;
  statements =
      fstring (
        "ALTER TABLE "
        ∷ quote_identifier relation
        ∷ " ALTER COLUMN "
        ∷ quote_identifier c.name
        ∷ " SET NOT NULL"
        ∷ [])
      ∷ [];
  remedy = "";
}

unfoldable pub not_null_column : String → Column → Discrepancy
not_null_column relation c = record {
  relation = relation;
  description = fstring (
      "column " ∷ c.name ∷ " is NOT NULL; tokenweir's is nullable, and the writer sends NULL for it"
      ∷ []);
  resolution = manual;
  statements = [];
  remedy =
      "relaxing a constraint the gateway chose is not this tool's decision, but leaving it means PostgresSource rejects any record that omits the field. DROP NOT NULL yourself, or give the column a default.";
}

unfoldable pub unwanted_default : String → Column → Column → Discrepancy
unwanted_default relation c f = record {
  relation = relation;
  description = fstring (
      "column "
      ∷ c.name
      ∷ " has a default ("
      ∷ one_line 40 (default_or "" f.default)
      ∷ "); tokenweir's has none"
      ∷ []);
  resolution = automatic;
  statements =
      fstring (
        "ALTER TABLE "
        ∷ quote_identifier relation
        ∷ " ALTER COLUMN "
        ∷ quote_identifier c.name
        ∷ " DROP DEFAULT"
        ∷ [])
      ∷ [];
  remedy = "";
}

unfoldable pub default_differs : String → Column → Column → String → Discrepancy
default_differs relation c f default = record {
  relation = relation;
  description = fstring (
      "column "
      ∷ c.name
      ∷ " defaults to "
      ∷ one_line 40 (default_or "nothing" f.default)
      ∷ "; tokenweir's defaults to "
      ∷ one_line 40 default
      ∷ []);
  resolution = automatic;
  statements =
      fstring (
        "ALTER TABLE "
        ∷ quote_identifier relation
        ∷ " ALTER COLUMN "
        ∷ quote_identifier c.name
        ∷ " SET DEFAULT "
        ∷ default
        ∷ [])
      ∷ [];
  remedy = "";
}

unfoldable pub unwritable_column : String → Column → Discrepancy
unwritable_column relation c = record {
  relation = relation;
  description = fstring (
      "column " ∷ c.name ∷ " (" ∷ c.type
      ∷ ") is not part of tokenweir's schema and is NOT NULL with no default" ∷ []);
  resolution = manual;
  statements = [];
  remedy =
      "PostgresSource's INSERT does not name this column, so every batch it writes would fail on it. Give it a default, make it nullable, or keep writing this table with something that supplies it. tokenweir will not drop it — it is your data.";
}

unfoldable pub kept_unwritable : String → Column → Observation
kept_unwritable relation c = record {
  relation = relation;
  description = fstring (
      "column " ∷ c.name ∷ " (" ∷ c.type
      ∷ ") is not part of tokenweir's schema, is NOT NULL with no default, and is kept. Nothing in tokenweir writes to this table, so it blocks nothing here — but any INSERT of your own must still supply it"
      ∷ []);
}

unfoldable pub kept_column : String → Column → Observation
kept_column relation c = record {
  relation = relation;
  description = fstring (
      "column " ∷ c.name ∷ " (" ∷ c.type
      ∷ ") is not part of tokenweir's schema; it is kept and left alone, and tokenweir's writer will not populate it"
      ∷ []);
}
