-- ===== src/Reconcile/Wording/Indexes.antt =====
-- reconcile.py: what `_compare_indexes` and `_compare_constraints` report.
use tokenweir.Prelude.{String, List, [], ◌∷◌}
use tokenweir.Reconcile.Text.{fstring, comma_list, quote_identifier, one_line}
use tokenweir.Reconcile.Schema.{Constraint}
use tokenweir.Reconcile.Report.{Observation, Discrepancy, automatic, manual}

unfoldable pub index_name_taken : String → String → String → Discrepancy
index_name_taken relation name shape = record {
  relation = relation;
  description = fstring (
      "index "
      ∷ name
      ∷ " exists but covers something else; tokenweir's index of that name is "
      ∷ one_line 80 shape
      ∷ []);
  resolution = manual;
  statements = [];
  remedy = fstring (
      "tokenweir cannot create its " ∷ name
      ∷ " while a different index holds the name, and it will not drop yours. Rename or remove the existing one, then reconcile again."
      ∷ []);
}

unfoldable pub index_missing : String → String → String → Discrepancy
index_missing relation shape definition = record {
  relation = relation;
  description = fstring ("index missing: " ∷ one_line 80 shape ∷ []);
  resolution = automatic;
  statements = definition ∷ [];
  remedy = "";
}

unfoldable pub kept_index : String → String → Observation
kept_index relation definition = record {
  relation = relation;
  description = fstring (
      "index is not part of tokenweir's schema and is left in place: "
      ∷ one_line 100 definition
      ∷ []);
}

unfoldable pub constraint_uncheckable : String → String → List String → Discrepancy
constraint_uncheckable relation name absent = record {
  relation = relation;
  description = fstring (
      "constraint "
      ∷ name
      ∷ " is missing and cannot be checked yet: it is about column(s) this table has not got ("
      ∷ comma_list absent
      ∷ ")"
      ∷ []);
  resolution = manual;
  statements = [];
  remedy =
      "tokenweir only adds a constraint after checking the rows already there against it, and it cannot check one that names columns which are not there. Those columns are elsewhere in this plan: resolve them first, then reconcile again and this becomes an ordinary addition.";
}

unfoldable pub constraint_name_taken : String → String → String → Discrepancy
constraint_name_taken relation name definition = record {
  relation = relation;
  description = fstring (
      "constraint "
      ∷ name
      ∷ " exists but says something else; tokenweir's is "
      ∷ one_line 90 definition
      ∷ []);
  resolution = manual;
  statements = [];
  remedy = fstring (
      "tokenweir cannot add its " ∷ name
      ∷ " while a different constraint holds the name, and it will not drop yours. Rename or remove the existing one, then reconcile again."
      ∷ []);
}

unfoldable pub constraint_unknown : String → String → String → Discrepancy
constraint_unknown relation name definition = record {
  relation = relation;
  description = fstring ("constraint " ∷ name ∷ " is missing: " ∷ one_line 90 definition ∷ []);
  resolution = manual;
  statements = [];
  remedy = fstring (
      "tokenweir only adds a constraint it can check the existing rows against first, and it does not know how to check this one. Add it yourself once you have: ALTER TABLE "
      ∷ relation ∷ " ADD CONSTRAINT " ∷ name ∷ " " ∷ definition ∷ ";" ∷ []);
}

unfoldable pub constraint_violated : String → String → String → Discrepancy
constraint_violated relation name definition = record {
  relation = relation;
  description = fstring (
      "constraint "
      ∷ name
      ∷ " is missing and existing rows violate it: "
      ∷ one_line 90 definition
      ∷ []);
  resolution = manual;
  statements = [];
  remedy =
      "adding it would fail on the rows already there, and deciding what those rows should say is not this tool's to do. On the rate card this means a price tokenweir's schema calls impossible is already stored — worth knowing before it is used to bill anything.";
}

unfoldable pub constraint_missing : String → String → String → Discrepancy
constraint_missing relation name definition = record {
  relation = relation;
  description = fstring (
      "constraint "
      ∷ name
      ∷ " is missing: "
      ∷ one_line 90 definition
      ∷ " (existing rows satisfy it)"
      ∷ []);
  resolution = automatic;
  statements =
      fstring (
        "ALTER TABLE "
        ∷ quote_identifier relation
        ∷ " ADD CONSTRAINT "
        ∷ quote_identifier name
        ∷ " "
        ∷ definition
        ∷ [])
      ∷ [];
  remedy = "";
}

unfoldable pub kept_constraint : String → Constraint → Observation
kept_constraint relation constraint = record {
  relation = relation;
  description = fstring (
      "constraint "
      ∷ constraint.name
      ∷ " is not part of tokenweir's schema and is left in place: "
      ∷ one_line 90 constraint.definition
      ∷ []);
}
