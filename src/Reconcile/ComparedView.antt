-- ===== src/Reconcile/ComparedView.antt =====
-- A view: what is reported on it.
use tokenweir.Prelude.{
  String, Bool, false, ◌&&◌, is_some, refl, inl, inr, Option, none, some, List, [], ◌∷◌, str_eq,
  Bool-cases, arith,
}
use tokenweir.Migrations.Shipped.{Migration, Discovered, found, unshippable}
use tokenweir.Reconcile.Schema.{Relation, column_names}
use tokenweir.Reconcile.Report.{is_manual, manual_resolution, same_texts}
use tokenweir.Reconcile.Wording.Tables.{view_absent, not_a_view, view_dependents_lost, view_differs}
use tokenweir.Reconcile.Connection.{Act, ◌>>=◌, conclude, Server, Found}
use tokenweir.Reconcile.Tables.{
  recreated_view, replace_view, compare_columns_of_view, compare_created_view, sql_or_halt,
  sql_creating, view_migration_sql, compare_view,
}
use tokenweir.Reconcile.Laws.{IsTransactional}
use tokenweir.Reconcile.ReadOnly.{Reads-call, Reads-conclude}
use tokenweir.Reconcile.Matching.{is_proper, view_found, is_created}
use tokenweir.Reconcile.Compares.{
  Compares, Compares-found, Compares-nothing, Compares-halt, Compares-followed,
}

module _ {B : Type 0} (server : Server B) (durable open_ : B → List String)
    (law : IsTransactional server durable open_) where
  abbrev Compared : Bool → Act B Found → Type 0
  Compared = Compares server durable open_

  -- a view that is in order is not one that is recreated
  recreated_view-Compares :
      (relation sql : String) (reference live : Relation) (grantees : List String)
      → Compared false (conclude (recreated_view relation sql reference live grantees))
  unfolding recreated_view view_differs is_proper is_manual manual_resolution
  recreated_view-Compares relation sql reference live grantees = record {
    reading = Reads-conclude server durable open_ _;
    telling = λ b. (refl, λ e. absurd (ground arith));
    agreeing = λ e. absurd (ground arith);
  }

  replace_view-Compares :
      (relation sql : String) (reference live : Relation) (dependents : List String)
      → Compared false (replace_view server relation sql reference live dependents)
  unfolding replace_view is_proper view_dependents_lost is_manual manual_resolution
  replace_view-Compares relation sql reference live [] =
      Compares-followed server durable open_ _ _
        (Reads-call server durable open_ _ (law.select_grantees relation))
        λ grantees. recreated_view-Compares relation sql reference live grantees
  replace_view-Compares relation sql reference live (d ∷ ds) =
      Compares-found server durable open_ _ refl

  -- the view, once there is SQL that creates it
  compare_columns_of_view-Compares :
      (relation sql : String) (reference live : Relation)
      → Compared
          (view_found reference (some live))
          (compare_columns_of_view server relation sql reference live)
  unfolding compare_columns_of_view view_found is_proper not_a_view is_manual manual_resolution
  compare_columns_of_view-Compares relation sql reference live =
      elim (Bool-cases (str_eq live.kind reference.kind)) [
        | inr e ↦ rw e (Compares-found server durable open_ _ refl)
        | inl e ↦ elim (Bool-cases (same_texts (column_names live) (column_names reference))) [
          | inl c ↦ rw e (rw c (Compares-nothing server durable open_))
          | inr c ↦ rw e (
              rw c (
                Compares-followed server durable open_ _ _
                  (Reads-call server durable open_ _ (law.select_dependents relation))
                  λ dependents. replace_view-Compares relation sql reference live dependents))
        ]
      ]

  compare_created_view-Compares :
      (relation : String) (reference : Relation) (live : Option Relation) (sql : String)
      → Compared
          (view_found reference live)
          (compare_created_view server relation reference live sql)
  unfolding compare_created_view view_found view_absent is_proper is_manual manual_resolution
  compare_created_view-Compares relation reference none sql =
      Compares-found server durable open_ _ refl
  compare_created_view-Compares relation reference (some live) sql =
      compare_columns_of_view-Compares relation sql reference live

  compare_sql-Compares :
      (relation : String) (reference : Relation) (live : Option Relation) (sql : Option String)
      → Compared
          (is_some sql && view_found reference live)
          (sql_or_halt relation sql >>= compare_created_view server relation reference live)
  unfolding sql_or_halt
  compare_sql-Compares relation reference live none = Compares-halt server durable open_ _
  compare_sql-Compares relation reference live (some sql) =
      compare_created_view-Compares relation reference live sql

  module _ (creates_view : String → String → Bool) where
    pub compare_view-Compares :
        (shipped : Discovered (List Migration)) (relation : String) (reference : Relation)
        (live : Option Relation)
        → Compared
            (is_created creates_view shipped relation && view_found reference live)
            (compare_view server creates_view shipped relation reference live)
    unfolding compare_view view_migration_sql is_created
    compare_view-Compares (unshippable e) relation reference live =
        Compares-halt server durable open_ _
    compare_view-Compares (found ms) relation reference live =
        compare_sql-Compares relation reference live (sql_creating creates_view relation ms)
