-- ===== src/Reconcile/ComparedRelations.antt =====
-- reconcile.py: the comparison of a relation of the reference, and of all of them.
use tokenweir.Prelude.{
  String, Bool, true, false, ◌&&◌, ◌||◌, not, is_some, is_empty, ◌≡◌, refl, subst, inl, inr, Option,
  List, [], ◌∷◌, all, str_eq, Bool-cases, Option-cases, if◌then◌else◌, arith,
}
use tokenweir.Migrations.Shipped.{Migration, Discovered, found, unshippable}
use tokenweir.Reconcile.Schema.{Relation, Snapshot, column, get}
use tokenweir.Reconcile.Report.{Discrepancy, is_manual, manual_resolution, same_texts}
use tokenweir.Reconcile.Wording.Tables.{table_absent, key_differs}
use tokenweir.Reconcile.Connection.{
  Verdict, concluded, halted, broke, Act, followed, conclude, Server, Found, found_one,
}
use tokenweir.Reconcile.Catalog.{is_table}
use tokenweir.Reconcile.Run.{
  Patterns, absent_table, part_way_table, is_current_valued, compare_key, compare_rate_card,
  compare_table, compare_relation,
}
use tokenweir.Reconcile.Laws.{IsTransactional}
use tokenweir.Reconcile.ReadOnly.{Reads-bind, Reads-conclude}
use tokenweir.Reconcile.Matching.{
  is_proper, columns_match, index_matches, constraint_matches, table_matches, table_found,
  relation_matches,
}
use tokenweir.Reconcile.Compares.{
  Tells, Compares, Compares-found, Compares-nothing, Compares-halt, Compares-extended_by,
}
use tokenweir.Reconcile.ComparedColumns.{compare_columns-Compares}
use tokenweir.Reconcile.ComparedTables.{compare_indexes-Compares, compare_constraints-Compares}
use tokenweir.Reconcile.ComparedView.{compare_view-Compares}
use tokenweir.Reconcile.ReportedCard.{ProperAnswer, rate_card_discrepancy-Reports}

module _ {B : Type 0} (server : Server B) (durable open_ : B → List String)
    (law : IsTransactional server durable open_) (patterns : Patterns)
    (shipped : Discovered (List Migration)) (hex : String) where
  abbrev Compared : Bool → Act B Found → Type 0
  Compared = Compares server durable open_

  card-Tells :
      (r : Verdict Discrepancy × B)
      → ProperAnswer server durable open_ law r
      → Tells server durable open_ false (followed (λ d. conclude (found_one d)) r)
  card-Tells (concluded d, b) h = (ground arith, λ e. absurd (ground arith))
  card-Tells (halted e, b) h = tt
  card-Tells (broke e, b) h = tt

  compare_rate_card-Compares :
      (baseline : Option String) (name : String) (reference live : Relation)
      → Compared
          (not (is_current_valued name live))
          (compare_rate_card server patterns shipped hex baseline name reference live)
  unfolding compare_rate_card
  compare_rate_card-Compares baseline name reference live =
      elim (Bool-cases (is_current_valued name live)) [
        | inl e ↦
            let card =
              rate_card_discrepancy-Reports server durable open_ law name reference live baseline in
            rw e (record {
              reading =
                  Reads-bind server durable open_ _ _ card.reading
                    λ d. Reads-conclude server durable open_ _;
              telling = λ b. card-Tells _ (card.reporting b);
              agreeing = λ e. absurd (ground arith);
            })
        | inr e ↦ rw e (Compares-nothing server durable open_)
      ]

  compare_key-Compares :
      (skipped : Bool) (name : String) (reference live : Relation)
      → Compared
          (skipped || same_texts live.primary_key reference.primary_key)
          (conclude (compare_key skipped name reference live))
  unfolding compare_key is_proper key_differs is_manual manual_resolution
  compare_key-Compares true name reference live = Compares-nothing server durable open_
  compare_key-Compares false name reference live =
      elim (Bool-cases (same_texts live.primary_key reference.primary_key)) [
        | inl e ↦ rw e (Compares-nothing server durable open_)
        | inr e ↦ rw e (Compares-found server durable open_ _ refl)
      ]

  table_test :
      (name : String) (reference live : Relation)
      → (let skipped = is_current_valued name live in
          not skipped
          && (columns_match name reference live (if skipped then "effective_from" ∷ [] else [])
              && ((skipped || same_texts live.primary_key reference.primary_key)
                  && (all (index_matches live) reference.indexes
                      && all (constraint_matches live) reference.constraints))))
        ≡ table_matches name reference live
  unfolding is_current_valued table_matches
  table_test name reference live =
      elim (Bool-cases
        (str_eq name "model_pricing_rates" && not (is_some (column live "effective_from")))) [
          | inl e ↦ rw e refl
          | inr e ↦ rw e refl
        ]

  compare_table-Compares :
      (baseline : Option String) (name : String) (reference live : Relation)
      → Compared
          (table_matches name reference live)
          (compare_table server patterns shipped hex baseline name reference live)
  unfolding compare_table
  compare_table-Compares baseline name reference live =
      subst
        (λ t. Compared t (compare_table server patterns shipped hex baseline name reference live))
        (table_test name reference live)
        (Compares-extended_by server durable open_ _ _ _ _
          (compare_rate_card-Compares baseline name reference live)
          (Compares-extended_by server durable open_ _ _ _ _
            (compare_columns-Compares server durable open_ law patterns.digit name reference live _)
            (Compares-extended_by server durable open_ _ _ _ _
              (compare_key-Compares _ name reference live)
              (Compares-extended_by server durable open_ _ _ _ _
                (compare_indexes-Compares server durable open_ law name reference live)
                (compare_constraints-Compares server durable open_ law name reference live)))))

  part_way_table-Compares :
      (ms : Discovered (List Migration)) (name : String)
      → Compared false (part_way_table patterns.creates ms name)
  unfolding part_way_table is_proper table_absent is_manual manual_resolution
  part_way_table-Compares (unshippable e) name = Compares-halt server durable open_ _
  part_way_table-Compares (found ms) name = Compares-found server durable open_ _ refl

  absent_table-Compares :
      (live : Snapshot) (name : String)
      → Compared false (absent_table server patterns shipped hex live name)
  unfolding absent_table is_proper table_absent is_manual manual_resolution
  absent_table-Compares live name = elim (Bool-cases (is_empty live.relations)) [
    | inl e ↦ rw e (Compares-found server durable open_ _ refl)
    | inr e ↦ rw e (part_way_table-Compares shipped name)
  ]

  pub compare_relation-Compares :
      (baseline : Option String) (live : Snapshot) (r : Relation)
      → Compared
          (relation_matches patterns.creates_view shipped live r)
          (compare_relation server patterns shipped hex baseline live r)
  unfolding compare_relation relation_matches table_found
  compare_relation-Compares baseline live r = elim (Bool-cases (is_table r)) [
    | inr e ↦ rw e (
        compare_view-Compares server durable open_ law patterns.creates_view shipped r.name r
          (get live r.name))
    | inl e ↦ elim (Option-cases (get live r.name)) [
      | inl n ↦ rw e (rw n (absent_table-Compares live r.name))
      | inr s ↦ rw e (rw s.1 (compare_table-Compares baseline r.name r s.0))
    ]
  ]
