-- ===== src/Reconcile/ComparedColumns.antt =====
-- reconcile.py: `_compare_columns` and what it reports.
use Prim.Native.Char.{Char}
use tokenweir.Prelude.{
  ℕ, String, Bool, true, false, ◌&&◌, ◌||◌, not, is_some, is_empty, ◌≡◌, refl, inl, inr, Option,
  List, contains, str_eq, Bool-cases, Option-cases, if◌then◌else◌,
}
use tokenweir.Hook.Text.{is_empty_text}
use tokenweir.Reconcile.Schema.{Column, Relation, column, column_names}
use tokenweir.Reconcile.Report.{is_manual, manual_resolution}
use tokenweir.Reconcile.Wording.Columns.{
  missing_undecided, missing_column, generated_differs, identity_differs, type_differs,
  nullable_holding_nulls, nullable_column, not_null_column, unwanted_default, default_differs,
  unwritable_column,
}
use tokenweir.Reconcile.Connection.{Act, conclude, Server, Found}
use tokenweir.Reconcile.Columns.{
  Addition, added_by, refused_as, add_column_statements, absent_column, is_exempt, backfill_value,
  backfill_note, same_default, compare_default, compare_nullability, compare_found, compare_column,
  compare_extra, compare_columns,
}
use tokenweir.Reconcile.Constants.{is_constant_default}
use tokenweir.Reconcile.Laws.{IsTransactional}
use tokenweir.Reconcile.ReadOnly.{Reads-call}
use tokenweir.Reconcile.Matching.{
  is_proper, same_bool, columns_agree, agrees_with, column_matches, may_be_left_out, extra_matches,
  columns_match,
}
use tokenweir.Reconcile.Compares.{
  Compares, Compares-found, Compares-nothing, Compares-noticed, Compares-followed,
  Compares-extended_by, Compares-for_each,
}

-- what `_add_column_statements` answers has a statement
abbrev HasStatements : Addition → Type 0
HasStatements (added_by sqls) = is_empty sqls ≡ false
HasStatements (refused_as refusal) = Unit

module _ (digit : Char → Option ℕ) where
  add_column_statements-HasStatements :
      (relation : String) (c : Column) → HasStatements (add_column_statements digit relation c)
  unfolding add_column_statements
  add_column_statements-HasStatements relation c = elim (Option-cases c.default) [
    | inl e ↦ elim (Bool-cases c.not_null) [
      | inl n ↦ elim (Option-cases (backfill_value relation c.name)) [
        | inl v ↦ rw e (rw n (rw v tt))
        | inr v ↦ rw e (rw n (rw v.1 refl))
      ]
      | inr n ↦ rw e (rw n refl)
    ]
    | inr e ↦ elim (Bool-cases (is_constant_default digit e.0)) [
      | inl k ↦ rw e.1 (rw k refl)
      | inr k ↦ rw e.1 (rw k tt)
    ]
  ]

  absent_column_proper :
      (relation : String) (c : Column) → is_proper (absent_column digit relation c) ≡ true
  unfolding absent_column is_proper missing_column missing_undecided is_manual manual_resolution
  absent_column_proper relation c =
      of_addition (add_column_statements digit relation c)
        (add_column_statements-HasStatements relation c)
    where
      of_addition :
          (a : Addition)
          → HasStatements a
          → is_proper (elim a [
            | refused_as refusal ↦ missing_undecided relation c refusal
            | added_by sqls ↦
                missing_column relation c (backfill_note (backfill_value relation c.name)) sqls
          ])
            ≡ true
      of_addition (added_by sqls) h = rw h refl
      of_addition (refused_as refusal) h = refl

nullable_proper :
    (relation : String) (c : Column) (nulls : Bool)
    → is_proper (if nulls then nullable_holding_nulls relation c else nullable_column relation c)
      ≡ true
unfolding is_proper nullable_holding_nulls nullable_column is_manual manual_resolution
nullable_proper relation c true = refl
nullable_proper relation c false = refl

module _ {B : Type 0} (server : Server B) (durable open_ : B → List String)
    (law : IsTransactional server durable open_) where
  abbrev Compared : Bool → Act B Found → Type 0
  Compared = Compares server durable open_

  compare_default-Compares :
      (relation : String) (c f : Column)
      → Compared (same_default f.default c.default) (conclude (compare_default relation c f))
  unfolding compare_default is_proper unwanted_default default_differs is_manual manual_resolution
  compare_default-Compares relation c f = elim (Bool-cases (same_default f.default c.default)) [
    | inl e ↦ rw e (Compares-nothing server durable open_)
    | inr e ↦ elim (Option-cases c.default) [
      | inl n ↦ rw e (rw n (Compares-found server durable open_ _ refl))
      | inr s ↦ rw e (rw s.1 (Compares-found server durable open_ _ refl))
    ]
  ]

  compare_nullability-Compares :
      (relation : String) (c f : Column)
      → Compared (same_bool c.not_null f.not_null) (compare_nullability server relation c f)
  unfolding compare_nullability same_bool is_proper not_null_column is_manual manual_resolution
  compare_nullability-Compares relation c f = elim (Bool-cases c.not_null) [
    | inl e ↦ elim (Bool-cases f.not_null) [
      | inl g ↦ rw e (rw g (Compares-nothing server durable open_))
      | inr g ↦ rw e (
          rw g (
            Compares-followed server durable open_ _ _
              (Reads-call server durable open_ _ (law.select_has_nulls relation c.name))
              λ nulls. Compares-found server durable open_ _ (nullable_proper relation c nulls)))
    ]
    | inr e ↦ elim (Bool-cases f.not_null) [
      | inl g ↦ rw e (rw g (Compares-found server durable open_ _ refl))
      | inr g ↦ rw e (rw g (Compares-nothing server durable open_))
    ]
  ]

  compare_found-Compares :
      (relation : String) (c f : Column)
      → Compared (columns_agree c f) (compare_found server relation c f)
  unfolding compare_found columns_agree is_proper generated_differs identity_differs type_differs
      is_manual manual_resolution
  compare_found-Compares relation c f = elim (Bool-cases (str_eq f.generated c.generated)) [
    | inr e ↦ rw e (Compares-found server durable open_ _ refl)
    | inl e ↦ elim (Bool-cases (str_eq f.identity c.identity)) [
      | inr g ↦ rw e (rw g (Compares-found server durable open_ _ refl))
      | inl g ↦ elim (Bool-cases (str_eq f.type c.type)) [
        | inr h ↦ rw e (rw g (rw h (Compares-found server durable open_ _ refl)))
        | inl h ↦ rw e (
            rw g (
              rw h (
                Compares-extended_by server durable open_ _ _ _ _
                  (compare_nullability-Compares relation c f)
                  (compare_default-Compares relation c f))))
      ]
    ]
  ]

  module _ (digit : Char → Option ℕ) where
    compare_column-Compares :
        (relation : String) (live : Relation) (skip : List String) (c : Column)
        → Compared
            (column_matches relation live skip c)
            (compare_column server digit relation live skip c)
    unfolding compare_column column_matches agrees_with
    compare_column-Compares relation live skip c =
        elim (Bool-cases (contains c.name skip || is_exempt relation c.name)) [
          | inl e ↦ rw e (Compares-nothing server durable open_)
          | inr e ↦ elim (Option-cases (column live c.name)) [
            | inl n ↦ rw e (
                rw n
                  (Compares-found server durable open_ _ (absent_column_proper digit relation c)))
            | inr s ↦ rw e (rw s.1 (compare_found-Compares relation c s.0))
          ]
        ]

    compare_extra-Compares :
        (relation : String) (reference : Relation) (c : Column)
        → Compared
            (extra_matches relation reference c)
            (conclude (compare_extra relation reference c))
    unfolding compare_extra extra_matches may_be_left_out is_proper unwritable_column is_manual
        manual_resolution
    compare_extra-Compares relation reference c =
        elim (Bool-cases (contains c.name (column_names reference) || is_exempt relation c.name)) [
          | inl e ↦ rw e (Compares-nothing server durable open_)
          | inr e ↦
              elim (Bool-cases
                (c.not_null && not (is_some c.default) && is_empty_text c.identity)) [
                  | inl u ↦ elim (Bool-cases (str_eq relation "gateway_usage")) [
                    | inl g ↦ rw e (rw u (rw g (Compares-found server durable open_ _ refl)))
                    | inr g ↦ rw e (rw u (rw g (Compares-noticed server durable open_ _)))
                  ]
                  | inr u ↦ rw e (rw u (Compares-noticed server durable open_ _))
                ]
        ]

    pub compare_columns-Compares :
        (relation : String) (reference live : Relation) (skip : List String)
        → Compared
            (columns_match relation reference live skip)
            (compare_columns server digit relation reference live skip)
    unfolding compare_columns columns_match
    compare_columns-Compares relation reference live skip =
        Compares-extended_by server durable open_ _ _ _ _
          (Compares-for_each server durable open_ _ _ _
            (compare_column-Compares relation live skip))
          (Compares-for_each server durable open_ _ _ _ (compare_extra-Compares relation reference))
