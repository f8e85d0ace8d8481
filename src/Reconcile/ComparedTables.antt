-- ===== src/Reconcile/ComparedTables.antt =====
-- The indexes and the constraints: what is reported on them.
use tokenweir.Prelude.{
  String, Bool, true, false, ◌&&◌, not, is_empty, ◌≡◌, refl, subst, inl, inr, Option, none, some,
  List, [], ◌∷◌, all, contains, Bool-cases, arith,
}
use tokenweir.Hook.Text.{is_empty_text}
use tokenweir.Reconcile.Schema.{Constraint, Relation, column_names}
use tokenweir.Reconcile.Report.{is_manual, manual_resolution}
use tokenweir.Reconcile.Definitions.{index_name, check_body}
use tokenweir.Reconcile.Wording.Indexes.{
  index_name_taken, index_missing, constraint_uncheckable, constraint_name_taken,
  constraint_unknown, constraint_violated, constraint_missing,
}
use tokenweir.Reconcile.Connection.{Act, conclude, Server, Found, extended_by, for_each}
use tokenweir.Reconcile.Tables.{
  shapes_of, names_of_indexes, compare_index, extra_index, compare_indexes, definitions_of,
  names_of_constraints, absent_names, violations_of, check_constraint_violations,
  missing_constraint, compare_constraint, extra_constraint, compare_constraints,
}
use tokenweir.Reconcile.Laws.{IsTransactional}
use tokenweir.Reconcile.ReadOnly.{Reads, Reads-call, Reads-conclude, Reads-bind}
use tokenweir.Reconcile.Matching.{is_proper, index_matches, constraint_matches}
use tokenweir.Reconcile.Compares.{
  Compares, Compares-found, Compares-nothing, Compares-noticed, Compares-followed,
  Compares-extended_by, Compares-for_each,
}

all-true : {A : Type 0} (l : List A) → all (λ _. true) l ≡ true
all-true [] = refl
all-true (x ∷ l) = all-true l

module _ {B : Type 0} (server : Server B) (durable open_ : B → List String)
    (law : IsTransactional server durable open_) where
  abbrev Compared : Bool → Act B Found → Type 0
  Compared = Compares server durable open_

  compare_index-Compares :
      (relation : String) (live : Relation) (i : String × String)
      → Compared (index_matches live i) (conclude (compare_index relation live i))
  unfolding compare_index index_matches is_proper index_name_taken index_missing is_manual
      manual_resolution
  compare_index-Compares relation live (shape, definition) =
      elim (Bool-cases (contains shape (shapes_of live.indexes))) [
        | inl e ↦ rw e (Compares-nothing server durable open_)
        | inr e ↦
            elim (Bool-cases (
              not (is_empty_text (index_name definition))
              && contains (index_name definition) (names_of_indexes live.indexes))) [
                | inl n ↦ rw e (rw n (Compares-found server durable open_ _ refl))
                | inr n ↦ rw e (rw n (Compares-found server durable open_ _ refl))
              ]
      ]

  extra_index-Compares :
      (relation : String) (reference : Relation) (i : String × String)
      → Compared true (conclude (extra_index relation reference i))
  unfolding extra_index
  extra_index-Compares relation reference (shape, definition) =
      elim (Bool-cases (contains shape (shapes_of reference.indexes))) [
        | inl e ↦ rw e (Compares-nothing server durable open_)
        | inr e ↦ rw e (Compares-noticed server durable open_ _)
      ]

  -- what the reference has, and what is extra, which is always in order
  Compares-extra :
      {A C : Type 0} (test : A → Bool) (body : A → Act B Found) (extra : C → Act B Found)
      (l : List A) (m : List C)
      → ((a : A) → Compared (test a) (body a))
      → ((c : C) → Compared true (extra c))
      → Compared (all test l) (extended_by (for_each body l) (for_each extra m))
  Compares-extra test body extra l m p q =
      subst (λ t. Compared t (extended_by (for_each body l) (for_each extra m)))
        (rw (all-true m) (ground arith))
        (Compares-extended_by server durable open_ _ _ _ _
          (Compares-for_each server durable open_ test body l p)
          (Compares-for_each server durable open_ (λ _. true) extra m q))

  pub compare_indexes-Compares :
      (relation : String) (reference live : Relation)
      → Compared
          (all (index_matches live) reference.indexes)
          (compare_indexes relation reference live)
  unfolding compare_indexes
  compare_indexes-Compares relation reference live =
      Compares-extra _ _ _ _ live.indexes (compare_index-Compares relation live)
        (extra_index-Compares relation reference)

  violations_of-Reads :
      (relation : String) (body : Option String)
      → Reads server durable open_ (violations_of server relation body)
  unfolding violations_of
  violations_of-Reads relation none = Reads-conclude server durable open_ none
  violations_of-Reads relation (some body) =
      Reads-bind server durable open_ _ _
        (Reads-call server durable open_ _ (law.select_violations relation body))
        λ violated. Reads-conclude server durable open_ _

  check_constraint_violations-Reads :
      (relation definition : String)
      → Reads server durable open_ (check_constraint_violations server relation definition)
  unfolding check_constraint_violations
  check_constraint_violations-Reads relation definition =
      violations_of-Reads relation (check_body definition)

  missing_constraint_proper :
      (relation : String) (k : Constraint) (violated : Option Bool)
      → is_proper (missing_constraint relation k violated) ≡ true
  unfolding missing_constraint constraint_unknown constraint_violated constraint_missing is_proper
      is_manual manual_resolution
  missing_constraint_proper relation k none = refl
  missing_constraint_proper relation k (some true) = refl
  missing_constraint_proper relation k (some false) = refl

  compare_constraint-Compares :
      (relation : String) (live : Relation) (k : Constraint)
      → Compared (constraint_matches live k) (compare_constraint server relation live k)
  unfolding compare_constraint constraint_matches is_proper constraint_uncheckable
      constraint_name_taken is_manual manual_resolution
  compare_constraint-Compares relation live k =
      elim (Bool-cases (contains k.definition (definitions_of live.constraints))) [
        | inl e ↦ rw e (Compares-nothing server durable open_)
        | inr e ↦ elim (Bool-cases (is_empty (absent_names (column_names live) k.columns))) [
          | inr a ↦ rw e (rw a (Compares-found server durable open_ _ refl))
          | inl a ↦ elim (Bool-cases (contains k.name (names_of_constraints live.constraints))) [
            | inl n ↦ rw e (rw a (rw n (Compares-found server durable open_ _ refl)))
            | inr n ↦ rw e (
                rw a (
                  rw n (
                    Compares-followed server durable open_ _ _
                      (check_constraint_violations-Reads relation k.definition)
                      λ violated.
                        Compares-found server durable open_ _
                          (missing_constraint_proper relation k violated))))
          ]
        ]
      ]

  extra_constraint-Compares :
      (relation : String) (reference : Relation) (k : Constraint)
      → Compared true (conclude (extra_constraint relation reference k))
  unfolding extra_constraint
  extra_constraint-Compares relation reference k =
      elim (Bool-cases (contains k.definition (definitions_of reference.constraints))) [
        | inl e ↦ rw e (Compares-nothing server durable open_)
        | inr e ↦ rw e (Compares-noticed server durable open_ _)
      ]

  pub compare_constraints-Compares :
      (relation : String) (reference live : Relation)
      → Compared
          (all (constraint_matches live) reference.constraints)
          (compare_constraints server relation reference live)
  unfolding compare_constraints
  compare_constraints-Compares relation reference live =
      Compares-extra _ _ _ _ live.constraints (compare_constraint-Compares relation live)
        (extra_constraint-Compares relation reference)
