-- ===== src/Reconcile/Planned.antt =====
-- reconcile.py: the body of `plan`, and the reads it makes.
use tokenweir.Prelude.{
  ℕ, String, all, false, ◌≡◌, refl, ◌∙◌, Option, none, some, List, [], ◌∷◌, map,
}
use tokenweir.Python.{Outcome, returned, raised, exception, base_exception}
use tokenweir.Migrations.Shipped.{Migration, Discovered, found, unshippable}
use tokenweir.Reconcile.Schema.{Snapshot}
use tokenweir.Reconcile.Connection.{
  Verdict, unbuilt, concluded, halted, broke, Act, followed, call, Server, for_each,
}
use tokenweir.Reconcile.Catalog.{
  describe, described, describe_all, snapshot, qualified_name, ordered, owned_relation_names,
}
use tokenweir.Reconcile.Run.{
  Patterns, require_transactional, execute_all, or_rollback, build_reference, reference_from,
  schema_name, reference_statements, reference_of, compare_relation, reference_snapshot,
  live_snapshot, compare_schemas, plan_against, plan_body,
}
use tokenweir.Reconcile.Laws.{Unmoved, Executes, IsTransactional}
use tokenweir.Reconcile.ReadOnly.{
  Reads, Reads-conclude, Reads-halt, Reads-call, Reads-bind, Reads-query,
}
use tokenweir.Reconcile.Matching.{relation_matches}
use tokenweir.Reconcile.Compares.{Compares, Compares-for_each}
use tokenweir.Reconcile.ComparedRelations.{compare_relation-Compares}

module _ {B : Type 0} (server : Server B) (durable open_ : B → List String)
    (law : IsTransactional server durable open_) where
  abbrev Reading : {A : Type 0} → Act B A → Type 0
  Reading {A} m = Reads server durable open_ {A = A} m

  describe-Reads : (name : String) (oid : ℕ) → Reading (describe server name oid)
  unfolding describe
  describe-Reads name oid =
      Reads-query server durable open_ (server.select_kind oid) _ (law.select_kind oid) λ kind.
        Reads-query server durable open_ (server.select_attributes oid) _
          (law.select_attributes oid)
          λ columns.
            Reads-query server durable open_ (server.select_key oid) _ (law.select_key oid) λ key.
              Reads-query server durable open_ (server.select_indexes oid) _
                (law.select_indexes oid)
                λ indexes.
                  Reads-query server durable open_ (server.select_constraints oid) _
                    (law.select_constraints oid)
                    λ constraints. Reads-conclude server durable open_ _

  described-Reads : (name : String) (oid : Option ℕ) → Reading (described server name oid)
  unfolding described
  described-Reads name none = Reads-conclude server durable open_ _
  described-Reads name (some oid) =
      Reads-bind server durable open_ (describe server name oid) _ (describe-Reads name oid)
        λ r. Reads-conclude server durable open_ _

  describe_all-Reads :
      (schema : Option String) (names : List String) → Reading (describe_all server schema names)
  unfolding describe_all
  describe_all-Reads schema [] = Reads-conclude server durable open_ _
  describe_all-Reads schema (name ∷ names) =
      Reads-query server durable open_ (server.select_oid (qualified_name schema name)) _
        (law.select_oid _)
        λ oid.
          Reads-bind server durable open_ (described server name oid) _ (described-Reads name oid)
            λ first.
              Reads-bind server durable open_ (describe_all server schema names) _
                (describe_all-Reads schema names) λ rest. Reads-conclude server durable open_ _

  snapshot-Reads :
      (names : List String) (schema : Option String) → Reading (snapshot server names schema)
  unfolding snapshot
  snapshot-Reads names schema =
      Reads-bind server durable open_ (describe_all server schema names) _
        (describe_all-Reads schema names) λ relations. Reads-conclude server durable open_ _

  execute-Unmoved :
      (s : String) (b : B) (r : Outcome (Unit {0}) × B)
      → Executes server durable open_ b s r
      → Unmoved server durable open_ b r
  execute-Unmoved s b (returned u, b') h = (h.0, h.1)
  execute-Unmoved s b (raised e, b') h = h

  execute_all-Reads : (ss : List String) → Reading (execute_all server ss)
  unfolding execute_all
  execute_all-Reads [] = Reads-conclude server durable open_ _
  execute_all-Reads (s ∷ ss) =
      Reads-query server durable open_ (server.execute s) _
        (λ b h. execute-Unmoved s b _ (law.execute s b h)) λ u. execute_all-Reads ss

  pub rollback-Reads : Reading (call server.rollback)
  rollback-Reads = Reads-call server durable open_ _ λ b h. (law.rollback b h).0

  undone-Unmoved :
      {A : Type 0} (v : Verdict A) (b b₁ : B)
      → (server.autocommit b₁ ≡ false) × (durable b₁ ≡ durable b)
      → Unmoved server durable open_ b (followed (λ _ b'. (v, b')) (call server.rollback b₁))
  undone-Unmoved v b b₁ h =
      let q =
        (Reads-query server durable open_ server.rollback (λ _ b'. (v, b'))
            (λ b a. (law.rollback b a).0) λ u. record { ending = λ b a. (a, refl) }).ending
          b₁ h.0 in
      (q.0, q.1 ∙ h.1)

  pub handled-Unmoved :
      {A : Type 0} (instead : Verdict A → Verdict A) (b : B) (r : Verdict A × B)
      → Unmoved server durable open_ b r
      → Unmoved server durable open_ b (or_rollback server instead r)
  unfolding or_rollback
  handled-Unmoved instead b (concluded a, b₁) h = h
  handled-Unmoved instead b (halted e, b₁) h = undone-Unmoved _ b b₁ h
  handled-Unmoved instead b (broke exception, b₁) h = undone-Unmoved _ b b₁ h
  handled-Unmoved instead b (broke base_exception, b₁) h = h

  pub require_transactional-Reads : Reading (require_transactional server)
  unfolding require_transactional
  require_transactional-Reads = record { ending = λ b h. (h, refl) }

  module _ (patterns : Patterns) (shipped : Discovered (List Migration)) (hex : String) where
    build_reference-Reads :
        (names : List String) (ms : List Migration)
        → Reading (build_reference server patterns shipped hex names ms)
    unfolding build_reference
    build_reference-Reads names ms =
        Reads-bind server durable open_ (execute_all server (reference_statements hex ms)) _
          (execute_all-Reads (reference_statements hex ms))
          λ u. snapshot-Reads names (some (schema_name hex))

    reference_from-Reads :
        (ms : List Migration) → Reading (reference_from server patterns shipped hex ms)
    unfolding reference_from
    reference_from-Reads ms =
        Reads-bind server durable open_ _ _
          (record {
            ending = λ b h.
                handled-Unmoved (λ _. halted unbuilt) b _
                  ((build_reference-Reads (owned_relation_names patterns.created [] ms) ms).ending b
                    h);
          })
          λ reference.
            Reads-query server durable open_ server.rollback _ (λ b h. (law.rollback b h).0)
              λ u. Reads-conclude server durable open_ reference

    reference_of-Reads :
        (ms : Discovered (List Migration)) → Reading (reference_of server patterns shipped hex ms)
    unfolding reference_of
    reference_of-Reads (unshippable e) = Reads-halt server durable open_ _
    reference_of-Reads (found ms) = reference_from-Reads ms

    pub reference_snapshot-Reads : Reading (reference_snapshot server patterns shipped hex)
    unfolding reference_snapshot
    reference_snapshot-Reads =
        Reads-bind server durable open_ (require_transactional server) _ require_transactional-Reads
          λ u. reference_of-Reads shipped

    pub live_snapshot-Reads :
        (reference : Snapshot) → Reading (live_snapshot server patterns shipped hex reference)
    unfolding live_snapshot
    live_snapshot-Reads reference = snapshot-Reads (map (λ r. r.name) (ordered reference)) none

    -- the loop over the relations
    pub compare_all :
        (baseline : Option String) (reference live : Snapshot)
        → Compares server durable open_
            (all (relation_matches patterns.creates_view shipped live) (ordered reference))
            (for_each
              (compare_relation server patterns shipped hex baseline live)
              (ordered reference))
    compare_all baseline reference live =
        Compares-for_each server durable open_ _ _ (ordered reference)
          (compare_relation-Compares server durable open_ law patterns shipped hex baseline live)

    compare_schemas-Reads :
        (baseline : Option String) (reference live : Snapshot)
        → Reading (compare_schemas server patterns shipped hex baseline reference live)
    unfolding compare_schemas
    compare_schemas-Reads baseline reference live =
        Reads-bind server durable open_
          (for_each (compare_relation server patterns shipped hex baseline live)
            (ordered reference))
          _ (compare_all baseline reference live).reading
          λ f.
            Reads-query server durable open_ server.rollback _ (λ b h. (law.rollback b h).0)
              λ u. Reads-conclude server durable open_ _

    plan_against-Reads :
        (baseline : Option String) (reference : Snapshot)
        → Reading (plan_against server patterns shipped hex baseline reference)
    unfolding plan_against
    plan_against-Reads baseline reference =
        Reads-bind server durable open_ (live_snapshot server patterns shipped hex reference) _
          (live_snapshot-Reads reference) λ live. compare_schemas-Reads baseline reference live

    pub plan_body-Reads :
        (baseline : Option String) → Reading (plan_body server patterns shipped hex baseline)
    unfolding plan_body
    plan_body-Reads baseline =
        Reads-bind server durable open_ (reference_snapshot server patterns shipped hex) _
          reference_snapshot-Reads λ reference. plan_against-Reads baseline reference
