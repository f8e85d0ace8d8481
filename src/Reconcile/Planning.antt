-- ===== src/Reconcile/Planning.antt =====
-- reconcile.py: the answer of `plan` and of its body.
use tokenweir.Prelude.{
  String, Bool, true, false, ◌≡◌, refl, sym, subst, ap, Option, List, [], all, is_empty, arith,
}
use tokenweir.Python.{Outcome, returned, raised}
use tokenweir.Migrations.Shipped.{Migration, Discovered}
use tokenweir.Reconcile.Schema.{Snapshot}
use tokenweir.Reconcile.Report.{ReconciliationPlan}
use tokenweir.Reconcile.Connection.{
  Verdict, concluded, halted, broke, ◌>>=◌, followed, conclude, verdict, call, Server, Found,
  for_each,
}
use tokenweir.Reconcile.Catalog.{ordered}
use tokenweir.Reconcile.Run.{
  Patterns, reference_snapshot, live_snapshot, compare_relation, compare_schemas, plan_against,
  plan_body,
}
use tokenweir.Reconcile.Laws.{IsTransactional}
use tokenweir.Reconcile.Matching.{is_proper, relation_matches, schema_matches}
use tokenweir.Reconcile.Compares.{Tells}
use tokenweir.Reconcile.Ordering.{all-ordered}
use tokenweir.Reconcile.Planned.{reference_snapshot-Reads, live_snapshot-Reads, compare_all}

module _ {B : Type 0} (server : Server B) (durable open_ : B → List String)
    (law : IsTransactional server durable open_) (patterns : Patterns)
    (shipped : Discovered (List Migration)) (hex : String) where
  -- a plan is proper, and empty exactly if the schemas that were read match
  abbrev pub Describes : Snapshot → Snapshot → ReconciliationPlan → Type 0
  Describes reference live p =
      (all is_proper p.discrepancies ≡ true)
      × (is_empty p.discrepancies ≡ schema_matches patterns.creates_view shipped reference live)

  -- what `_plan` answers: the plan is of two schemas that it has read, and no transaction is open
  abbrev pub Answers : B → Verdict ReconciliationPlan × B → Type 0
  Answers b (concluded p, b') =
      (reference : Snapshot) × (live : Snapshot) × (b₁ : B) × (b₂ : B) × (reference_snapshot server
          patterns shipped hex b
        ≡ (concluded reference, b₁))
      × (live_snapshot server patterns shipped hex reference b₁ ≡ (concluded live, b₂))
      × Describes reference live p
      × (open_ b' ≡ [])
  Answers b (halted h, b') = Unit
  Answers b (broke e, b') = Unit

  abbrev EmptyIn : Verdict Found × B → Type 0
  EmptyIn (concluded f, b) = is_empty f.discrepancies ≡ true
  EmptyIn (halted h, b) = Unit
  EmptyIn (broke e, b) = Unit

  -- the plan of two schemas
  abbrev Compared : Snapshot → Snapshot → Verdict ReconciliationPlan × B → Type 0
  Compared reference live (concluded p, b) = Describes reference live p × (open_ b ≡ [])
  Compared reference live (halted h, b) = Unit
  Compared reference live (broke e, b) = Unit

  rolled_back :
      (reference live : Snapshot) (p : ReconciliationPlan) (r : Outcome (Unit {0}) × B)
      → Describes reference live p
      → open_ r.1 ≡ []
      → Compared reference live (followed (λ _. conclude p) (verdict r))
  rolled_back reference live p (returned u, b) d o = (d, o)
  rolled_back reference live p (raised e, b) d o = tt

  module _ (baseline : Option String) where
    abbrev finish : Found → ReconciliationPlan
    finish f = record {
      discrepancies = f.discrepancies;
      observations = f.observations;
      baseline = baseline;
    }

    -- behind the loop
    found-Compared :
        (reference live : Snapshot) (t : Bool) (r : Verdict Found × B)
        → server.autocommit r.1 ≡ false
        → t ≡ schema_matches patterns.creates_view shipped reference live
        → Tells server durable open_ t r
        → (t ≡ true → EmptyIn r)
        → Compared reference live
            (followed (λ f. call server.rollback >>= λ _. conclude (finish f)) r)
    found-Compared reference live t (concluded f, b) a e h k =
        let told = h.1 in
        rolled_back reference live (finish f) (server.rollback b) (h.0, ground arith)
          ((law.rollback b a).1)
    found-Compared reference live t (halted x, b) a e h k = tt
    found-Compared reference live t (broke x, b) a e h k = tt

    agreeing-EmptyIn :
        (r : Verdict Found × B) (b : B)
        → ((f : Found) × (r ≡ (concluded f, b)) × (f.discrepancies ≡ []))
        → EmptyIn r
    agreeing-EmptyIn r b (f, e, d) = subst EmptyIn (sym e) (ap is_empty d)

    compare_schemas-Compared :
        (reference live : Snapshot) (b : B)
        → server.autocommit b ≡ false
        → Compared reference live
            (compare_schemas server patterns shipped hex baseline reference live b)
    unfolding compare_schemas schema_matches
    compare_schemas-Compared reference live b a =
        let c = compare_all server durable open_ law patterns shipped hex baseline reference live in
        found-Compared reference live
          (all (relation_matches patterns.creates_view shipped live) (ordered reference))
          (for_each (compare_relation server patterns shipped hex baseline live) (ordered reference)
            b)
          ((c.reading.ending b a).0)
          (all-ordered (relation_matches patterns.creates_view shipped live) reference)
          (c.telling b) (λ e. agreeing-EmptyIn _ b (c.agreeing e b))

    -- the answer, with where the two schemas come from
    Compared-Answers :
        (b b₁ b₂ : B) (reference live : Snapshot) (r : Verdict ReconciliationPlan × B)
        → reference_snapshot server patterns shipped hex b ≡ (concluded reference, b₁)
        → live_snapshot server patterns shipped hex reference b₁ ≡ (concluded live, b₂)
        → Compared reference live r
        → Answers b r
    Compared-Answers b b₁ b₂ reference live (concluded p, b') e g h =
        (reference, live, b₁, b₂, e, g, h.0, h.1)
    Compared-Answers b b₁ b₂ reference live (halted x, b') e g h = tt
    Compared-Answers b b₁ b₂ reference live (broke x, b') e g h = tt

    live-Answers :
        (b b₁ : B) (reference : Snapshot) (r : Verdict Snapshot × B)
        → reference_snapshot server patterns shipped hex b ≡ (concluded reference, b₁)
        → live_snapshot server patterns shipped hex reference b₁ ≡ r
        → server.autocommit r.1 ≡ false
        → Answers b (
            followed
              (λ live. compare_schemas server patterns shipped hex baseline reference live)
              r)
    live-Answers b b₁ reference (concluded live, b₂) e g a =
        Compared-Answers b b₁ b₂ reference live _ e g (compare_schemas-Compared reference live b₂ a)
    live-Answers b b₁ reference (halted x, b₂) e g a = tt
    live-Answers b b₁ reference (broke x, b₂) e g a = tt

    reference-Answers :
        (b : B) (r : Verdict Snapshot × B)
        → reference_snapshot server patterns shipped hex b ≡ r
        → server.autocommit r.1 ≡ false
        → Answers b
            (followed (λ reference. plan_against server patterns shipped hex baseline reference) r)
    unfolding plan_against
    reference-Answers b (concluded reference, b₁) e a =
        live-Answers b b₁ reference (live_snapshot server patterns shipped hex reference b₁) e refl
          ((live_snapshot-Reads server durable open_ law patterns shipped hex reference).ending b₁
            a).0
    reference-Answers b (halted x, b₁) e a = tt
    reference-Answers b (broke x, b₁) e a = tt

    -- `_plan` answers with a plan of two schemas that it has read: the reference's, which is rolled back,
    -- and the live one. A decision that is left to a human comes without statements, and any other
    -- discrepancy with some. The plan is empty exactly if the live schema matches the reference
    -- (`schema_matches`): a live table has every column of the reference that is not exempt, with the
    -- same type, default, identity and generation, and NOT NULL exactly where it is so there; the same
    -- primary key, and every index and constraint; `gateway_usage` has no further column, but for
    -- exempt ones, that an INSERT cannot leave out; `model_pricing_rates` has the column
    -- `effective_from`; and a live view is a view with the same names of columns in the same order,
    -- which a shipped migration creates. No transaction is open then. The connection is transactional
    -- (`IsTransactional`), and not in autocommit mode.
    pub plan_body-Answers :
        (b : B)
        → server.autocommit b ≡ false
        → Answers b (plan_body server patterns shipped hex baseline b)
    unfolding plan_body
    plan_body-Answers b a =
        reference-Answers b (reference_snapshot server patterns shipped hex b) refl
          ((reference_snapshot-Reads server durable open_ law patterns shipped hex).ending b a).0
