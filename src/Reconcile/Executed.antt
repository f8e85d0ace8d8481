-- ===== src/Reconcile/Executed.antt =====
-- reconcile.py: `apply` while it executes the statements of a plan.
use mathlib.Core.List.{append_assoc, append-nil}
use tokenweir.Prelude.{
  String, false, ◌≡◌, ◌⊎◌, refl, ◌∙◌, sym, subst, ap, inl, inr, List, [], ◌∷◌, ◌++◌,
}
use tokenweir.Python.{Raised, Outcome, returned, raised, exception, base_exception}
use tokenweir.Migrations.Shipped.{Migration, Discovered}
use tokenweir.Reconcile.Report.{ReconciliationPlan, statements}
use tokenweir.Reconcile.Connection.{
  Verdict, concluded, halted, broke, followed, verdict, call, Server,
}
use tokenweir.Reconcile.Run.{Patterns, execute_all, or_rollback}
use tokenweir.Reconcile.Apply.{execute_plan}
use tokenweir.Reconcile.Laws.{Unmoved, Executes, Commits, IsTransactional}

module _ {B : Type 0} (server : Server B) (durable open_ : B → List String)
    (law : IsTransactional server durable open_) where
  -- in the transaction, behind these statements
  abbrev InTransaction : B → List String → Verdict (Unit {0}) × B → Type 0
  InTransaction b ss (concluded u, b') =
      (server.autocommit b' ≡ false) × (durable b' ≡ durable b) × (open_ b' ≡ ss)
  InTransaction b ss (halted h, b') = ⊥
  InTransaction b ss (broke e, b') = (server.autocommit b' ≡ false) × (durable b' ≡ durable b)

  next-InTransaction :
      (b b₁ : B) (before : List String) (s : String) (ss : List String) (r : Outcome (Unit {0}) × B)
      → durable b₁ ≡ durable b
      → open_ b₁ ≡ before
      → Executes server durable open_ b₁ s r
      → ((b₂ : B)
          → server.autocommit b₂ ≡ false
          → durable b₂ ≡ durable b
          → open_ b₂ ≡ before ++ s ∷ []
          → InTransaction b ((before ++ s ∷ []) ++ ss) (execute_all server ss b₂))
      → InTransaction b (before ++ s ∷ ss) (followed (λ _. execute_all server ss) (verdict r))
  next-InTransaction b b₁ before s ss (returned u, b₂) d o x k =
      subst (λ l. InTransaction b l (execute_all server ss b₂)) (append_assoc before (s ∷ []) ss)
        (k b₂ x.0 (x.1 ∙ d) (x.2 ∙ ap (λ l. l ++ s ∷ []) o))
  next-InTransaction b b₁ before s ss (raised e, b₂) d o x k = (x.0, x.1 ∙ d)

  execute_all-InTransaction :
      (b b₁ : B) (before ss : List String)
      → server.autocommit b₁ ≡ false
      → durable b₁ ≡ durable b
      → open_ b₁ ≡ before
      → InTransaction b (before ++ ss) (execute_all server ss b₁)
  unfolding execute_all
  execute_all-InTransaction b b₁ before [] a d o = (a, d, o ∙ sym (append-nil before))
  execute_all-InTransaction b b₁ before (s ∷ ss) a d o =
      next-InTransaction b b₁ before s ss (server.execute s b₁) d o (law.execute s b₁ a)
        λ b₂ a₂ d₂ o₂. execute_all-InTransaction b b₂ (before ++ s ∷ []) ss a₂ d₂ o₂

  -- all of the statements, or none
  abbrev pub Whole : B → List String → Verdict (Unit {0}) × B → Type 0
  Whole b ss (concluded u, b') = durable b' ≡ durable b ++ ss
  Whole b ss (halted h, b') = ⊥
  Whole b ss (broke e, b') =
      (server.autocommit b' ≡ false) × ((durable b' ≡ durable b) ⊎ (durable b' ≡ durable b ++ ss))

  committed-Whole :
      (b b₁ : B) (ss : List String) (r : Outcome (Unit {0}) × B)
      → durable b₁ ≡ durable b
      → open_ b₁ ≡ ss
      → Commits server durable open_ b₁ r
      → Whole b ss (verdict r)
  committed-Whole b b₁ ss (returned u, b') d o x = x.1 ∙ cc (d, o)
  committed-Whole b b₁ ss (raised e, b') d o x =
      (x.0, elim x.1 [ inl p ↦ inl (p ∙ d) | inr p ↦ inr (p ∙ cc (d, o)) ])

  then_commit :
      (b : B) (ss : List String) (r : Verdict (Unit {0}) × B)
      → InTransaction b ss r
      → Whole b ss (followed (λ _. call server.commit) r)
  then_commit b ss (concluded u, b₁) h =
      committed-Whole b b₁ ss (server.commit b₁) h.1 h.2 (law.commit b₁ h.0)
  then_commit b ss (halted x, b₁) h = h
  then_commit b ss (broke e, b₁) h = (h.0, inl h.1)

  -- behind the handler
  undone-Whole :
      (b b₁ : B) (ss : List String) (e : Raised) (r : Outcome (Unit {0}) × B)
      → (durable b₁ ≡ durable b) ⊎ (durable b₁ ≡ durable b ++ ss)
      → Unmoved server durable open_ b₁ r
      → Whole b ss (followed (λ _ b'. (broke e, b')) (verdict r))
  undone-Whole b b₁ ss e (returned u, b') h q =
      (q.0, elim h [ inl p ↦ inl (q.1 ∙ p) | inr p ↦ inr (q.1 ∙ p) ])
  undone-Whole b b₁ ss e (raised x, b') h q =
      (q.0, elim h [ inl p ↦ inl (q.1 ∙ p) | inr p ↦ inr (q.1 ∙ p) ])

  pub handled-Whole :
      (b : B) (ss : List String) (r : Verdict (Unit {0}) × B)
      → Whole b ss r
      → Whole b ss (or_rollback server (λ v. v) r)
  unfolding or_rollback
  handled-Whole b ss (concluded u, b₁) h = h
  handled-Whole b ss (halted x, b₁) h = absurd h
  handled-Whole b ss (broke exception, b₁) h =
      undone-Whole b b₁ ss exception (server.rollback b₁) h.1 (law.rollback b₁ h.0).0
  handled-Whole b ss (broke base_exception, b₁) h = h

  module _ (patterns : Patterns) (shipped : Discovered (List Migration)) (hex : String) where
    pub execute_plan-Whole :
        (p : ReconciliationPlan) (b : B)
        → server.autocommit b ≡ false
        → open_ b ≡ []
        → Whole b (statements p) (execute_plan server patterns shipped hex p b)
    unfolding execute_plan
    execute_plan-Whole p b a o =
        then_commit b (statements p) _ (execute_all-InTransaction b b [] (statements p) a refl o)
