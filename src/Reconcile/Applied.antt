-- ===== src/Reconcile/Applied.antt =====
-- What `apply` has done to the database, by its answer.
use mathlib.Core.List.{append-nil}
use tokenweir.Prelude.{
  String, Bool, true, false, ◌&&◌, not, is_some, is_empty, ◌≡◌, ◌⊎◌, refl, ◌∙◌, sym, inl, inr,
  Option, none, some, List, [], ◌∷◌, ◌++◌, str_eq, eq_iff, both, Bool-cases, arith,
}
use tokenweir.Python.{exception, base_exception}
use tokenweir.Migrations.Shipped.{Migration, Discovered}
use tokenweir.Reconcile.Report.{
  Discrepancy, ReconciliationPlan, manual_of, is_empty_plan, statements_of, statements, same_texts,
  same_resolution, same_entry, same_signature,
}
use tokenweir.Reconcile.Connection.{
  Verdict, concluded, halted, broke, Act, followed, conclude, Server,
}
use tokenweir.Reconcile.Columns.{same_default}
use tokenweir.Reconcile.Catalog.{Baseline, normalise_baseline}
use tokenweir.Reconcile.Run.{Patterns, require_transactional, plan}
use tokenweir.Reconcile.Apply.{
  apply_current, is_stale, chosen_baseline, apply_fresh, baseline_value, apply_plan,
}
use tokenweir.Reconcile.Laws.{Unmoved, IsTransactional}
use tokenweir.Reconcile.Settled.{
  Closed, Settles, Settles-conclude, Settles-halt, require_transactional-Settles,
  normalise_baseline-Settles, plan-Settles,
}
use tokenweir.Reconcile.Executed.{Whole, handled-Whole, execute_plan-Whole}

same_texts-equal : (ss ts : List String) → same_texts ss ts ≡ true → ss ≡ ts
unfolding same_texts
same_texts-equal [] [] h = refl
same_texts-equal [] (t ∷ ts) h = absurd (ground arith)
same_texts-equal (s ∷ ss) [] h = absurd (ground arith)
same_texts-equal (s ∷ ss) (t ∷ ts) h =
    let (first, rest) = both _ _ h in
    let e = (eq_iff s t).0 first in let r = same_texts-equal ss ts rest in cc (e, r)

last_of : (a b c d : Bool) → (a && b && c && d) ≡ true → d ≡ true
last_of a b c d h = ground arith

-- plans with one signature have the same statements
same_signature-statements :
    (ds es : List Discrepancy) → same_signature ds es ≡ true → statements_of ds ≡ statements_of es
unfolding same_signature same_entry statements_of
same_signature-statements [] [] h = refl
same_signature-statements [] (e ∷ es) h = absurd (ground arith)
same_signature-statements (d ∷ ds) [] h = absurd (ground arith)
same_signature-statements (d ∷ ds) (e ∷ es) h =
    let (entry, rest) = both _ _ h in
    let texts =
      last_of (str_eq d.relation e.relation) _ (same_resolution d.resolution e.resolution)
        (same_texts d.statements e.statements) entry in
    let s = same_texts-equal d.statements e.statements texts in
    let r = same_signature-statements ds es rest in cc (s, r)

no_statements :
    (done_before : List String) (p : ReconciliationPlan)
    → is_empty p.discrepancies ≡ true
    → done_before ≡ done_before ++ statements p
unfolding statements statements_of
no_statements l p h = of_list p.discrepancies h
  where
    of_list : (ds : List Discrepancy) → is_empty ds ≡ true → l ≡ l ++ statements_of ds
    of_list [] h = sym (append-nil l)
    of_list (d ∷ ds) h = absurd (ground arith)

module _ {B : Type 0} (server : Server B) (durable open_ : B → List String)
    (law : IsTransactional server durable open_) where
  module _ (patterns : Patterns) (shipped : Discovered (List Migration)) (hex : String) where
    module _ {D : Type 0} (lower : String → String) (fromisoformat : String → Option D)
        (isoformat : D → String) where
      -- the statements of the plan that was handed in, if one was
      abbrev pub Follows : Option ReconciliationPlan → ReconciliationPlan → Type 0
      Follows none p = Unit
      Follows (some q) p = statements p ≡ statements q

      -- a plan without a decision, which `plan` has made, with the statements of the one handed in
      abbrev pub Applicable : Option ReconciliationPlan → ReconciliationPlan → Type 0
      Applicable existing p =
          (value : Baseline D) × (b₀ : B) × (b₁ : B) × (plan server patterns shipped hex lower
              fromisoformat isoformat value b₀
            ≡ (concluded p, b₁))
          × (is_empty (manual_of p.discrepancies) ≡ true)
          × Follows existing p

      -- what `apply` has done to the database, by its answer
      abbrev pub Applies : Option ReconciliationPlan → B → Verdict ReconciliationPlan × B → Type 0
      Applies existing b (concluded p, b') =
          (durable b' ≡ durable b ++ statements p) × Applicable existing p
      Applies existing b (halted h, b') = durable b' ≡ durable b
      Applies existing b (broke e, b') =
          (durable b' ≡ durable b)
          ⊎ ((p : ReconciliationPlan) × (durable b' ≡ durable b ++ statements p)
              × Applicable existing p)

      executed-Applies :
          (existing : Option ReconciliationPlan) (b b₁ : B) (p : ReconciliationPlan)
          (r : Verdict (Unit {0}) × B)
          → durable b₁ ≡ durable b
          → Applicable existing p
          → Whole server durable open_ law b₁ (statements p) r
          → Applies existing b (followed (λ _. conclude p) r)
      executed-Applies existing b b₁ p (concluded u, b') d m w = (w ∙ cc d, m)
      executed-Applies existing b b₁ p (halted h, b') d m w = absurd w
      executed-Applies existing b b₁ p (broke e, b') d m w = elim w.1 [
        | inl q ↦ inl (q ∙ d)
        | inr q ↦ inr (p, q ∙ cc d, m)
      ]

      -- a plan that is applicable once it has no decision in it
      current-Applies :
          (existing : Option ReconciliationPlan) (b b₁ : B) (p : ReconciliationPlan)
          → server.autocommit b₁ ≡ false
          → open_ b₁ ≡ []
          → durable b₁ ≡ durable b
          → (is_empty (manual_of p.discrepancies) ≡ true → Applicable existing p)
          → Applies existing b (apply_current server patterns shipped hex p b₁)
      unfolding apply_current is_empty_plan
      current-Applies existing b b₁ p a o d m =
          elim (Bool-cases (is_empty (manual_of p.discrepancies))) [
            | inr e ↦ rw e d
            | inl e ↦ elim (Bool-cases (is_empty p.discrepancies)) [
              | inl n ↦ rw e (rw n (d ∙ no_statements (durable b) p n, m e))
              | inr n ↦ rw e (
                  rw n (
                    executed-Applies existing b b₁ p _ d (m e) (
                      handled-Whole server durable open_ law b₁ (statements p) _ (
                        execute_plan-Whole server durable open_ law patterns shipped hex p b₁ a
                          o))))
            ]
          ]

      fresh-Applies :
          (existing : Option ReconciliationPlan) (b b₁ : B) (p : ReconciliationPlan)
          (value : Baseline D) (b₀ : B)
          → server.autocommit b₁ ≡ false
          → open_ b₁ ≡ []
          → durable b₁ ≡ durable b
          → plan server patterns shipped hex lower fromisoformat isoformat value b₀
            ≡ (concluded p, b₁)
          → Applies existing b (apply_fresh server patterns shipped hex existing p b₁)
      unfolding apply_fresh is_stale statements
      fresh-Applies none b b₁ p value b₀ a o d made =
          current-Applies none b b₁ p a o d λ e. (value, b₀, b₁, made, e, tt)
      fresh-Applies (some q) b b₁ p value b₀ a o d made =
          elim (Bool-cases (same_signature q.discrepancies p.discrepancies)) [
            | inr e ↦ rw e d
            | inl e ↦ rw e (
                current-Applies (some q) b b₁ p a o d λ m. (
                  value,
                  b₀,
                  b₁,
                  made,
                  m,
                  sym (same_signature-statements q.discrepancies p.discrepancies e),
                ))
          ]

      -- behind an action that changes nothing
      Applies-followed :
          {A : Type 0} (existing : Option ReconciliationPlan) (b : B)
          (k : A → Act B ReconciliationPlan) (r : Verdict A × B)
          → Unmoved server durable open_ b r × Closed server durable open_ law r
          → ((a : A) (b₁ : B)
              → server.autocommit b₁ ≡ false
              → open_ b₁ ≡ []
              → durable b₁ ≡ durable b
              → r ≡ (concluded a, b₁)
              → Applies existing b (k a b₁))
          → Applies existing b (followed k r)
      Applies-followed existing b k (concluded a, b₁) h q = q a b₁ h.0.0 h.1 h.0.1 refl
      Applies-followed existing b k (halted x, b₁) h q = h.0.1
      Applies-followed existing b k (broke exception, b₁) h q = inl h.0.1
      Applies-followed existing b k (broke base_exception, b₁) h q = inl h.0.1

      Applies-settled :
          {A : Type 0} (existing : Option ReconciliationPlan) (b b₁ : B) (m : Act B A)
          (k : A → Act B ReconciliationPlan)
          → Settles server durable open_ law m
          → server.autocommit b₁ ≡ false
          → open_ b₁ ≡ []
          → durable b₁ ≡ durable b
          → ((a : A) (b₂ : B)
              → server.autocommit b₂ ≡ false
              → open_ b₂ ≡ []
              → durable b₂ ≡ durable b
              → m b₁ ≡ (concluded a, b₂)
              → Applies existing b (k a b₂))
          → Applies existing b (followed k (m b₁))
      Applies-settled existing b b₁ m k s a o d q =
          let h = s.ending b₁ a o in
          Applies-followed existing b k (m b₁) ((h.0.0, h.0.1 ∙ d), h.1) q

      chosen_baseline-Settles :
          (existing : Option ReconciliationPlan) (baseline : Option String)
          → Settles server durable open_ law
              (chosen_baseline server patterns shipped hex existing baseline)
      unfolding chosen_baseline
      chosen_baseline-Settles none baseline = Settles-conclude server durable open_ law _
      chosen_baseline-Settles (some p) baseline =
          elim (Bool-cases (is_some baseline && not (same_default baseline p.baseline))) [
            | inl e ↦ rw e (Settles-halt server durable open_ law _)
            | inr e ↦ rw e (Settles-conclude server durable open_ law _)
          ]

      -- `apply` leaves no plan half executed, whatever it answers. If it returns, the statements of the
      -- plan that it returns have been executed, all of them and in order: a plan that `plan` has made,
      -- with no discrepancy in it that is left to a human, and with the statements of the plan handed
      -- in, if one was. If it refuses, nothing has been executed; if something is raised, nothing, or
      -- all of such a plan. The connection is transactional (`IsTransactional`), and starts out of
      -- autocommit mode and without an open transaction.
      pub apply_plan-Applies :
          (existing : Option ReconciliationPlan) (value : Baseline D) (b : B)
          → server.autocommit b ≡ false
          → open_ b ≡ []
          → Applies existing b (
              apply_plan server patterns shipped hex lower fromisoformat isoformat existing value b)
      unfolding apply_plan
      apply_plan-Applies existing value b a o =
          Applies-settled existing b b (require_transactional server) _
            (require_transactional-Settles server durable open_ law) a o refl
            λ u b₁ a₁ o₁ d₁ e₁.
              Applies-settled existing b b₁ (normalise_baseline lower fromisoformat isoformat value)
                _
                (normalise_baseline-Settles server durable open_ law lower fromisoformat isoformat
                  value)
                a₁ o₁ d₁
                λ given b₂ a₂ o₂ d₂ e₂.
                  Applies-settled existing b b₂
                    (chosen_baseline server patterns shipped hex existing given) _
                    (chosen_baseline-Settles existing given) a₂ o₂ d₂
                    λ baseline b₃ a₃ o₃ d₃ e₃.
                      Applies-settled existing b b₃
                        (plan server patterns shipped hex lower fromisoformat isoformat (
                          baseline_value server patterns shipped hex lower fromisoformat isoformat
                            baseline))
                        _
                        (plan-Settles server durable open_ law patterns shipped hex lower
                          fromisoformat isoformat _)
                        a₃ o₃ d₃ λ p b₄ a₄ o₄ d₄ e₄. fresh-Applies existing b b₄ p _ b₃ a₄ o₄ d₄ e₄
