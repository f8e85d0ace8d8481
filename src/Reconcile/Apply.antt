-- ===== src/Reconcile/Apply.antt =====
-- reconcile.py: `apply`. Log lines are left out.
use tokenweir.Prelude.{
  String, Bool, false, ◌&&◌, not, is_some, is_empty, Option, none, some, List, if◌then◌else◌,
}
use tokenweir.Migrations.Shipped.{Migration, Discovered}
use tokenweir.Reconcile.Report.{
  ReconciliationPlan, manual_of, is_empty_plan, statements, same_signature,
}
use tokenweir.Reconcile.Connection.{
  other_baseline, stale, undecided, Act, ◌>>=◌, ◌>>◌, conclude, halt, call, Server,
}
use tokenweir.Reconcile.Columns.{same_default}
use tokenweir.Reconcile.Catalog.{Baseline, no_baseline, of_text, normalise_baseline}
use tokenweir.Reconcile.Run.{Patterns, require_transactional, execute_all, or_rollback, plan}

module _ {B : Type 0} (server : Server B) where
  module _ (patterns : Patterns) (shipped : Discovered (List Migration)) (hex : String) where
    -- the `try` of `apply`
    unfoldable pub execute_plan : ReconciliationPlan → Act B (Unit {0})
    unfolding execute_all statements
    execute_plan p = do execute_all server (statements p); call server.commit

    -- `apply` behind its checks
    unfoldable pub apply_current : ReconciliationPlan → Act B ReconciliationPlan
    unfolding manual_of is_empty_plan or_rollback execute_plan
    apply_current current =
        if not (is_empty (manual_of current.discrepancies))
        then halt (undecided (manual_of current.discrepancies))
        else if is_empty_plan current
        then conclude current
        else (do λ b. or_rollback server (λ v. v) (execute_plan current b); conclude current)

    unfoldable pub is_stale : Option ReconciliationPlan → ReconciliationPlan → Bool
    unfolding same_signature
    is_stale none current = false
    is_stale (some p) current = not (same_signature p.discrepancies current.discrepancies)

    -- the baseline to plan with: the plan's own, which a baseline that is given may not contradict
    unfoldable pub chosen_baseline :
        Option ReconciliationPlan → Option String → Act B (Option String)
    unfolding same_default
    chosen_baseline none baseline = conclude baseline
    chosen_baseline (some p) baseline =
        if is_some baseline && not (same_default baseline p.baseline)
        then halt other_baseline
        else conclude p.baseline

    -- `apply` with a plan that has been made again
    unfoldable pub apply_fresh :
        Option ReconciliationPlan → ReconciliationPlan → Act B ReconciliationPlan
    unfolding is_stale apply_current
    apply_fresh existing current =
        if is_stale existing current then halt stale else apply_current current

    module _ {D : Type 0} (lower : String → String) (fromisoformat : String → Option D)
        (isoformat : D → String) where
      -- the baseline that is handed on to `plan`
      unfoldable pub baseline_value : Option String → Baseline D
      baseline_value none = no_baseline
      baseline_value (some s) = of_text s

      -- `apply`
      unfoldable pub apply_plan : Option ReconciliationPlan → Baseline D → Act B ReconciliationPlan
      unfolding require_transactional normalise_baseline chosen_baseline baseline_value plan
          apply_fresh
      apply_plan existing value = do
        require_transactional server
        given ← normalise_baseline lower fromisoformat isoformat value
        baseline ← chosen_baseline existing given
        current ←
            plan server patterns shipped hex lower fromisoformat isoformat (baseline_value baseline)
        apply_fresh existing current
