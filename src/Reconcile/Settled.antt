-- ===== src/Reconcile/Settled.antt =====
-- reconcile.py: `plan` and its transaction.
use tokenweir.Prelude.{
  String, Bool, true, false, ◌≡◌, refl, ◌∙◌, inl, inr, Option, none, some, List, [], str_eq,
  Bool-cases, if◌then◌else◌,
}
use tokenweir.Python.{Outcome, returned, raised, exception, base_exception}
use tokenweir.Hook.Text.{strip}
use tokenweir.Migrations.Shipped.{Migration, Discovered}
use tokenweir.Reconcile.Report.{ReconciliationPlan}
use tokenweir.Reconcile.Connection.{
  in_autocommit, Halt, Verdict, concluded, halted, broke, Act, ◌>>=◌, followed, conclude, halt,
  verdict, Server,
}
use tokenweir.Reconcile.Catalog.{
  Baseline, no_baseline, of_date, of_text, date_or_halt, normalise_baseline,
}
use tokenweir.Reconcile.Run.{
  Patterns, require_transactional, or_rollback, plan_body, plan_with, plan,
}
use tokenweir.Reconcile.Laws.{Unmoved, IsTransactional}
use tokenweir.Reconcile.Planned.{handled-Unmoved, plan_body-Reads}
use tokenweir.Reconcile.Planning.{Answers, plan_body-Answers}

module _ {B : Type 0} (server : Server B) (durable open_ : B → List String)
    (law : IsTransactional server durable open_) where
  -- no transaction is open, unless an exception that is no `Exception` came through
  abbrev pub Closed : {A : Type 0} → Verdict A × B → Type 0
  Closed (concluded a, b) = open_ b ≡ []
  Closed (halted h, b) = open_ b ≡ []
  Closed (broke exception, b) = open_ b ≡ []
  Closed (broke base_exception, b) = Unit

  -- What begins without an open transaction changes nothing durable, and ends without one.
  pub record Settles {A : Type 0} (m : Act B A) : Type 0 where
    pub ending :
        (b : B)
        → server.autocommit b ≡ false
        → open_ b ≡ []
        → Unmoved server durable open_ b (m b) × Closed (m b)

  pub Settles-conclude : {A : Type 0} (a : A) → Settles (conclude a)
  Settles-conclude a = record { ending = λ b h o. ((h, refl), o) }

  pub Settles-halt : {A : Type 0} (e : Halt) → Settles {A = A} (halt e)
  Settles-halt e = record { ending = λ b h o. ((h, refl), o) }

  followed-Settled :
      {A C : Type 0} (b : B) (k : A → Act B C) (r : Verdict A × B)
      → Unmoved server durable open_ b r × Closed r
      → ((a : A) → Settles (k a))
      → Unmoved server durable open_ b (followed k r) × Closed (followed k r)
  followed-Settled b k (concluded a, b₁) h p =
      let q = (p a).ending b₁ h.0.0 h.1 in ((q.0.0, q.0.1 ∙ h.0.1), q.1)
  followed-Settled b k (halted e, b₁) h p = h
  followed-Settled b k (broke exception, b₁) h p = h
  followed-Settled b k (broke base_exception, b₁) h p = h

  pub Settles-bind :
      {A C : Type 0} (m : Act B A) (k : A → Act B C)
      → Settles m
      → ((a : A) → Settles (k a))
      → Settles (m >>= k)
  Settles-bind m k p q = record { ending = λ b h o. followed-Settled b k (m b) (p.ending b h o) q }

  required-Closed :
      (t : Bool) (b : B)
      → open_ b ≡ []
      → Closed {A = Unit {0}} (if t then halted in_autocommit else concluded tt, b)
  required-Closed true b o = o
  required-Closed false b o = o

  pub require_transactional-Settles : Settles (require_transactional server)
  unfolding require_transactional
  require_transactional-Settles = record {
    ending = λ b h o. ((h, refl), required-Closed (server.autocommit b) b o);
  }

  module _ {D : Type 0} (lower : String → String) (fromisoformat : String → Option D)
      (isoformat : D → String) where
    date_or_halt-Settles :
        (date : Option D) → Settles (date_or_halt lower fromisoformat isoformat date)
    unfolding date_or_halt
    date_or_halt-Settles none = Settles-halt _
    date_or_halt-Settles (some d) = Settles-conclude _

    pub normalise_baseline-Settles :
        (value : Baseline D) → Settles (normalise_baseline lower fromisoformat isoformat value)
    unfolding normalise_baseline
    normalise_baseline-Settles no_baseline = Settles-conclude _
    normalise_baseline-Settles (of_date d) = Settles-conclude _
    normalise_baseline-Settles (of_text value) =
        elim (Bool-cases (str_eq (lower (strip value)) "-infinity")) [
          | inl e ↦ rw e (Settles-conclude _)
          | inr e ↦ elim (Bool-cases (str_eq (lower (strip value)) "infinity")) [
            | inl g ↦ rw e (rw g (Settles-halt _))
            | inr g ↦ rw e (rw g (date_or_halt-Settles (fromisoformat (strip value))))
          ]
        ]

  undone-Closed :
      {A : Type 0} (v : Verdict A) (r : Outcome (Unit {0}) × B)
      → open_ r.1 ≡ []
      → Closed (followed (λ _ b'. (v, b')) (verdict r))
  undone-Closed (concluded a) (returned u, b) o = o
  undone-Closed (halted h) (returned u, b) o = o
  undone-Closed (broke exception) (returned u, b) o = o
  undone-Closed (broke base_exception) (returned u, b) o = tt
  undone-Closed v (raised exception, b) o = o
  undone-Closed v (raised base_exception, b) o = tt

  module _ (patterns : Patterns) (shipped : Discovered (List Migration)) (hex : String) where
    handled-Closed :
        (b : B) (r : Verdict ReconciliationPlan × B)
        → server.autocommit r.1 ≡ false
        → Answers server durable open_ law patterns shipped hex b r
        → Closed (or_rollback server (λ v. v) r)
    unfolding or_rollback
    handled-Closed b (concluded p, b₁) a h = h.7
    handled-Closed b (halted x, b₁) a h = undone-Closed _ (server.rollback b₁) (law.rollback b₁ a).1
    handled-Closed b (broke exception, b₁) a h =
        undone-Closed _ (server.rollback b₁) (law.rollback b₁ a).1
    handled-Closed b (broke base_exception, b₁) a h = tt

    pub plan_with-Settles :
        (baseline : Option String) → Settles (plan_with server patterns shipped hex baseline)
    unfolding plan_with
    plan_with-Settles baseline = record {
      ending = λ b h o.
          let read =
            (plan_body-Reads server durable open_ law patterns shipped hex baseline).ending b h in
          (
            handled-Unmoved server durable open_ law (λ v. v) b _ read,
            handled-Closed b (plan_body server patterns shipped hex baseline b) read.0
                (plan_body-Answers server durable open_ law patterns shipped hex baseline b h),
          );
    }

    module _ {D : Type 0} (lower : String → String) (fromisoformat : String → Option D)
        (isoformat : D → String) where
      pub plan-Settles :
          (value : Baseline D)
          → Settles (plan server patterns shipped hex lower fromisoformat isoformat value)
      unfolding plan
      plan-Settles value =
          Settles-bind (require_transactional server) _ require_transactional-Settles λ u.
            Settles-bind (normalise_baseline lower fromisoformat isoformat value) _
              (normalise_baseline-Settles lower fromisoformat isoformat value)
              λ baseline. plan_with-Settles baseline

      -- `plan` changes nothing durable, whatever it answers, and leaves no transaction open, unless
      -- an exception that is no `Exception` came through. The connection is transactional
      -- (`IsTransactional`), is not in autocommit mode, and has no open transaction at the start.
      pub plan-Unmoved :
          (value : Baseline D) (b : B)
          → server.autocommit b ≡ false
          → open_ b ≡ []
          → Unmoved server durable open_ b
              (plan server patterns shipped hex lower fromisoformat isoformat value b)
            × Closed (plan server patterns shipped hex lower fromisoformat isoformat value b)
      plan-Unmoved value b a o = (plan-Settles value).ending b a o
