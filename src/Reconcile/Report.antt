-- ===== src/Reconcile/Report.antt =====
-- reconcile.py: `Resolution`, `Discrepancy`, `Observation` and `ReconciliationPlan`.
use Prim.Native.String as T
use tokenweir.Prelude.{
  String, Bool, true, false, ◌&&◌, Option, List, [], ◌∷◌, ◌++◌, length, is_empty, str_eq, ◌==◌,
  if◌then◌else◌,
}
use tokenweir.Hook.Text.{is_empty_text}
use tokenweir.Orchestrator.Decimal.{decimal}
use tokenweir.Reconcile.Text.{fstring, join, render_statement}

pub data Resolution : Type 0 where
  automatic manual : Resolution

pub record Discrepancy : Type 0 where
  pub relation : String
  pub description : String
  pub resolution : Resolution
  pub statements : List String
  pub remedy : String

pub record Observation : Type 0 where
  pub relation : String
  pub description : String

pub record ReconciliationPlan : Type 0 where
  pub discrepancies : List Discrepancy
  pub observations : List Observation
  pub baseline : Option String

unfoldable pub manual_resolution : Resolution → Bool
manual_resolution automatic = false
manual_resolution manual = true

-- `Discrepancy.is_manual`
unfoldable pub is_manual : Discrepancy → Bool
unfolding manual_resolution
is_manual d = manual_resolution d.resolution

-- `ReconciliationPlan.is_empty`
unfoldable pub is_empty_plan : ReconciliationPlan → Bool
is_empty_plan p = is_empty p.discrepancies

unfoldable pub manual_of : List Discrepancy → List Discrepancy
unfolding is_manual
manual_of [] = []
manual_of (d ∷ ds) = let rest = manual_of ds in if is_manual d then d ∷ rest else rest

unfoldable pub automatic_of : List Discrepancy → List Discrepancy
unfolding is_manual
automatic_of [] = []
automatic_of (d ∷ ds) = let rest = automatic_of ds in if is_manual d then rest else d ∷ rest

unfoldable pub statements_of : List Discrepancy → List String
statements_of [] = []
statements_of (d ∷ ds) = d.statements ++ statements_of ds

-- `ReconciliationPlan.statements`
unfoldable pub statements : ReconciliationPlan → List String
unfolding statements_of
statements p = statements_of p.discrepancies

unfoldable pub same_resolution : Resolution → Resolution → Bool
same_resolution automatic automatic = true
same_resolution manual manual = true
same_resolution _ _ = false

unfoldable pub same_texts : List String → List String → Bool
same_texts [] [] = true
same_texts (s ∷ ss) (t ∷ ts) = str_eq s t && same_texts ss ts
same_texts _ _ = false

-- one entry of `ReconciliationPlan.signature` against another
unfoldable pub same_entry : Discrepancy → Discrepancy → Bool
unfolding same_resolution same_texts
same_entry d e =
    str_eq d.relation e.relation
    && str_eq d.description e.description
    && same_resolution d.resolution e.resolution
    && same_texts d.statements e.statements

-- the signatures of two plans are equal
unfoldable pub same_signature : List Discrepancy → List Discrepancy → Bool
unfolding same_entry
same_signature [] [] = true
same_signature (d ∷ ds) (e ∷ es) = same_entry d e && same_signature ds es
same_signature _ _ = false

unfoldable pub render_all : List String → List String
unfolding render_statement
render_all [] = []
render_all (s ∷ ss) = render_statement s ++ render_all ss

-- the lines of one discrepancy
unfoldable pub discrepancy_lines : Discrepancy → List String
unfolding fstring is_manual render_all is_empty_text
discrepancy_lines d =
    let marker = if is_manual d then "MANUAL   " else "AUTOMATIC" in
    let remedy = if is_empty_text d.remedy then [] else (T.◌++◌ "             -> " d.remedy ∷ []) in
    ""
    ∷ fstring ("  [" ∷ marker ∷ "] " ∷ d.relation ∷ ": " ∷ d.description ∷ [])
    ∷ (remedy ++ render_all d.statements)

unfoldable pub all_lines : List Discrepancy → List String
unfolding discrepancy_lines
all_lines [] = []
all_lines (d ∷ ds) = discrepancy_lines d ++ all_lines ds

unfoldable pub note_lines : List Observation → List String
unfolding fstring
note_lines [] = []
note_lines (o ∷ os) =
    "" ∷ fstring ("  [note]      " ∷ o.relation ∷ ": " ∷ o.description ∷ []) ∷ note_lines os

-- the first lines of `render`
unfoldable pub summary : List Discrepancy → String
unfolding fstring manual_of automatic_of decimal
summary ds =
    let by_hand = length (manual_of ds) in
    fstring (
      decimal (length ds)
      ∷ " discrepanc"
      ∷ (if length ds == 1 then "y" else "ies")
      ∷ ": "
      ∷ decimal (length (automatic_of ds))
      ∷ " tokenweir can resolve, "
      ∷ decimal by_hand
      ∷ " "
      ∷ (if by_hand == 1 then "needs" else "need")
      ∷ " a decision."
      ∷ [])

unfoldable pub plan_lines : List Discrepancy → List String
unfolding summary all_lines
plan_lines [] = "No discrepancies: this database already matches the schema tokenweir owns." ∷ []
plan_lines (d ∷ ds) = summary (d ∷ ds) ∷ all_lines (d ∷ ds)

-- `ReconciliationPlan.render`
unfoldable pub render_plan : ReconciliationPlan → String
unfolding join plan_lines note_lines
render_plan p = join "\n" (plan_lines p.discrepancies ++ note_lines p.observations)
