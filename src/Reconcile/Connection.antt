-- ===== src/Reconcile/Connection.antt =====
-- reconcile.py: the connection, what its catalog answers, and calls of it in sequence.
use tokenweir.Prelude.{ℕ, String, Bool, Option, List, [], ◌∷◌, ◌++◌, if◌then◌else◌}
use tokenweir.Python.{Raised, Outcome, returned, raised}
use tokenweir.Migrations.Shipped.{Unshippable}
use tokenweir.Reconcile.Report.{Discrepancy, Observation}

-- What the module raises itself. `unbuilt` is the ReferenceSchemaError for any exception below it.
pub data Halt : Type 0 where
  in_autocommit : Halt
  infinite_baseline unreadable_baseline other_baseline : Halt
  unshipped : Unshippable → Halt
  unbuilt : Halt
  no_view_migration : String → Halt
  stale : Halt
  undecided : List Discrepancy → Halt

-- How a call ends: with a value, with one of those, or with what the driver raised.
pub data Verdict {ℓ} (A : Type ℓ) : Type ℓ where
  concluded : A → Verdict A
  halted : Halt → Verdict A
  broke : Raised → Verdict A

abbrev pub Act : Type 0 → Type 0 → Type 0
Act B A = B → Verdict A × B

abbrev pub followed {ℓ} :
    {B C : Type 0} {A : Type ℓ} → (A → Act B C) → Verdict A × B → Verdict C × B
followed f (concluded a, b) = f a b
followed f (halted h, b) = (halted h, b)
followed f (broke e, b) = (broke e, b)

infixl 5 ◌>>=◌ ◌>>◌
abbrev pub ◌>>=◌ : {B A C : Type 0} → Act B A → (A → Act B C) → Act B C
◌>>=◌ m f b = followed f (m b)

abbrev pub ◌>>◌ : {B C : Type 0} → Act B (Unit {0}) → Act B C → Act B C
m >> k = m >>= λ _. k

abbrev pub conclude : {B A : Type 0} → A → Act B A
conclude a b = (concluded a, b)

abbrev pub halt : {B A : Type 0} → Halt → Act B A
halt h b = (halted h, b)

-- a call of the driver
abbrev pub verdict : {B A : Type 0} → Outcome A × B → Verdict A × B
verdict (returned a, b) = (concluded a, b)
verdict (raised e, b) = (broke e, b)

abbrev pub call : {B A : Type 0} → (B → Outcome A × B) → Act B A
call f b = verdict (f b)

-- A row of `pg_attribute` as `_snapshot` selects it; an absent text is NULL.
pub record AttributeRow : Type 0 where
  pub attname : String
  pub format_type : String
  pub attnotnull : Bool
  pub default_expr : Option String
  pub attidentity : Option String
  pub attgenerated : Option String

-- A row of `pg_constraint`: its name, its definition, and the names of its columns.
pub record ConstraintRow : Type 0 where
  pub conname : String
  pub definition : String
  pub conkey : Option (List String)

-- A connection, on a state of its own: the attribute `autocommit`, its transactions, the statements it
-- executes, and the rows that it answers to each query of the module.
pub record Server (B : Type 0) : Type 0 where
  pub autocommit : B → Bool
  pub commit : B → Outcome (Unit {0}) × B
  pub rollback : B → Outcome (Unit {0}) × B
  pub execute : String → B → Outcome (Unit {0}) × B
  pub select_oid : String → B → Outcome (Option ℕ) × B
  pub select_kind : ℕ → B → Outcome (String × String) × B
  pub select_attributes : ℕ → B → Outcome (List AttributeRow) × B
  pub select_key : ℕ → B → Outcome (List String) × B
  pub select_indexes : ℕ → B → Outcome (List String) × B
  pub select_constraints : ℕ → B → Outcome (List ConstraintRow) × B
  pub select_has_nulls : String → String → B → Outcome Bool × B
  pub select_duplicates : String → B → Outcome (List String) × B
  pub select_unpriceable : String → B → Outcome (List String) × B
  pub select_key_name : String → B → Outcome (Option String) × B
  pub select_dependents : String → B → Outcome (List String) × B
  pub select_grantees : String → B → Outcome (List String) × B
  pub select_violations : String → String → B → Outcome Bool × B

-- The lists that a comparison appends to.
pub record Found : Type 0 where
  pub discrepancies : List Discrepancy
  pub observations : List Observation

abbrev pub nothing_found : Found
nothing_found = record { discrepancies = []; observations = [] }

abbrev pub found_one : Discrepancy → Found
found_one d = record { discrepancies = d ∷ []; observations = [] }

abbrev pub noticed : Observation → Found
noticed o = record { discrepancies = []; observations = o ∷ [] }

abbrev pub with_more : Found → Found → Found
with_more f g = record {
  discrepancies = f.discrepancies ++ g.discrepancies;
  observations = f.observations ++ g.observations;
}

-- one comparison and then another
unfoldable pub extended_by : {B : Type 0} → Act B Found → Act B Found → Act B Found
extended_by first second = do f ← first; g ← second; conclude (with_more f g)

-- a loop over a list
unfoldable pub for_each : {B A : Type 0} → (A → Act B Found) → List A → Act B Found
unfolding extended_by
for_each body [] = conclude nothing_found
for_each body (a ∷ rest) = extended_by (body a) (for_each body rest)

-- `[x for x in xs if test(x)]`, the test asking the server
unfoldable pub select_where : {B A : Type 0} → (A → Act B Bool) → List A → Act B (List A)
select_where test [] = conclude []
select_where test (a ∷ rest) = do
  holds ← test a
  others ← select_where test rest
  conclude (if holds then a ∷ others else others)
