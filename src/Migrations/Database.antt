-- ===== src/Migrations/Database.antt =====
-- migrations/__init__.py: the connection that the runner is given, and calls of it in sequence.
use tokenweir.Prelude.{ℕ, String, Bool, Option, List}
use tokenweir.Python.{Raised, Outcome, returned, raised}
use tokenweir.Migrations.Shipped.{Unshippable}
use tokenweir.Migrations.Comments.{Destructive}

-- Why the runner refuses: a ValueError of `apply`, or a MigrationError.
pub data Refusal : Type 0 where
  autocommit_mode : Refusal
  not_shippable : Unshippable → Refusal
  unknown_applied : List ℕ → Refusal
  edited : List ℕ → Refusal
  destructive : List (ℕ × List Destructive) → Refusal

-- How a call ends: with a value, a refusal, or what the driver raised.
pub data Ended {ℓ} (A : Type ℓ) : Type ℓ where
  done : A → Ended A
  refused : Refusal → Ended A
  failed : Raised → Ended A

abbrev pub M : Type 0 → Type 0 → Type 0
M B A = B → Ended A × B

-- what follows a call that has ended
abbrev pub next {ℓ} : {B C : Type 0} {A : Type ℓ} → (A → M B C) → Ended A × B → Ended C × B
next f (done a, b) = f a b
next f (refused r, b) = (refused r, b)
next f (failed e, b) = (failed e, b)

infixl 5 ◌>>=◌ ◌>>◌
abbrev pub ◌>>=◌ : {B A C : Type 0} → M B A → (A → M B C) → M B C
◌>>=◌ m f b = next f (m b)

abbrev pub ◌>>◌ : {B C : Type 0} → M B (Unit {0}) → M B C → M B C
m >> k = m >>= λ _. k

abbrev pub give : {B A : Type 0} → A → M B A
give a b = (done a, b)

abbrev pub decline : {B A : Type 0} → Refusal → M B A
decline r b = (refused r, b)

-- a call of the driver
abbrev pub ended : {B A : Type 0} → Outcome A × B → Ended A × B
ended (returned a, b) = (done a, b)
ended (raised e, b) = (failed e, b)

-- A connection of the driver, on a state of its own: its attribute `autocommit`, its transactions, and
-- what its cursors execute.
pub record Database (B : Type 0) : Type 0 where
  pub autocommit : B → Bool
  pub commit : B → Outcome (Unit {0}) × B
  pub rollback : B → Outcome (Unit {0}) × B
  pub acquire_lock : B → Outcome (Unit {0}) × B
  pub release_lock : B → Outcome (Unit {0}) × B
  pub create_state_table : B → Outcome (Unit {0}) × B
  pub state_columns : B → Outcome (List String) × B
  pub add_column : String → B → Outcome (Unit {0}) × B
  pub default_applied_at : B → Outcome (Unit {0}) × B
  pub select_applied : B → Outcome (List (ℕ × Option String)) × B
  pub set_reader_role : String → B → Outcome (Unit {0}) × B
  pub execute : String → B → Outcome (Unit {0}) × B
  pub insert_version : ℕ → String → String → B → Outcome (Unit {0}) × B
