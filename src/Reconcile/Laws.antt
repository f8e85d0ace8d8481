-- ===== src/Reconcile/Laws.antt =====
-- What is relied on of a connection: its transactions, in terms of the statements that have run.
use tokenweir.Prelude.{ℕ, String, false, ◌≡◌, ◌⊎◌, List, [], ◌∷◌, ◌++◌}
use tokenweir.Python.{Outcome, returned, raised}
use tokenweir.Reconcile.Connection.{Server}

module _ {B : Type 0} (server : Server B) (durable open_ : B → List String) where
  -- no autocommit, and nothing durable since
  abbrev pub Unmoved {ℓ} : {A : Type ℓ} → B → A × B → Type 0
  Unmoved b r = (server.autocommit r.1 ≡ false) × (durable r.1 ≡ durable b)

  -- a statement, which is in the transaction if it returns
  abbrev pub Executes : B → String → Outcome (Unit {0}) × B → Type 0
  Executes b s (returned _, b') =
      (server.autocommit b' ≡ false) × (durable b' ≡ durable b) × (open_ b' ≡ open_ b ++ s ∷ [])
  Executes b s (raised e, b') = (server.autocommit b' ≡ false) × (durable b' ≡ durable b)

  -- a commit: the statements become durable, all or none if it raises
  abbrev pub Commits : B → Outcome (Unit {0}) × B → Type 0
  Commits b (returned _, b') =
      (server.autocommit b' ≡ false) × (durable b' ≡ durable b ++ open_ b) × (open_ b' ≡ [])
  Commits b (raised e, b') =
      (server.autocommit b' ≡ false)
      × ((durable b' ≡ durable b) ⊎ (durable b' ≡ durable b ++ open_ b))

  -- What is relied on of a connection that is not in autocommit mode.
  pub record IsTransactional : Type 0 where
    pub commit : (b : B) → server.autocommit b ≡ false → Commits b (server.commit b)
    pub rollback :
        (b : B)
        → server.autocommit b ≡ false
        → Unmoved b (server.rollback b) × (open_ (server.rollback b).1 ≡ [])
    pub execute :
        (s : String) (b : B) → server.autocommit b ≡ false → Executes b s (server.execute s b)
    pub select_oid :
        (n : String) (b : B) → server.autocommit b ≡ false → Unmoved b (server.select_oid n b)
    pub select_kind :
        (o : ℕ) (b : B) → server.autocommit b ≡ false → Unmoved b (server.select_kind o b)
    pub select_attributes :
        (o : ℕ) (b : B) → server.autocommit b ≡ false → Unmoved b (server.select_attributes o b)
    pub select_key :
        (o : ℕ) (b : B) → server.autocommit b ≡ false → Unmoved b (server.select_key o b)
    pub select_indexes :
        (o : ℕ) (b : B) → server.autocommit b ≡ false → Unmoved b (server.select_indexes o b)
    pub select_constraints :
        (o : ℕ) (b : B) → server.autocommit b ≡ false → Unmoved b (server.select_constraints o b)
    pub select_has_nulls :
        (r c : String) (b : B)
        → server.autocommit b ≡ false
        → Unmoved b (server.select_has_nulls r c b)
    pub select_duplicates :
        (r : String) (b : B)
        → server.autocommit b ≡ false
        → Unmoved b (server.select_duplicates r b)
    pub select_unpriceable :
        (r : String) (b : B)
        → server.autocommit b ≡ false
        → Unmoved b (server.select_unpriceable r b)
    pub select_key_name :
        (r : String) (b : B) → server.autocommit b ≡ false → Unmoved b (server.select_key_name r b)
    pub select_dependents :
        (r : String) (b : B)
        → server.autocommit b ≡ false
        → Unmoved b (server.select_dependents r b)
    pub select_grantees :
        (r : String) (b : B) → server.autocommit b ≡ false → Unmoved b (server.select_grantees r b)
    pub select_violations :
        (r body : String) (b : B)
        → server.autocommit b ≡ false
        → Unmoved b (server.select_violations r body b)
