-- ===== src/Migrations/Laws.antt =====
-- What is relied on of a connection: its transactions, in terms of the effects of migrations.
use tokenweir.Prelude.{ℕ, String, false, ◌≡◌, ◌≢◌, ◌⊎◌, List, [], ◌∷◌, ◌++◌}
use tokenweir.Python.{base_exception, Outcome, returned, raised}
use tokenweir.Migrations.Database.{Database}

-- What a migration does to the database: its statements have run, and its row is there.
pub data Effect : Type 0 where
  ran : String → Effect
  recorded : ℕ → String → String → Effect

module _ {B : Type 0} (db : Database B) (durable open_ : B → List Effect) where
  -- No autocommit, and a transaction without effects.
  abbrev pub Ready : B → Type 0
  Ready b = (db.autocommit b ≡ false) × (open_ b ≡ [])

  -- a call that has no effect of its own
  abbrev pub Still {ℓ} : {A : Type ℓ} → B → A × B → Type 0
  Still b r = Ready r.1 × (durable r.1 ≡ durable b)

  -- a statement with one effect, in the transaction if it returns
  abbrev pub Extends : B → Effect → Outcome (Unit {0}) × B → Type 0
  Extends b e (returned _, b') =
      (db.autocommit b' ≡ false) × (durable b' ≡ durable b) × (open_ b' ≡ open_ b ++ e ∷ [])
  Extends b e (raised _, b') = (db.autocommit b' ≡ false) × (durable b' ≡ durable b)

  -- a commit: the effects become durable, all or none if it raises
  abbrev pub Commits : B → Outcome (Unit {0}) × B → Type 0
  Commits b (returned _, b') =
      (db.autocommit b' ≡ false) × (durable b' ≡ durable b ++ open_ b) × (open_ b' ≡ [])
  Commits b (raised _, b') =
      (db.autocommit b' ≡ false) × ((durable b' ≡ durable b) ⊎ (durable b' ≡ durable b ++ open_ b))

  -- What is relied on of a connection that is not in autocommit mode.
  pub record IsTransactional : Type 0 where
    pub commit : (b : B) → db.autocommit b ≡ false → Commits b (db.commit b)
    pub commit_empty : (b : B) → Ready b → Still b (db.commit b)
    pub rollback : (b : B) → db.autocommit b ≡ false → Still b (db.rollback b)
    pub acquire_lock : (b : B) → Ready b → Still b (db.acquire_lock b)
    pub release_lock : (b : B) → Ready b → Still b (db.release_lock b)
    pub create_state_table : (b : B) → Ready b → Still b (db.create_state_table b)
    pub state_columns : (b : B) → Ready b → Still b (db.state_columns b)
    pub add_column : (c : String) (b : B) → Ready b → Still b (db.add_column c b)
    pub default_applied_at : (b : B) → Ready b → Still b (db.default_applied_at b)
    pub select_applied : (b : B) → Ready b → Still b (db.select_applied b)
    pub set_reader_role : (r : String) (b : B) → Ready b → Still b (db.set_reader_role r b)
    pub execute :
        (sql : String) (b : B) → db.autocommit b ≡ false → Extends b (ran sql) (db.execute sql b)
    pub insert_version :
        (v : ℕ) (n c : String) (b : B)
        → db.autocommit b ≡ false
        → Extends b (recorded v n c) (db.insert_version v n c b)

  -- No statement of a migration raises what is no `Exception`.
  pub record RaisesExceptions : Type 0 where
    pub set_reader_role : (r : String) (b : B) → (db.set_reader_role r b).0 ≢ raised base_exception
    pub execute : (sql : String) (b : B) → (db.execute sql b).0 ≢ raised base_exception
    pub insert_version :
        (v : ℕ) (n c : String) (b : B) → (db.insert_version v n c b).0 ≢ raised base_exception
    pub commit : (b : B) → (db.commit b).0 ≢ raised base_exception
