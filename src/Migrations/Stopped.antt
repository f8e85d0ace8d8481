-- ===== src/Migrations/Stopped.antt =====
-- A migration that what is no `Exception` stops, between its statements and its row.
use tokenweir.Prelude.{String, false, ◌≡◌, refl, ◌∙◌, subst, none, List, [], ◌∷◌, ◌++◌}
use tokenweir.Python.{base_exception, Outcome, returned, raised}
use tokenweir.Migrations.Shipped.{Migration}
use tokenweir.Migrations.Database.{Ended, failed, Database}
use tokenweir.Migrations.Runner.{unlock, after_release}
use tokenweir.Migrations.Apply.{undo, publish_role, transact, migrate_one}
use tokenweir.Migrations.Laws.{Effect, ran, Ready, Extends, Commits, IsTransactional}

module _ {B : Type 0} (db : Database B) (durable open_ : B → List Effect)
    (law : IsTransactional db durable open_) (sha256 : String → String) where
  extended :
      (b b₁ : B) (e : Effect) (r : Outcome (Unit {0}) × B)
      → Extends db durable open_ b e r
      → r ≡ (returned tt, b₁)
      → (db.autocommit b₁ ≡ false) × (durable b₁ ≡ durable b) × (open_ b₁ ≡ open_ b ++ e ∷ [])
  extended b b₁ e r x p = subst (Extends db durable open_ b e) p x

  committed :
      (b b₁ : B) (r : Outcome (Unit {0}) × B)
      → Commits db durable open_ b r
      → r ≡ (returned tt, b₁)
      → durable b₁ ≡ durable b ++ open_ b
  committed b b₁ r x p = (subst (Commits db durable open_ b) p x).1

  -- the end of the block, if its calls return
  unlock_returned :
      (e : Ended (Unit {0})) (b₁ b₂ b₃ : B)
      → db.release_lock b₁ ≡ (returned tt, b₂)
      → db.commit b₂ ≡ (returned tt, b₃)
      → unlock db (e, b₁) ≡ (e, b₃)
  unfolding unlock after_release
  unlock_returned e b₁ b₂ b₃ p q = rw p (rw q refl)

  migrate_one_stopped :
      (m : Migration) (b b₁ : B)
      → db.execute m.sql b ≡ (returned tt, b₁)
      → db.insert_version m.version m.label (sha256 m.sql) b₁ ≡ (raised base_exception, b₁)
      → migrate_one db sha256 none m b ≡ (failed base_exception, b₁)
  unfolding migrate_one transact publish_role undo
  migrate_one_stopped m b b₁ p q = rw p (rw q refl)

  -- A migration whose statements have run, and whose row is not written because what is no
  -- `Exception` (a KeyboardInterrupt) stops the call before it, is not rolled back: the release of
  -- the advisory lock commits its statements, without the row. The release finds the transaction
  -- as it is, its calls return, and the connection is transactional, without an open
  -- transaction at the start.
  pub migrate_one-unlock :
      (m : Migration) (b b₁ b₂ b₃ : B)
      → Ready db durable open_ b
      → db.execute m.sql b ≡ (returned tt, b₁)
      → db.insert_version m.version m.label (sha256 m.sql) b₁ ≡ (raised base_exception, b₁)
      → db.release_lock b₁ ≡ (returned tt, b₂)
      → db.autocommit b₂ ≡ db.autocommit b₁
      → (durable b₂ ≡ durable b₁) × (open_ b₂ ≡ open_ b₁)
      → db.commit b₂ ≡ (returned tt, b₃)
      → durable (unlock db (migrate_one db sha256 none m b)).1 ≡ durable b ++ ran m.sql ∷ []
  migrate_one-unlock m b b₁ b₂ b₃ h p q l a k c =
      let x = extended b b₁ _ _ (law.execute m.sql b h.0) p in
      let y = committed b₂ b₃ _ (law.commit b₂ (a ∙ x.0)) c in
      rw (migrate_one_stopped m b b₁ p q) (
        rw (unlock_returned (failed base_exception) b₁ b₂ b₃ l c)
          (y ∙ cc (k.0, k.1, x.1, x.2, h.1)))
