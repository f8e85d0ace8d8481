-- ===== src/Migrations/Reading.antt =====
-- The reading calls of the runner have no effect of a migration.
use Prim.Native.Char.{Char}
use tokenweir.Prelude.{
  ℕ, String, Bool, true, false, refl, ◌∙◌, Option, List, [], arith, contains, if◌then◌else◌,
}
use tokenweir.Python.{Outcome, returned, raised}
use tokenweir.Migrations.Shipped.{Migration, FileEntry, Discovered, found, unshippable, discover}
use tokenweir.Migrations.Database.{
  Refusal, not_shippable, Ended, done, refused, failed, M, give, ended, Database, next,
}
use tokenweir.Migrations.Runner.{
  Applied, shipped_of, with_lock, ensure_column, ensure_state_table, read_applied, applied_versions,
  check_applied, pending, not_applied, dict_of,
}
use tokenweir.Migrations.Laws.{Effect, Ready, Still, IsTransactional}

module _ {B : Type 0} (db : Database B) (durable open_ : B → List Effect)
    (law : IsTransactional db durable open_) where
  -- An action without effects of a migration.
  pub record Calm {A : Type 0} (m : M B A) : Type 0 where
    pub still : (b : B) → Ready db durable open_ b → Still db durable open_ b (m b)

  ended-Still :
      {A : Type 0} (b : B) (r : Outcome A × B)
      → Still db durable open_ b r
      → Still db durable open_ b (ended r)
  ended-Still b (returned a, b') h = h
  ended-Still b (raised e, b') h = h

  pub Calm-call :
      {A : Type 0} (m : B → Outcome A × B)
      → ((b : B) → Ready db durable open_ b → Still db durable open_ b (m b))
      → Calm (λ b. ended (m b))
  Calm-call m h = record { still = λ b r. ended-Still b (m b) (h b r) }

  pub Calm-give : {A : Type 0} (a : A) → Calm (λ b. (done a, b))
  Calm-give a = record { still = λ b r. (r, refl) }

  pub Calm-decline : {A : Type 0} (r : Refusal) → Calm {A = A} (λ b. (refused r, b))
  Calm-decline e = record { still = λ b r. (r, refl) }

  next-Still :
      {A C : Type 0} (b : B) (f : A → M B C) (r : Ended A × B)
      → Still db durable open_ b r
      → ((a : A) → Calm (f a))
      → Still db durable open_ b (next f r)
  next-Still b f (done a, b') h k = let s = (k a).still b' h.0 in (s.0, s.1 ∙ h.1)
  next-Still b f (refused r, b') h k = h
  next-Still b f (failed e, b') h k = h

  pub Calm-bind :
      {A C : Type 0} (m : M B A) (f : A → M B C)
      → Calm m
      → ((a : A) → Calm (f a))
      → Calm (λ b. next f (m b))
  Calm-bind m f p q = record { still = λ b r. next-Still b f (m b) (p.still b r) q }

  Calm-if :
      {A : Type 0} (test : Bool) (m n : M B A) → Calm m → Calm n → Calm (if test then m else n)
  Calm-if true m n p q = p
  Calm-if false m n p q = q

  ensure_column-Calm :
      (present : List String) (column : String) → Calm (ensure_column db present column)
  unfolding ensure_column
  ensure_column-Calm present column =
      Calm-if (contains column present) (give tt) _ (Calm-give tt)
        (Calm-call (db.add_column column) (law.add_column column))

  ensure_state_table-Calm : Calm (ensure_state_table db)
  unfolding ensure_state_table
  ensure_state_table-Calm =
      Calm-bind _ _ (Calm-call db.create_state_table law.create_state_table) λ _.
        Calm-bind _ _ (Calm-call db.state_columns law.state_columns) λ present.
          Calm-bind _ _ (ensure_column-Calm present "name") λ _.
            Calm-bind _ _ (ensure_column-Calm present "checksum") λ _.
              Calm-bind _ _ (ensure_column-Calm present "applied_at") λ _.
                Calm-if (contains "applied_at" present) (give tt) _ (Calm-give tt)
                  (Calm-call db.default_applied_at law.default_applied_at)

  read_applied-Calm : Calm (read_applied db)
  unfolding read_applied
  read_applied-Calm = Calm-bind _ _ ensure_state_table-Calm λ _.
      Calm-bind _ _ (Calm-call db.select_applied law.select_applied) λ rows.
        Calm-bind _ _ (Calm-call db.commit law.commit_empty) λ _. Calm-give (dict_of [] rows)

  check_applied-Calm :
      (sha256 : String → String) (verify : Bool) (known : Applied) (shipped : List Migration)
      → Calm (check_applied sha256 verify known shipped)
  unfolding check_applied
  check_applied-Calm sha256 verify known shipped = record { still = λ b h. ground arith }

  shipped_of-Calm : (d : Discovered (List Migration)) → Calm (shipped_of d)
  unfolding shipped_of
  shipped_of-Calm (found ms) = Calm-give ms
  shipped_of-Calm (unshippable e) = Calm-decline (not_shippable e)

  -- `pending` reads, in the lock of the caller.
  pub pending-Calm :
      (digit : Char → Option ℕ) (sha256 : String → String) (entries : List FileEntry)
      (verify : Bool)
      → Calm (pending db digit sha256 entries verify false)
  unfolding pending applied_versions with_lock
  pending-Calm digit sha256 entries verify =
      Calm-bind _ _ (shipped_of-Calm (discover digit entries)) λ shipped.
        Calm-bind _ _ read_applied-Calm λ known.
          Calm-bind _ _ (check_applied-Calm sha256 verify known shipped)
            λ _. Calm-give (not_applied known shipped)
