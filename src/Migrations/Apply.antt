-- ===== src/Migrations/Apply.antt =====
-- migrations/__init__.py: `apply` and `status`.
use Prim.Native.Char.{Char}
use tokenweir.Prelude.{
  ℕ, String, Bool, false, is_empty, Option, none, some, List, [], ◌∷◌, map, if◌then◌else◌, ◌==◌,
}
use tokenweir.Python.{exception, base_exception}
use tokenweir.Migrations.Comments.{Destructive, destructive_statements}
use tokenweir.Migrations.Shipped.{Migration, FileEntry, discover}
use tokenweir.Migrations.Database.{
  autocommit_mode, destructive, Ended, done, refused, failed, M, ◌>>=◌, ◌>>◌, give, decline, ended,
  Database, next,
}
use tokenweir.Migrations.Runner.{
  shipped_of, with_lock, applied_versions, check_applied, pending, not_applied, sorted,
}

-- `by_version[v]`, where it is there
unfoldable pub by_version : ℕ → List Migration → List Migration
by_version v [] = []
by_version v (m ∷ ms) = let rest = by_version v ms in if m.version == v then m ∷ [] else rest

-- `tuple(by_version[v] for v in sorted(known) if v in by_version)`
unfoldable pub applied_migrations : List ℕ → List Migration → List Migration
unfolding by_version
applied_migrations [] shipped = []
applied_migrations (v ∷ vs) shipped = elim (by_version v shipped) [
  | [] ↦ applied_migrations vs shipped
  | m ∷ _ ↦ m ∷ applied_migrations vs shipped
]

module _ (is_word is_space : Char → Bool) where
  -- the migrations with destructive statements
  unfoldable pub offenders : List Migration → List (ℕ × List Destructive)
  unfolding destructive_statements
  offenders [] = []
  offenders (m ∷ ms) =
      let words = destructive_statements is_word is_space m.sql in
      let rest = offenders ms in if is_empty words then rest else (m.version, words) ∷ rest

  -- the check of `apply` on what is outstanding
  unfoldable pub review : {B : Type 0} → Bool → List Migration → M B (Unit {0})
  unfolding offenders
  review allow_destructive ms =
      if allow_destructive
      then give tt
      else if is_empty (offenders ms)
      then give tt
      else decline (destructive (offenders ms))

module _ {B : Type 0} (db : Database B) (sha256 : String → String) where
  -- `except Exception: connection.rollback(); raise`
  unfoldable pub undo : Ended (Unit {0}) × B → Ended (Unit {0}) × B
  undo (done _, b) = (done tt, b)
  undo (refused r, b) = next (λ _ b. (refused r, b)) (ended (db.rollback b))
  undo (failed exception, b) = next (λ _ b. (failed exception, b)) (ended (db.rollback b))
  undo (failed base_exception, b) = (failed base_exception, b)

  -- the role that the grants of a migration read
  unfoldable pub publish_role : Option String → M B (Unit {0})
  publish_role none = give tt
  publish_role (some role) = λ b. ended (db.set_reader_role role b)

  -- the `try` block: one migration with its row, and the commit
  unfoldable pub transact : Option String → Migration → M B (Unit {0})
  unfolding publish_role
  transact reader_role m = do
    publish_role reader_role
    λ b. ended (db.execute m.sql b)
    λ b. ended (db.insert_version m.version m.label (sha256 m.sql) b)
    λ b. ended (db.commit b)

  unfoldable pub migrate_one : Option String → Migration → M B (Unit {0})
  unfolding transact undo
  migrate_one reader_role m b = undo (transact reader_role m b)

  -- the loop of `apply`, with what it has applied
  unfoldable pub migrate_all : Option String → List Migration → M B (List Migration)
  unfolding migrate_one
  migrate_all reader_role [] = give []
  migrate_all reader_role (m ∷ ms) = do
    migrate_one reader_role m
    applied ← migrate_all reader_role ms
    give (m ∷ applied)

  module _ (digit : Char → Option ℕ) (is_word is_space : Char → Bool)
      (entries : List FileEntry) where
    -- the block of `apply` in the lock
    unfoldable pub apply_locked : Option String → Bool → Bool → M B (List Migration)
    unfolding pending review migrate_all
    apply_locked reader_role allow_destructive verify_checksums = do
      outstanding ← pending db digit sha256 entries verify_checksums false
      review is_word is_space allow_destructive outstanding
      migrate_all reader_role outstanding

    -- `apply`
    unfoldable pub apply : Option String → Bool → Bool → Bool → M B (List Migration)
    unfolding apply_locked with_lock
    apply reader_role allow_destructive advisory_lock verify_checksums b =
        if db.autocommit b
        then (refused autocommit_mode, b)
        else with_lock db advisory_lock
            (apply_locked reader_role allow_destructive verify_checksums) b

    -- `status`
    unfoldable pub status : Bool → Bool → M B (List Migration × List Migration)
    unfolding shipped_of discover applied_versions check_applied applied_migrations not_applied
        sorted
    status verify_checksums advisory_lock = do
      shipped ← shipped_of (discover digit entries)
      known ← applied_versions db advisory_lock
      check_applied sha256 verify_checksums known shipped
      give (
        applied_migrations (sorted (map (λ row. row.0) known)) shipped,
        not_applied known shipped,
      )
