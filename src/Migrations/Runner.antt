-- ===== src/Migrations/Runner.antt =====
-- migrations/__init__.py: `applied_versions`, `_check_applied`, `pending`, `_advisory_lock`, `apply`
-- and `status`. Log lines are left out.
use Prim.Native.Char.{Char}
use tokenweir.Prelude.{
  ℕ, String, Bool, false, ◌&&◌, not, is_some, is_empty, Option, none, some, List, [], ◌∷◌, leb,
  ◌==◌, str_eq, contains, any, if◌then◌else◌,
}
use tokenweir.Python.{exception, base_exception}
use tokenweir.Migrations.Shipped.{Migration, FileEntry, Discovered, found, unshippable, discover}
use tokenweir.Migrations.Database.{
  not_shippable, unknown_applied, edited, Ended, done, refused, failed, M, ◌>>=◌, ◌>>◌, give,
  decline, ended, Database, next,
}

-- `{version: checksum}`
abbrev pub Applied : Type 0
Applied = List (ℕ × Option String)

unfoldable pub lookup_version : ℕ → Applied → Option (Option String)
lookup_version v [] = none
lookup_version v ((w, c) ∷ rest) = if w == v then some c else lookup_version v rest

unfoldable pub store_version : ℕ → Option String → Applied → Applied
store_version v c [] = (v, c) ∷ []
store_version v c ((w, d) ∷ rest) =
    let stored = store_version v c rest in if w == v then (v, c) ∷ rest else (w, d) ∷ stored

-- `{int(row[0]): row[1] for row in rows}`, the rows taken in order
unfoldable pub dict_of : Applied → List (ℕ × Option String) → Applied
unfolding store_version
dict_of applied [] = applied
dict_of applied ((v, c) ∷ rows) = dict_of (store_version v c applied) rows

unfoldable pub is_applied : Applied → Migration → Bool
unfolding lookup_version
is_applied applied m = is_some (lookup_version m.version applied)

unfoldable pub ships : ℕ → List Migration → Bool
ships v shipped = any (λ m. m.version == v) shipped

-- `sorted`, of versions
unfoldable pub insert_sorted : ℕ → List ℕ → List ℕ
insert_sorted v [] = v ∷ []
insert_sorted v (w ∷ ws) = let rest = insert_sorted v ws in if leb v w then v ∷ w ∷ ws else w ∷ rest

unfoldable pub sorted : List ℕ → List ℕ
unfolding insert_sorted
sorted [] = []
sorted (v ∷ vs) = insert_sorted v (sorted vs)

-- `set(applied) - set(by_version)`
unfoldable pub unknown_versions : Applied → List Migration → List ℕ
unfolding ships
unknown_versions [] shipped = []
unknown_versions ((v, c) ∷ rest) shipped =
    let more = unknown_versions rest shipped in if ships v shipped then more else v ∷ more

-- `m for m in shipped if m.version not in applied`
unfoldable pub not_applied : Applied → List Migration → List Migration
unfolding is_applied
not_applied applied [] = []
not_applied applied (m ∷ ms) =
    let rest = not_applied applied ms in if is_applied applied m then rest else m ∷ rest

module _ (sha256 : String → String) where
  -- the recorded checksum is there and is not that of the shipped file
  unfoldable pub is_edited : Option (Option String) → Migration → Bool
  is_edited (some (some checksum)) m = not (str_eq checksum (sha256 m.sql))
  is_edited _ m = false

  -- the shipped versions whose checksum has changed, in ascending order
  unfoldable pub edited_versions : Applied → List Migration → List ℕ
  unfolding is_edited lookup_version
  edited_versions applied [] = []
  edited_versions applied (m ∷ ms) =
      let rest = edited_versions applied ms in
      if is_edited (lookup_version m.version applied) m then m.version ∷ rest else rest

  -- `_check_applied`
  unfoldable pub check_applied : {B : Type 0} → Bool → Applied → List Migration → M B (Unit {0})
  unfolding unknown_versions edited_versions sorted
  check_applied verify_checksums applied shipped =
      if not (is_empty (unknown_versions applied shipped))
      then decline (unknown_applied (sorted (unknown_versions applied shipped)))
      else if verify_checksums && not (is_empty (edited_versions applied shipped))
      then decline (edited (edited_versions applied shipped))
      else give tt

-- `discover()` at the head of a call
unfoldable pub shipped_of : {B : Type 0} → Discovered (List Migration) → M B (List Migration)
shipped_of (found ms) = give ms
shipped_of (unshippable e) = decline (not_shippable e)

module _ {B : Type 0} (db : Database B) where
  -- the release of the lock, whose `Exception` is swallowed; what is left of the block's end
  unfoldable pub after_release : {A : Type 0} → Ended A → Ended (Unit {0}) × B → Ended A × B
  after_release e (done _, b) = (e, b)
  after_release e (refused r, b) = (e, b)
  after_release e (failed exception, b) = (e, b)
  after_release e (failed base_exception, b) = (failed base_exception, b)

  -- the `finally` of `_advisory_lock`
  unfoldable pub unlock : {A : Type 0} → Ended A × B → Ended A × B
  unfolding after_release
  unlock (e, b) = after_release e (next (λ _ b. ended (db.commit b)) (ended (db.release_lock b)))

  -- `with _advisory_lock(connection, True)`: the block, in the lock
  unfoldable pub locked : {A : Type 0} → M B A → M B A
  unfolding unlock
  locked body = do λ b. ended (db.acquire_lock b); λ b. ended (db.commit b); λ b. unlock (body b)

  -- `with _advisory_lock(connection, enabled)`
  unfoldable pub with_lock : {A : Type 0} → Bool → M B A → M B A
  unfolding locked
  with_lock enabled body = if enabled then locked body else body

  -- one column that `_ensure_state_table` wants
  unfoldable pub ensure_column : List String → String → M B (Unit {0})
  ensure_column present column =
      if contains column present then give tt else (λ b. ended (db.add_column column b))

  -- `_ensure_state_table`
  unfoldable pub ensure_state_table : M B (Unit {0})
  unfolding ensure_column
  ensure_state_table = do
    λ b. ended (db.create_state_table b)
    present ← λ b. ended (db.state_columns b)
    ensure_column present "name"
    ensure_column present "checksum"
    ensure_column present "applied_at"
    if contains "applied_at" present then give tt else (λ b. ended (db.default_applied_at b))

  -- the block of `applied_versions`
  unfoldable pub read_applied : M B Applied
  unfolding ensure_state_table dict_of
  read_applied = do
    ensure_state_table
    rows ← λ b. ended (db.select_applied b)
    λ b. ended (db.commit b)
    give (dict_of [] rows)

  -- `applied_versions`
  unfoldable pub applied_versions : Bool → M B Applied
  unfolding with_lock read_applied
  applied_versions advisory_lock = with_lock advisory_lock read_applied

  module _ (digit : Char → Option ℕ) (sha256 : String → String) (entries : List FileEntry) where
    -- `pending`
    unfoldable pub pending : Bool → Bool → M B (List Migration)
    unfolding shipped_of discover applied_versions check_applied not_applied
    pending verify_checksums advisory_lock = do
      shipped ← shipped_of (discover digit entries)
      applied ← applied_versions advisory_lock
      check_applied sha256 verify_checksums applied shipped
      give (not_applied applied shipped)
