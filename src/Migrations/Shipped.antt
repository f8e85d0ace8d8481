-- ===== src/Migrations/Shipped.antt =====
-- migrations/__init__.py: `Migration` and `discover`, over the directory's entries in the order of
-- their names; `\d` and `int` read digits by Python's table, `sha256` is hashlib's.
use Prim.Native.Char.{Char, code}
use Prim.Native.String as T
use tokenweir.Prelude.{
  ℕ, suc, ◌+◌, ◌*◌, String, Bool, true, false, ◌&&◌, ◌||◌, Option, none, some, List, [], ◌∷◌, any,
  leb, ◌==◌, str_eq, if◌then◌else◌,
}

pub record Migration : Type 0 where
  pub version : ℕ
  pub label : String
  pub sql : String

-- A file of the directory.
pub record FileEntry : Type 0 where
  pub file_name : String
  pub content : String

-- Why `discover` refuses: the MigrationError of each check.
pub data Unshippable : Type 0 where
  bad_filename : String → Unshippable
  no_migrations duplicate_versions not_contiguous : Unshippable

pub data Discovered (A : Type 0) : Type 0 where
  found : A → Discovered A
  unshippable : Unshippable → Discovered A

-- the characters of `[a-z0-9_]`
unfoldable pub is_name_character : Char → Bool
is_name_character c =
    let n = code c in (leb b'a' n && leb n b'z') || (leb b'0' n && leb n b'9') || n == b'_'

-- `[a-z0-9_]+\.sql`, the name read so far before it; `$` stands at the end of the text
unfoldable pub match_name : Bool → String → Option String
unfolding is_name_character
match_name started T.[] = none
match_name started (T.◌∷◌ c s) =
    let rest = match_name true s in
    if is_name_character c
    then (elim rest [ none ↦ none | some name ↦ some (T.◌∷◌ c name) ])
    else if started && str_eq (T.◌∷◌ c s) ".sql"
    then some T.[]
    else none

-- `endswith(".sql")`
unfoldable pub is_sql : String → Bool
is_sql T.[] = false
is_sql (T.◌∷◌ c s) = str_eq (T.◌∷◌ c s) ".sql" || is_sql s

module _ (digit : Char → Option ℕ) where
  -- three digits, an underscore and the name: `int(match.group("version"))`
  unfoldable pub match_digits : Option ℕ → Option ℕ → Option ℕ → String → Option (ℕ × String)
  unfolding match_name
  match_digits (some a) (some b) (some c) (T.◌∷◌ u s) =
      if code u == b'_'
      then (elim (match_name false s) [
        | none ↦ none
        | some name ↦ some (100 * a + 10 * b + c, name)
      ])
      else none
  match_digits _ _ _ _ = none

  -- `_FILENAME_RE.match`
  unfoldable pub match_filename : String → Option (ℕ × String)
  unfolding match_digits
  match_filename (T.◌∷◌ a (T.◌∷◌ b (T.◌∷◌ c s))) = match_digits (digit a) (digit b) (digit c) s
  match_filename _ = none

  unfoldable pub migration_of : FileEntry → Option (ℕ × String) → Discovered Migration
  migration_of e none = unshippable (bad_filename e.file_name)
  migration_of e (some (version, name)) =
      found (record { version = version; label = name; sql = e.content })

  unfoldable pub cons_found :
      Discovered Migration → Discovered (List Migration) → Discovered (List Migration)
  cons_found (unshippable e) rest = unshippable e
  cons_found (found m) (unshippable e) = unshippable e
  cons_found (found m) (found ms) = found (m ∷ ms)

  -- the loop of `discover`
  unfoldable pub read_entries : List FileEntry → Discovered (List Migration)
  unfolding is_sql match_filename migration_of cons_found
  read_entries [] = found []
  read_entries (e ∷ es) =
      let rest = read_entries es in
      if is_sql e.file_name
      then cons_found (migration_of e (match_filename e.file_name)) rest
      else rest

-- `versions.count(v) > 1` for some v
unfoldable pub has_duplicates : List Migration → Bool
has_duplicates [] = false
has_duplicates (m ∷ ms) = any (λ n. n.version == m.version) ms || has_duplicates ms

-- `versions == list(range(n, n + len(versions)))`
unfoldable pub counts_from : ℕ → List Migration → Bool
counts_from n [] = true
counts_from n (m ∷ ms) = m.version == n && counts_from (suc n) ms

-- the checks of `discover` on what it has read
unfoldable pub checked : Discovered (List Migration) → Discovered (List Migration)
unfolding has_duplicates counts_from
checked (unshippable e) = unshippable e
checked (found []) = unshippable no_migrations
checked (found (m ∷ ms)) =
    if has_duplicates (m ∷ ms)
    then unshippable duplicate_versions
    else if counts_from 1 (m ∷ ms)
    then found (m ∷ ms)
    else unshippable not_contiguous

-- `discover`
unfoldable pub discover : (Char → Option ℕ) → List FileEntry → Discovered (List Migration)
unfolding read_entries checked
discover digit entries = checked (read_entries digit entries)
