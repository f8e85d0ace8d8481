-- ===== src/Reconcile/Text.antt =====
-- reconcile.py: `_quote`, `_one_line`, `_render_statement`, `_strip_schema` and `_normalise_sql`.
use Prim.Native.Char.{Char, code}
use Prim.Native.String as T
use tokenweir.Prelude.{
  ℕ, zero, suc, ◌-◌, String, Bool, true, false, ◌&&◌, ◌||◌, Option, none, some, List, [], ◌∷◌, map,
  leb, ◌==◌, if◌then◌else◌,
}
use tokenweir.Hook.Text.{is_space, is_empty_text, strip}

-- an f-string, by its parts
unfoldable pub fstring : List String → String
fstring [] = ""
fstring (s ∷ parts) = T.◌++◌ s (fstring parts)

-- `separator.join(...)`
unfoldable pub join : String → List String → String
join separator [] = ""
join separator (s ∷ []) = s
join separator (s ∷ t ∷ rest) = T.◌++◌ s (T.◌++◌ separator (join separator (t ∷ rest)))

unfoldable pub comma_list : List String → String
unfolding join
comma_list names = join ", " names

-- `', '.join(...) or 'none'`
unfoldable pub comma_or_none : List String → String
unfolding comma_list is_empty_text
comma_or_none names = let s = comma_list names in if is_empty_text s then "none" else s

-- `default or other`
unfoldable pub default_or : String → Option String → String
unfolding is_empty_text
default_or other none = other
default_or other (some s) = if is_empty_text s then other else s

-- `identifier.replace('"', '""') + '"'`
unfoldable pub escape : String → String
escape T.[] = "\""
escape (T.◌∷◌ c s) =
    let rest = escape s in if code c == b'"' then T.◌∷◌ c (T.◌∷◌ c rest) else T.◌∷◌ c rest

-- `_quote`
unfoldable pub quote_identifier : String → String
unfolding escape
quote_identifier identifier = T.◌∷◌ "\"" (escape identifier)

-- a character put before the first of the pieces
unfoldable pub push : Char → List String → List String
push c [] = T.◌∷◌ c T.[] ∷ []
push c (s ∷ rest) = T.◌∷◌ c s ∷ rest

-- what white space separates, the empty pieces included
unfoldable pub pieces : String → List String
unfolding push
pieces T.[] = "" ∷ []
pieces (T.◌∷◌ c s) = let rest = pieces s in if is_space c then "" ∷ rest else push c rest

unfoldable pub keep_texts : List String → List String
unfolding is_empty_text
keep_texts [] = []
keep_texts (s ∷ rest) = let kept = keep_texts rest in if is_empty_text s then kept else s ∷ kept

-- `str.split()`
unfoldable pub words : String → List String
unfolding pieces keep_texts
words s = keep_texts (pieces s)

-- `_normalise_sql`, and what `_one_line` and `_index_shape` begin with
unfoldable pub normalise_sql : String → String
unfolding words join
normalise_sql sql = join " " (words sql)

-- the line boundaries of `str.splitlines`
unfoldable pub is_line_break : Char → Bool
is_line_break c =
    let n = code c in
    (leb 0xa n && leb n 0xd)
    || (leb 0x1c n && leb n 0x1e)
    || n == 0x85
    || n == 0x2028
    || n == 0x2029

unfoldable pub has_prefix : String → String → Bool
has_prefix T.[] s = true
has_prefix (T.◌∷◌ p prefix) T.[] = false
has_prefix (T.◌∷◌ p prefix) (T.◌∷◌ c s) = code p == code c && has_prefix prefix s

-- `str.splitlines`: "\r\n" is one boundary
unfoldable pub splitlines : String → List String
unfolding is_line_break push has_prefix
splitlines T.[] = []
splitlines (T.◌∷◌ c s) =
    let rest = splitlines s in
    if code c == 0xd && has_prefix "\n" s
    then rest
    else if is_line_break c
    then "" ∷ rest
    else push c rest

-- the lines of a statement that are no whole-line comments
unfoldable pub without_comments : List String → List String
unfolding strip has_prefix
without_comments [] = []
without_comments (line ∷ rest) =
    let kept = without_comments rest in if has_prefix "--" (strip line) then kept else line ∷ kept

-- `len`, in characters
unfoldable pub length_of : String → ℕ
length_of T.[] = 0
length_of (T.◌∷◌ c s) = suc (length_of s)

-- `text[:n]`
unfoldable pub first_characters : ℕ → String → String
first_characters zero s = ""
first_characters (suc n) T.[] = ""
first_characters (suc n) (T.◌∷◌ c s) = T.◌∷◌ c (first_characters n s)

unfoldable pub shortened : ℕ → String → String
unfolding length_of first_characters
shortened limit s =
    if leb (length_of s) limit then s else T.◌++◌ (first_characters (limit - 1) s) "…"

-- `_one_line`
unfoldable pub one_line : ℕ → String → String
unfolding normalise_sql join without_comments splitlines shortened
one_line limit statement =
    shortened limit (normalise_sql (join " " (without_comments (splitlines statement))))

-- `strip("\n")`
unfoldable pub strip_start : String → String
strip_start T.[] = ""
strip_start (T.◌∷◌ c s) = let rest = strip_start s in if code c == 0xa then rest else T.◌∷◌ c s

unfoldable pub strip_end : String → String
unfolding is_empty_text
strip_end T.[] = ""
strip_end (T.◌∷◌ c s) =
    let rest = strip_end s in if code c == 0xa && is_empty_text rest then "" else T.◌∷◌ c rest

-- a line under its discrepancy, `_STATEMENT_INDENT` before it
unfoldable pub indented : String → String
unfolding strip is_empty_text
indented line = if is_empty_text (strip line) then "" else T.◌++◌ "             " line

-- `_render_statement`
unfoldable pub render_statement : String → List String
unfolding strip_start strip_end splitlines indented
render_statement statement = map indented (splitlines (strip_end (strip_start statement)))

-- `text.replace(old, "")`, with this many characters of a match still to be left out
unfoldable pub remove_from : String → ℕ → String → String
unfolding has_prefix length_of
remove_from old n T.[] = ""
remove_from old (suc n) (T.◌∷◌ c s) = remove_from old n s
remove_from old zero (T.◌∷◌ c s) =
    let matches = has_prefix old (T.◌∷◌ c s) in
    let rest = remove_from old (if matches then length_of old - 1 else 0) s in
    if matches then rest else T.◌∷◌ c rest

-- `_strip_schema`
unfoldable pub strip_schema : String → String → String
unfolding remove_from quote_identifier
strip_schema sql schema =
    remove_from (T.◌++◌ schema ".") 0 (remove_from (T.◌++◌ (quote_identifier schema) ".") 0 sql)
