-- ===== src/Reconcile/Definitions.antt =====
-- reconcile.py: the patterns that read definitions as PostgreSQL prints them. `\s` is `str.isspace`. Case is that of the ASCII letters.
use Prim.Native.Char.{code}
use Prim.Native.String as T
use tokenweir.Prelude.{
  String, Bool, true, false, ◌&&◌, ◌||◌, Option, none, some, List, [], ◌∷◌, ◌==◌, if◌then◌else◌,
}
use tokenweir.Hook.Text.{is_space, is_empty_text}
use tokenweir.Migrations.Comments.{after_word, after_spaces}
use tokenweir.Reconcile.Text.{join, words, normalise_sql}

-- a word, in any case
unfoldable pub is_word_of : String → String → Bool
unfolding after_word
is_word_of expected s = elim (after_word expected s) [
  | none ↦ false
  | some rest ↦ is_empty_text rest
]

-- `.*?\s+ON\s+\S+\s+(USING\s+.*)$` behind `INDEX\s+`: at least one word, then the first ON that fits
unfoldable pub body_after_on : List String → Option (List String)
unfolding is_word_of
body_after_on (on_ ∷ table ∷ using_ ∷ method ∷ rest) =
    let later = body_after_on (table ∷ using_ ∷ method ∷ rest) in
    if is_word_of "on" on_ && is_word_of "using" using_
    then some (using_ ∷ method ∷ rest)
    else later
body_after_on _ = none

unfoldable pub index_body : List String → Option (List String)
unfolding is_word_of body_after_on
index_body (index_ ∷ name ∷ rest) = if is_word_of "index" index_ then body_after_on rest else none
index_body _ = none

-- `_INDEX_SHAPE_RE.match`: whether UNIQUE, and the body
unfoldable pub match_shape : List String → Option (Bool × List String)
unfolding is_word_of index_body
match_shape (create ∷ second ∷ rest) =
    let unique = is_word_of "unique" second in
    if is_word_of "create" create
    then (elim (index_body (if unique then rest else second ∷ rest)) [
      | none ↦ none
      | some body ↦ some (unique, body)
    ])
    else none
match_shape _ = none

-- `_index_shape`
unfoldable pub index_shape : String → String
unfolding words join match_shape
index_shape indexdef =
    let ws = words indexdef in
    elim (match_shape ws) [
      | none ↦ join " " ws
      | some (unique, body) ↦ if unique then T.◌++◌ "UNIQUE " (join " " body) else join " " body
    ]

-- `[^"]+"` behind the opening quotation mark, the characters before it being there or not
unfoldable pub quoted_name : Bool → String → Option String
quoted_name started T.[] = none
quoted_name started (T.◌∷◌ c s) =
    let rest = quoted_name true s in
    if code c == b'"'
    then (if started then some "" else none)
    else (elim rest [ none ↦ none | some name ↦ some (T.◌∷◌ c name) ])

-- `[^\s"]+`, as far as it goes
unfoldable pub plain_characters : String → String
plain_characters T.[] = ""
plain_characters (T.◌∷◌ c s) =
    let rest = plain_characters s in if is_space c || code c == b'"' then "" else T.◌∷◌ c rest

unfoldable pub plain_name : String → Option String
unfolding plain_characters
plain_name s = let name = plain_characters s in if is_empty_text name then none else some name

-- `(?P<name>"[^"]+"|[^\s"]+)`, without the marks
unfoldable pub name_at : String → Option String
unfolding quoted_name plain_name
name_at T.[] = none
name_at (T.◌∷◌ c s) = if code c == b'"' then quoted_name false s else plain_name (T.◌∷◌ c s)

unfoldable pub or_else : Option String → Option String → Option String
or_else none b = b
or_else (some a) b = some a

-- `(?:IF\s+NOT\s+EXISTS\s+)?` and the name
unfoldable pub name_if_not : List String → Option String
unfolding is_word_of name_at or_else join
name_if_not (if_ ∷ not_ ∷ exists ∷ rest) =
    let whole = name_at (join " " (if_ ∷ not_ ∷ exists ∷ rest)) in
    if is_word_of "if" if_ && is_word_of "not" not_ && is_word_of "exists" exists
    then or_else (name_at (join " " rest)) whole
    else whole
name_if_not ws = name_at (join " " ws)

-- `(?:CONCURRENTLY\s+)?`, and what follows it
unfoldable pub name_concurrently : List String → Option String
unfolding is_word_of name_if_not or_else
name_concurrently [] = none
name_concurrently (w ∷ rest) =
    if is_word_of "concurrently" w
    then or_else (name_if_not rest) (name_if_not (w ∷ rest))
    else name_if_not (w ∷ rest)

unfoldable pub name_after_index : List String → Option String
unfolding is_word_of name_concurrently
name_after_index [] = none
name_after_index (w ∷ rest) = if is_word_of "index" w then name_concurrently rest else none

unfoldable pub name_after_create : List String → Option String
unfolding is_word_of name_after_index
name_after_create [] = none
name_after_create (w ∷ rest) =
    if is_word_of "unique" w then name_after_index rest else name_after_index (w ∷ rest)

-- `_INDEX_NAME_RE.match`
unfoldable pub match_index_name : List String → Option String
unfolding is_word_of name_after_create
match_index_name [] = none
match_index_name (w ∷ rest) = if is_word_of "create" w then name_after_create rest else none

-- `_index_name`
unfoldable pub index_name : String → String
unfolding match_index_name words
index_name indexdef = elim (match_index_name (words indexdef)) [ none ↦ "" | some name ↦ name ]

-- what is before a closing parenthesis at the end
unfoldable pub before_last : String → Option String
before_last T.[] = none
before_last (T.◌∷◌ c s) =
    let rest = before_last s in
    if is_empty_text s
    then (if code c == b')' then some "" else none)
    else (elim rest [ none ↦ none | some body ↦ some (T.◌∷◌ c body) ])

unfoldable pub in_parentheses : String → Option String
unfolding before_last
in_parentheses T.[] = none
in_parentheses (T.◌∷◌ c s) = if code c == b'(' then before_last s else none

-- `_CHECK_BODY_RE.match`
unfoldable pub check_body : String → Option String
unfolding after_word after_spaces in_parentheses normalise_sql
check_body definition = elim (after_word "check" (normalise_sql definition)) [
  | none ↦ none
  | some rest ↦ in_parentheses (after_spaces is_space rest)
]
