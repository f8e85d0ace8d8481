-- ===== src/Migrations/Comments.antt =====
-- migrations/__init__.py: `_strip_comments` and `destructive_statements`.
use Prim.Native.Char.{Char, code}
use Prim.Native.String.{[], ◌∷◌}
use tokenweir.Prelude as P
use tokenweir.Prelude.{
  ℕ, zero, suc, ◌+◌, ◌-◌, String, Bool, true, false, ◌&&◌, ◌||◌, not, Option, none, some, List, leb,
  ◌==◌, if◌then◌else◌,
}

-- Where the scan stands: in the statements, behind the opening of a line comment, in a block comment
-- of some depth, in a literal, or before a character that belongs to a pair: it is dropped or kept.
pub data Mode : Type 0 where
  statements line literal : Mode
  block : ℕ → Mode
  skip keep : Mode → Mode

-- the next character is the one with this code
unfoldable pub starts : ℕ → String → Bool
starts n [] = false
starts n (c ∷ s) = code c == n

-- `pair == "--"` and the like, at a character and what follows it
unfoldable pub is_pair : ℕ → ℕ → Char → String → Bool
unfolding starts
is_pair m n c s = code c == m && starts n s

abbrev pub space : Char
space = " "

-- one character of the scan: where it stands then, and what it appends
unfoldable pub in_statements : Char → String → Mode × Option Char
unfolding is_pair
in_statements c s =
    if is_pair b'-' b'-' c s
    then (skip line, some space)
    else if is_pair b'/' b'*' c s
    then (skip (block 1), some space)
    else if code c == 0x27
    then (literal, some c)
    else (statements, some c)

unfoldable pub in_line : Char → Mode × Option Char
in_line c = if code c == 0xa then (statements, some c) else (line, none)

unfoldable pub in_block : ℕ → Char → String → Mode × Option Char
unfolding is_pair
in_block depth c s =
    if is_pair b'/' b'*' c s
    then (skip (block (depth + 1)), none)
    else if is_pair b'*' b'/' c s
    then (skip (if depth == 1 then statements else block (depth - 1)), none)
    else (block depth, none)

unfoldable pub in_literal : Char → String → Mode × Option Char
unfolding starts
in_literal c s =
    if code c == 0x27
    then (if starts 0x27 s then (keep literal, some c) else (statements, some c))
    else (literal, some c)

unfoldable pub step : Mode → Char → String → Mode × Option Char
unfolding in_statements in_line in_block in_literal
step statements c s = in_statements c s
step line c s = in_line c
step (block depth) c s = in_block depth c s
step literal c s = in_literal c s
step (skip mode) c s = (mode, none)
step (keep mode) c s = (mode, some c)

abbrev pub appended : Option Char → String → String
appended none out = out
appended (some c) out = c ∷ out

-- the loop of `_strip_comments`
unfoldable pub scan : Mode → String → String
unfolding step
scan mode [] = []
scan mode (c ∷ s) = let (mode', out) = step mode c s in appended out (scan mode' s)

-- `_strip_comments`
unfoldable pub strip_comments : String → String
unfolding scan
strip_comments sql = scan statements sql

-- A character by its code, without the case of an ASCII letter.
abbrev pub folded : Char → ℕ
folded c = if leb b'A' (code c) && leb (code c) b'Z' then code c + 32 else code c

-- the text after a word that it begins with, in any case
unfoldable pub after_word : String → String → Option String
after_word [] s = some s
after_word (w ∷ word) [] = none
after_word (w ∷ word) (c ∷ s) = if folded c == code w then after_word word s else none

-- the text after a run of white space
unfoldable pub after_spaces : (Char → Bool) → String → String
after_spaces is_space [] = []
after_spaces is_space (c ∷ s) =
    let rest = after_spaces is_space s in if is_space c then rest else c ∷ s

-- The statements that `_DESTRUCTIVE_RE` finds.
pub data Destructive : Type 0 where
  drop truncate delete_from : Destructive

-- `re`'s classes `\w` and `\s` are its library's tables.
module _ (is_word is_space : Char → Bool) where
  -- `\b` after a word: no character of a word follows
  unfoldable pub ends_word : String → Bool
  ends_word [] = true
  ends_word (c ∷ s) = not (is_word c)

  -- `\b` at the end of what was matched
  unfoldable pub whole : Option String → Bool
  unfolding ends_word
  whole none = false
  whole (some rest) = ends_word rest

  -- `\s+FROM` and the end of the word
  unfoldable pub from_follows : Option String → Bool
  unfolding whole after_spaces after_word
  from_follows none = false
  from_follows (some []) = false
  from_follows (some (c ∷ s)) = is_space c && whole (after_word "from" (after_spaces is_space s))

  -- the pattern at one position that begins a word
  unfoldable pub destructive_at : String → Option Destructive
  unfolding whole from_follows after_word
  destructive_at s =
      if whole (after_word "drop" s)
      then some drop
      else if whole (after_word "truncate" s)
      then some truncate
      else if from_follows (after_word "delete" s)
      then some delete_from
      else none

  abbrev pub with_found : Option Destructive → List Destructive → List Destructive
  with_found none found = found
  with_found (some d) found = P.◌∷◌ d found

  -- the search along a text, behind a character of a word or not
  unfoldable pub find_destructive : Bool → String → List Destructive
  unfolding destructive_at
  find_destructive in_word [] = P.[]
  find_destructive in_word (c ∷ s) =
      with_found (if in_word then none else destructive_at (c ∷ s)) (find_destructive (is_word c) s)

  -- `destructive_statements`
  unfoldable pub destructive_statements : String → List Destructive
  unfolding find_destructive strip_comments
  destructive_statements sql = find_destructive false (strip_comments sql)
