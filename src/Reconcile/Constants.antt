-- ===== src/Reconcile/Constants.antt =====
-- reconcile.py: `_CONSTANT_DEFAULT_RE`, the defaults that are constant. `\d` is a table of `re`.
use Prim.Native.Char.{Char, code}
use Prim.Native.String as T
use tokenweir.Prelude.{
  ℕ, String, Bool, true, false, ◌&&◌, ◌||◌, not, Option, is_some, leb, ◌==◌, if◌then◌else◌,
}
use tokenweir.Hook.Text.{is_empty_text, strip}
use tokenweir.Migrations.Comments.{folded}
use tokenweir.Reconcile.Definitions.{is_word_of}

module _ (digit : Char → Option ℕ) where
  unfoldable pub all_digits : String → Bool
  all_digits T.[] = true
  all_digits (T.◌∷◌ c s) = is_some (digit c) && all_digits s

  -- `\d*(?:\.\d+)?`, all of a text
  unfoldable pub number_rest : String → Bool
  unfolding all_digits
  number_rest T.[] = true
  number_rest (T.◌∷◌ c s) =
      let rest = number_rest s in
      if is_some (digit c) then rest else (code c == b'.' && not (is_empty_text s) && all_digits s)

  -- `\d+(?:\.\d+)?`
  unfoldable pub is_number : String → Bool
  unfolding number_rest
  is_number T.[] = false
  is_number (T.◌∷◌ c s) = is_some (digit c) && number_rest s

  unfoldable pub is_signed_number : String → Bool
  unfolding is_number
  is_signed_number T.[] = false
  is_signed_number (T.◌∷◌ c s) = if code c == b'-' then is_number s else is_number (T.◌∷◌ c s)

  -- `[a-z0-9_ "\[\]]+`, all of a text
  unfoldable pub is_type_character : Char → Bool
  is_type_character c =
      let n = folded c in
      (leb b'a' n && leb n b'z')
      || (leb b'0' n && leb n b'9')
      || n == b'_'
      || n == b' '
      || n == b'"'
      || n == b'['
      || n == b']'

  unfoldable pub all_type_characters : String → Bool
  unfolding is_type_character
  all_type_characters T.[] = true
  all_type_characters (T.◌∷◌ c s) = is_type_character c && all_type_characters s

  -- `(?:::[a-z0-9_ "\[\]]+)?` behind the closing mark
  unfoldable pub is_cast : String → Bool
  unfolding all_type_characters
  is_cast T.[] = true
  is_cast (T.◌∷◌ c T.[]) = false
  is_cast (T.◌∷◌ c (T.◌∷◌ d s)) =
      code c == b':' && code d == b':' && not (is_empty_text s) && all_type_characters s

  -- the rest of a literal behind its opening mark; the flag is set behind a mark inside
  unfoldable pub literal_rest : Bool → String → Bool
  unfolding is_cast
  literal_rest false T.[] = false
  literal_rest true T.[] = true
  literal_rest false (T.◌∷◌ c s) = literal_rest (code c == b'\'') s
  literal_rest true (T.◌∷◌ c s) =
      let rest = literal_rest false s in if code c == b'\'' then rest else is_cast (T.◌∷◌ c s)

  unfoldable pub is_literal : String → Bool
  unfolding literal_rest
  is_literal T.[] = false
  is_literal (T.◌∷◌ c s) = code c == b'\'' && literal_rest false s

  -- `_CONSTANT_DEFAULT_RE.match(default.strip())`
  unfoldable pub is_constant_default : String → Bool
  unfolding is_signed_number is_literal is_word_of strip
  is_constant_default default =
      let s = strip default in
      is_signed_number s
      || is_literal s
      || is_word_of "null" s
      || is_word_of "true" s
      || is_word_of "false" s
