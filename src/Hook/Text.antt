-- ===== src/Hook/Text.antt =====
-- claude_code.py: what `_text` asks of `str.strip`.
use Prim.Native.Char.{Char, code}
use Prim.Native.String.{[], ◌∷◌}
use tokenweir.Prelude.{
  String, Bool, true, false, ◌&&◌, not, Option, none, some, ◌==◌, if◌then◌else◌,
}
use tokenweir.Contract.Values.{is_blank_character}

-- `str.isspace` of one character: the class of `_BLANK_CHARACTERS` without the byte order mark
unfoldable pub is_space : Char → Bool
unfolding is_blank_character
is_space c = is_blank_character c && not (code c == 0xfeff)

unfoldable pub lstrip : String → String
unfolding is_space
lstrip [] = []
lstrip (c ∷ s) = let rest = lstrip s in if is_space c then rest else c ∷ s

unfoldable pub is_empty_text : String → Bool
is_empty_text [] = true
is_empty_text (c ∷ s) = false

unfoldable pub rstrip : String → String
unfolding is_space is_empty_text
rstrip [] = []
rstrip (c ∷ s) = let rest = rstrip s in if is_space c && is_empty_text rest then [] else c ∷ rest

-- `str.strip`
unfoldable pub strip : String → String
unfolding lstrip rstrip
strip s = rstrip (lstrip s)

-- a text without its surrounding space, if anything is left
unfoldable pub stripped : String → Option String
unfolding strip is_empty_text
stripped s = let t = strip s in if is_empty_text t then none else some t
