-- ===== src/Migrations/Lexing.antt =====
-- Statements with comments and literals as SQL reads them, their text, and what is left of it without
-- the comments. In the text a character of the statements is not the start of a comment or literal,
-- a line comment ends before a line feed or the end, a block comment nests, and two quotes in a
-- literal are one.
use Prim.Native.Char.{Char, code}
use Prim.Native.String.{[], ◌∷◌}
use tokenweir.Prelude as P
use tokenweir.Prelude.{
  ℕ, zero, suc, ◌+◌, ◌-◌, String, Bool, true, false, ◌&&◌, ◌||◌, ◌≡◌, refl, ◌∙◌, ap, sym, List, leb,
  ◌==◌, if◌then◌else◌, arith,
}
use tokenweir.Migrations.Comments.{
  Mode, statements, line, literal, block, starts, is_pair, in_statements, in_line, in_block,
  in_literal, step, scan, strip_comments, space,
}

-- The inside of a block comment and its end, and that of a literal.
pub data Remark : Type 0 where
  closed : Remark
  other : Char → Remark → Remark
  nested : Remark → Remark → Remark

pub data Quoted : Type 0 where
  unquote : Quoted
  letter : Char → Quoted → Quoted
  quote : Quoted → Quoted

pub data Token : Type 0 where
  plain : Char → Token
  line_comment : String → Token
  block_comment : Remark → Token
  quoted : Quoted → Token

unfoldable pub render_remark : Remark → String → String
render_remark closed s = "*" ∷ "/" ∷ s
render_remark (other c r) s = c ∷ render_remark r s
render_remark (nested r q) s = "/" ∷ "*" ∷ render_remark r (render_remark q s)

unfoldable pub render_quoted : Quoted → String → String
render_quoted unquote s = "'" ∷ s
render_quoted (letter c q) s = c ∷ render_quoted q s
render_quoted (quote q) s = "'" ∷ "'" ∷ render_quoted q s

unfoldable pub prepend : String → String → String
prepend [] s = s
prepend (c ∷ t) s = c ∷ prepend t s

-- a token before a text
unfoldable pub render_token : Token → String → String
unfolding prepend render_remark render_quoted
render_token (plain c) s = c ∷ s
render_token (line_comment t) s = "-" ∷ "-" ∷ prepend t s
render_token (block_comment r) s = "/" ∷ "*" ∷ render_remark r s
render_token (quoted q) s = "'" ∷ render_quoted q s

-- what is left of a token
unfoldable pub blank_token : Token → String → String
unfolding render_quoted
blank_token (plain c) s = c ∷ s
blank_token (line_comment t) s = space ∷ s
blank_token (block_comment r) s = space ∷ s
blank_token (quoted q) s = "'" ∷ render_quoted q s

unfoldable pub render : List Token → String
unfolding render_token
render P.[] = []
render (P.◌∷◌ t ts) = render_token t (render ts)

unfoldable pub blank : List Token → String
unfolding blank_token
blank P.[] = []
blank (P.◌∷◌ t ts) = blank_token t (blank ts)

-- neither `/*` nor `*/` begins here
unfoldable pub FitsRemark : Remark → String → Type 0
unfolding render_remark
FitsRemark closed s = Unit {0}
FitsRemark (other c r) s =
    (is_pair b'/' b'*' c (render_remark r s) ≡ false)
    × (is_pair b'*' b'/' c (render_remark r s) ≡ false)
    × FitsRemark r s
FitsRemark (nested r q) s = FitsRemark r (render_remark q s) × FitsRemark q s

unfoldable pub FitsQuoted : Quoted → String → Type 0
FitsQuoted unquote s = starts 0x27 s ≡ false
FitsQuoted (letter c q) s = ((code c == 0x27) ≡ false) × FitsQuoted q s
FitsQuoted (quote q) s = FitsQuoted q s

-- no line feed in a line comment, and one or the end behind it
unfoldable pub FitsLine : String → String → Type 0
FitsLine [] [] = Unit {0}
FitsLine [] (c ∷ s) = (code c == 0xa) ≡ true
FitsLine (c ∷ t) s = ((code c == 0xa) ≡ false) × FitsLine t s

unfoldable pub FitsToken : Token → String → Type 0
unfolding FitsRemark FitsQuoted FitsLine
FitsToken (plain c) s =
    (is_pair b'-' b'-' c s ≡ false) × (is_pair b'/' b'*' c s ≡ false) × ((code c == 0x27) ≡ false)
FitsToken (line_comment t) s = FitsLine t s
FitsToken (block_comment r) s = FitsRemark r s
FitsToken (quoted q) s = FitsQuoted q s

unfoldable pub Fits : List Token → Type 0
unfolding FitsToken render
Fits P.[] = Unit {0}
Fits (P.◌∷◌ t ts) = FitsToken t (render ts) × Fits ts

-- the mode behind the end of a block comment
abbrev behind : ℕ → Mode
behind zero = statements
behind (suc d) = block (suc d)

one_less :
    (d : ℕ) → (if suc (suc d) == 1 then statements else block (suc (suc d) - 1)) ≡ block (suc d)
one_less d = ground arith

one_more : (d : ℕ) → suc d + 1 ≡ suc (suc d)
one_more d = omega arith

scan-remark :
    (r : Remark) (d : ℕ) (s : String)
    → FitsRemark r s
    → scan (block (suc d)) (render_remark r s) ≡ scan (behind d) s
unfolding scan step in_block is_pair starts render_remark FitsRemark
scan-remark closed zero s h = refl
scan-remark closed (suc d) s h = ap (λ m. scan m s) (one_less d)
scan-remark (other c r) d s h = rw h.0 (rw h.1 (scan-remark r d s h.2))
scan-remark (nested r q) d s h =
    ap (λ e. scan (block e) (render_remark r (render_remark q s))) (one_more d)
    ∙ (scan-remark r (suc d) (render_remark q s) h.0 ∙ scan-remark q d s h.1)

scan-quoted :
    (q : Quoted) (s : String)
    → FitsQuoted q s
    → scan literal (render_quoted q s) ≡ render_quoted q (scan statements s)
unfolding scan step in_literal starts render_quoted FitsQuoted
scan-quoted unquote s h = rw h refl
scan-quoted (letter c q) s h = rw h.0 (ap (λ l. c ∷ l) (scan-quoted q s h.1))
scan-quoted (quote q) s h = ap (λ l. "'" ∷ "'" ∷ l) (scan-quoted q s h)

scan-line : (t s : String) → FitsLine t s → scan line (prepend t s) ≡ scan statements s
unfolding scan step in_line in_statements is_pair starts FitsLine prepend
scan-line [] [] h = refl
scan-line [] (c ∷ s) h = ground arith
scan-line (c ∷ t) s h = rw h.0 (scan-line t s h.1)

scan-token :
    (t : Token) (s : String)
    → FitsToken t s
    → scan statements (render_token t s) ≡ blank_token t (scan statements s)
unfolding scan step in_statements is_pair starts render_token blank_token FitsToken
scan-token (plain c) s h = rw h.0 (rw h.1 (rw h.2 refl))
scan-token (line_comment t) s h = ap (λ l. space ∷ l) (scan-line t s h)
scan-token (block_comment r) s h = ap (λ l. space ∷ l) (scan-remark r 0 s h)
scan-token (quoted q) s h = ap (λ l. "'" ∷ l) (scan-quoted q s h)

-- `_strip_comments` puts a space in the place of every line comment and of every block comment,
-- whatever they hold, nested comments included, and keeps everything else as it is, the literals
-- with what looks like a comment in them: for every sequence of tokens that fit together.
pub strip_comments-render : (ts : List Token) → Fits ts → strip_comments (render ts) ≡ blank ts
unfolding strip_comments scan render blank Fits
strip_comments-render P.[] h = refl
strip_comments-render (P.◌∷◌ t ts) h =
    scan-token t (render ts) h.0 ∙ ap (blank_token t) (strip_comments-render ts h.1)
