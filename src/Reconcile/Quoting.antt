-- ===== src/Reconcile/Quoting.antt =====
-- reconcile.py: `_quote`, and the rule by which PostgreSQL's documentation reads a quoted identifier.
use Prim.Native.Char.{Char, code}
use Prim.Native.String as T
use Prim.Native.String.append as A
use tokenweir.Prelude.{
  ℕ, ◌+◌, ltb, leb, not, ◌&&◌, ◌||◌, String, Bool, true, false, ◌≡◌, refl, inl, inr, Option, none,
  some, ◌==◌, Bool-cases, if◌then◌else◌, arith,
}
use tokenweir.Reconcile.Text.{escape, quote_identifier}

-- a character before the identifier
abbrev pushed : Char → Option (String × String) → Option (String × String)
pushed c none = none
pushed c (some (identifier, rest)) = some (T.◌∷◌ c identifier, rest)

-- Behind the opening mark: the identifier, and the text behind its closing mark. The flag is set
-- behind a mark: a second one stands for a mark in the identifier.
unfoldable pub read_quoted : Bool → String → Option (String × String)
read_quoted false T.[] = none
read_quoted true T.[] = some ("", "")
read_quoted false (T.◌∷◌ c s) =
    let is_mark = code c == b'"' in
    let rest = read_quoted is_mark s in if is_mark then rest else pushed c rest
read_quoted true (T.◌∷◌ c s) =
    let rest = read_quoted false s in if code c == b'"' then pushed c rest else some ("", T.◌∷◌ c s)

-- the bytes of a character in UTF-8
unfoldable pub bytes_of : Char → ℕ
bytes_of c =
    if ltb (code c) 0x80
    then 1
    else if ltb (code c) 0x800
    then 2
    else if ltb (code c) 0x10000
    then 3
    else 4

unfoldable pub utf8_length : String → ℕ
unfolding bytes_of
utf8_length T.[] = 0
utf8_length (T.◌∷◌ c s) = bytes_of c + utf8_length s

unfoldable pub has_nul : String → Bool
has_nul T.[] = false
has_nul (T.◌∷◌ c s) = code c == 0 || has_nul s

-- An identifier that PostgreSQL takes as it is: it refuses one of no characters and a NUL, and cuts what
-- is longer than 63 bytes.
unfoldable pub is_identifier : String → Bool
unfolding utf8_length has_nul
is_identifier s = leb 1 (utf8_length s) && leb (utf8_length s) 63 && not (has_nul s)

abbrev taken : Option (String × String) → Option (String × String)
taken none = none
taken (some (identifier, rest)) = if is_identifier identifier then some (identifier, rest) else none

-- A quoted identifier at the start of a text, and what follows it; none where there is none, or where
-- PostgreSQL does not take it as it is.
unfoldable pub read_identifier : String → Option (String × String)
unfolding read_quoted is_identifier
read_identifier T.[] = none
read_identifier (T.◌∷◌ c s) =
    let read = taken (read_quoted false s) in if code c == b'"' then read else none

-- a text that does not begin with a quotation mark
unfoldable pub no_mark : String → Bool
no_mark T.[] = true
no_mark (T.◌∷◌ c s) = if code c == b'"' then false else true

read_closing : (rest : String) → no_mark rest ≡ true → read_quoted true rest ≡ some ("", rest)
unfolding read_quoted no_mark
read_closing T.[] h = refl
read_closing (T.◌∷◌ c s) h = elim (Bool-cases (code c == b'"')) [
  | inl e ↦ absurd (ground arith)
  | inr e ↦ rw e refl
]

read_quoted-escape :
    (s rest : String)
    → no_mark rest ≡ true
    → read_quoted false (T.◌++◌ (escape s) rest) ≡ some (s, rest)
unfolding read_quoted escape
read_quoted-escape T.[] rest h = rw (A.cons "\"" "" rest) (rw (A.nil rest) (read_closing rest h))
read_quoted-escape (T.◌∷◌ c s) rest h =
    let rec = read_quoted-escape s rest h in
    elim (Bool-cases (code c == b'"')) [
      | inl e ↦ rw e (
          rw (A.cons c (T.◌∷◌ c (escape s)) rest)
            (rw (A.cons c (escape s) rest) (rw e (rw rec (rw e refl)))))
      | inr e ↦ rw e (rw (A.cons c (escape s) rest) (rw e (rw rec refl)))
    ]

-- An identifier that PostgreSQL takes as it is (of 1 to 63 bytes in UTF-8, with no NUL) is read back as
-- it was from its quoted form, whatever quotation marks and other characters it has, and what follows
-- it is left, where no other quotation mark follows.
pub read_identifier-quote_identifier :
    (s rest : String)
    → is_identifier s ≡ true
    → no_mark rest ≡ true
    → read_identifier (T.◌++◌ (quote_identifier s) rest) ≡ some (s, rest)
unfolding read_identifier quote_identifier
read_identifier-quote_identifier s rest v h =
    rw (A.cons "\"" (escape s) rest) (rw (read_quoted-escape s rest h) (rw v refl))
