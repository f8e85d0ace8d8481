-- ===== src/Orchestrator/Phase.antt =====
-- orchestrator.py: `PhaseKind`, `_KIND_BY_WORD`, `_collapse`, `_english_ordinal` and `_parse_phase`.
-- `\d` and `int` read digits by Python's table, a parameter; a text that is parsed has been collapsed
-- and lowered, so that its white space is single spaces.
use Prim.Native.Char.{Char, code}
use Prim.Native.String.{[], ◌∷◌}
use tokenweir.Prelude.{
  ℕ, ◌+◌, ◌*◌, ◌%◌, String, Bool, true, false, ◌&&◌, ◌||◌, Option, none, some, leb, ◌==◌,
  if◌then◌else◌,
}
use tokenweir.Hook.Text.{is_space, strip}
use tokenweir.Orchestrator.Decimal.{read_digits}

pub data PhaseKind : Type 0 where
  implementation review fix : PhaseKind

-- equality of texts
unfoldable pub same : String → String → Bool
same [] [] = true
same (c ∷ s) (d ∷ t) = code c == code d && same s t
same _ _ = false

-- `_KIND_BY_WORD.get`
unfoldable pub kind_by_word : String → Option PhaseKind
unfolding same
kind_by_word s =
    if same s "implementation" || same s "implement"
    then some implementation
    else if same s "review"
    then some review
    else if same s "fix" || same s "bug fix" || same s "bug-fix" || same s "bugfix"
    then some fix
    else none

-- `value.replace("_", " ").replace("#", " ")`
unfoldable pub fold_separator : Char → Char
fold_separator c = if code c == b'_' || code c == b'#' then " " else c

unfoldable pub fold_separators : String → String
unfolding fold_separator
fold_separators [] = []
fold_separators (c ∷ s) = fold_separator c ∷ fold_separators s

-- `re.sub(r"\s+", " ", value)`, in a run of white space or not
unfoldable pub squeeze : Bool → String → String
unfolding is_space
squeeze in_run [] = []
squeeze in_run (c ∷ s) =
    let more = squeeze true s in
    if is_space c then (if in_run then more else " " ∷ more) else c ∷ squeeze false s

-- `_collapse`
unfoldable pub collapse : String → String
unfolding squeeze fold_separators strip
collapse s = strip (squeeze false (fold_separators s))

-- What a written phase turned out to be.
pub data ParsedPhase : Type 0 where
  unrecognized : ParsedPhase
  bad_occurrence : PhaseKind → ParsedPhase
  recognized : PhaseKind → Option ℕ → ParsedPhase

-- the suffix that an ordinal has in English
unfoldable pub ordinal_suffix : ℕ → String
ordinal_suffix n =
    if leb 11 (n % 100) && leb (n % 100) 13
    then "th"
    else if n % 10 == 1
    then "st"
    else if n % 10 == 2
    then "nd"
    else if n % 10 == 3
    then "rd"
    else "th"

-- `_english_ordinal`, of a lowered suffix
unfoldable pub english_ordinal : ℕ → String → Option ℕ
unfolding ordinal_suffix same
english_ordinal n suffix = if same suffix (ordinal_suffix n) then some n else none

-- a kind with an occurrence, if there is one
unfoldable pub occurrence_of : Option PhaseKind → ℕ → ParsedPhase
occurrence_of none n = unrecognized
occurrence_of (some kind) n = if n == 0 then bad_occurrence kind else recognized kind (some n)

-- `\s+(.*)$`, stripped
unfoldable pub after_gap : String → Option String
unfolding is_space strip
after_gap [] = none
after_gap (c ∷ s) = if is_space c then some (strip s) else none

-- `(st|nd|rd|th)` and what follows it
unfoldable pub after_suffix : String → Option (String × String)
unfolding same
after_suffix (c ∷ d ∷ s) =
    let suffix = c ∷ d ∷ [] in
    if same suffix "st" || same suffix "nd" || same suffix "rd" || same suffix "th"
    then some (suffix, s)
    else none
after_suffix _ = none

module _ (digit : Char → Option ℕ) where
  -- `(\d+)` behind its first digits, and what follows it
  unfoldable pub leading_digits : ℕ → String → ℕ × String
  leading_digits n [] = (n, [])
  leading_digits n (c ∷ s) = elim (digit c) [
    | none ↦ (n, c ∷ s)
    | some d ↦ leading_digits (n * 10 + d) s
  ]

  -- the branch of `_LEADING_ORDINAL_RE`, behind the suffix
  unfoldable pub ordinal_kind : ℕ → Option (String × String) → ParsedPhase
  unfolding after_gap english_ordinal kind_by_word occurrence_of
  ordinal_kind n none = unrecognized
  ordinal_kind n (some (suffix, s)) = elim (after_gap s) [
    | none ↦ unrecognized
    | some word ↦ elim (english_ordinal n suffix) [
      | none ↦ unrecognized
      | some number ↦ occurrence_of (kind_by_word word) number
    ]
  ]

  -- the branch of `_LEADING_ORDINAL_RE`
  unfoldable pub leading_ordinal : String → ParsedPhase
  unfolding leading_digits after_suffix ordinal_kind
  leading_ordinal [] = unrecognized
  leading_ordinal (c ∷ s) = elim (digit c) [
    | none ↦ unrecognized
    | some d ↦ let (n, rest) = leading_digits d s in ordinal_kind n (after_suffix rest)
  ]

  -- `(\d+)$`
  unfoldable pub number_at_end : String → Option ℕ
  unfolding read_digits
  number_at_end [] = none
  number_at_end (c ∷ s) = read_digits digit 0 (c ∷ s)

  -- ` +(\d+)$`, behind the first space
  unfoldable pub after_run : String → Option ℕ
  unfolding number_at_end
  after_run [] = none
  after_run (c ∷ s) =
      let more = after_run s in if code c == b' ' then more else number_at_end (c ∷ s)

  -- `(?:-| +)(\d+)$`
  unfoldable pub separated_number : Char → String → Option ℕ
  unfolding number_at_end after_run
  separated_number c s =
      if code c == b'-' then number_at_end s else if code c == b' ' then after_run s else none

  -- `_TRAILING_NUMBER_RE.match`: the shortest text before a separator and a number
  unfoldable pub trailing_number : String → Option (String × ℕ)
  unfolding separated_number
  trailing_number [] = none
  trailing_number (c ∷ s) = elim (separated_number c s) [
    | some n ↦ some ([], n)
    | none ↦ elim (trailing_number s) [ none ↦ none | some (word, n) ↦ some (c ∷ word, n) ]
  ]

  -- the branch of `_TRAILING_NUMBER_RE`
  unfoldable pub trailing_kind : Option (String × ℕ) → ParsedPhase
  unfolding kind_by_word occurrence_of
  trailing_kind none = unrecognized
  trailing_kind (some (word, n)) = occurrence_of (kind_by_word word) n

  -- the parse of what names no kind by itself
  unfoldable pub parse_counted : String → ParsedPhase
  unfolding leading_ordinal trailing_number trailing_kind
  parse_counted s = elim (leading_ordinal s) [
    | unrecognized ↦ trailing_kind (trailing_number s)
    | bad_occurrence kind ↦ bad_occurrence kind
    | recognized kind n ↦ recognized kind n
  ]

  -- `_parse_phase`
  unfoldable pub parse_phase : String → ParsedPhase
  unfolding kind_by_word parse_counted
  parse_phase s = elim (kind_by_word s) [
    | none ↦ parse_counted s
    | some kind ↦ recognized kind none
  ]
