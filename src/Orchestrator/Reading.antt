-- ===== src/Orchestrator/Reading.antt =====
-- The labels: their characters, and what the parser reads in them.
use Prim.Native.Char.{Char, code}
use Prim.Native.String.{[], ◌∷◌}
use tokenweir.Prelude.{
  both, ℕ, zero, suc, ◌/◌, ◌%◌, ◌<◌, String, Bool, true, false, ◌&&◌, ◌||◌, ◌≡◌, refl, ◌∙◌, inl,
  inr, Bool-cases, Option, none, some, leb, ltb, ◌==◌, arith,
}
use tokenweir.Hook.Text.{is_space, is_empty_text}
use tokenweir.Contract.Values.{is_blank_character}
use tokenweir.Orchestrator.Decimal.{
  char_at, digit_char, digits_on, decimal, read_digits, IsDecimal, read_digits-decimal,
}
use tokenweir.Orchestrator.Phase.{
  PhaseKind, implementation, review, fix, same, kind_by_word, unrecognized, recognized,
  occurrence_of, leading_ordinal, number_at_end, separated_number, trailing_number, trailing_kind,
  parse_counted, parse_phase,
}
use tokenweir.Orchestrator.Label.{wire, joined, label}
use tokenweir.Orchestrator.Spaces.{is_separator, tidy, done}

-- the characters of a label
unfoldable pub is_label_character : Char → Bool
is_label_character c =
    code c == b'-'
    || (leb b'0' (code c) && leb (code c) b'9')
    || (leb b'a' (code c) && leb (code c) b'z')

unfoldable pub all_label : String → Bool
unfolding is_label_character
all_label [] = true
all_label (c ∷ s) = is_label_character c && all_label s

-- `str.lower` leaves the characters of a label as they are.
pub record IsLower (lower : String → String) : Type 0 where
  pub lower_label : (s : String) → all_label s ≡ true → lower s ≡ s

is_label_character-is_separator : (c : Char) → is_label_character c ≡ true → is_separator c ≡ false
unfolding is_label_character is_separator is_space is_blank_character
is_label_character-is_separator c h = ground arith

all_label-tidy : (s : String) → all_label s ≡ true → tidy false s ≡ true
unfolding all_label tidy
all_label-tidy [] h = refl
all_label-tidy (c ∷ s) h =
    let (first, rest) = both _ _ h in
    rw (is_label_character-is_separator c first) (all_label-tidy s rest)

-- A label is a text that `_collapse` leaves as it is.
pub all_label-done : (s : String) → all_label s ≡ true → done true s ≡ true
unfolding all_label tidy is_empty_text
all_label-done [] h = refl
all_label-done (c ∷ s) h =
    let (first, rest) = both _ _ h in
    rw (is_label_character-is_separator c first) (all_label-tidy s rest)

char_at-is_label_character :
    (n : ℕ) (s : String) → all_label s ≡ true → is_label_character (char_at n s) ≡ true
unfolding char_at all_label is_label_character
char_at-is_label_character n [] h = refl
char_at-is_label_character zero (c ∷ s) h = (both _ _ h).0
char_at-is_label_character (suc n) (c ∷ s) h = char_at-is_label_character n s (both _ _ h).1

digit_char-is_label_character : (d : ℕ) → is_label_character (digit_char d) ≡ true
unfolding digit_char all_label is_label_character
digit_char-is_label_character d = char_at-is_label_character d "0123456789" refl

digits_on-all_label :
    (fuel n : ℕ) (out : String) → all_label out ≡ true → all_label (digits_on fuel n out) ≡ true
unfolding digits_on all_label
digits_on-all_label zero n out h = h
digits_on-all_label (suc fuel) n out h = elim (Bool-cases (ltb n 10)) [
  | inl e ↦ rw e (rw (digit_char-is_label_character n) h)
  | inr e ↦ rw e (
      digits_on-all_label fuel (n / 10) (digit_char (n % 10) ∷ out)
        (rw (digit_char-is_label_character (n % 10)) h))
]

pub label-all_label : (kind : PhaseKind) (n : Option ℕ) → all_label (label kind n) ≡ true
unfolding label joined all_label is_label_character decimal
label-all_label implementation none = refl
label-all_label review none = refl
label-all_label fix none = refl
label-all_label implementation (some n) = digits_on-all_label (suc n) n [] refl
label-all_label review (some n) = digits_on-all_label (suc n) n [] refl
label-all_label fix (some n) = digits_on-all_label (suc n) n [] refl

pub label-is_empty_text : (kind : PhaseKind) (n : Option ℕ) → is_empty_text (label kind n) ≡ false
unfolding label joined is_empty_text
label-is_empty_text implementation none = refl
label-is_empty_text review none = refl
label-is_empty_text fix none = refl
label-is_empty_text implementation (some n) = refl
label-is_empty_text review (some n) = refl
label-is_empty_text fix (some n) = refl

-- a decimal is not empty
digits_on-is_empty_text :
    (fuel n : ℕ) (out : String)
    → is_empty_text out ≡ false
    → is_empty_text (digits_on fuel n out) ≡ false
unfolding digits_on is_empty_text
digits_on-is_empty_text zero n out h = h
digits_on-is_empty_text (suc fuel) n out h = elim (Bool-cases (ltb n 10)) [
  | inl e ↦ rw e refl
  | inr e ↦ rw e (digits_on-is_empty_text fuel (n / 10) (digit_char (n % 10) ∷ out) refl)
]

decimal-is_empty_text : (n : ℕ) → is_empty_text (decimal n) ≡ false
unfolding decimal digits_on is_empty_text
decimal-is_empty_text n = elim (Bool-cases (ltb n 10)) [
  | inl e ↦ rw e refl
  | inr e ↦ rw e (digits_on-is_empty_text n (n / 10) (digit_char (n % 10) ∷ []) refl)
]

-- an occurrence that is one
abbrev pub IsOccurrence : Option ℕ → Type 0
IsOccurrence none = Unit {0}
IsOccurrence (some n) = 0 < n

module _ (digit : Char → Option ℕ) (law : IsDecimal digit) where
  number_at_end-read_digits :
      (s : String) → is_empty_text s ≡ false → number_at_end digit s ≡ read_digits digit 0 s
  unfolding number_at_end is_empty_text
  number_at_end-read_digits [] h = absurd (ground arith)
  number_at_end-read_digits (c ∷ s) h = refl

  number_at_end-decimal : (n : ℕ) → number_at_end digit (decimal n) ≡ some n
  number_at_end-decimal n =
      number_at_end-read_digits (decimal n) (decimal-is_empty_text n)
      ∙ read_digits-decimal digit law n

  trailing_step :
      (c : Char) (s word : String) (n : ℕ)
      → (code c == b'-') ≡ false
      → (code c == b' ') ≡ false
      → trailing_number digit s ≡ some (word, n)
      → trailing_number digit (c ∷ s) ≡ some (c ∷ word, n)
  unfolding trailing_number separated_number
  trailing_step c s word n h k t = rw (trailing_number, h) (rw k (rw t refl))

  trailing_here :
      (s : String) (n : ℕ)
      → number_at_end digit s ≡ some n
      → trailing_number digit ("-" ∷ s) ≡ some ([], n)
  unfolding trailing_number separated_number
  trailing_here s n h = rw (trailing_number, h) refl

  -- lower-case letters
  abbrev letters : String → Bool
  letters [] = true
  letters (c ∷ s) = leb b'a' (code c) && leb (code c) b'z' && letters s

  trailing_number-joined :
      (word s : String) (n : ℕ)
      → letters word ≡ true
      → number_at_end digit s ≡ some n
      → trailing_number digit (joined word ("-" ∷ s)) ≡ some (word, n)
  unfolding joined
  trailing_number-joined [] s n h t = trailing_here s n t
  trailing_number-joined (c ∷ word) s n h t =
      trailing_step c (joined word ("-" ∷ s)) word n (ground arith) (ground arith)
        (trailing_number-joined word s n (ground arith) t)

  wire-letters : (kind : PhaseKind) → letters (wire kind) ≡ true
  wire-letters implementation = refl
  wire-letters review = refl
  wire-letters fix = refl

  kind_by_word-wire : (kind : PhaseKind) → kind_by_word (wire kind) ≡ some kind
  unfolding kind_by_word same
  kind_by_word-wire implementation = refl
  kind_by_word-wire review = refl
  kind_by_word-wire fix = refl

  kind_by_word-label : (kind : PhaseKind) (n : ℕ) → kind_by_word (label kind (some n)) ≡ none
  unfolding kind_by_word same label joined
  kind_by_word-label implementation n = refl
  kind_by_word-label review n = refl
  kind_by_word-label fix n = refl

  leading_ordinal-label :
      (kind : PhaseKind) (n : ℕ) → leading_ordinal digit (label kind (some n)) ≡ unrecognized
  unfolding leading_ordinal label joined
  leading_ordinal-label implementation n =
      rw (law.digit_letter "i" (omega arith) (omega arith)) refl
  leading_ordinal-label review n = rw (law.digit_letter "r" (omega arith) (omega arith)) refl
  leading_ordinal-label fix n = rw (law.digit_letter "f" (omega arith) (omega arith)) refl

  occurrence_of_positive :
      (kind : PhaseKind) (n : ℕ)
      → occurrence_of (some kind) (suc n) ≡ recognized kind (some (suc n))
  unfolding occurrence_of
  occurrence_of_positive kind n = ground arith

  trailing_kind-label :
      (kind : PhaseKind) (n : ℕ)
      → trailing_kind digit (trailing_number digit (label kind (some (suc n))))
        ≡ recognized kind (some (suc n))
  unfolding trailing_kind label
  trailing_kind-label kind n =
      rw
        (trailing_number-joined (wire kind) (decimal (suc n)) (suc n) (wire-letters kind)
          (number_at_end-decimal (suc n)))
        (rw (kind_by_word-wire kind) (occurrence_of_positive kind n))

  parse_counted-label :
      (kind : PhaseKind) (n : ℕ)
      → parse_counted digit (label kind (some (suc n))) ≡ recognized kind (some (suc n))
  unfolding parse_counted
  parse_counted-label kind n =
      rw (parse_counted, leading_ordinal-label kind (suc n)) (trailing_kind-label kind n)

  -- The parser reads in a label the kind and the occurrence that it was made of.
  pub parse_phase-label :
      (kind : PhaseKind) (n : Option ℕ)
      → IsOccurrence n
      → parse_phase digit (label kind n) ≡ recognized kind n
  unfolding parse_phase label
  parse_phase-label kind none h = rw (parse_phase, kind_by_word-wire kind) refl
  parse_phase-label kind (some zero) h = absurd (omega arith)
  parse_phase-label kind (some (suc n)) h =
      rw (parse_phase, kind_by_word-label kind (suc n)) (parse_counted-label kind n)
