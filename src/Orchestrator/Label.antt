-- ===== src/Orchestrator/Label.antt =====
-- orchestrator.py: `PhaseKind.coerce`, `phase_label`, `normalize_phase` and `is_canonical_phase`.
-- `lower` is `str.lower`, by the tables of Python's library.
use Prim.Native.Char.{Char, code}
use Prim.Native.String.{[], ◌∷◌}
use tokenweir.Prelude.{
  ℕ, zero, suc, pos, negsuc, String, Bool, true, false, ◌&&◌, ◌||◌, is_some, Option, none, some,
  leb, ◌==◌, if◌then◌else◌,
}
use tokenweir.Contract.Values.{Value, none_value, int, as_str}
use tokenweir.Hook.Text.{is_empty_text}
use tokenweir.Orchestrator.Decimal.{decimal}
use tokenweir.Orchestrator.Phase.{
  PhaseKind, implementation, review, fix, kind_by_word, collapse, ParsedPhase, unrecognized,
  bad_occurrence, recognized, parse_phase,
}

-- `PhaseKind.value`
abbrev pub wire : PhaseKind → String
wire implementation = "implementation"
wire review = "review"
wire fix = "fix"

-- Why a producer is refused: each is a ValueError.
pub data Refused : Type 0 where
  bad_kind no_kind bad_occurrence_type occurrence_below_one : Refused
  bad_pricing_mode bad_phase_type blank_phase impossible_occurrence : Refused
  not_text blank_text : Refused

pub data Answer {ℓ} (A : Type ℓ) : Type ℓ where
  refusal : Refused → Answer A
  answer : A → Answer A

infixl 5 ◌>>=◌
abbrev pub ◌>>=◌ {ℓ κ} : {A : Type ℓ} {B : Type κ} → Answer A → (A → Answer B) → Answer B
refusal r >>= f = refusal r
answer a >>= f = f a

-- A phase as an argument: a member, or another value.
pub data PhaseArgument : Type 0 where
  member : PhaseKind → PhaseArgument
  value : Value → PhaseArgument

-- `s + t`
unfoldable pub joined : String → String → String
joined [] t = t
joined (c ∷ s) t = c ∷ joined s t

-- `f"{kind.value}-{occurrence}"`, or the kind alone
unfoldable pub label : PhaseKind → Option ℕ → String
unfolding decimal joined
label kind none = wire kind
label kind (some n) = joined (wire kind) ("-" ∷ decimal n)

-- what a parsed phase is to a consumer that has read this text
unfoldable pub consumed : String → ParsedPhase → String
unfolding label
consumed written unrecognized = written
consumed written (bad_occurrence kind) = written
consumed written (recognized kind occurrence) = label kind occurrence

-- the characters of `[1-9]`, and of a canonical label's end
unfoldable pub is_one_to_nine : Char → Bool
is_one_to_nine c = leb b'1' (code c) && leb (code c) b'9'

-- `$`: the end, or a line feed before it
unfoldable pub at_end : String → Bool
unfolding is_empty_text
at_end [] = true
at_end (c ∷ s) = code c == 0xa && is_empty_text s

module _ (digit : Char → Option ℕ) where
  -- `\d*$`
  unfoldable pub digits_to_end : String → Bool
  unfolding at_end
  digits_to_end [] = true
  digits_to_end (c ∷ s) = at_end (c ∷ s) || (is_some (digit c) && digits_to_end s)

  -- `(?:-[1-9]\d*)?$`
  unfoldable pub counted_end : String → Bool
  unfolding is_one_to_nine digits_to_end at_end
  counted_end (c ∷ d ∷ s) =
      at_end (c ∷ d ∷ s) || (code c == b'-' && is_one_to_nine d && digits_to_end s)
  counted_end s = at_end s

  -- the kind's name at the head of a text, and the rest of the pattern behind it
  unfoldable pub begins_label : String → String → Bool
  unfolding counted_end
  begins_label [] s = counted_end s
  begins_label (w ∷ word) [] = false
  begins_label (w ∷ word) (c ∷ s) = code w == code c && begins_label word s

  -- `_CANONICAL_RE.match`
  unfoldable pub matches_canonical : String → Bool
  unfolding begins_label
  matches_canonical s =
      begins_label "implementation" s || begins_label "review" s || begins_label "fix" s

  -- `is_canonical_phase`
  unfoldable pub is_canonical_phase : Option String → Bool
  unfolding matches_canonical
  is_canonical_phase none = false
  is_canonical_phase (some s) = matches_canonical s

-- the occurrence of `phase_label`
unfoldable pub counted_label : PhaseKind → Value → Answer String
unfolding label
counted_label kind none_value = answer (label kind none)
counted_label kind (int (pos zero)) = refusal occurrence_below_one
counted_label kind (int (pos (suc n))) = answer (label kind (some (suc n)))
counted_label kind (int (negsuc n)) = refusal occurrence_below_one
counted_label kind _ = refusal bad_occurrence_type

unfoldable pub label_of : Option PhaseKind → Value → Answer String
unfolding counted_label
label_of none occurrence = refusal no_kind
label_of (some kind) occurrence = counted_label kind occurrence

module _ (lower : String → String) where
  -- `PhaseKind.coerce`
  unfoldable pub coerce_kind : PhaseArgument → Answer (Option PhaseKind)
  unfolding kind_by_word collapse
  coerce_kind (member kind) = answer (some kind)
  coerce_kind (value none_value) = answer none
  coerce_kind (value v) = elim (as_str v) [
    | none ↦ refusal bad_kind
    | some s ↦ elim (kind_by_word (lower (collapse s))) [
      | none ↦ refusal bad_kind
      | some kind ↦ answer (some kind)
    ]
  ]

  -- `phase_label`
  unfoldable pub phase_label : PhaseArgument → Value → Answer String
  unfolding coerce_kind label_of
  phase_label kind occurrence = coerce_kind kind >>= λ resolved. label_of resolved occurrence

  module _ (digit : Char → Option ℕ) where
    -- `normalize_phase` of a collapsed text
    unfoldable pub normalized : String → Option String
    unfolding consumed parse_phase is_empty_text
    normalized s = if is_empty_text s then none else some (consumed s (parse_phase digit (lower s)))

    -- `normalize_phase`
    unfoldable pub normalize_phase : Option String → Option String
    unfolding normalized collapse
    normalize_phase none = none
    normalize_phase (some s) = normalized (collapse s)
