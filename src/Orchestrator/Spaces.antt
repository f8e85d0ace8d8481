-- ===== src/Orchestrator/Spaces.antt =====
-- A collapsed text: what it looks like, and that it collapses to itself.
use Prim.Native.Char.{Char, code}
use Prim.Native.String.{[], ◌∷◌}
use text.Mathlib.TextEquality.{Char-path}
use tokenweir.Prelude.{
  String, Bool, true, false, ◌&&◌, ◌||◌, not, ◌≡◌, refl, ◌∙◌, ap, sym, subst, inl, inr, Bool-cases,
  ◌==◌, if◌then◌else◌, arith,
}
use tokenweir.Hook.Text.{is_space, lstrip, rstrip, strip, is_empty_text}
use tokenweir.Orchestrator.Phase.{fold_separator, fold_separators, squeeze, collapse}

-- a separator that `_collapse` folds
unfoldable pub is_separator : Char → Bool
is_separator c = code c == b'_' || code c == b'#' || is_space c

-- single spaces between other characters, behind a space (or at the start) or not
unfoldable pub tidy : Bool → String → Bool
tidy gap [] = not gap
tidy gap (c ∷ s) =
    if is_separator c then (code c == b' ' && not gap && tidy true s) else tidy false s

lstrip-squeeze_run : (s : String) → lstrip (squeeze true s) ≡ squeeze true s
unfolding lstrip squeeze
lstrip-squeeze_run [] = refl
lstrip-squeeze_run (c ∷ s) = elim (Bool-cases (is_space c)) [
  | inl e ↦ rw e (lstrip-squeeze_run s)
  | inr e ↦ rw e (rw e refl)
]

lstrip-squeeze : (s : String) → lstrip (squeeze false s) ≡ squeeze true s
unfolding lstrip squeeze is_space
lstrip-squeeze [] = refl
lstrip-squeeze (c ∷ s) = elim (Bool-cases (is_space c)) [
  | inl e ↦ rw e (lstrip-squeeze_run s)
  | inr e ↦ rw e (rw e refl)
]

space-is_space : is_space " " ≡ true
unfolding is_space
space-is_space = refl

space-is_separator : is_separator " " ≡ true
unfolding is_separator is_space
space-is_separator = refl

fold_separator_space : (c : Char) → is_separator c ≡ true → is_space (fold_separator c) ≡ true
unfolding is_separator fold_separator
fold_separator_space c h = elim (Bool-cases (code c == b'_' || code c == b'#')) [
  | inl e ↦ rw e space-is_space
  | inr e ↦ rw e (ground arith)
]

pub fold_separator_other :
    (c : Char) → is_separator c ≡ false → (fold_separator c ≡ c) × (is_space c ≡ false)
unfolding is_separator fold_separator
fold_separator_other c h = elim (Bool-cases (code c == b'_' || code c == b'#')) [
  | inl e ↦ absurd (ground arith)
  | inr e ↦ (rw e refl, ground arith)
]

squeeze_separator :
    (gap : Bool) (c : Char) (s : String)
    → is_separator c ≡ true
    → squeeze gap (fold_separators (c ∷ s))
      ≡ (if gap then squeeze true (fold_separators s) else " " ∷ squeeze true (fold_separators s))
unfolding squeeze fold_separators
squeeze_separator gap c s h = rw (fold_separator_space c h) refl

squeeze_other :
    (gap : Bool) (c : Char) (s : String)
    → is_separator c ≡ false
    → squeeze gap (fold_separators (c ∷ s)) ≡ c ∷ squeeze false (fold_separators s)
unfolding squeeze fold_separators
squeeze_other gap c s h =
    let (same_char, plain) = fold_separator_other c h in rw same_char (rw plain refl)

abbrev pub done : Bool → String → Bool
done gap s = is_empty_text s || tidy gap s

done_no_gap : (t : String) → done false t ≡ true → tidy false t ≡ true
unfolding tidy is_empty_text
done_no_gap [] h = refl
done_no_gap (c ∷ t) h = h

trim_separator : (s : String) → done true (rstrip s) ≡ true → done false (rstrip (" " ∷ s)) ≡ true
unfolding rstrip tidy is_empty_text
trim_separator s h = ground (arith, space-is_space, space-is_separator)

trim_gap :
    (gap : Bool) (s : String)
    → done true (rstrip s) ≡ true
    → done gap (rstrip (if gap then s else " " ∷ s)) ≡ true
trim_gap true s h = h
trim_gap false s h = trim_separator s h

trim_other :
    (gap : Bool) (c : Char) (s : String)
    → is_separator c ≡ false
    → done false (rstrip s) ≡ true
    → done gap (rstrip (c ∷ s)) ≡ true
unfolding rstrip tidy is_empty_text
trim_other gap c s h d = rw ((fold_separator_other c h).1) (rw h (done_no_gap _ d))

trimmed_tidy :
    (gap : Bool) (s : String) → done gap (rstrip (squeeze gap (fold_separators s))) ≡ true
unfolding rstrip squeeze fold_separators is_empty_text
trimmed_tidy gap [] = refl
trimmed_tidy gap (c ∷ s) = elim (Bool-cases (is_separator c)) [
  | inl e ↦
      subst (λ t. done gap (rstrip t) ≡ true) (sym (squeeze_separator gap c s e))
        (trim_gap gap (squeeze true (fold_separators s)) (trimmed_tidy true s))
  | inr e ↦
      subst (λ t. done gap (rstrip t) ≡ true) (sym (squeeze_other gap c s e))
        (trim_other gap c (squeeze false (fold_separators s)) e (trimmed_tidy false s))
]

-- A collapsed text is empty, or without separators but for single spaces between other characters.
pub collapse_tidy : (s : String) → done true (collapse s) ≡ true
unfolding collapse strip
collapse_tidy s =
    subst (λ t. done true (rstrip t) ≡ true) (sym (lstrip-squeeze (fold_separators s)))
      (trimmed_tidy true s)

space_of :
    (gap : Bool) (c : Char) (s : String)
    → (code c == b' ' && not gap && tidy true s) ≡ true
    → (code c ≡ b' ') × (gap ≡ false) × (tidy true s ≡ true)
space_of gap c s h = ground arith

tidy_nonempty : (s : String) → tidy true s ≡ true → is_empty_text s ≡ false
unfolding tidy is_empty_text
tidy_nonempty [] h = absurd (ground arith)
tidy_nonempty (c ∷ s) h = refl

pub tidy_separator :
    (gap : Bool) (c : Char) (s : String)
    → is_separator c ≡ true
    → tidy gap (c ∷ s) ≡ true
    → (c ≡ " ") × (gap ≡ false) × (tidy true s ≡ true)
unfolding tidy
tidy_separator gap c s e h =
    let facts = space_of gap c s (
      subst (λ t. (if t then (code c == b' ' && not gap && tidy true s) else tidy false s) ≡ true) e
        h) in
    (Char-path c " " facts.0, facts.1, facts.2)

tidy_other :
    (gap : Bool) (c : Char) (s : String)
    → is_separator c ≡ false
    → tidy gap (c ∷ s) ≡ true
    → tidy false s ≡ true
unfolding tidy
tidy_other gap c s e h =
    subst (λ t. (if t then (code c == b' ' && not gap && tidy true s) else tidy false s) ≡ true) e h

fold_separator-space : fold_separator " " ≡ " "
unfolding fold_separator
fold_separator-space = refl

-- what `collapse` does to such a text, one step at a time
fold_separators-tidy : (gap : Bool) (s : String) → tidy gap s ≡ true → fold_separators s ≡ s
unfolding fold_separators
fold_separators-tidy gap [] h = refl
fold_separators-tidy gap (c ∷ s) h = elim (Bool-cases (is_separator c)) [
  | inl e ↦
      let (space, no_gap, rest) = tidy_separator gap c s e h in
      rw space (rw fold_separator-space (ap (λ t. " " ∷ t) (fold_separators-tidy true s rest)))
  | inr e ↦
      let (plain, _) = fold_separator_other c e in
      rw plain (ap (λ t. c ∷ t) (fold_separators-tidy false s (tidy_other gap c s e h)))
]

squeeze-tidy : (gap : Bool) (s : String) → tidy gap s ≡ true → squeeze gap s ≡ s
unfolding squeeze
squeeze-tidy gap [] h = refl
squeeze-tidy gap (c ∷ s) h = elim (Bool-cases (is_separator c)) [
  | inl e ↦
      let (space, no_gap, rest) = tidy_separator gap c s e h in
      rw space (rw no_gap (rw space-is_space (ap (λ t. " " ∷ t) (squeeze-tidy true s rest))))
  | inr e ↦
      let (_, plain) = fold_separator_other c e in
      rw plain (ap (λ t. c ∷ t) (squeeze-tidy false s (tidy_other gap c s e h)))
]

pub rstrip-tidy : (gap : Bool) (s : String) → tidy gap s ≡ true → rstrip s ≡ s
unfolding rstrip
rstrip-tidy gap [] h = refl
rstrip-tidy gap (c ∷ s) h = elim (Bool-cases (is_separator c)) [
  | inl e ↦
      let (space, no_gap, rest) = tidy_separator gap c s e h in
      rw (rstrip-tidy true s rest) (rw (tidy_nonempty s rest) (ground arith))
  | inr e ↦
      let (_, plain) = fold_separator_other c e in
      rw plain (ap (λ t. c ∷ t) (rstrip-tidy false s (tidy_other gap c s e h)))
]

collapse-squeeze : (s : String) → collapse s ≡ rstrip (squeeze true (fold_separators s))
unfolding collapse strip
collapse-squeeze s = ap rstrip (lstrip-squeeze (fold_separators s))

collapse_nothing : collapse [] ≡ []
unfolding collapse strip squeeze fold_separators lstrip rstrip
collapse_nothing = refl

-- A text that is empty or tidy collapses to itself.
pub done-collapse : (s : String) → done true s ≡ true → collapse s ≡ s
unfolding tidy is_empty_text
done-collapse [] h = collapse_nothing
done-collapse (c ∷ s) h =
    collapse-squeeze (c ∷ s)
    ∙ (ap (λ t. rstrip (squeeze true t)) (fold_separators-tidy true (c ∷ s) h)
        ∙ (ap rstrip (squeeze-tidy true (c ∷ s) h) ∙ rstrip-tidy true (c ∷ s) h))

-- Collapsing twice is collapsing once.
pub collapse-collapse : (s : String) → collapse (collapse s) ≡ collapse s
collapse-collapse s = done-collapse (collapse s) (collapse_tidy s)
