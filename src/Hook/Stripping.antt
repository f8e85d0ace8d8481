-- ===== src/Hook/Stripping.antt =====
-- `str.strip` twice, on a text with something in it, and on a collapsed phase.
use Prim.Native.Char.{Char}
use Prim.Native.String.{[], ◌∷◌}
use tokenweir.Prelude.{
  String, Bool, true, false, ◌&&◌, ◌||◌, not, ◌≡◌, refl, ◌∙◌, ap, subst, inl, inr, Bool-cases, some,
  arith,
}
use tokenweir.Contract.Values.{has_non_blank, is_blank_character}
use tokenweir.Hook.Text.{is_space, lstrip, rstrip, strip, is_empty_text, stripped}
use tokenweir.Orchestrator.Spaces.{
  is_separator, tidy, done, tidy_separator, fold_separator_other, rstrip-tidy,
}

-- a text that begins with white space
unfoldable begins_space : String → Bool
begins_space [] = false
begins_space (c ∷ s) = is_space c

lstrip-begins_space : (s : String) → begins_space (lstrip s) ≡ false
unfolding begins_space lstrip
lstrip-begins_space [] = refl
lstrip-begins_space (c ∷ s) = elim (Bool-cases (is_space c)) [
  | inl e ↦ rw e (lstrip-begins_space s)
  | inr e ↦ rw e e
]

begins_space-lstrip : (s : String) → begins_space s ≡ false → lstrip s ≡ s
unfolding begins_space lstrip
begins_space-lstrip [] h = refl
begins_space-lstrip (c ∷ s) h = rw h refl

rstrip-begins_space : (s : String) → begins_space s ≡ false → begins_space (rstrip s) ≡ false
unfolding begins_space rstrip
rstrip-begins_space [] h = refl
rstrip-begins_space (c ∷ s) h = rw h h

rstrip_step :
    (c : Char) (s : String)
    → rstrip s ≡ s
    → (is_space c && is_empty_text s) ≡ false
    → rstrip (c ∷ s) ≡ c ∷ s
unfolding rstrip
rstrip_step c s h e = rw h (rw e refl)

rstrip-rstrip : (s : String) → rstrip (rstrip s) ≡ rstrip s
unfolding rstrip
rstrip-rstrip [] = refl
rstrip-rstrip (c ∷ s) = elim (Bool-cases (is_space c && is_empty_text (rstrip s))) [
  | inl e ↦ rw e refl
  | inr e ↦ rw e (rstrip_step c (rstrip s) (rstrip-rstrip s) e)
]

pub strip-strip : (s : String) → strip (strip s) ≡ strip s
unfolding strip
strip-strip s =
    ap rstrip (
      begins_space-lstrip (rstrip (lstrip s))
        (rstrip-begins_space (lstrip s) (lstrip-begins_space s)))
    ∙ rstrip-rstrip (lstrip s)

space_blank : (c : Char) → is_space c ≡ true → is_blank_character c ≡ true
unfolding is_space
space_blank c h = ground arith

lstrip-has_non_blank : (s : String) → has_non_blank s ≡ true → has_non_blank (lstrip s) ≡ true
unfolding has_non_blank lstrip
lstrip-has_non_blank [] h = h
lstrip-has_non_blank (c ∷ s) h = elim (Bool-cases (is_space c)) [
  | inl e ↦
      rw e (
        lstrip-has_non_blank s (subst (λ b. (not b || has_non_blank s) ≡ true) (space_blank c e) h))
  | inr e ↦ rw e h
]

rstrip-has_non_blank : (s : String) → has_non_blank s ≡ true → is_empty_text (rstrip s) ≡ false
unfolding has_non_blank rstrip is_empty_text
rstrip-has_non_blank [] h = absurd (ground arith)
rstrip-has_non_blank (c ∷ s) h = elim (Bool-cases (is_space c)) [
  | inl e ↦ rw e (
      rw
        (rstrip-has_non_blank s
          (subst (λ b. (not b || has_non_blank s) ≡ true) (space_blank c e) h))
        refl)
  | inr e ↦ rw e refl
]

-- A text with a character that is not blank is not empty when it is stripped.
pub has_non_blank-strip : (s : String) → has_non_blank s ≡ true → is_empty_text (strip s) ≡ false
unfolding strip
has_non_blank-strip s h = rstrip-has_non_blank (lstrip s) (lstrip-has_non_blank s h)

tidy-begins_space : (s : String) → tidy true s ≡ true → begins_space s ≡ false
unfolding begins_space
tidy-begins_space [] h = refl
tidy-begins_space (c ∷ s) h = elim (Bool-cases (is_separator c)) [
  | inl e ↦ let (_, no_gap, _) = tidy_separator true c s e h in absurd (ground arith)
  | inr e ↦ (fold_separator_other c e).1
]

-- A collapsed text has nothing to strip.
pub done-strip : (s : String) → done true s ≡ true → strip s ≡ s
unfolding strip is_empty_text tidy lstrip rstrip
done-strip [] h = refl
done-strip (c ∷ s) h =
    ap rstrip (begins_space-lstrip (c ∷ s) (tidy-begins_space (c ∷ s) h))
    ∙ rstrip-tidy true (c ∷ s) h

pub stripped_lem : (s : String) → strip s ≡ s → is_empty_text s ≡ false → stripped s ≡ some s
unfolding stripped
stripped_lem s h e = rw h (rw e refl)
