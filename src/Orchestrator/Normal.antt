-- ===== src/Orchestrator/Normal.antt =====
-- The normal form of a phase: labels are their own, and normalizing twice is normalizing once.
use Prim.Native.Char.{Char}
use Prim.Native.String.{[], ◌∷◌}
use tokenweir.Prelude.{
  ℕ, zero, suc, String, Bool, true, false, ◌≡◌, refl, inl, inr, Bool-cases, Option-cases, Option,
  none, some, arith,
}
use tokenweir.Hook.Text.{is_empty_text}
use tokenweir.Orchestrator.Decimal.{IsDecimal}
use tokenweir.Orchestrator.Phase.{
  PhaseKind, kind_by_word, collapse, ParsedPhase, unrecognized, bad_occurrence, recognized,
  occurrence_of, leading_ordinal, trailing_number, trailing_kind, parse_counted, parse_phase,
  ordinal_kind, after_gap, english_ordinal, after_suffix, leading_digits,
}
use tokenweir.Orchestrator.Label.{label, consumed, normalized, normalize_phase}
use tokenweir.Orchestrator.Spaces.{done-collapse, collapse-collapse}
use tokenweir.Orchestrator.Reading.{
  all_label-done, label-all_label, IsLower, IsOccurrence, parse_phase-label, label-is_empty_text,
}

-- what a parse may have found: no occurrence, or one that is positive
abbrev sound : ParsedPhase → Bool
sound (recognized kind (some zero)) = false
sound _ = true

occurrence_of-sound : (kind : Option PhaseKind) (n : ℕ) → sound (occurrence_of kind n) ≡ true
unfolding occurrence_of
occurrence_of-sound none n = refl
occurrence_of-sound (some kind) zero = refl
occurrence_of-sound (some kind) (suc n) = ground arith

module _ (digit : Char → Option ℕ) where
  ordinal_kind-sound :
      (n : ℕ) (r : Option (String × String)) → sound (ordinal_kind digit n r) ≡ true
  unfolding ordinal_kind
  ordinal_kind-sound n none = refl
  ordinal_kind-sound n (some (suffix, s)) = elim (Option-cases (after_gap s)) [
    | inl e ↦ rw (sound, ordinal_kind, e) refl
    | inr (word, e) ↦ elim (Option-cases (english_ordinal n suffix)) [
      | inl f ↦ rw (sound, ordinal_kind, e) (rw (f) refl)
      | inr (m, f) ↦ rw (sound, ordinal_kind, e) (rw f (occurrence_of-sound (kind_by_word word) m))
    ]
  ]

  leading_ordinal-sound : (s : String) → sound (leading_ordinal digit s) ≡ true
  unfolding leading_ordinal
  leading_ordinal-sound [] = refl
  leading_ordinal-sound (c ∷ s) = elim (Option-cases (digit c)) [
    | inl e ↦ rw (sound, leading_ordinal, e) refl
    | inr (d, e) ↦
        rw (sound, leading_ordinal, e)
          (ordinal_kind-sound (leading_digits digit d s).0
            (after_suffix (leading_digits digit d s).1))
  ]

  trailing_kind-sound : (r : Option (String × ℕ)) → sound (trailing_kind digit r) ≡ true
  unfolding trailing_kind
  trailing_kind-sound none = refl
  trailing_kind-sound (some (word, n)) = occurrence_of-sound (kind_by_word word) n

  counted_sound :
      (s : String) (p : ParsedPhase)
      → sound p ≡ true
      → leading_ordinal digit s ≡ p
      → sound (parse_counted digit s) ≡ true
  unfolding parse_counted
  counted_sound s unrecognized h e =
      rw (sound, parse_counted, e) (trailing_kind-sound (trailing_number digit s))
  counted_sound s (bad_occurrence kind) h e = rw (sound, parse_counted, e) refl
  counted_sound s (recognized kind n) h e = rw (sound, parse_counted, e) h

  parse_phase-sound : (s : String) → sound (parse_phase digit s) ≡ true
  unfolding parse_phase
  parse_phase-sound s = elim (Option-cases (kind_by_word s)) [
    | inl e ↦ rw (sound, parse_phase, e) (counted_sound s _ (leading_ordinal-sound s) refl)
    | inr (kind, e) ↦ rw (sound, parse_phase, e) refl
  ]

  sound-IsOccurrence :
      (kind : PhaseKind) (n : Option ℕ) → sound (recognized kind n) ≡ true → IsOccurrence n
  sound-IsOccurrence kind none h = tt
  sound-IsOccurrence kind (some zero) h = absurd (ground arith)
  sound-IsOccurrence kind (some (suc n)) h = omega arith

  module _ (law : IsDecimal digit) (lower : String → String) (low : IsLower lower) where
    -- A label is its own normal form.
    pub normalize_phase-label :
        (kind : PhaseKind) (n : Option ℕ)
        → IsOccurrence n
        → normalize_phase lower digit (some (label kind n)) ≡ some (label kind n)
    unfolding normalize_phase normalized consumed
    normalize_phase-label kind n h =
        let fixed = label-all_label kind n in
        rw (done-collapse (label kind n) (all_label-done (label kind n) fixed)) (
          rw (label-is_empty_text kind n) (
            rw (low.lower_label (label kind n) fixed)
              (rw (parse_phase-label digit law kind n h) refl)))

    -- the normal form of what a parse has made of a collapsed text
    consumed_normal :
        (s : String) (p : ParsedPhase)
        → collapse s ≡ s
        → is_empty_text s ≡ false
        → sound p ≡ true
        → parse_phase digit (lower s) ≡ p
        → normalize_phase lower digit (some (consumed s p)) ≡ some (consumed s p)
    unfolding consumed normalize_phase normalized
    consumed_normal s unrecognized c f h e = rw c (rw f (rw e refl))
    consumed_normal s (bad_occurrence kind) c f h e = rw c (rw f (rw e refl))
    consumed_normal s (recognized kind n) c f h e =
        normalize_phase-label kind n (sound-IsOccurrence kind n h)

    -- `normalize_phase` is idempotent: what it returns, a label or a text that it does not know, is
    -- left as it is when it is read again. The tables of digits and letter case are as they should be
    -- on ASCII.
    pub normalize_phase-normalize_phase :
        (written : Option String)
        → normalize_phase lower digit (normalize_phase lower digit written)
          ≡ normalize_phase lower digit written
    unfolding normalize_phase normalized
    normalize_phase-normalize_phase none = refl
    normalize_phase-normalize_phase (some s) = elim (Bool-cases (is_empty_text (collapse s))) [
      | inl e ↦ rw e refl
      | inr e ↦ rw e (
          consumed_normal (collapse s) (parse_phase digit (lower (collapse s)))
            (collapse-collapse s) e (parse_phase-sound (lower (collapse s))) refl)
    ]
