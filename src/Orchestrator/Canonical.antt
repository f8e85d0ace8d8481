-- ===== src/Orchestrator/Canonical.antt =====
-- What `phase_label` makes is canonical.
use Prim.Native.Char.{Char}
use Prim.Native.String.{[], ◌∷◌}
use tokenweir.Prelude.{
  or_true, ℕ, zero, suc, ◌/◌, ◌%◌, ◌<◌, pos, negsuc, String, true, ◌≡◌, refl, inl, inr, Bool-cases,
  Option, none, some, ltb, ltb→lt, arith,
}
use tokenweir.Contract.Values.{Value, none_value, bool, int, float, str, mode, other}
use tokenweir.Hook.Text.{is_empty_text}
use tokenweir.Orchestrator.Decimal.{char_at, digit_char, digits_on, decimal, IsDecimal}
use tokenweir.Orchestrator.Phase.{PhaseKind, implementation, review, fix}
use tokenweir.Orchestrator.Label.{
  joined, label, Answer, refusal, answer, ◌>>=◌, PhaseArgument, normalize_phase, is_canonical_phase,
  matches_canonical, begins_label, counted_end, digits_to_end, at_end, is_one_to_nine, phase_label,
  label_of, counted_label, coerce_kind,
}
use tokenweir.Orchestrator.Reading.{IsLower, IsOccurrence}
use tokenweir.Orchestrator.Normal.{normalize_phase-label}

positive_digit : (n : ℕ) → 0 < n → n < 10 → is_one_to_nine (digit_char n) ≡ true
unfolding is_one_to_nine digit_char char_at
positive_digit zero h k = absurd (omega arith)
positive_digit (suc zero) h k = refl
positive_digit (suc (suc zero)) h k = refl
positive_digit (suc (suc (suc zero))) h k = refl
positive_digit (suc (suc (suc (suc zero)))) h k = refl
positive_digit (suc (suc (suc (suc (suc zero))))) h k = refl
positive_digit (suc (suc (suc (suc (suc (suc zero)))))) h k = refl
positive_digit (suc (suc (suc (suc (suc (suc (suc zero))))))) h k = refl
positive_digit (suc (suc (suc (suc (suc (suc (suc (suc zero)))))))) h k = refl
positive_digit (suc (suc (suc (suc (suc (suc (suc (suc (suc zero))))))))) h k = refl
positive_digit (suc (suc (suc (suc (suc (suc (suc (suc (suc (suc n)))))))))) h k =
    absurd (omega arith)

module _ (digit : Char → Option ℕ) (law : IsDecimal digit) where
  counted_digit :
      (n : ℕ) (out : String)
      → 0 < n
      → n < 10
      → digits_to_end digit out ≡ true
      → counted_end digit ("-" ∷ digit_char n ∷ out) ≡ true
  unfolding counted_end at_end is_empty_text
  counted_digit n out h k d = rw (positive_digit n h k) d

  more_digits :
      (d : ℕ) (out : String)
      → d < 10
      → digits_to_end digit out ≡ true
      → digits_to_end digit (digit_char d ∷ out) ≡ true
  unfolding digits_to_end
  more_digits d out h k = rw (law.digit_ascii d h) (rw k (or_true _))

  counted_end-digits_on :
      (fuel n : ℕ) (out : String)
      → 0 < n
      → n < fuel
      → digits_to_end digit out ≡ true
      → counted_end digit ("-" ∷ digits_on fuel n out) ≡ true
  unfolding digits_on
  counted_end-digits_on zero n out h k d = absurd (omega arith)
  counted_end-digits_on (suc fuel) n out h k d = elim (Bool-cases (ltb n 10)) [
    | inl e ↦ rw e (counted_digit n out h (ltb→lt n 10 e) d)
    | inr e ↦ rw e (
        counted_end-digits_on fuel (n / 10) (digit_char (n % 10) ∷ out) (ground arith)
          (ground arith) (more_digits (n % 10) out (omega arith) d))
  ]

  counted_end-decimal : (n : ℕ) → 0 < n → counted_end digit ("-" ∷ decimal n) ≡ true
  unfolding decimal digits_to_end
  counted_end-decimal n h = counted_end-digits_on (suc n) n [] h (omega arith) refl

  -- A label is canonical.
  pub label-is_canonical_phase :
      (kind : PhaseKind) (n : Option ℕ)
      → IsOccurrence n
      → is_canonical_phase digit (some (label kind n)) ≡ true
  unfolding is_canonical_phase matches_canonical begins_label label joined counted_end at_end
      is_empty_text
  label-is_canonical_phase implementation none h = refl
  label-is_canonical_phase review none h = refl
  label-is_canonical_phase fix none h = refl
  label-is_canonical_phase implementation (some n) h = rw (counted_end-decimal n h) refl
  label-is_canonical_phase review (some n) h = rw (counted_end-decimal n h) refl
  label-is_canonical_phase fix (some n) h = rw (counted_end-decimal n h) refl

  -- what a producer's label is
  abbrev IsLabel : String → Type 0
  IsLabel l = (kind : PhaseKind) × (n : Option ℕ) × IsOccurrence n × (l ≡ label kind n)

  counted_label-IsLabel :
      (kind : PhaseKind) (v : Value) (l : String) → counted_label kind v ≡ answer l → IsLabel l
  unfolding counted_label
  counted_label-IsLabel kind none_value l h = (kind, none, tt, cc h)
  counted_label-IsLabel kind (int (pos (suc n))) l h = (kind, some (suc n), omega arith, cc h)
  counted_label-IsLabel kind (int (pos zero)) l h = absurd (cc h)
  counted_label-IsLabel kind (int (negsuc n)) l h = absurd (cc h)
  counted_label-IsLabel kind (bool b) l h = absurd (cc h)
  counted_label-IsLabel kind (float f) l h = absurd (cc h)
  counted_label-IsLabel kind (str s) l h = absurd (cc h)
  counted_label-IsLabel kind (mode m) l h = absurd (cc h)
  counted_label-IsLabel kind other l h = absurd (cc h)

  coerced-IsLabel :
      (r : Answer (Option PhaseKind)) (v : Value) (l : String)
      → (r >>= λ resolved. label_of resolved v) ≡ answer l
      → IsLabel l
  unfolding label_of
  coerced-IsLabel (refusal e) v l h = absurd (cc h)
  coerced-IsLabel (answer none) v l h = absurd (cc h)
  coerced-IsLabel (answer (some kind)) v l h = counted_label-IsLabel kind v l h

  -- What `phase_label` returns is canonical, and `normalize_phase` leaves it as it is, with
  -- tables of digits and letter case that are as they should be on ASCII.
  pub phase_label-normalize_phase :
      (lower : String → String)
      → IsLower lower
      → (kind : PhaseArgument) (occurrence : Value) (l : String)
      → phase_label lower kind occurrence ≡ answer l
      → (is_canonical_phase digit (some l) ≡ true) × (normalize_phase lower digit (some l) ≡ some l)
  unfolding phase_label
  phase_label-normalize_phase lower low kind occurrence l h =
      let (k, n, positive, p) = coerced-IsLabel (coerce_kind lower kind) occurrence l h in
      (
        rw p (label-is_canonical_phase k n positive),
        rw p (normalize_phase-label digit law lower low k n positive),
      )
