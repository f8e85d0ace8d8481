-- ===== src/Orchestrator/Tests.antt =====
-- Tables for ASCII, and the theorems at labels as they are written by hand.
use Prim.Native.Char.{Char, code}
use Prim.Native.String as T
use tokenweir.Prelude.{
  both, ◌-◌, pos, String, true, false, ◌&&◌, ◌≡◌, refl, ap, none, some, [], ◌∷◌, lookup, leb,
  if◌then◌else◌, arith,
}
use tokenweir.Contract.Values.{none_value, int, str, mode, subscription, coerce_mode}
use tokenweir.Hook.Text.{strip}
use tokenweir.Hook.Fields.{attribution_from_env}
use tokenweir.Hook.Attribution.{attribution_from_env-attribution_env}
use tokenweir.Orchestrator.Decimal.{char_at, ascii_digit, ascii_digit-IsDecimal}
use tokenweir.Orchestrator.Label.{
  refusal, impossible_occurrence, value, normalize_phase, phase_label, is_canonical_phase,
}
use tokenweir.Orchestrator.Block.{attribution_env}
use tokenweir.Orchestrator.Reading.{all_label, is_label_character, IsLower}
use tokenweir.Orchestrator.Canonical.{phase_label-normalize_phase}

abbrev lower_char : Char → Char
lower_char c =
    if leb b'A' (code c) && leb (code c) b'Z'
    then char_at (code c - b'A') "abcdefghijklmnopqrstuvwxyz"
    else c

abbrev lower : String → String
lower T.[] = T.[]
lower (T.◌∷◌ c s) = T.◌∷◌ (lower_char c) (lower s)

no_capital :
    (c : Char) → is_label_character c ≡ true → (leb b'A' (code c) && leb (code c) b'Z') ≡ false
unfolding is_label_character
no_capital c h = ground arith

lower_label : (s : String) → all_label s ≡ true → lower s ≡ s
unfolding all_label
lower_label T.[] h = refl
lower_label (T.◌∷◌ c s) h =
    let (first, rest) = both _ _ h in
    rw (no_capital c first) (ap (λ t. T.◌∷◌ c t) (lower_label s rest))

lower-IsLower : IsLower lower
lower-IsLower = record { lower_label = lower_label }

ordinal_read : normalize_phase lower ascii_digit (some " 1st  Review") ≡ some "review-1"
unfolding normalize_phase
ordinal_read = refl

unknown_kept : normalize_phase lower ascii_digit (some "Deploy_step") ≡ some "Deploy step"
unfolding normalize_phase
unknown_kept = refl

impossible :
    attribution_env lower ascii_digit none_value (value (str "review 0")) none_value none_value
    ≡ refusal impossible_occurrence
unfolding attribution_env
impossible = refl

-- `is_canonical_phase` takes a line feed for the end.
line_feed : is_canonical_phase ascii_digit (some "review-1\n") ≡ true
unfolding is_canonical_phase
line_feed = refl

phase_label-normalize_phase_example :
    (is_canonical_phase ascii_digit (some "review-12") ≡ true)
    × (normalize_phase lower ascii_digit (some "review-12") ≡ some "review-12")
unfolding phase_label
phase_label-normalize_phase_example =
    phase_label-normalize_phase ascii_digit ascii_digit-IsDecimal lower lower-IsLower
      (value (str "Review")) (int (pos 12)) "review-12" refl

attribution_from_env-attribution_env_example :
    attribution_from_env lower ascii_digit (λ name. lookup name (
      ("MADO_ISSUE_KEY", "TOKWEIR-8")
      ∷ ("MADO_PHASE", "fix-2")
      ∷ ("MADO_STREAM_ID", "")
      ∷ ("MADO_PRICING_MODE", "subscription")
      ∷ []))
    ≡ record {
      workload = some "TOKWEIR-8";
      queue = some "fix-2";
      parent_request_id = none;
      pricing_mode = subscription;
    }
unfolding attribution_env normalize_phase strip coerce_mode
attribution_from_env-attribution_env_example =
    attribution_from_env-attribution_env lower ascii_digit ascii_digit-IsDecimal lower-IsLower
      (str " TOKWEIR-8 ") (value (str "2nd bug fix")) none_value (mode subscription) _ refl
