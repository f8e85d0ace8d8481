-- ===== src/Orchestrator/Block.antt =====
-- orchestrator.py: `_required_text` and `attribution_env`.
use Prim.Native.Char.{Char}
use Prim.Native.String.{String}
use tokenweir.Prelude.{
  ℕ, Bool, true, false, Option, none, some, [], ◌∷◌, Dict, get_or, if◌then◌else◌,
}
use tokenweir.Contract.Values as V
use tokenweir.Contract.Values.{
  Value, none_value, as_str, has_non_blank, PricingMode, coerce_mode, Result, err, ok,
}
use tokenweir.Hook.Text.{strip, is_empty_text}
use tokenweir.Orchestrator.Phase.{
  collapse, ParsedPhase, unrecognized, bad_occurrence, recognized, parse_phase,
}
use tokenweir.Orchestrator.Label.{
  wire, bad_pricing_mode, bad_phase_type, blank_phase, impossible_occurrence, not_text, blank_text,
  Answer, refusal, answer, ◌>>=◌, PhaseArgument, member, value, normalize_phase,
}

-- `_required_text`
unfoldable pub text_or_refusal : Option String → Answer String
unfolding strip has_non_blank
text_or_refusal none = refusal not_text
text_or_refusal (some s) = if has_non_blank s then answer (strip s) else refusal blank_text

unfoldable pub required_text : Value → Answer String
unfolding text_or_refusal
required_text none_value = answer ""
required_text v = text_or_refusal (as_str v)

-- `PricingMode.coerce(pricing_mode)`, its ValueError an answer of this module
unfoldable pub mode_answer : Result (Option PricingMode) → Answer (Option PricingMode)
mode_answer (err e) = refusal bad_pricing_mode
mode_answer (ok m) = answer m

-- `mode.value if mode is not None else ""`
abbrev pub mode_text : Option PricingMode → String
mode_text none = ""
mode_text (some m) = V.value m

-- the phase is a kind whose occurrence is none
abbrev pub is_impossible : ParsedPhase → Bool
is_impossible (bad_occurrence kind) = true
is_impossible unrecognized = false
is_impossible (recognized kind n) = false

module _ (lower : String → String) (digit : Char → Option ℕ) where
  -- the checks of a phase that is a text, and `label or ""`
  unfoldable pub written_phase : String → Answer String
  unfolding collapse parse_phase normalize_phase is_empty_text
  written_phase s =
      if is_empty_text (collapse s)
      then refusal blank_phase
      else if is_impossible (parse_phase digit (lower (collapse s)))
      then refusal impossible_occurrence
      else answer (get_or "" (normalize_phase lower digit (some s)))

  unfoldable pub phase_or_refusal : Option String → Answer String
  unfolding written_phase
  phase_or_refusal none = refusal bad_phase_type
  phase_or_refusal (some s) = written_phase s

  -- the phase as `attribution_env` exports it
  unfoldable pub exported_phase : PhaseArgument → Answer String
  unfolding phase_or_refusal
  exported_phase (member kind) = answer (wire kind)
  exported_phase (value none_value) = answer ""
  exported_phase (value v) = phase_or_refusal (as_str v)

  -- `attribution_env`
  unfoldable pub attribution_env : Value → PhaseArgument → Value → Value → Answer (Dict String)
  unfolding exported_phase required_text mode_answer coerce_mode
  attribution_env issue_key phase stream_id pricing_mode = do
    mode ← mode_answer (coerce_mode pricing_mode)
    label ← exported_phase phase
    issue ← required_text issue_key
    stream ← required_text stream_id
    answer (
        ("MADO_ISSUE_KEY", issue)
        ∷ ("MADO_PHASE", label)
        ∷ ("MADO_STREAM_ID", stream)
        ∷ ("MADO_PRICING_MODE", mode_text mode)
        ∷ [])
