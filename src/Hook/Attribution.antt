-- ===== src/Hook/Attribution.antt =====
-- What the orchestrator exports is what the hook reads back.
use Prim.Native.Char.{Char}
use Prim.Native.String.{String}
use tokenweir.Prelude.{
  ℕ, Bool, true, false, ◌≡◌, refl, ◌∙◌, ap, sym, Option, none, some, [], ◌∷◌, Dict, lookup, get_or,
  if◌then◌else◌,
}
use tokenweir.Contract.Values.{
  Value, none_value, bool, int, float, str, mode, other, as_str, is_blank_character, has_non_blank,
  PricingMode, api_metered, subscription, coerce_mode, Result, err, ok,
}
use tokenweir.Contract.Values as V
use tokenweir.Hook.Text.{is_space, lstrip, rstrip, strip, stripped, is_empty_text}
use tokenweir.Hook.Fields.{
  env_value, Attribution, mode_or_subscription, declared_mode, attribution_from_env,
}
use tokenweir.Hook.Stripping.{strip-strip, has_non_blank-strip, done-strip, stripped_lem}
use tokenweir.Orchestrator.Decimal.{IsDecimal}
use tokenweir.Orchestrator.Phase.{
  PhaseKind, collapse, ParsedPhase, unrecognized, bad_occurrence, recognized,
}
use tokenweir.Orchestrator.Label.{
  wire, label, consumed, Refused, Answer, refusal, answer, ◌>>=◌, PhaseArgument, member, value,
  normalize_phase, normalized,
}
use tokenweir.Orchestrator.Block.{
  required_text, text_or_refusal, mode_answer, mode_text, written_phase, phase_or_refusal,
  exported_phase, attribution_env,
}
use tokenweir.Orchestrator.Spaces.{done, collapse_tidy}
use tokenweir.Orchestrator.Reading.{IsLower, all_label-done, label-all_label, label-is_empty_text}
use tokenweir.Orchestrator.Normal.{normalize_phase-label, normalize_phase-normalize_phase}

-- a text as its producer means it: none, or without the space around it
abbrev pub meant : Value → Option String
meant (str s) = some (strip s)
meant (mode m) = some (V.value m)
meant _ = none

-- a phase as its producer means it
abbrev pub meant_phase : (Option String → Option String) → PhaseArgument → Option String
meant_phase normal (member kind) = some (wire kind)
meant_phase normal (value v) = normal (as_str v)

-- the mode that a producer asks for
abbrev pub meant_mode : Result (Option PricingMode) → PricingMode
meant_mode (ok none) = subscription
meant_mode (ok (some m)) = m
meant_mode (err e) = subscription

nothing_stripped : stripped "" ≡ none
unfolding stripped strip lstrip rstrip is_empty_text
nothing_stripped = refl

value_stripped : (m : PricingMode) → strip (V.value m) ≡ V.value m
unfolding strip lstrip rstrip is_space is_blank_character is_empty_text
value_stripped api_metered = refl
value_stripped subscription = refl

nothing_declared : declared_mode none ≡ subscription
unfolding declared_mode
nothing_declared = refl

declared_value : (m : PricingMode) → declared_mode (stripped (V.value m)) ≡ m
unfolding declared_mode mode_or_subscription coerce_mode stripped strip lstrip rstrip is_space
    is_blank_character is_empty_text
declared_value api_metered = refl
declared_value subscription = refl

bound :
    {A B : Type 0} (r : Answer A) (f : A → Answer B) (b : B)
    → (r >>= f) ≡ answer b
    → (a : A) × (r ≡ answer a) × (f a ≡ answer b)
bound (refusal e) f b h = absurd (cc h)
bound (answer a) f b h = (a, refl, h)

answer_injective : {A : Type 0} {a b : A} → answer a ≡ answer b → a ≡ b
answer_injective h = cc h

guarded :
    {A : Type 0} (t : Bool) (a : A) (r : Refused) (b : A)
    → (if t then answer a else refusal r) ≡ answer b
    → (t ≡ true) × (a ≡ b)
guarded true a r b h = (refl, answer_injective h)
guarded false a r b h = absurd (cc h)

guarded_twice :
    {A : Type 0} (t u : Bool) (r q : Refused) (a b : A)
    → (if t then refusal r else if u then refusal q else answer a) ≡ answer b
    → (t ≡ false) × (a ≡ b)
guarded_twice true u r q a b h = absurd (cc h)
guarded_twice false true r q a b h = absurd (cc h)
guarded_twice false false r q a b h = (refl, answer_injective h)

-- a text that was exported, as it is read
text_read : (s t : String) → text_or_refusal (some s) ≡ answer t → stripped t ≡ some (strip s)
unfolding text_or_refusal
text_read s t h =
    let (some_ink, p) = guarded (has_non_blank s) (strip s) _ t h in
    rw (← p) (stripped_lem (strip s) (strip-strip s) (has_non_blank-strip s some_ink))

required_read : (v : Value) (t : String) → required_text v ≡ answer t → stripped t ≡ meant v
unfolding required_text text_or_refusal
required_read none_value t h = rw (← answer_injective h) nothing_stripped
required_read (str s) t h = text_read s t h
required_read (mode m) t h = text_read (V.value m) t h ∙ ap (λ x. some x) (value_stripped m)
required_read (bool b) t h = absurd (cc h)
required_read (int n) t h = absurd (cc h)
required_read (float f) t h = absurd (cc h)
required_read other t h = absurd (cc h)

mode_read :
    (r : Result (Option PricingMode)) (m : Option PricingMode)
    → mode_answer r ≡ answer m
    → declared_mode (stripped (mode_text m)) ≡ meant_mode r
unfolding mode_answer
mode_read (err e) m h = absurd (cc h)
mode_read (ok none) m h = rw (← answer_injective h) (rw nothing_stripped nothing_declared)
mode_read (ok (some a)) m h = rw (← answer_injective h) (declared_value a)

fields_agree :
    {w x q r p t : Option String} {m n : PricingMode}
    → w ≡ x
    → q ≡ r
    → p ≡ t
    → m ≡ n
    → Path Attribution
        (record { workload = w; queue = q; parent_request_id = p; pricing_mode = m })
        (record { workload = x; queue = r; parent_request_id = t; pricing_mode = n })
fields_agree a b c d =
    λ i. record { workload = a i; queue = b i; parent_request_id = c i; pricing_mode = d i }

module _ (lower : String → String) (digit : Char → Option ℕ) (law : IsDecimal digit)
    (low : IsLower lower) where
  stripped-consumed :
      (s : String) (p : ParsedPhase)
      → done true s ≡ true
      → is_empty_text s ≡ false
      → stripped (consumed s p) ≡ some (consumed s p)
  unfolding consumed
  stripped-consumed s unrecognized h e = stripped_lem s (done-strip s h) e
  stripped-consumed s (bad_occurrence kind) h e = stripped_lem s (done-strip s h) e
  stripped-consumed s (recognized kind n) h e =
      stripped_lem (label kind n)
        (done-strip (label kind n) (all_label-done (label kind n) (label-all_label kind n)))
        (label-is_empty_text kind n)

  normal_stripped :
      (s : String)
      → is_empty_text (collapse s) ≡ false
      → stripped (get_or "" (normalize_phase lower digit (some s)))
        ≡ normalize_phase lower digit (some s)
  unfolding normalize_phase normalized
  normal_stripped s e = rw e (stripped-consumed (collapse s) _ (collapse_tidy s) e)

  written_read :
      (s l : String)
      → written_phase lower digit s ≡ answer l
      → normalize_phase lower digit (stripped l) ≡ normalize_phase lower digit (some s)
  unfolding written_phase
  written_read s l h =
      let (e, p) = guarded_twice (is_empty_text (collapse s)) _ _ _ _ l h in
      rw (← p) (
        ap (normalize_phase lower digit) (normal_stripped s e)
        ∙ normalize_phase-normalize_phase digit law lower low (some s))

  stripped-wire : (kind : PhaseKind) → stripped (wire kind) ≡ some (label kind none)
  unfolding label
  stripped-wire kind =
      stripped_lem (wire kind)
        (done-strip (label kind none)
          (all_label-done (label kind none) (label-all_label kind none)))
        (label-is_empty_text kind none)

  phase_read :
      (phase : PhaseArgument) (l : String)
      → exported_phase lower digit phase ≡ answer l
      → normalize_phase lower digit (stripped l) ≡ meant_phase (normalize_phase lower digit) phase
  unfolding exported_phase phase_or_refusal label
  phase_read (member kind) l h = rw (← answer_injective h) (
      ap (normalize_phase lower digit) (stripped-wire kind)
      ∙ normalize_phase-label digit law lower low kind none tt)
  phase_read (value none_value) l h =
      rw (← answer_injective h) (ap (normalize_phase lower digit) nothing_stripped)
  phase_read (value (str s)) l h = written_read s l h
  phase_read (value (mode m)) l h = written_read (V.value m) l h
  phase_read (value (bool b)) l h = absurd (cc h)
  phase_read (value (int n)) l h = absurd (cc h)
  phase_read (value (float f)) l h = absurd (cc h)
  phase_read (value other) l h = absurd (cc h)

  -- what the hook reads in a block
  block_read :
      (i l s : String) (m : Option PricingMode)
      → attribution_from_env lower digit (λ name. lookup name (
          ("MADO_ISSUE_KEY", i)
          ∷ ("MADO_PHASE", l)
          ∷ ("MADO_STREAM_ID", s)
          ∷ ("MADO_PRICING_MODE", mode_text m)
          ∷ []))
        ≡ record {
          workload = stripped i;
          queue = normalize_phase lower digit (stripped l);
          parent_request_id = stripped s;
          pricing_mode = declared_mode (stripped (mode_text m));
        }
  unfolding attribution_from_env env_value lookup
  block_read i l s m = refl

  -- The hook reads back what the orchestrator has exported: whenever `attribution_env` returns a block,
  -- `attribution_from_env` in an environment with the block's variables gets the issue and the stream
  -- that were given, without the space around them, the normal form of the phase, and the pricing
  -- mode, which is subscription where none was given. The tables of digits and letter case are as they
  -- should be on ASCII.
  pub attribution_from_env-attribution_env :
      (issue : Value) (phase : PhaseArgument) (stream pricing : Value) (block : Dict String)
      → attribution_env lower digit issue phase stream pricing ≡ answer block
      → attribution_from_env lower digit (λ name. lookup name block) ≡ record {
        workload = meant issue;
        queue = meant_phase (normalize_phase lower digit) phase;
        parent_request_id = meant stream;
        pricing_mode = meant_mode (coerce_mode pricing);
      }
  unfolding attribution_env attribution_from_env env_value lookup
  attribution_from_env-attribution_env issue phase stream pricing block h =
      let (m, mode_given, h₁) = bound _ _ block h in
      let (l, phase_given, h₂) = bound _ _ block h₁ in
      let (i, issue_given, h₃) = bound _ _ block h₂ in
      let (s, stream_given, h₄) = bound _ _ block h₃ in
      ap (λ b. attribution_from_env lower digit (λ name. lookup name b)) (sym (answer_injective h₄))
      ∙ (block_read i l s m
          ∙ fields_agree (required_read issue i issue_given) (phase_read phase l phase_given)
              (required_read stream s stream_given) (mode_read (coerce_mode pricing) m mode_given))
