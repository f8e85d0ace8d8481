-- ===== src/Parity/Keys.antt =====
-- The keys under which `iter_turns` gathers, and what one line adds.
use Prim.Native.String as T
use tokenweir.Prelude.{
  ℕ, zero, suc, ◌<◌, String, Bool, true, false, ◌||◌, ◌≡◌, refl, ◌∙◌, ap, sym, Option, some, [],
  ◌∷◌, Dict, length, any, str_eq, eq_iff, if◌then◌else◌, Bool-cases, inl, inr, arith,
}
use tokenweir.Hook.Counts.{TokenTotals, no_tokens, add, from_mapping}
use tokenweir.Hook.Arithmetic.{add_assoc, add_zero, zero_add}
use tokenweir.Hook.Transcript.{Response}
use tokenweir.Orchestrator.Decimal.{
  read_digits, read_digits-decimal, ascii_digit, ascii_digit-IsDecimal,
}
use tokenweir.Orchestrator.Label.{joined}
use tokenweir.Parity.Turns.{
  Blocks, Accumulator, anonymous_key, extended, gather, starts_with, is_anonymous,
}

-- the key of some entry
abbrev pub holds : String → Dict Accumulator → Bool
holds i d = any (λ e. str_eq e.0 i) d

abbrev pub usage_sum : Dict Accumulator → TokenTotals
usage_sum [] = no_tokens
usage_sum ((k, a) ∷ d) = add (from_mapping (some a.usage)) (usage_sum d)

pub holds-gather :
    (i key : String) (r : Response) (b : Blocks) (d : Dict Accumulator)
    → holds i (gather key r b d) ≡ str_eq key i || holds i d
unfolding gather
holds-gather i key r b [] = refl
holds-gather i key r b ((k, a) ∷ d) =
    ground (arith, eq_iff k key, eq_iff k i, eq_iff key i, holds-gather i key r b d)

add_under :
    (u : TokenTotals) (t : Bool) (s v : TokenTotals)
    → add u (if t then s else add s v) ≡ (if t then add u s else add (add u s) v)
add_under u true s v = refl
add_under u false s v = sym (add_assoc u s v)

pub usage_sum-gather :
    (key : String) (r : Response) (b : Blocks) (d : Dict Accumulator)
    → usage_sum (gather key r b d)
      ≡ (if holds key d then usage_sum d else add (usage_sum d) (from_mapping (some r.usage)))
unfolding gather extended
usage_sum-gather key r b [] =
    add_zero (from_mapping (some r.usage)) ∙ sym (zero_add (from_mapping (some r.usage)))
usage_sum-gather key r b ((k, a) ∷ d) = elim (Bool-cases (str_eq k key)) [
  | inl e ↦ rw e refl
  | inr e ↦ rw e (
      ap (add (from_mapping (some a.usage))) (usage_sum-gather key r b d)
      ∙ add_under (from_mapping (some a.usage)) (holds key d) (usage_sum d)
          (from_mapping (some r.usage)))
]

pub length-gather :
    (key : String) (r : Response) (b : Blocks) (d : Dict Accumulator)
    → length (gather key r b d) ≡ (if holds key d then length d else suc (length d))
unfolding gather
length-gather key r b [] = refl
length-gather key r b ((k, a) ∷ d) = ground (arith, length-gather key r b d)

-- the number of an anonymous key
skipped : ℕ → String → String
skipped zero s = s
skipped (suc n) T.[] = T.[]
skipped (suc n) (T.◌∷◌ c s) = skipped n s

key_number : String → Option ℕ
unfolding skipped
key_number s = read_digits ascii_digit 0 (skipped 11 s)

key_number-anonymous_key : (n : ℕ) → key_number (anonymous_key n) ≡ some n
unfolding key_number anonymous_key joined skipped
key_number-anonymous_key n = read_digits-decimal ascii_digit ascii_digit-IsDecimal n

pub is_anonymous-anonymous_key : (n : ℕ) → is_anonymous (anonymous_key n) ≡ true
unfolding is_anonymous anonymous_key joined starts_with
is_anonymous-anonymous_key n = refl

some_injective : {a b : ℕ} → some a ≡ some b → a ≡ b
some_injective h = cc h

pub other_number : (m n : ℕ) → m < n → str_eq (anonymous_key m) (anonymous_key n) ≡ false
other_number m n h = elim (Bool-cases (str_eq (anonymous_key m) (anonymous_key n))) [
  | inl e ↦
      let same_key = (eq_iff (anonymous_key m) (anonymous_key n)).0 e in
      let same_number =
        sym (key_number-anonymous_key m) ∙ (ap key_number same_key ∙ key_number-anonymous_key n) in
      absurd (omega (some_injective same_number, h, arith))
  | inr e ↦ e
]
