-- ===== src/Orchestrator/Decimal.antt =====
-- Python's decimal print of a natural number, and `int` of a text of digits.
use Prim.Native.Char.{Char, code}
use Prim.Native.String.{[], ◌∷◌}
use tokenweir.Prelude.{
  ℕ, zero, suc, ◌-◌, ◌&&◌, leb, ◌+◌, ◌*◌, ◌/◌, ◌%◌, ◌≤◌, ◌<◌, String, false, ◌≡◌, refl, ◌∙◌, ap,
  Option, none, some, ltb, ltb→lt, Bool-cases, inl, inr, if◌then◌else◌, arith,
}

-- the character at a place of a text, and the last digit behind its end
unfoldable pub char_at : ℕ → String → Char
char_at n [] = "9"
char_at zero (c ∷ s) = c
char_at (suc n) (c ∷ s) = char_at n s

unfoldable pub digit_char : ℕ → Char
unfolding char_at
digit_char d = char_at d "0123456789"

-- the digits of n before a text, on as much fuel as n is
unfoldable pub digits_on : ℕ → ℕ → String → String
unfolding digit_char
digits_on zero n out = out
digits_on (suc fuel) n out =
    let more = digits_on fuel (n / 10) (digit_char (n % 10) ∷ out) in
    if ltb n 10 then digit_char n ∷ out else more

-- `str(n)`
unfoldable pub decimal : ℕ → String
unfolding digits_on
decimal n = digits_on (suc n) n []

-- `int`'s table of digits, and its law for the ASCII digits
pub record IsDecimal (digit : Char → Option ℕ) : Type 0 where
  pub digit_ascii : (d : ℕ) → d < 10 → digit (digit_char d) ≡ some d
  pub digit_letter : (c : Char) → 58 ≤ code c → code c < 128 → digit c ≡ none

module _ (digit : Char → Option ℕ) where
  -- `int` of what is left, behind the value of the digits before it; none where a character is no
  -- digit
  unfoldable pub read_digits : ℕ → String → Option ℕ
  read_digits n [] = some n
  read_digits n (c ∷ s) = elim (digit c) [ none ↦ none | some d ↦ read_digits (n * 10 + d) s ]

  read_step :
      (n d : ℕ) (c : Char) (out : String)
      → digit c ≡ some d
      → read_digits n (c ∷ out) ≡ read_digits (n * 10 + d) out
  unfolding read_digits
  read_step n d c out h = rw (read_digits, h) refl

  one_digit : (n : ℕ) → 0 * 10 + n ≡ n
  one_digit n = omega arith

  div_mod : (n : ℕ) → n / 10 * 10 + n % 10 ≡ n
  div_mod n = omega arith

  mod_lt : (n : ℕ) → n % 10 < 10
  mod_lt n = omega arith

  fewer : (n fuel : ℕ) → ltb n 10 ≡ false → n < suc fuel → n / 10 < fuel
  fewer n fuel e h = ground arith

  module _ (law : IsDecimal digit) where
    last_digit :
        (n : ℕ) (out : String)
        → read_digits (n / 10) (digit_char (n % 10) ∷ out) ≡ read_digits n out
    last_digit n out =
        read_step (n / 10) (n % 10) _ out (law.digit_ascii (n % 10) (mod_lt n))
        ∙ ap (λ k. read_digits k out) (div_mod n)

    read_digits-digits_on :
        (fuel n : ℕ) (out : String)
        → n < fuel
        → read_digits 0 (digits_on fuel n out) ≡ read_digits n out
    unfolding digits_on read_digits
    read_digits-digits_on zero n out h = absurd (omega arith)
    read_digits-digits_on (suc fuel) n out h = elim (Bool-cases (ltb n 10)) [
      | inl e ↦
          let low = ltb→lt n 10 e in
          rw e (
            read_step 0 n _ out (law.digit_ascii n low) ∙ ap (λ k. read_digits k out) (one_digit n))
      | inr e ↦
          let ih =
            read_digits-digits_on fuel (n / 10) (digit_char (n % 10) ∷ out) (fewer n fuel e h) in
          rw e (ih ∙ last_digit n out)
    ]

    -- `int(str(n))` is n.
    pub read_digits-decimal : (n : ℕ) → read_digits 0 (decimal n) ≡ some n
    unfolding decimal read_digits
    read_digits-decimal n = read_digits-digits_on (suc n) n [] (omega arith)

-- the digits of ASCII
abbrev pub ascii_digit : Char → Option ℕ
ascii_digit c = if leb b'0' (code c) && leb (code c) b'9' then some (code c - b'0') else none

ascii_digit-digit_char : (d : ℕ) → d < 10 → ascii_digit (digit_char d) ≡ some d
unfolding digit_char char_at
ascii_digit-digit_char zero h = refl
ascii_digit-digit_char (suc zero) h = refl
ascii_digit-digit_char (suc (suc zero)) h = refl
ascii_digit-digit_char (suc (suc (suc zero))) h = refl
ascii_digit-digit_char (suc (suc (suc (suc zero)))) h = refl
ascii_digit-digit_char (suc (suc (suc (suc (suc zero))))) h = refl
ascii_digit-digit_char (suc (suc (suc (suc (suc (suc zero)))))) h = refl
ascii_digit-digit_char (suc (suc (suc (suc (suc (suc (suc zero))))))) h = refl
ascii_digit-digit_char (suc (suc (suc (suc (suc (suc (suc (suc zero)))))))) h = refl
ascii_digit-digit_char (suc (suc (suc (suc (suc (suc (suc (suc (suc zero))))))))) h = refl
ascii_digit-digit_char (suc (suc (suc (suc (suc (suc (suc (suc (suc (suc n)))))))))) h =
    absurd (omega arith)

pub ascii_digit-IsDecimal : IsDecimal ascii_digit
ascii_digit-IsDecimal = record {
  digit_ascii = ascii_digit-digit_char;
  digit_letter = λ c h k. ground arith;
}
