-- ===== src/Contract/Successes.antt =====
-- When the validators of the contract pass.
use tokenweir.Prelude.{
  pos, String, Bool, true, false, ◌≡◌, refl, Option, none, some, [], ◌∷◌, arith, get_or, is_some,
}
use tokenweir.Contract.Values.{
  Value, none_value, int, str, Result, ok, err, ◌>>=◌, required_str, optional_str, non_negative_int,
  token_count, version, coerce_mode,
}
use tokenweir.Contract.Record.{schema_version}
use tokenweir.Contract.Lookup.{coerced}
use tokenweir.Contract.Schema.{
  plain, string, null, integer, nullable_string, required_string, token_count_property,
  meets_if_present,
}

abbrev pub succeeds {ℓ} : {A : Type ℓ} → Result A → Bool
succeeds (ok a) = true
succeeds (err e) = false

pub success_of {ℓ} : {A : Type ℓ} (m : Result A) → succeeds m ≡ true → (a : A) × (m ≡ ok a)
success_of (ok a) h = (a, refl)
success_of (err e) h = cc

pub succeeds-bind {ℓ κ} :
    {A : Type ℓ} {B : Type κ} (m : Result A) (f : A → Result B)
    → succeeds m ≡ true
    → ((a : A) → succeeds (f a) ≡ true)
    → succeeds (m >>= f) ≡ true
succeeds-bind (ok a) f hm hf = hf a
succeeds-bind (err e) f hm hf = cc

pub text_succeeds :
    (n : String) (v : Value) (o : Option Value)
    → is_some o ≡ true
    → meets_if_present required_string o ≡ true
    → succeeds (required_str n (get_or v o)) ≡ true
unfolding required_str meets_if_present
text_succeeds n v o e h = ground arith

pub optional_succeeds :
    (n : String) (o : Option Value)
    → meets_if_present nullable_string o ≡ true
    → succeeds (optional_str n (get_or none_value o)) ≡ true
unfolding optional_str meets_if_present
optional_succeeds n o h = ground arith

pub count_succeeds :
    (n : String) (o : Option Value)
    → meets_if_present token_count_property o ≡ true
    → succeeds (token_count n (get_or (int (pos 0)) (coerced o))) ≡ true
unfolding token_count meets_if_present
count_succeeds n o h = ground arith

pub latency_succeeds :
    (n : String) (o : Option Value)
    → meets_if_present (record (plain (integer ∷ null ∷ [])) { minimum_zero = true }) o ≡ true
    → succeeds (non_negative_int n (get_or none_value (coerced o)) true) ≡ true
unfolding non_negative_int meets_if_present
latency_succeeds n o h = ground arith

pub version_succeeds :
    (o : Option Value)
    → meets_if_present (record (plain (integer ∷ [])) { const = some schema_version }) o ≡ true
    → succeeds (version (get_or (int (pos schema_version)) (coerced o))) ≡ true
unfolding version meets_if_present
version_succeeds o h = ground arith

pub mode_succeeds :
    (o : Option Value)
    → meets_if_present
        (record (plain (string ∷ null ∷ [])) {
          enum = some (some "api_metered" ∷ some "subscription" ∷ none ∷ []);
        })
        o
      ≡ true
    → succeeds (coerce_mode (get_or none_value o)) ≡ true
unfolding coerce_mode meets_if_present
mode_succeeds none h = refl
mode_succeeds (some (str s)) h = ground arith
mode_succeeds (some none_value) h = refl
mode_succeeds (some _) h = ground arith
