-- ===== src/Contract/Values.antt =====
-- contract.py: `PricingMode`, the test for blank text, and the validators of single values.
use Prim.Native.Char.{Char, code}
use Prim.Native.String.{[], ◌∷◌}
use tokenweir.Prelude.{
  ℕ, zero, suc, ℤ, pos, negsuc, String, Bool, true, false, ◌&&◌, ◌||◌, not, Option, none, some, leb,
  ◌==◌, str_eq, if◌then◌else◌, get_or,
}
use tokenweir.Python.{Float}

pub data PricingMode : Type 0 where
  api_metered : PricingMode
  subscription : PricingMode

-- `PricingMode.value`
abbrev pub value : PricingMode → String
value api_metered = "api_metered"
value subscription = "subscription"

-- A Python value as the contract's checks tell values apart. `PricingMode` is a subclass of `str`, so
-- a member passes for the text of its value; `other` is a value of any other type.
pub data Value : Type 0 where
  none_value : Value
  bool : Bool → Value
  int : ℤ → Value
  float : Float → Value
  str : String → Value
  mode : PricingMode → Value
  other : Value

-- `isinstance(value, str)`, with the text
abbrev pub as_str : Value → Option String
as_str (str s) = some s
as_str (mode m) = some (value m)
as_str _ = none

pub data Reason : Type 0 where
  not_a_string is_blank not_optional_string : Reason
  is_none not_an_integer is_negative below_one : Reason
  not_a_number not_finite : Reason
  bad_mode missing not_a_mapping not_json_text not_json not_an_object : Reason

-- A ValueError with the field that it names (none, if it is about the whole payload), or a TypeError.
pub data Error : Type 0 where
  value_error : Reason → Option String → Error
  type_error : Error

-- A check that passes with a value or refuses with an error.
pub data Result {ℓ} (A : Type ℓ) : Type ℓ where
  err : Error → Result A
  ok : A → Result A

-- A refused check ends the function, as its exception does.
abbrev pub ◌>>=◌ {ℓ κ} :
    {A : Type ℓ} {B : Type κ} (checked : Result A) (next : A → Result B) → Result B
err refused >>= next = err refused
ok passed >>= next = next passed

infixl 5 ◌>>=◌ ◌>>◌
-- `if not test: raise refused`
abbrev pub require : (test : Bool) (refused : Error) → Result (Unit {0})
require false refused = err refused
require true refused = ok tt

abbrev pub ◌>>◌ {ℓ} : {B : Type ℓ} (check : Result (Unit {0})) (next : Result B) → Result B
check >> next = check >>= λ _. next

-- `_BLANK_CHARACTERS`, by code point
unfoldable pub is_blank_character : Char → Bool
is_blank_character ch =
    let c = code ch in
    (leb 0x9 c && leb c 0xd)
    || (leb 0x1c c && leb c 0x1f)
    || c == 0x20
    || c == 0x85
    || c == 0xa0
    || c == 0x1680
    || (leb 0x2000 c && leb c 0x200a)
    || (leb 0x2028 c && leb c 0x2029)
    || c == 0x202f
    || c == 0x205f
    || c == 0x3000
    || c == 0xfeff

-- `_NON_BLANK_RE.search(value)`: some character lies outside the class
unfoldable pub has_non_blank : String → Bool
unfolding is_blank_character
has_non_blank [] = false
has_non_blank (c ∷ s) = not (is_blank_character c) || has_non_blank s

-- `PricingMode.coerce`
unfoldable pub coerce_mode : Value → Result (Option PricingMode)
coerce_mode none_value = ok none
coerce_mode (mode m) = ok (some m)
coerce_mode (str s) =
    if str_eq s "api_metered"
    then ok (some api_metered)
    else if str_eq s "subscription"
    then ok (some subscription)
    else err (value_error bad_mode (some "pricing_mode"))
coerce_mode _ = err (value_error bad_mode (some "pricing_mode"))

-- `_validate_required_str`, returning the text
unfoldable pub required_str : String → Value → Result String
required_str name v = elim (as_str v) [
  | none ↦ err (value_error not_a_string (some name))
  | some s ↦ if has_non_blank s then ok s else err (value_error is_blank (some name))
]

-- `_validate_optional_str`, returning the text
unfoldable pub optional_str : String → Value → Result (Option String)
optional_str name none_value = ok none
optional_str name (str s) = ok (some s)
optional_str name (mode m) = ok (some (value m))
optional_str name _ = err (value_error not_optional_string (some name))

-- `_validate_non_negative_int`, returning the number
unfoldable pub non_negative_int : String → Value → Bool → Result (Option ℕ)
non_negative_int name none_value allow_none =
    if allow_none then ok none else err (value_error is_none (some name))
non_negative_int name (int (pos n)) allow_none = ok (some n)
non_negative_int name (int (negsuc n)) allow_none = err (value_error is_negative (some name))
non_negative_int name _ allow_none = err (value_error not_an_integer (some name))

-- the call of `_validate_non_negative_int` for a token count
unfoldable pub token_count : String → Value → Result ℕ
unfolding non_negative_int
token_count name v = do n ← non_negative_int name v false; ok (get_or 0 n)

-- the checks of `schema_version` in `__post_init__`
unfoldable pub version : Value → Result ℕ
version (int (pos zero)) = err (value_error below_one (some "schema_version"))
version (int (pos (suc n))) = ok (suc n)
version (int (negsuc n)) = err (value_error below_one (some "schema_version"))
version _ = err (value_error not_an_integer (some "schema_version"))
