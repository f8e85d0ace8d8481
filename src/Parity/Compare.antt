-- ===== src/Parity/Compare.antt =====
-- parity.py: `_numeric`, `_equal` and `compare_usage`. Python's `==` of two values and `/` of two numbers,
-- which raises an OverflowError where the quotient is too large for a float, are parameters.
use tokenweir.Prelude.{
  zero, ℤ, pos, negsuc, pos_part, neg_part, ◌+◌, ◌-◌, String, Bool, true, false, ◌||◌, Option, none,
  some, List, [], ◌∷◌, ◌++◌, Dict, lookup, contains, leb, if◌then◌else◌,
}
use tokenweir.Python.{whole, Outcome, returned, raised}
use tokenweir.Contract.Values.{Value, int, bool, float}

pub data Status : Type 0 where
  parity offset absent : Status

-- `R` is the type of the ratios, the floats that `/` returns.
pub record FieldComparison (R : Type 0) : Type 0 where
  pub name : String
  pub reference : Option Value
  pub observed : Option Value
  pub status : Status
  pub difference : Option ℤ
  pub ratio : Option R

-- `BILLING_FIELDS`
abbrev pub billing_fields : List String
billing_fields =
    "input_tokens" ∷ "output_tokens" ∷ "cache_creation_input_tokens" ∷ "cache_read_input_tokens"
    ∷ []

-- `_numeric`
unfoldable pub numeric : Value → Option ℤ
numeric (int n) = some n
numeric (float (whole n)) = some n
numeric _ = none

abbrev pub is_bool : Value → Bool
is_bool (bool b) = true
is_bool _ = false

-- `left - right`
unfoldable pub minus_ℤ : ℤ → ℤ → ℤ
minus_ℤ a b =
    let m = pos_part a + neg_part b in
    let n = neg_part a + pos_part b in if leb n m then pos (m - n) else negsuc (n - m - 1)

abbrev pub is_zero_ℤ : ℤ → Bool
is_zero_ℤ (pos zero) = true
is_zero_ℤ _ = false

-- a name that is not there yet, at the end
unfoldable pub add_name : String → List String → List String
add_name n names = if contains n names then names else names ++ n ∷ []

unfoldable pub add_names : Dict Value → List String → List String
unfolding add_name
add_names [] names = names
add_names ((n, v) ∷ d) names = add_names d (add_name n names)

-- `names`, of the mappings' keys
unfoldable pub names_of : Dict Value → Dict Value → List String
unfolding add_names
names_of reference observed = add_names observed (add_names reference billing_fields)

unfoldable pub some_ratio : {R : Type 0} → Outcome R → Outcome (Option R)
some_ratio (returned q) = returned (some q)
some_ratio (raised e) = raised e

-- a result before the rest, in the order in which they are made
unfoldable pub cons_result : {A : Type 0} → Outcome A → Outcome (List A) → Outcome (List A)
cons_result (raised e) rest = raised e
cons_result (returned c) (raised e) = raised e
cons_result (returned c) (returned cs) = returned (c ∷ cs)

module _ {R : Type 0} (equal : Value → Value → Bool) (divide : ℤ → ℤ → Outcome R) where
  -- `_equal`
  unfoldable pub equal_values : Value → Value → Bool
  equal_values (bool a) (bool b) = equal (bool a) (bool b)
  equal_values v w = if is_bool v || is_bool w then false else equal v w

  -- `(obs_n / ref_n) if ref_n else None`
  unfoldable pub ratio_of : ℤ → ℤ → Outcome (Option R)
  unfolding some_ratio
  ratio_of ref obs = if is_zero_ℤ ref then returned none else some_ratio (divide obs ref)

  unfoldable pub numbers_with : String → ℤ → ℤ → Outcome (Option R) → Outcome (FieldComparison R)
  unfolding minus_ℤ
  numbers_with name ref obs (raised e) = raised e
  numbers_with name ref obs (returned ratio) = returned (record {
    name = name;
    reference = some (int ref);
    observed = some (int obs);
    status = if is_zero_ℤ (minus_ℤ obs ref) then parity else offset;
    difference = some (minus_ℤ obs ref);
    ratio = ratio;
  })

  unfoldable pub compare_numbers : String → ℤ → ℤ → Outcome (FieldComparison R)
  unfolding numbers_with ratio_of
  compare_numbers name ref obs = numbers_with name ref obs (ratio_of ref obs)

  unfoldable pub compare_present :
      String → Value → Value → Option ℤ → Option ℤ → Outcome (FieldComparison R)
  unfolding compare_numbers equal_values
  compare_present name ref obs (some m) (some n) = compare_numbers name m n
  compare_present name ref obs _ _ = returned (record {
    name = name;
    reference = some ref;
    observed = some obs;
    status = if equal_values ref obs then parity else offset;
    difference = none;
    ratio = none;
  })

  -- the body of the loop
  unfoldable pub compare_field : String → Option Value → Option Value → Outcome (FieldComparison R)
  unfolding compare_present numeric
  compare_field name (some ref) (some obs) =
      compare_present name ref obs (numeric ref) (numeric obs)
  compare_field name ref obs = returned (record {
    name = name;
    reference = ref;
    observed = obs;
    status = absent;
    difference = none;
    ratio = none;
  })

  unfoldable pub compare_names :
      Dict Value → Dict Value → List String → Outcome (List (FieldComparison R))
  unfolding compare_field lookup cons_result
  compare_names reference observed [] = returned []
  compare_names reference observed (n ∷ names) =
      cons_result (compare_field n (lookup n reference) (lookup n observed))
        (compare_names reference observed names)

  -- `compare_usage`
  unfoldable pub compare_usage : Dict Value → Dict Value → Outcome (List (FieldComparison R))
  unfolding compare_names names_of
  compare_usage reference observed = compare_names reference observed (names_of reference observed)
