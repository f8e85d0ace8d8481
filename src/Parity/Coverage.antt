-- ===== src/Parity/Coverage.antt =====
-- parity.py: what `compare_usage` reports of two sides.
use tokenweir.Prelude.{
  or_true, inl, inr, Bool-cases, ℤ, String, Bool, true, false, ◌&&◌, ◌||◌, not, ◌≡◌, refl, ◌∙◌, ap,
  Option, none, some, is_some, List, [], ◌∷◌, ◌++◌, map, Dict, lookup, contains, all, str_eq,
  eq_iff, arith,
}
use tokenweir.Python.{Raised, Outcome, returned, raised}
use tokenweir.Contract.Values.{Value}
use tokenweir.Parity.Compare.{
  Status, parity, offset, absent, FieldComparison, billing_fields, numeric, add_name, add_names,
  names_of, compare_numbers, compare_present, compare_field, compare_names, compare_usage,
  is_zero_ℤ, some_ratio, ratio_of, numbers_with, cons_result,
}

abbrev pub keys : Dict Value → List String
keys d = map (λ e. e.0) d

-- no name twice
abbrev pub distinct : List String → Bool
distinct [] = true
distinct (n ∷ names) = not (contains n names) && distinct names

contains-append :
    (i n : String) (names : List String)
    → contains i (names ++ n ∷ []) ≡ contains i names || str_eq n i
contains-append i n [] = ground arith
contains-append i n (m ∷ names) = ground (arith, contains-append i n names)

distinct-append :
    (n : String) (names : List String)
    → contains n names ≡ false
    → distinct names ≡ true
    → distinct (names ++ n ∷ []) ≡ true
distinct-append n [] h d = refl
distinct-append n (m ∷ names) h d =
    ground (arith, contains-append m n names, distinct-append n names, eq_iff n m, eq_iff m n)

add_name-contains :
    (i n : String) (names : List String)
    → contains i (add_name n names) ≡ contains i names || str_eq n i
unfolding add_name
add_name-contains i n names = ground (arith, contains-append i n names, eq_iff n i)

add_name-distinct :
    (n : String) (names : List String) → distinct names ≡ true → distinct (add_name n names) ≡ true
unfolding add_name
add_name-distinct n names d = ground (arith, distinct-append n names)

add_names-contains :
    (i : String) (d : Dict Value) (names : List String)
    → contains i (add_names d names) ≡ contains i names || contains i (keys d)
unfolding add_names
add_names-contains i [] names = ground arith
add_names-contains i ((n, v) ∷ d) names =
    ground (arith, add_names-contains i d (add_name n names), add_name-contains i n names)

add_names-distinct :
    (d : Dict Value) (names : List String)
    → distinct names ≡ true
    → distinct (add_names d names) ≡ true
unfolding add_names
add_names-distinct [] names h = h
add_names-distinct ((n, v) ∷ d) names h =
    add_names-distinct d (add_name n names) (add_name-distinct n names h)

abbrev pub is_parity : Status → Bool
is_parity parity = true
is_parity offset = false
is_parity absent = false

-- parity is claimed only where both sides carry the field
abbrev pub is_warranted : {R : Type 0} → Dict Value → Dict Value → FieldComparison R → Bool
is_warranted reference observed c =
    not (is_parity c.status)
    || (is_some (lookup c.name reference) && is_some (lookup c.name observed))

-- the number that a side carries
abbrev pub number_of : Option Value → Option ℤ
number_of none = none
number_of (some v) = numeric v

both_true : {a b : Bool} → a ≡ true → b ≡ true → (a && b) ≡ true
both_true h k = ground arith

module _ {R : Type 0} (equal : Value → Value → Bool) (divide : ℤ → ℤ → Outcome R) where
  -- A field whose two sides are numbers, the reference's not 0, the division of which has raised.
  pub record Undivided (reference observed : Dict Value) (e : Raised) : Type 0 where
    pub name : String
    pub m : ℤ
    pub n : ℤ
    pub referred : number_of (lookup name reference) ≡ some m
    pub seen : number_of (lookup name observed) ≡ some n
    pub nonzero : is_zero_ℤ m ≡ false
    pub raises : divide n m ≡ raised e

  -- the comparison of a field, or the division that raised
  abbrev FieldReport : String → Option Value → Option Value → Outcome (FieldComparison R) → Type 0
  FieldReport name ref obs (returned c) =
      (c.name ≡ name) × ((not (is_parity c.status) || (is_some ref && is_some obs)) ≡ true)
  FieldReport name ref obs (raised e) =
      (m : ℤ) × (n : ℤ) × (number_of ref ≡ some m)
      × (number_of obs ≡ some n)
      × (is_zero_ℤ m ≡ false)
      × (divide n m ≡ raised e)

  divided-FieldReport :
      (name : String) (ref obs : Value) (m n : ℤ) (q : Outcome R)
      → numeric ref ≡ some m
      → numeric obs ≡ some n
      → is_zero_ℤ m ≡ false
      → divide n m ≡ q
      → FieldReport name (some ref) (some obs) (numbers_with equal divide name m n (some_ratio q))
  unfolding numbers_with some_ratio
  divided-FieldReport name ref obs m n (returned q) h k z d = (refl, or_true _)
  divided-FieldReport name ref obs m n (raised e) h k z d = (m, n, h, k, z, d)

  present-FieldReport :
      (name : String) (ref obs : Value) (a b : Option ℤ)
      → numeric ref ≡ a
      → numeric obs ≡ b
      → FieldReport name (some ref) (some obs) (compare_present equal divide name ref obs a b)
  unfolding compare_present compare_numbers ratio_of numbers_with
  present-FieldReport name ref obs (some m) (some n) h k = elim (Bool-cases (is_zero_ℤ m)) [
    | inl z ↦ rw z (refl, or_true _)
    | inr z ↦ rw z (divided-FieldReport name ref obs m n (divide n m) h k z refl)
  ]
  present-FieldReport name ref obs (some m) none h k = (refl, or_true _)
  present-FieldReport name ref obs none b h k = (refl, or_true _)

  field-FieldReport :
      (name : String) (ref obs : Option Value)
      → FieldReport name ref obs (compare_field equal divide name ref obs)
  unfolding compare_field
  field-FieldReport name (some v) (some w) =
      present-FieldReport name v w (numeric v) (numeric w) refl refl
  field-FieldReport name (some v) none = (refl, refl)
  field-FieldReport name none w = (refl, refl)

  -- the comparisons of some fields, or a division that raised
  abbrev NamesReport :
      Dict Value → Dict Value → List String → Outcome (List (FieldComparison R)) → Type 0
  NamesReport reference observed names (returned cs) =
      (map (λ c. c.name) cs ≡ names) × (all (is_warranted reference observed) cs ≡ true)
  NamesReport reference observed names (raised e) = Undivided reference observed e

  cons_result-NamesReport :
      (reference observed : Dict Value) (n : String) (names : List String)
      (r : Outcome (FieldComparison R)) (rest : Outcome (List (FieldComparison R)))
      → FieldReport n (lookup n reference) (lookup n observed) r
      → NamesReport reference observed names rest
      → NamesReport reference observed (n ∷ names) (cons_result r rest)
  unfolding cons_result
  cons_result-NamesReport reference observed n names (raised e) rest (a, b, h, k, z, d) later =
      record { name = n; m = a; n = b; referred = h; seen = k; nonzero = z; raises = d }
  cons_result-NamesReport reference observed n names (returned c) (raised e) here later = later
  cons_result-NamesReport reference observed n names (returned c) (returned cs) (same, w) later = (
    λ i. same i ∷ later.0 i,
    both_true
        (ap
            (λ m.
              not (is_parity c.status)
              || (is_some (lookup m reference) && is_some (lookup m observed)))
            same
          ∙ w)
        later.1,
  )

  compare_names-NamesReport :
      (reference observed : Dict Value) (names : List String)
      → NamesReport reference observed names (compare_names equal divide reference observed names)
  unfolding compare_names
  compare_names-NamesReport reference observed [] = (refl, refl)
  compare_names-NamesReport reference observed (n ∷ names) =
      cons_result-NamesReport reference observed n names _ _
        (field-FieldReport n (lookup n reference) (lookup n observed))
        (compare_names-NamesReport reference observed names)

  -- What is reported of two sides, on a field.
  abbrev pub Reports :
      Dict Value → Dict Value → String → Outcome (List (FieldComparison R)) → Type 0
  Reports reference observed field (returned found) =
      (contains field (map (λ c. c.name) found)
        ≡ contains field billing_fields
          || contains field (keys reference)
          || contains field (keys observed))
      × (distinct (map (λ c. c.name) found) ≡ true)
      × (all (is_warranted reference observed) found ≡ true)
  Reports reference observed field (raised e) = Undivided reference observed e

  named-Reports :
      (reference observed : Dict Value) (field : String) (r : Outcome (List (FieldComparison R)))
      → NamesReport reference observed (names_of reference observed) r
      → Reports reference observed field r
  unfolding names_of
  named-Reports reference observed field (raised e) h = h
  named-Reports reference observed field (returned found) (listed, warranted) =
      let start = add_names reference billing_fields in
      (
        ap (contains field) listed
            ∙ ground (
              arith,
              add_names-contains field observed start,
              add_names-contains field reference billing_fields,
            ),
        ap distinct listed
            ∙ add_names-distinct observed start (add_names-distinct reference billing_fields refl),
        warranted,
      )

  -- `compare_usage` reports a field exactly if it is a billing field or one of the two sides carries
  -- it, reports no field twice, and claims parity only for fields that both sides carry. It raises
  -- only what the division of two numbers, of a field that both sides carry, has raised.
  pub compare_usage-names :
      (reference observed : Dict Value) (field : String)
      → Reports reference observed field (compare_usage equal divide reference observed)
  unfolding compare_usage
  compare_usage-names reference observed field =
      named-Reports reference observed field
        (compare_names equal divide reference observed (names_of reference observed))
        (compare_names-NamesReport reference observed (names_of reference observed))
