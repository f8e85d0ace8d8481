-- ===== src/Hook/Arithmetic.antt =====
-- The arithmetic of the four counts.
use tokenweir.Prelude.{true, ◌≡◌, refl, some, arith, lookup}
use tokenweir.Hook.Counts.{
  TokenTotals, no_tokens, add, minus, covers, as_dict, coerce_count, from_mapping,
}

pub add-minus : (t u : TokenTotals) → covers t u ≡ true → add u (minus t u) ≡ t
unfolding add minus covers
add-minus t u h = ground arith

pub covers-add : (t u : TokenTotals) → covers (add t u) t ≡ true
unfolding add covers
covers-add t u = ground arith

pub covers_refl : (t : TokenTotals) → covers t t ≡ true
unfolding covers
covers_refl t = ground arith

pub covers_trans : (t u v : TokenTotals) → covers t u ≡ true → covers u v ≡ true → covers t v ≡ true
unfolding covers
covers_trans t u v h k = ground arith

pub add_assoc : (t u v : TokenTotals) → add (add t u) v ≡ add t (add u v)
unfolding add
add_assoc t u v = ground arith

pub add_zero : (t : TokenTotals) → add t no_tokens ≡ t
unfolding add
add_zero t = ground arith

pub zero_add : (t : TokenTotals) → add no_tokens t ≡ t
unfolding add
zero_add t = ground arith

-- `from_mapping` reads back the counts that `as_dict` writes.
pub from_mapping-as_dict : (t : TokenTotals) → from_mapping (some (as_dict t)) ≡ t
unfolding from_mapping as_dict coerce_count lookup
from_mapping-as_dict t = refl
