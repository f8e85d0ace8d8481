-- ===== src/Hook/Counts.antt =====
-- claude_code.py: `TokenTotals`, `_coerce_count` and `turn_delta`.
use tokenweir.Prelude.{
  ℕ, ◌+◌, ◌-◌, pos, Bool, ◌&&◌, Option, none, some, [], ◌∷◌, Dict, lookup, leb, ◌==◌, if◌then◌else◌,
}
use tokenweir.Python.{whole}
use tokenweir.Contract.Values.{Value, int, float}

-- `TokenTotals`. Its counts come from `from_mapping` and `+`, and from `minus` where `covers` holds, so
-- they are not negative.
pub record TokenTotals : Type 0 where
  pub input_tokens : ℕ
  pub output_tokens : ℕ
  pub cache_creation_input_tokens : ℕ
  pub cache_read_input_tokens : ℕ

-- `TokenTotals()`
abbrev pub no_tokens : TokenTotals
no_tokens = record {
  input_tokens = 0;
  output_tokens = 0;
  cache_creation_input_tokens = 0;
  cache_read_input_tokens = 0;
}

-- `TokenTotals.__add__`
unfoldable pub add : TokenTotals → TokenTotals → TokenTotals
add t u = record {
  input_tokens = t.input_tokens + u.input_tokens;
  output_tokens = t.output_tokens + u.output_tokens;
  cache_creation_input_tokens = t.cache_creation_input_tokens + u.cache_creation_input_tokens;
  cache_read_input_tokens = t.cache_read_input_tokens + u.cache_read_input_tokens;
}

-- `TokenTotals.minus`, which is called only where `covers` holds
unfoldable pub minus : TokenTotals → TokenTotals → TokenTotals
minus t u = record {
  input_tokens = t.input_tokens - u.input_tokens;
  output_tokens = t.output_tokens - u.output_tokens;
  cache_creation_input_tokens = t.cache_creation_input_tokens - u.cache_creation_input_tokens;
  cache_read_input_tokens = t.cache_read_input_tokens - u.cache_read_input_tokens;
}

-- `TokenTotals.covers`
unfoldable pub covers : TokenTotals → TokenTotals → Bool
covers t u =
    leb u.input_tokens t.input_tokens
    && leb u.output_tokens t.output_tokens
    && leb u.cache_creation_input_tokens t.cache_creation_input_tokens
    && leb u.cache_read_input_tokens t.cache_read_input_tokens

-- `TokenTotals.is_zero`
unfoldable pub is_zero : TokenTotals → Bool
is_zero t =
    t.input_tokens == 0
    && t.output_tokens == 0
    && t.cache_creation_input_tokens == 0
    && t.cache_read_input_tokens == 0

-- `TokenTotals.as_dict`
unfoldable pub as_dict : TokenTotals → Dict Value
as_dict t =
    ("input_tokens", int (pos t.input_tokens))
    ∷ ("output_tokens", int (pos t.output_tokens))
    ∷ ("cache_creation_input_tokens", int (pos t.cache_creation_input_tokens))
    ∷ ("cache_read_input_tokens", int (pos t.cache_read_input_tokens))
    ∷ []

-- `_coerce_count`, of a member that may be missing
unfoldable pub coerce_count : Option Value → ℕ
coerce_count (some (int (pos n))) = n
coerce_count (some (float (whole (pos n)))) = n
coerce_count _ = 0

-- `TokenTotals.from_mapping`, of a mapping or of anything else
unfoldable pub from_mapping : Option (Dict Value) → TokenTotals
unfolding coerce_count lookup
from_mapping none = no_tokens
from_mapping (some d) = record {
  input_tokens = coerce_count (lookup "input_tokens" d);
  output_tokens = coerce_count (lookup "output_tokens" d);
  cache_creation_input_tokens = coerce_count (lookup "cache_creation_input_tokens" d);
  cache_read_input_tokens = coerce_count (lookup "cache_read_input_tokens" d);
}

-- `turn_delta`
unfoldable pub turn_delta : TokenTotals → TokenTotals → Option TokenTotals
unfolding covers minus
turn_delta current baseline =
    if covers current baseline then some (minus current baseline) else none
