-- ===== src/RateLimit/Count.antt =====
-- Nothing is hidden: every call of `warn` is logged, reported as suppressed, or still counted.
use tokenweir.Prelude.{
  ℕ, suc, ◌+◌, String, ◌≡◌, Option, none, some, List, [], ◌∷◌, arith, str_eq, eq_iff, lookup-insert,
  lookup-erase, if◌then◌else◌, refl,
}
use tokenweir.RateLimit.{Warner, Line, Call, suppressed, is_held, warn, bucket_of, run}

abbrev pub occurrences : String → List Call → ℕ
occurrences k [] = 0
occurrences k (c ∷ cs) = (if str_eq (bucket_of c) k then 1 else 0) + occurrences k cs

-- What a line accounts for: itself and the calls that its suffix reports.
abbrev pub accounted : Option Line → ℕ
accounted none = 0
accounted (some l) = suc l.suppressed

abbrev pub reported : String → List (String × Option Line) → ℕ
reported k [] = 0
reported k ((b, line) ∷ rest) = (if str_eq b k then accounted line else 0) + reported k rest

pub warn-suppressed :
    (k : String) (c : Call) (w : Warner)
    → (if str_eq (bucket_of c) k then 1 else 0) + suppressed k w
      ≡ (if str_eq (bucket_of c) k then accounted (warn c.now c.message c.key w).1 else 0)
        + suppressed k (warn c.now c.message c.key w).0
unfolding warn suppressed is_held
warn-suppressed k c w = ground (
  arith,
  lookup-insert (bucket_of c) k (suppressed (bucket_of c) w + 1) w.suppressed,
  lookup-erase (bucket_of c) k w.suppressed,
  eq_iff (bucket_of c) k,
)

-- For each key, over any sequence of calls from any state: the calls made under that key, with those
-- that were held back before, are the lines logged under it, with the numbers that these report,
-- and those that are still held back.
pub run-suppressed :
    (k : String) (w : Warner) (cs : List Call)
    → occurrences k cs + suppressed k w ≡ reported k (run w cs).1 + suppressed k (run w cs).0
unfolding run
run-suppressed k w [] = refl
run-suppressed k w (c ∷ cs) =
    omega (arith, warn-suppressed k c w, run-suppressed k (warn c.now c.message c.key w).0 cs)
