-- ===== src/RateLimit/Window.antt =====
-- At most one line per key and interval, and one key never changes what another logs.
use tokenweir.Prelude.{
  ℕ, ◌+◌, ◌<◌, String, ◌≡◌, refl, sym, subst, Option, none, some, List, [], ◌∷◌, arith, str_eq,
  eq_iff, lookup, lookup-insert, lookup-erase, if◌then◌else◌, Bool-cases, true, false, inl, inr,
}
use tokenweir.RateLimit.{Warner, Line, Call, suppressed, is_held, warn, bucket_of, run}

-- The lines that were logged under a key.
abbrev pub lines_of : String → List (String × Option Line) → List (Option Line)
lines_of k [] = []
lines_of k ((b, line) ∷ rest) =
    let more = lines_of k rest in if str_eq b k then line ∷ more else more

abbrev pub AllHeld : List (Option Line) → Type 0
AllHeld [] = Unit
AllHeld (l ∷ ls) = (l ≡ none) × AllHeld ls

abbrev pub AllBefore : ℕ → List Call → Type 0
AllBefore t [] = Unit
AllBefore t (c ∷ cs) = (c.now < t) × AllBefore t cs

-- A key is shut until `t`: no call under it before `t` is logged.
abbrev pub IsShut : String → ℕ → Warner → Type 0
IsShut k t w = lookup k w.next_allowed ≡ some t

warn-IsShut :
    (k : String) (t : ℕ) (c : Call) (w : Warner)
    → IsShut k t w
    → c.now < t
    → IsShut k t (warn c.now c.message c.key w).0
unfolding warn is_held
warn-IsShut k t c w h lt = ground (
  arith,
  eq_iff (bucket_of c) k,
  lookup-insert (bucket_of c) k (c.now + w.interval) w.next_allowed,
)

warn-held :
    (k : String) (t : ℕ) (c : Call) (w : Warner)
    → IsShut k t w
    → c.now < t
    → str_eq (bucket_of c) k ≡ true
    → (warn c.now c.message c.key w).1 ≡ none
unfolding warn is_held
warn-held k t c w h lt e = ground (arith, eq_iff (bucket_of c) k)

run-held :
    (k : String) (t : ℕ) (w : Warner) (cs : List Call)
    → IsShut k t w
    → AllBefore t cs
    → AllHeld (lines_of k (run w cs).1)
unfolding run
run-held k t w [] h b = tt
run-held k t w (c ∷ cs) h b = ground (
  arith,
  warn-held k t c w h b.0,
  run-held k t (warn c.now c.message c.key w).0 cs (warn-IsShut k t c w h b.0) b.1,
)

warn-shuts :
    (c : Call) (w : Warner) (l : Line)
    → 0 < w.interval
    → (warn c.now c.message c.key w).1 ≡ some l
    → IsShut (bucket_of c) (c.now + w.interval) (warn c.now c.message c.key w).0
unfolding warn is_held
warn-shuts c w l p h = ground (
  arith,
  eq_iff (bucket_of c) (bucket_of c),
  lookup-insert (bucket_of c) (bucket_of c) (c.now + w.interval) w.next_allowed,
)

-- With a positive interval, once a call has logged a line, no later call under the same key, before
-- the interval is over, logs one, whatever calls under other keys come between.
pub warn-run_held :
    (c : Call) (cs : List Call) (w : Warner) (l : Line)
    → 0 < w.interval
    → (warn c.now c.message c.key w).1 ≡ some l
    → AllBefore (c.now + w.interval) cs
    → AllHeld (lines_of (bucket_of c) (run (warn c.now c.message c.key w).0 cs).1)
warn-run_held c cs w l p h b =
    run-held (bucket_of c) (c.now + w.interval) (warn c.now c.message c.key w).0 cs
      (warn-shuts c w l p h) b

-- The calls under a key.
abbrev pub calls_of : String → List Call → List Call
calls_of k [] = []
calls_of k (c ∷ cs) = let more = calls_of k cs in if str_eq (bucket_of c) k then c ∷ more else more

-- Two warners are in the same state as far as a key is concerned.
pub record SameFor (k : String) (v w : Warner) : Type 0 where
  pub interval : v.interval ≡ w.interval
  pub next_allowed : lookup k v.next_allowed ≡ lookup k w.next_allowed
  pub suppressed : lookup k v.suppressed ≡ lookup k w.suppressed

pub SameFor-refl : (k : String) (w : Warner) → SameFor k w w
SameFor-refl k w = record { interval = refl; next_allowed = refl; suppressed = refl }

warn-other :
    (k : String) (c : Call) (v w : Warner)
    → SameFor k v w
    → str_eq (bucket_of c) k ≡ false
    → SameFor k (warn c.now c.message c.key v).0 w
unfolding warn is_held
warn-other k c v w s e = ground (
  arith,
  lookup-insert (bucket_of c) k (suppressed (bucket_of c) v + 1) v.suppressed,
  lookup-erase (bucket_of c) k v.suppressed,
  lookup-insert (bucket_of c) k (c.now + v.interval) v.next_allowed,
)

warn-same :
    (c : Call) (v w : Warner)
    → SameFor (bucket_of c) v w
    → SameFor (bucket_of c) (warn c.now c.message c.key v).0 (warn c.now c.message c.key w).0
      × ((warn c.now c.message c.key v).1 ≡ (warn c.now c.message c.key w).1)
unfolding warn is_held suppressed
warn-same c v w s =
    let b = bucket_of c in
    ground (
      arith,
      eq_iff b b,
      lookup-insert b b (suppressed b v + 1) v.suppressed,
      lookup-insert b b (suppressed b w + 1) w.suppressed,
      lookup-erase b b v.suppressed,
      lookup-erase b b w.suppressed,
      lookup-insert b b (c.now + v.interval) v.next_allowed,
      lookup-insert b b (c.now + w.interval) w.next_allowed,
    )

-- What is logged under a key, line by line, depends only on the calls under that key: taking all
-- other calls away from a sequence changes none of its lines, and not its state for the key.
pub run-calls_of :
    (k : String) (v w : Warner) (cs : List Call)
    → SameFor k v w
    → SameFor k (run v cs).0 (run w (calls_of k cs)).0
      × (lines_of k (run v cs).1 ≡ lines_of k (run w (calls_of k cs)).1)
unfolding run
run-calls_of k v w [] s = (s, refl)
run-calls_of k v w (c ∷ cs) s = elim (Bool-cases (str_eq (bucket_of c) k)) [
  | inl e ↦
      let same : bucket_of c ≡ k = (eq_iff (bucket_of c) k).0 e in
      let step = warn-same c v w (subst (λ j. SameFor j v w) (sym same) s) in
      let rest =
        run-calls_of k (warn c.now c.message c.key v).0 (warn c.now c.message c.key w).0 cs (
          subst (λ j. SameFor j (warn c.now c.message c.key v).0 (warn c.now c.message c.key w).0)
            same step.0) in
      rw e (rest.0, cc (rest.1, step.1))
  | inr e ↦ rw e (run-calls_of k (warn c.now c.message c.key v).0 w cs (warn-other k c v w s e))
]
