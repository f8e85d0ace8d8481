-- ===== src/RateLimit/Tests.antt =====
-- Concrete runs, and the theorems at them.
use tokenweir.Prelude.{ℕ, ◌+◌, ◌≡◌, refl, none, some, List, [], ◌∷◌, arith, lookup, insert, erase}
use tokenweir.RateLimit.{Line, Call, new, suppressed, warn, run}
use tokenweir.RateLimit.Count.{occurrences, reported, run-suppressed}
use tokenweir.RateLimit.Window.{
  lines_of, AllHeld, calls_of, SameFor, SameFor-refl, warn-run_held, run-calls_of,
}

abbrev call : ℕ → Call
call t = record { now = t; message = "sink failed"; key = none }

abbrev other : ℕ → Call
other t = record { now = t; message = "dial failed: refused"; key = some "dial failed" }

abbrev burst : List Call
burst = call 0 ∷ other 10 ∷ call 20 ∷ call 59 ∷ other 71 ∷ call 60 ∷ []

abbrev line : ℕ → Line
line n = record { message = "sink failed"; suppressed = n }

burst_lines :
    lines_of "sink failed" (run (new 60) burst).1 ≡ some (line 0) ∷ none ∷ none ∷ some (line 2) ∷ []
unfolding run warn lookup insert erase
burst_lines = refl

run-suppressed_example :
    occurrences "sink failed" burst + suppressed "sink failed" (new 60)
    ≡ reported "sink failed" (run (new 60) burst).1
      + suppressed "sink failed" (run (new 60) burst).0
run-suppressed_example = run-suppressed "sink failed" (new 60) burst

warn-run_held_example : AllHeld (
    lines_of "sink failed"
      (run (warn 0 "sink failed" none (new 60)).0 (other 10 ∷ call 20 ∷ call 59 ∷ [])).1)
unfolding warn lookup
warn-run_held_example =
    warn-run_held (call 0) (other 10 ∷ call 20 ∷ call 59 ∷ []) (new 60) (line 0) (omega arith) refl
      (omega arith)

run-calls_of_example :
    SameFor "sink failed" (run (new 60) burst).0 (run (new 60) (calls_of "sink failed" burst)).0
    × (lines_of "sink failed" (run (new 60) burst).1
        ≡ lines_of "sink failed" (run (new 60) (calls_of "sink failed" burst)).1)
run-calls_of_example =
    run-calls_of "sink failed" (new 60) (new 60) burst (SameFor-refl "sink failed" (new 60))
