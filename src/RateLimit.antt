-- ===== src/RateLimit.antt =====
-- src/tokenweir/_ratelimit.py: `RateLimitedWarner`. Times are natural numbers of one small unit.
-- The clock is a reading that the caller passes. The logging call is guarded in the source, and
-- nothing is done after it, so a logger that raises changes nothing here: a call returns the line
-- that it hands to the logger, if it does.
pub mod Count
pub mod Window
mod Tests
use tokenweir.Prelude.{
  ℕ, ◌+◌, String, Bool, Option, none, some, List, [], ◌∷◌, Dict, lookup, insert, erase, get_or, ltb,
  ◌==◌, if◌then◌else◌,
}

pub record Warner : Type 0 where
  pub interval : ℕ
  pub next_allowed : Dict ℕ
  pub suppressed : Dict ℕ

-- `RateLimitedWarner.__init__`, at an interval that is already a number of ticks.
abbrev pub new : ℕ → Warner
new interval = record { interval = interval; next_allowed = []; suppressed = [] }

-- The line that goes to the logger, with the number that its suffix reports (no suffix at 0).
pub record Line : Type 0 where
  pub message : String
  pub suppressed : ℕ

-- `suppressed(key)`
unfoldable pub suppressed : String → Warner → ℕ
suppressed key w = get_or 0 (lookup key w.suppressed)

-- `next_allowed is not None and now < next_allowed`
unfoldable pub is_held : ℕ → Option ℕ → Bool
is_held now none = Bool.false
is_held now (some t) = ltb now t

-- `bucket = message if key is None else key`
abbrev pub bucket : String → Option String → String
bucket message key = get_or message key

unfoldable pub warn : ℕ → String → Option String → Warner → Warner × Option Line
unfolding is_held suppressed
warn now message key w =
    let b = bucket message key in
    if is_held now (lookup b w.next_allowed)
    then (record w { suppressed = insert b (suppressed b w + 1) w.suppressed }, none)
    else (
      record w {
        suppressed = erase b w.suppressed;
        next_allowed =
            if w.interval == 0 then w.next_allowed else insert b (now + w.interval) w.next_allowed;
      },
      some (record { message = message; suppressed = suppressed b w }),
    )

-- A call of `warn`, and a sequence of calls with what each has logged.
pub record Call : Type 0 where
  pub now : ℕ
  pub message : String
  pub key : Option String

abbrev pub bucket_of : Call → String
bucket_of c = bucket c.message c.key

unfoldable pub run : Warner → List Call → Warner × List (String × Option Line)
run w [] = (w, [])
run w (c ∷ cs) =
    let (w', line) = warn c.now c.message c.key w in
    let (w'', lines) = run w' cs in (w'', (bucket_of c, line) ∷ lines)
