-- ===== src/Emitter/Options.antt =====
-- emitter.py: the checks that `BufferedEmitter.__init__` makes of its arguments.
use tokenweir.Prelude.{ℕ, zero, suc, pos, negsuc, ◌≤◌, String, ◌≡◌, refl, Option, none, some, arith}
use tokenweir.Python.{Float, whole, fractional}
use tokenweir.Contract.Values.{
  Value, int, float, Error, value_error, not_an_integer, not_a_number, not_finite, below_one,
  is_negative, Result, ok, err, ◌>>=◌,
}
use tokenweir.Contract.Errors.{IsValueError}
use tokenweir.Emitter.State.{Emitter, new}

-- `_positive_int`
unfoldable pub positive_int : String → Value → Result ℕ
positive_int name (int (pos zero)) = err (value_error below_one (some name))
positive_int name (int (pos (suc n))) = ok (suc n)
positive_int name (int (negsuc n)) = err (value_error below_one (some name))
positive_int name _ = err (value_error not_an_integer (some name))

-- `float(value)`, for an integer
abbrev pub as_float : Value → Option Float
as_float (int n) = some (whole n)
as_float (float x) = some x
as_float _ = none

-- the checks of `_non_negative_float` on the float
unfoldable pub finite_non_negative : String → Float → Result Float
finite_non_negative name (whole (negsuc n)) = err (value_error is_negative (some name))
finite_non_negative name (whole (pos n)) = ok (whole (pos n))
finite_non_negative name (fractional (negsuc n)) = err (value_error is_negative (some name))
finite_non_negative name (fractional (pos n)) = ok (fractional (pos n))
finite_non_negative name _ = err (value_error not_finite (some name))

-- `_non_negative_float`
unfoldable pub non_negative_float : String → Value → Result Float
unfolding finite_non_negative
non_negative_float name v = elim (as_float v) [
  | none ↦ err (value_error not_a_number (some name))
  | some x ↦ finite_non_negative name x
]

-- The arguments of `BufferedEmitter`.
pub record Options : Type 0 where
  pub max_buffer : Value
  pub batch_size : Value
  pub linger : Value
  pub close_timeout : Value
  pub warn_interval : Value

-- `BufferedEmitter.__init__`: the emitter, and the timeout of `close`. `ticks` turns seconds into the
-- unit of the model's clock.
unfoldable pub init : (Float → ℕ) → Options → Result (Emitter × Float)
init ticks o = do
  max_buffer ← positive_int "max_buffer" o.max_buffer
  batch_size ← positive_int "batch_size" o.batch_size
  linger ← non_negative_float "linger" o.linger
  close_timeout ← non_negative_float "close_timeout" o.close_timeout
  warn_interval ← non_negative_float "warn_interval" o.warn_interval
  ok (new max_buffer batch_size (ticks linger) (ticks warn_interval), close_timeout)

positive_int-raises :
    (name : String) (v : Value) (e : Error) → positive_int name v ≡ err e → IsValueError e
unfolding positive_int
positive_int-raises name v e h = ground arith

positive_int-pos : (name : String) (v : Value) (n : ℕ) → positive_int name v ≡ ok n → 1 ≤ n
unfolding positive_int
positive_int-pos name v n h = ground arith

non_negative_float-raises :
    (name : String) (v : Value) (e : Error) → non_negative_float name v ≡ err e → IsValueError e
unfolding non_negative_float
non_negative_float-raises name v e h = ground arith

-- What construction promises: an emitter that can hold and hand over at least one record, or a
-- ValueError.
abbrev pub Ready : Result (Emitter × Float) → Type 0
Ready (ok (e, timeout)) = (1 ≤ e.max_buffer) × (1 ≤ e.batch_size)
Ready (err e) = IsValueError e

Ready-bind :
    {A : Type 0} (m : Result A) (f : A → Result (Emitter × Float))
    → ((e : Error) → m ≡ err e → IsValueError e)
    → ((a : A) → m ≡ ok a → Ready (f a))
    → Ready (m >>= f)
Ready-bind (ok a) f he ha = ha a refl
Ready-bind (err e) f he ha = he e refl

-- Whatever its arguments are, construction gives an emitter whose buffer and whose batches have room
-- for a record, or raises a ValueError.
pub init-Ready : (ticks : Float → ℕ) (o : Options) → Ready (init ticks o)
unfolding init
init-Ready ticks o = Ready-bind _ _ (positive_int-raises "max_buffer" o.max_buffer) λ m em.
    Ready-bind _ _ (positive_int-raises "batch_size" o.batch_size) λ b eb.
      Ready-bind _ _ (non_negative_float-raises "linger" o.linger) λ _ _.
        Ready-bind _ _ (non_negative_float-raises "close_timeout" o.close_timeout) λ _ _.
          Ready-bind _ _ (non_negative_float-raises "warn_interval" o.warn_interval) λ _ _. (
            positive_int-pos "max_buffer" o.max_buffer m em,
            positive_int-pos "batch_size" o.batch_size b eb,
          )
