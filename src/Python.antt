-- ===== src/Python.antt =====
-- Python values as the package's checks see them, exceptions, and the outcome of a call.
use tokenweir.Prelude.{ℤ}

-- A float, by what the code asks of it: `whole n` is finite and equal to the integer n (so
-- `is_integer()` holds), `fractional f` is finite with the floor f and a fraction.
pub data Float : Type 0 where
  whole : ℤ → Float
  fractional : ℤ → Float
  nan : Float
  inf : Float
  minus_inf : Float

-- An exception, by the handler that can catch it: `except Exception` catches an `exception`, and
-- not a `base_exception` (KeyboardInterrupt, SystemExit).
pub data Raised : Type 0 where
  exception : Raised
  base_exception : Raised

-- How a call into code that may raise ended.
pub data Outcome {ℓ} (A : Type ℓ) : Type ℓ where
  returned : A → Outcome A
  raised : Raised → Outcome A
