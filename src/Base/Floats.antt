-- ===== src/Base/Floats.antt =====
-- IEEE-754 values as far as the program compares them: a finite value is a multiple of the least
-- subnormal of its width, `pos n` or `neg n`, with both zeros.
use Prim.Native.Nat.{ℕ}
use mathlib.Core.Bool.{Bool, true, false, not, ◌&&◌}
use sovereign_stack.Base.Tests.{ltb, ◌==◌}

pub data Float : Type 0 where
  nan infinity neg_infinity : Float
  pos neg : ℕ → Float

-- `a < b`; a comparison with NaN is false
unfoldable pub lt_float : Float → Float → Bool
lt_float nan b = false
lt_float infinity b = false
lt_float neg_infinity nan = false
lt_float neg_infinity neg_infinity = false
lt_float neg_infinity b = true
lt_float (pos a) infinity = true
lt_float (pos a) (pos b) = ltb a b
lt_float (pos a) b = false
lt_float (neg a) infinity = true
lt_float (neg a) (pos b) = not (a == 0 && b == 0)
lt_float (neg a) (neg b) = ltb b a
lt_float (neg a) b = false
