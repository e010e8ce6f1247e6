-- ===== src/Base/Double.antt =====
-- Doubles, a parameter: the operations that the program uses, and the order of those that are numbers.
use mathlib.Core.Path.{◌≡◌}
use mathlib.Core.Bool.{Bool, true, false}
use Prim.Native.Nat.{ℕ}
use rats_search_tui.Base.Int.{ℤ}

-- `lit n d` is the literal with the digits of n, d of them behind the point; `to_int` is the cast to
-- int64_t.
pub record FloatOps : Type 1 where
  pub Double : Type 0
  pub of_int : ℤ → Double
  pub to_int : Double → ℤ
  pub lit : ℕ → ℕ → Double
  pub add : Double → Double → Double
  pub sub : Double → Double → Double
  pub mul : Double → Double → Double
  pub div : Double → Double → Double
  pub sqrt : Double → Double
  pub less : Double → Double → Bool
  pub less_equal : Double → Double → Bool
  pub equal : Double → Double → Bool

-- What the order of doubles is known for.
pub record IsOrdered (float : FloatOps) : Type 0 where
  pub irrefl : (a : float.Double) → float.less a a ≡ false
  pub trans :
      (a b c : float.Double)
      → float.less a b ≡ true
      → float.less a c ≡ false
      → float.less b c ≡ false
