-- ===== src/Shared/Float.antt =====
-- float64, as far as comparisons, signs and rounding to a whole number go.
use mathlib.Core.Bool.{Bool, true, false, not, ◌&&◌, ◌||◌}
use mathlib.Core.Option.{Option, none, some}
use Prim.Native.Nat.{ℕ, suc, ◌+◌, ◌-◌, ◌*◌, ◌/◌, ◌^◌}
use ieee_2030_5_client_go.Shared.Int.{ℤ, pos, negsuc, ◌-ℤ◌, ltb_ℤ, eqb_ℤ}

-- float64: each finite value is a whole multiple of the least positive one, 2 ^ -1074. The two zeros
-- are one value here, as they are to the comparisons.
pub data Float : Type 0 where
  nan neg_inf pos_inf : Float
  finite : ℤ → Float

unfoldable pub ltf : Float → Float → Bool
ltf nan y = false
ltf neg_inf nan = false
ltf neg_inf neg_inf = false
ltf neg_inf _ = true
ltf pos_inf y = false
ltf (finite a) nan = false
ltf (finite a) neg_inf = false
ltf (finite a) pos_inf = true
ltf (finite a) (finite b) = ltb_ℤ a b

-- Whether `x <= 0`.
unfoldable pub not_positive : Float → Bool
not_positive nan = false
not_positive neg_inf = true
not_positive pos_inf = false
not_positive (finite a) = not (ltb_ℤ (pos 0) a)

unfoldable pub negate : Float → Float
negate nan = nan
negate neg_inf = pos_inf
negate pos_inf = neg_inf
negate (finite a) = finite (pos 0 -ℤ a)

-- IsNaN or IsInf of the package math.
unfoldable pub is_nan_or_inf : Float → Bool
is_nan_or_inf (finite a) = false
is_nan_or_inf _ = true

abbrev pub zero_f : Float
zero_f = finite (pos 0)

-- math.Abs.
unfoldable pub abs_f : Float → Float
abs_f nan = nan
abs_f neg_inf = pos_inf
abs_f pos_inf = pos_inf
abs_f (finite (pos n)) = finite (pos n)
abs_f (finite (negsuc n)) = finite (pos (suc n))

unfoldable pub is_zero_f : Float → Bool
is_zero_f (finite a) = eqb_ℤ a (pos 0)
is_zero_f _ = false

-- math.Round as a whole number: half away from zero, and none for NaN and the infinities.
unfoldable pub round_f : Float → Option ℤ
round_f (finite (pos n)) = some (pos ((n + 2 ^ 1073) / 2 ^ 1074))
round_f (finite (negsuc n)) = some (pos 0 -ℤ pos ((suc n + 2 ^ 1073) / 2 ^ 1074))
round_f _ = none

abbrev pub is_nan : Float → Bool
is_nan nan = true
is_nan _ = false

-- The finite float64 `p / 2 ^ k`, for a `k` up to 1074.
unfoldable pub dyadic : ℕ → ℕ → Float
dyadic p k = finite (pos (p * 2 ^ (1074 - k)))

-- `x >= y`, false of NaN.
unfoldable pub gef : Float → Float → Bool
gef x y = not (is_nan x || is_nan y) && not (ltf x y)
