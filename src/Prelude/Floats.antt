-- ===== src/Prelude/Floats.antt =====
-- Python's floats: the special values of IEEE 754, and finite values as whole multiples of 1e-12.
-- 1e-12 is the tolerance that the source compares sizes and prices with. Overflow to infinity is
-- not modelled, and a sum of finite values is exact; a product is rounded down to the unit.
use Prim.Native.Nat.{ℕ, ◌/◌}
use mathlib.Core.Bool.{Bool, true, false, ◌&&◌, ◌||◌, not}
use mathlib.Core.List.{List, foldl}
use polymarket_btc.Prelude.Tests.{if◌then◌else◌}
use polymarket_btc.Prelude.Int.{ℤ, pos, negsuc, ◌+ℤ◌, ◌-ℤ◌, ◌*ℤ◌, ltb_ℤ, leb_ℤ}

pub data Float : Type 0 where
  fin : ℤ → Float
  inf neg_inf nan : Float

abbrev pub is_finite : Float → Bool
is_finite (fin z) = true
is_finite inf = false
is_finite neg_inf = false
is_finite nan = false

-- How many units are in 1.0.
abbrev pub scale : ℕ
scale = 1_000_000_000_000

abbrev pub units : ℕ → Float
units n = fin (pos n)

-- 0.0, 1.0 and 1e-12.
abbrev pub zero_f : Float
zero_f = units 0

abbrev pub one_f : Float
one_f = units scale

abbrev pub tolerance : Float
tolerance = units 1

infix 50 ◌<f◌ ◌≤f◌
-- a < b: every comparison with NaN is false.
abbrev pub ◌<f◌ : Float → Float → Bool
fin a <f fin b = ltb_ℤ a b
fin a <f inf = true
neg_inf <f fin b = true
neg_inf <f inf = true
_ <f _ = false

-- a <= b.
abbrev pub ◌≤f◌ : Float → Float → Bool
fin a ≤f fin b = leb_ℤ a b
fin a ≤f inf = true
inf ≤f inf = true
neg_inf ≤f fin b = true
neg_inf ≤f inf = true
neg_inf ≤f neg_inf = true
_ ≤f _ = false

infixl 65 ◌+f◌ ◌-f◌
unfoldable pub ◌+f◌ : Float → Float → Float
fin a +f fin b = fin (a +ℤ b)
fin a +f inf = inf
fin a +f neg_inf = neg_inf
inf +f fin b = inf
inf +f inf = inf
neg_inf +f fin b = neg_inf
neg_inf +f neg_inf = neg_inf
_ +f _ = nan

unfoldable pub ◌-f◌ : Float → Float → Float
fin a -f fin b = fin (a -ℤ b)
fin a -f inf = neg_inf
fin a -f neg_inf = inf
inf -f fin b = inf
inf -f neg_inf = inf
neg_inf -f fin b = neg_inf
neg_inf -f inf = neg_inf
_ -f _ = nan

-- -x
unfoldable pub negate : Float → Float
negate (fin a) = fin (pos 0 -ℤ a)
negate inf = neg_inf
negate neg_inf = inf
negate nan = nan

-- The product of two finite values in units, rounded towards minus infinity.
abbrev pub scale_down : ℤ → ℤ
scale_down (pos n) = pos (n / scale)
scale_down (negsuc n) = negsuc (n / scale)

-- An infinite value times one with the sign of `x`.
abbrev inf_times : Float → Float
inf_times x = if zero_f <f x then inf else if x <f zero_f then neg_inf else nan

abbrev neg_inf_times : Float → Float
neg_inf_times x = if zero_f <f x then neg_inf else if x <f zero_f then inf else nan

infixl 70 ◌*f◌
unfoldable pub ◌*f◌ : Float → Float → Float
fin a *f fin b = fin (scale_down (a *ℤ b))
inf *f x = inf_times x
neg_inf *f x = neg_inf_times x
fin a *f inf = inf_times (fin a)
fin a *f neg_inf = neg_inf_times (fin a)
_ *f _ = nan

-- Python's `min(a, b)`.
abbrev pub min_f : Float → Float → Float
min_f a b = if b <f a then b else a

-- `sum(...)` adds from the left, starting at 0.
abbrev pub sum_f : List Float → Float
sum_f = foldl ◌+f◌ zero_f

-- The checks that the constructors of the source share: `not isfinite(x) or x < 0.0`,
-- `not isfinite(x) or x <= 0.0` and `not isfinite(x) or not 0.0 < x < 1.0`.
abbrev pub not_nonnegative : Float → Bool
not_nonnegative x = not (is_finite x) || x <f zero_f

abbrev pub not_positive : Float → Bool
not_positive x = not (is_finite x) || x ≤f zero_f

abbrev pub not_probability : Float → Bool
not_probability x = not (is_finite x) || not (zero_f <f x && x <f one_f)

-- x / 2.0, rounded down to the unit.
abbrev pub halve : Float → Float
halve (fin (pos n)) = fin (pos (n / 2))
halve (fin (negsuc n)) = fin (negsuc (n / 2))
halve x = x

infix 50 ◌==f◌
-- a == b: false for NaN.
abbrev pub ◌==f◌ : Float → Float → Bool
a ==f b = a ≤f b && b ≤f a
