-- ===== src/Prelude/Finite.antt =====
-- Comparisons of finite floats are those of numbers: none is decided by a NaN.
use mathlib.Core.Path.{◌≡◌}
use mathlib.Core.Bool.{true, false, not, ◌&&◌}
use native.Mathlib.Omega.{arith}
use polymarket_btc.Prelude.Floats.{
  Float, ◌<f◌, ◌≤f◌, ◌+f◌, ◌-f◌, ◌*f◌, negate, min_f, is_finite, not_positive, not_nonnegative,
  not_probability,
}

pub is_finite-+f :
    (a b : Float) → is_finite a ≡ true → is_finite b ≡ true → is_finite (a +f b) ≡ true
unfolding ◌+f◌
is_finite-+f a b h k = ground arith

pub is_finite--f :
    (a b : Float) → is_finite a ≡ true → is_finite b ≡ true → is_finite (a -f b) ≡ true
unfolding ◌-f◌
is_finite--f a b h k = ground arith

pub probability-is_finite : (x : Float) → not_probability x ≡ false → is_finite x ≡ true
probability-is_finite x h = ground arith

pub ≤f-not-<f : (a b : Float) → is_finite a ≡ true → is_finite b ≡ true → (a ≤f b) ≡ not (b <f a)
≤f-not-<f a b h k = ground arith

pub is_finite-*f :
    (a b : Float) → is_finite a ≡ true → is_finite b ≡ true → is_finite (a *f b) ≡ true
unfolding ◌*f◌
is_finite-*f a b h k = ground arith

pub is_finite-negate : (a : Float) → is_finite a ≡ true → is_finite (negate a) ≡ true
unfolding negate
is_finite-negate a h = ground arith

pub is_finite-min_f :
    (a b : Float) → is_finite a ≡ true → is_finite b ≡ true → is_finite (min_f a b) ≡ true
is_finite-min_f a b h k = ground arith

pub positive-is_finite : (a : Float) → not_positive a ≡ false → is_finite a ≡ true
positive-is_finite a h = ground arith

pub nonnegative-is_finite : (a : Float) → not_nonnegative a ≡ false → is_finite a ≡ true
nonnegative-is_finite a h = ground arith

pub <f-not-≤f : (a b : Float) → is_finite a ≡ true → is_finite b ≡ true → (a <f b) ≡ not (b ≤f a)
<f-not-≤f a b h k = ground arith

pub ≤f-min_f :
    (x a b : Float)
    → is_finite a ≡ true
    → is_finite b ≡ true
    → (x ≤f min_f a b) ≡ (x ≤f a && x ≤f b)
≤f-min_f x a b h k = ground arith
