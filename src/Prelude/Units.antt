-- ===== src/Prelude/Units.antt =====
-- The finite values that the checks on floats let through.
use Prim.Native.Nat.{ℕ, zero, suc, ◌+◌, ◌-◌, ◌≤◌, min}
use mathlib.Core.Path.{◌≡◌, refl}
use mathlib.Core.Bool.{true, false}
use polymarket_btc.Prelude.Tests.{leb}
use native.Mathlib.Omega.{arith}
use polymarket_btc.Prelude.Int.{pos, negsuc, ◌+ℤ◌, ◌-ℤ◌}
use polymarket_btc.Prelude.Floats.{
  Float, fin, inf, neg_inf, nan, zero_f, ◌<f◌, units, tolerance, min_f, ◌≤f◌, ◌+f◌, ◌-f◌,
  not_nonnegative, not_positive,
}

pub positive_units : (x : Float) → not_positive x ≡ false → (n : ℕ) × (x ≡ units n) × (1 ≤ n)
positive_units (fin (pos zero)) h = cc
positive_units (fin (pos (suc n))) h = (suc n, refl, omega arith)
positive_units (fin (negsuc n)) h = absurd (ground arith)
positive_units inf h = cc
positive_units neg_inf h = cc
positive_units nan h = cc

pub nonnegative_units : (x : Float) → not_nonnegative x ≡ false → (n : ℕ) × (x ≡ units n)
nonnegative_units (fin (pos n)) h = (n, refl)
nonnegative_units (fin (negsuc n)) h = absurd (ground arith)
nonnegative_units inf h = cc
nonnegative_units neg_inf h = cc
nonnegative_units nan h = cc

-- Between 0 and a finite bound there are only finite values.
pub between_units :
    (x : Float) (t : ℕ)
    → (zero_f ≤f x) ≡ true
    → (x ≤f units t) ≡ true
    → (n : ℕ) × (x ≡ units n) × (n ≤ t)
between_units (fin (pos n)) t h k = (n, refl, ground arith)
between_units (fin (negsuc n)) t h k = absurd (ground arith)
between_units inf t h k = cc
between_units neg_inf t h k = cc
between_units nan t h k = cc

pub units-+f : (a b : ℕ) → (units a +f units b) ≡ units (a + b)
unfolding ◌+f◌ ◌+ℤ◌
units-+f a b = ground arith

pub units--f : (a b : ℕ) → b ≤ a → (units a -f units b) ≡ units (a - b)
unfolding ◌-f◌ ◌-ℤ◌
units--f a b h = ground arith

-- a - 1e-12 <= b, where a - 1e-12 may be negative.
pub units-tolerance-≤f : (a b : ℕ) → (units a -f tolerance ≤f units b) ≡ leb a (b + 1)
unfolding ◌-f◌ ◌-ℤ◌
units-tolerance-≤f a b = ground arith

pub min_f-units : (a b : ℕ) → min_f (units a) (units b) ≡ units (min a b)
min_f-units a b = ground arith

pub units-≤f : (a b : ℕ) → a ≤ b → (units a ≤f units b) ≡ true
units-≤f a b h = ground arith

pub units-<f : (a b : ℕ) → (units a <f units b) ≡ false → b ≤ a
units-<f a b h = ground arith

pub ≤f-trans : (a b c : Float) → (a ≤f b) ≡ true → (b ≤f c) ≡ true → (a ≤f c) ≡ true
≤f-trans a b c h k = ground arith
