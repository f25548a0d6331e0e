-- ===== src/Prelude/Lists.antt =====
-- Lists measured by native numbers, and predicates on lists by recursion.
use Prim.Native.Nat.{ℕ, zero, suc, ◌+◌}
use mathlib.Core.Path.{◌≡◌}
use mathlib.Core.Bool.{Bool, true, false, ◌&&◌, ◌||◌}
use mathlib.Core.List.{List, [], ◌∷◌, ◌++◌}
use mathlib.Core.Option.{Option, none, some}
use native.Mathlib.Omega.{arith}

module _ {ℓ} {A : Type ℓ} where
  abbrev pub length : List A → ℕ
  length [] = 0
  length (x ∷ xs) = suc (length xs)

  abbrev pub get_elem? : List A → ℕ → Option A
  get_elem? [] i = none
  get_elem? (x ∷ xs) zero = some x
  get_elem? (x ∷ xs) (suc i) = get_elem? xs i

  -- `not xs`
  abbrev pub is_empty : List A → Bool
  is_empty [] = true
  is_empty (x ∷ xs) = false

  -- Python's `all(... for ...)` and `any(... for ...)`.
  abbrev pub all : (A → Bool) → List A → Bool
  all p [] = true
  all p (x ∷ xs) = p x && all p xs

  abbrev pub any : (A → Bool) → List A → Bool
  any p [] = false
  any p (x ∷ xs) = p x || any p xs

  pub length-append : (xs ys : List A) → length (xs ++ ys) ≡ length xs + length ys
  length-append [] ys = omega arith
  length-append (x ∷ xs) ys = omega (arith, length-append xs ys)

  -- The predicate holds of every element.
  abbrev pub All {κ} : (A → Type κ) → List A → Type κ
  All Holds [] = Unit
  All Holds (y ∷ ys) = Holds y × All Holds ys

  pub All-append {κ} :
      (Holds : A → Type κ) (xs ys : List A) → All Holds xs → All Holds ys → All Holds (xs ++ ys)
  All-append Holds [] ys h k = k
  All-append Holds (x ∷ xs) ys h k = (h.0, All-append Holds xs ys h.1 k)

  -- The element at some position.
  abbrev pub IsMember : A → List A → Type ℓ
  IsMember x xs = (i : ℕ) × (get_elem? xs i ≡ some x)

  pub IsMember-append : (x : A) (xs ys : List A) → IsMember x xs → IsMember x (xs ++ ys)
  IsMember-append x [] ys (i, e) = absurd (ground arith)
  IsMember-append x (y ∷ xs) ys (zero, e) = (0, e)
  IsMember-append x (y ∷ xs) ys (suc i, e) =
      let (j, found) = IsMember-append x xs ys (i, e) in (suc j, found)

  pub IsMember-after : (x : A) (xs ys : List A) → IsMember x ys → IsMember x (xs ++ ys)
  IsMember-after x [] ys h = h
  IsMember-after x (y ∷ xs) ys h = let (i, e) = IsMember-after x xs ys h in (suc i, e)

  pub All-map {κ κ'} :
      {P : A → Type κ} {Q : A → Type κ'} (xs : List A) → ((x : A) → P x → Q x) → All P xs → All Q xs
  All-map [] f h = tt
  All-map (x ∷ xs) f h = (f x h.0, All-map xs f h.1)
