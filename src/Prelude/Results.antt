-- ===== src/Prelude/Results.antt =====
-- A call that may raise: the value, or the exception.
use mathlib.Core.Path.{◌≡◌, refl}
use mathlib.Core.Bool.{Bool, true, false}
use mathlib.Core.Logic.{◌⊎◌, inl, inr}
use native.Mathlib.Omega.{arith}
use mathlib.Core.Option.{Option, none, some}

pub data Result (E : Type 0) (A : Type 0) : Type 0 where
  ok : A → Result E A
  err : E → Result E A

infixl 5 ◌>>=◌ ◌>>◌
-- The exception of the first call ends both.
abbrev pub ◌>>=◌ : {E A B : Type 0} → Result E A → (A → Result E B) → Result E B
err raised >>= next = err raised
ok value >>= next = next value

abbrev pub ◌>>◌ : {E B : Type 0} → Result E (Unit {0}) → Result E B → Result E B
first >> next = first >>= λ _. next

infixl 5 ◌>>?◌
-- None of the first ends both.
abbrev pub ◌>>?◌ : {A B : Type 0} → Option A → (A → Option B) → Option B
none >>? next = none
some value >>? next = next value

-- `if c: raise e`
abbrev pub raise_if : {E : Type 0} → Bool → E → Result E (Unit {0})
raise_if true e = err e
raise_if false e = ok tt

abbrev pub is_ok : {E A : Type 0} → Result E A → Bool
is_ok (ok a) = true
is_ok (err e) = false

-- Both calls of a sequence that returned have returned.
pub bind-ok :
    {E A B : Type 0} (call : Result E A) (rest : A → Result E B) {value : B}
    → (call >>= rest) ≡ ok value
    → (first : A) × (call ≡ ok first) × (rest first ≡ ok value)
bind-ok (err raised) rest h = cc
bind-ok (ok first) rest h = (first, refl, h)

pub is_ok-value :
    {E A : Type 0} (call : Result E A) → is_ok call ≡ true → (value : A) × (call ≡ ok value)
is_ok-value (ok value) h = (value, refl)
is_ok-value (err raised) h = cc

-- What follows a check that returned.
pub raise_if-ok :
    {E B : Type 0} (test : Bool) (e : E) (rest : Result E B) {value : B}
    → (raise_if test e >> rest) ≡ ok value
    → (test ≡ false) × (rest ≡ ok value)
raise_if-ok true e rest h = cc
raise_if-ok false e rest h = (refl, h)

same_err :
    {E A B : Type 0} {d e : E}
    → ◌≡◌ {A = Result E B} (err d) (err e)
    → ◌≡◌ {A = Result E A} (err d) (err e)
same_err {d = d} {e = e} h = let same : d ≡ e = ground arith in rw same refl

-- An exception of a sequence is one of its calls.
pub bind-err :
    {E A B : Type 0} (call : Result E A) (rest : A → Result E B) {e : E}
    → (call >>= rest) ≡ err e
    → (call ≡ err e) ⊎ ((first : A) × (call ≡ ok first) × (rest first ≡ err e))
bind-err (err raised) rest h = inl (same_err h)
bind-err (ok first) rest h = inr (first, refl, h)

pub ok-inj : {E A : Type 0} {a b : A} → ◌≡◌ {A = Result E A} (ok a) (ok b) → a ≡ b
ok-inj h = ground arith
