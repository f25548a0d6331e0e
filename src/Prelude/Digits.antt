-- ===== src/Prelude/Digits.antt =====
-- Decimal numbers in texts, as Python prints an `int` and a pattern `[0-9]+` reads it.
use Prim.Native.Nat.{ℕ, zero, suc, ◌+◌, ◌*◌, ◌-◌, ◌/◌, ◌%◌, ◌<◌, ◌≤◌}
use Prim.Native.Char.{Char, code}
use Prim.Native.String.append
use Prim.Native.String.{String, [], ◌∷◌, ◌++◌}
use mathlib.Core.Path.{◌≡◌, refl, ap, ◌∙◌}
use mathlib.Core.Bool.{Bool, true, false, ◌&&◌}
use mathlib.Core.Logic.{inl, inr}
use mathlib.Core.Option.{Option, none, some}
use native.Mathlib.Omega.{arith}
use polymarket_btc.Prelude.Tests.{ltb, leb, ◌==◌, if◌then◌else◌, if_holds, Bool-cases}

-- One digit.
unfoldable pub digit : ℕ → String
digit d =
    if d == 0
    then "0"
    else if d == 1
    then "1"
    else if d == 2
    then "2"
    else if d == 3
    then "3"
    else if d == 4
    then "4"
    else if d == 5
    then "5"
    else if d == 6
    then "6"
    else if d == 7
    then "7"
    else if d == 8
    then "8"
    else "9"

-- The digits of a number that has at most so many.
unfoldable pub show_from : ℕ → ℕ → String
show_from zero n = digit n
show_from (suc fuel) n = if ltb n 10 then digit n else show_from fuel (n / 10) ++ digit (n % 10)

-- `str(n)`: a number has fewer digits than its value and one.
unfoldable pub show : ℕ → String
show n = show_from n n

-- The number of a text of digits, after those that were read before.
unfoldable pub read_from : ℕ → String → Option ℕ
read_from n [] = some n
read_from n (c ∷ s) =
    if leb 48 (code c) && leb (code c) 57 then read_from (n * 10 + (code c - 48)) s else none

-- The text has a character.
unfoldable pub has_text : String → Bool
has_text [] = false
has_text (c ∷ s) = true

-- `int(s)` of a text that matches `[0-9]+`
unfoldable pub read : String → Option ℕ
read s = if has_text s then read_from 0 s else none

-- The rest of a text that begins so.
unfoldable pub drop_prefix : String → String → Option String
drop_prefix [] s = some s
drop_prefix (c ∷ p) [] = none
drop_prefix (c ∷ p) (d ∷ s) = if code c == code d then drop_prefix p s else none

drop_same :
    (c : Char) (p s : String)
    → drop_prefix p (p ++ s) ≡ some s
    → drop_prefix (c ∷ p) (c ∷ (p ++ s)) ≡ some s
unfolding drop_prefix
drop_same c p s h = ground (arith, h)

pub drop_prefix_append : (p s : String) → drop_prefix p (p ++ s) ≡ some s
unfolding drop_prefix
drop_prefix_append [] s = ap some (append.nil s)
drop_prefix_append (c ∷ p) s = rw append.cons (drop_same c p s (drop_prefix_append p s))

read_digit : (n d : ℕ) → d < 10 → read_from n (digit d) ≡ some (n * 10 + d)
unfolding read_from digit
read_digit n zero h = refl
read_digit n (suc zero) h = refl
read_digit n (suc (suc zero)) h = refl
read_digit n (suc (suc (suc zero))) h = refl
read_digit n (suc (suc (suc (suc zero)))) h = refl
read_digit n (suc (suc (suc (suc (suc zero))))) h = refl
read_digit n (suc (suc (suc (suc (suc (suc zero)))))) h = refl
read_digit n (suc (suc (suc (suc (suc (suc (suc zero))))))) h = refl
read_digit n (suc (suc (suc (suc (suc (suc (suc (suc zero)))))))) h = refl
read_digit n (suc (suc (suc (suc (suc (suc (suc (suc (suc zero))))))))) h = refl
read_digit n (suc (suc (suc (suc (suc (suc (suc (suc (suc (suc d)))))))))) h = absurd (omega arith)

some_same : (n k : ℕ) → some n ≡ some k → n ≡ k
some_same n k h = ground arith

no_digits : (n : ℕ) → 0 * 10 + n ≡ n
no_digits n = omega arith

by_digits : (n : ℕ) → n / 10 * 10 + n % 10 ≡ n
by_digits n = omega arith

read_append :
    (n : ℕ) (s t : String) (k : ℕ) → read_from n s ≡ some k → read_from n (s ++ t) ≡ read_from k t
unfolding read_from
read_append n [] t k h = rw append.nil (rw (some_same n k h) refl)
read_append n (c ∷ s) t k h =
    rw append.cons (elim (Bool-cases (leb 48 (code c) && leb (code c) 57)) [
      | inl digit_char ↦
          rw digit_char (read_append (n * 10 + (code c - 48)) s t k (rw digit_char at h))
      | inr other ↦ absurd (ground (arith, h))
    ])

read_show_from : (fuel n : ℕ) → n ≤ fuel → read_from 0 (show_from fuel n) ≡ some n
unfolding show_from
read_show_from zero n h = read_digit 0 n (omega arith) ∙ ap some (no_digits n)
read_show_from (suc fuel) n h =
    if_holds (λ (s : String). read_from 0 s ≡ some n) (ltb n 10)
      (λ small. read_digit 0 n (ground arith) ∙ ap some (no_digits n))
      (λ large.
        let rest = read_show_from fuel (n / 10) (omega arith) in
        read_append 0 (show_from fuel (n / 10)) (digit (n % 10)) (n / 10) rest
        ∙ read_digit (n / 10) (n % 10) (omega arith)
        ∙ ap some (by_digits n))

has_text_read : (s : String) (k : ℕ) → read_from 1 s ≡ some k → 10 ≤ k → has_text s ≡ true
unfolding has_text read_from
has_text_read [] k h m = absurd (ground arith)
has_text_read (c ∷ s) k h m = refl

has_text-digit : (d : ℕ) → d < 10 → has_text (digit d) ≡ true
has_text-digit d h = has_text_read (digit d) (1 * 10 + d) (read_digit 1 d h) (omega arith)

pub has_text_append : (s t : String) → has_text t ≡ true → has_text (s ++ t) ≡ true
unfolding has_text
has_text_append [] t h = rw append.nil h
has_text_append (c ∷ s) t h = rw append.cons refl

has_text-show_from : (fuel n : ℕ) → n ≤ fuel → has_text (show_from fuel n) ≡ true
unfolding show_from
has_text-show_from zero n h = has_text-digit n (omega arith)
has_text-show_from (suc fuel) n h =
    if_holds (λ (s : String). has_text s ≡ true) (ltb n 10)
      (λ small. has_text-digit n (ground arith))
      (λ _.
        has_text_append (show_from fuel (n / 10)) (digit (n % 10))
          (has_text-digit (n % 10) (omega arith)))

pub has_text-show : (n : ℕ) → has_text (show n) ≡ true
unfolding show
has_text-show n = has_text-show_from n n (omega arith)

-- The digits of a number read as the number.
pub read-show : (n : ℕ) → read (show n) ≡ some n
unfolding read show
read-show n = rw (has_text-show_from n n (omega arith)) (read_show_from n n (omega arith))

abbrev pub text_append : String → String → String
text_append s t = s ++ t
