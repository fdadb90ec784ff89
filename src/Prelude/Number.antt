-- ===== src/Prelude/Number.antt =====
-- Integers as texts: Python's `str` and `int`, the latter without underscores between digits.
use Prim.Native.Nat.{ℕ, zero, suc, ◌+◌, ◌-◌, ◌*◌, ◌/◌, ◌%◌, ◌<◌}
use mathlib.Core.Path.{◌≡◌, refl, ◌∙◌}
use mathlib.Core.Logic.{inl, inr}
use mathlib.Core.Bool.{Bool, true, ◌&&◌}
use mathlib.Core.List.{[], ◌∷◌}
use mathlib.Core.Option.{Option, none, some}
use native.Mathlib.Omega.{arith}
use enterprise_ai_sales_orch.Prelude.Tests.{leb, ◌==◌, if◌then◌else◌, Bool-cases}
use enterprise_ai_sales_orch.Prelude.Lists.{All}
use enterprise_ai_sales_orch.Prelude.Int.{ℤ, pos, negsuc, ◌-ℤ◌}
use enterprise_ai_sales_orch.Prelude.Text.{Text, strip, strip_right, truthy, decimal, decimal_from}

abbrev pub is_digit : ℕ → Bool
is_digit c = leb 48 c && leb c 57

unfoldable pub read_digits : ℕ → Text → Option ℕ
read_digits acc [] = some acc
read_digits acc (c ∷ s) =
    let rest = read_digits (acc * 10 + (c - 48)) s in if is_digit c then rest else none

-- at least one digit
unfoldable pub read_ℕ : Text → Option ℕ
unfolding read_digits
read_ℕ [] = none
read_ℕ (c ∷ s) = read_digits 0 (c ∷ s)

negated : Option ℕ → Option ℤ
negated none = none
negated (some n) = some (pos 0 -ℤ pos n)

positive : Option ℕ → Option ℤ
positive none = none
positive (some n) = some (pos n)

signed : Text → Option ℤ
unfolding read_ℕ negated positive
signed [] = none
signed (c ∷ s) =
    if c == 45
    then negated (read_ℕ s)
    else if c == 43
    then positive (read_ℕ s)
    else positive (read_ℕ (c ∷ s))

-- `int(s)`; `none` is the `ValueError`
unfoldable pub int_of : Text → Option ℤ
unfolding signed
int_of s = signed (strip s)

-- `str(z)`
unfoldable pub str_of : ℤ → Text
str_of (pos n) = decimal n
str_of (negsuc n) = 45 ∷ decimal (n + 1)

read_digit :
    (acc n : ℕ) (rest : Text)
    → acc * 10 + n % 10 ≡ n
    → read_digits acc ((48 + n % 10) ∷ rest) ≡ read_digits n rest
unfolding read_digits
read_digit acc n rest h =
    let digit : is_digit (48 + n % 10) ≡ true = ground arith in
    let value : acc * 10 + (48 + n % 10 - 48) ≡ n = omega arith in rw (digit, value)

decimal_from_lem :
    (fuel n : ℕ) (rest : Text)
    → n < fuel
    → read_digits 0 (decimal_from fuel n rest) ≡ read_digits n rest
unfolding decimal_from
decimal_from_lem zero n rest h = absurd (omega arith)
decimal_from_lem (suc fuel) n rest h = elim (Bool-cases (leb n 9)) [
  | inl small ↦ rw small (read_digit 0 n rest (ground (arith, small)))
  | inr large ↦ rw large (
      decimal_from_lem fuel (n / 10) ((48 + n % 10) ∷ rest) (ground (arith, large))
      ∙ read_digit (n / 10) n rest (omega arith))
]

-- a text of digits, with one digit at least
abbrev AllDigits : Text → Type 0
AllDigits s = All (λ c. is_digit c ≡ true) s

decimal_from-AllDigits :
    (fuel n : ℕ) (rest : Text) → AllDigits rest → AllDigits (decimal_from fuel n rest)
unfolding decimal_from
decimal_from-AllDigits zero n rest h = h
decimal_from-AllDigits (suc fuel) n rest h =
    ground (arith, decimal_from-AllDigits fuel (n / 10) ((48 + n % 10) ∷ rest), h)

decimal_from-truthy : (fuel n c : ℕ) (rest : Text) → truthy (decimal_from fuel n (c ∷ rest)) ≡ true
unfolding decimal_from
decimal_from-truthy zero n c rest = refl
decimal_from-truthy (suc fuel) n c rest =
    ground (arith, decimal_from-truthy fuel (n / 10) (48 + n % 10) (c ∷ rest))

decimal_from-suc : (fuel n : ℕ) → 0 < fuel → truthy (decimal_from fuel n []) ≡ true
unfolding decimal_from
decimal_from-suc zero n h = absurd (omega arith)
decimal_from-suc (suc fuel) n h = ground (arith, decimal_from-truthy fuel (n / 10) (48 + n % 10) [])

strip_right-AllDigits : (s : Text) → AllDigits s → strip_right s ≡ s
strip_right-AllDigits [] h = refl
strip_right-AllDigits (c ∷ s) h = ground (arith, strip_right-AllDigits s h.1, h.0)

strip-AllDigits : (s : Text) → AllDigits s → strip s ≡ s
strip-AllDigits [] h = refl
strip-AllDigits (c ∷ s) h = ground (arith, strip_right-AllDigits (c ∷ s) h, h.0)

decimal-AllDigits : (n : ℕ) → AllDigits (decimal n)
unfolding decimal
decimal-AllDigits n = decimal_from-AllDigits (n + 1) n [] tt

decimal-truthy : (n : ℕ) → truthy (decimal n) ≡ true
unfolding decimal
decimal-truthy n = decimal_from-suc (n + 1) n (omega arith)

read_digits-decimal : (n : ℕ) → read_digits 0 (decimal n) ≡ some n
unfolding decimal read_digits
read_digits-decimal n = decimal_from_lem (n + 1) n [] (omega arith)

read_ℕ-truthy : (s : Text) → truthy s ≡ true → read_ℕ s ≡ read_digits 0 s
unfolding read_ℕ
read_ℕ-truthy [] h = cc
read_ℕ-truthy (c ∷ s) h = refl

-- the digits of a number are read as that number
pub read_ℕ-decimal : (n : ℕ) → read_ℕ (decimal n) ≡ some n
read_ℕ-decimal n = read_ℕ-truthy (decimal n) (decimal-truthy n) ∙ read_digits-decimal n

signed-AllDigits : (s : Text) → truthy s ≡ true → AllDigits s → signed s ≡ positive (read_ℕ s)
unfolding signed
signed-AllDigits [] t h = cc
signed-AllDigits (c ∷ s) t h = ground (arith, h.0)

signed-decimal : (n : ℕ) → signed (decimal n) ≡ some (pos n)
unfolding positive
signed-decimal n =
    signed-AllDigits (decimal n) (decimal-truthy n) (decimal-AllDigits n)
    ∙ rw (read_ℕ-decimal n) refl

pub int_of-str_of : (z : ℤ) → int_of (str_of z) ≡ some z
unfolding int_of str_of signed negated ◌-ℤ◌
int_of-str_of (pos n) = rw (strip-AllDigits (decimal n) (decimal-AllDigits n)) (signed-decimal n)
int_of-str_of (negsuc n) =
    rw (strip_right-AllDigits (decimal (n + 1)) (decimal-AllDigits (n + 1)), read_ℕ-decimal (n + 1))
      (ground arith)
