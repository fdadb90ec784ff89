-- ===== src/Prelude/Text.antt =====
-- Texts as lists of code points, with the operations of Python's `str` that the program uses.
use Prim.Native.Char.{code}
use Prim.Native.String.{String}
use mathlib.Core.List.{List, [], ◌∷◌, ◌++◌}
use mathlib.Core.Bool.{Bool, true, false, ◌&&◌, ◌||◌}
use Prim.Native.Nat.{ℕ, zero, suc, ◌+◌, ◌/◌, ◌%◌}
use mathlib.Core.Path.{◌≡◌, refl}
use mathlib.Core.Option.{Option, none, some}
use native.Mathlib.Omega.{arith}
use enterprise_ai_sales_orch.Prelude.Tests.{leb, ◌==◌, if◌then◌else◌}

abbrev pub Text : Type 0
Text = List ℕ

abbrev pub codes : String → Text
codes String.[] = []
codes (String.◌∷◌ c s) = code c ∷ codes s

-- `a == b`
abbrev pub text_eq : Text → Text → Bool
text_eq [] [] = true
text_eq (a ∷ s) (b ∷ t) = (a == b) && text_eq s t
text_eq _ _ = false

-- `bool(s)`
abbrev pub truthy : Text → Bool
truthy [] = false
truthy (_ ∷ _) = true

-- `s.startswith(p)`, with `p` first
abbrev pub starts_with : Text → Text → Bool
starts_with [] s = true
starts_with (a ∷ p) [] = false
starts_with (a ∷ p) (b ∷ s) = (a == b) && starts_with p s

-- `p in s`
abbrev pub occurs : Text → Text → Bool
occurs p [] = starts_with p []
occurs p (b ∷ s) = starts_with p (b ∷ s) || occurs p s

-- `s.lower()`, on the letters of ASCII
abbrev pub lower : Text → Text
lower [] = []
lower (c ∷ s) = (if leb b'A' c && leb c b'Z' then c + 32 else c) ∷ lower s

-- `s.split(c)[0]`
abbrev pub before : ℕ → Text → Text
before c [] = []
before c (d ∷ s) = if c == d then [] else d ∷ before c s

-- what stands behind the first `c`, or nothing: with `before c` of it, `s.split(c)[1]`
abbrev pub after : ℕ → Text → Text
after c [] = []
after c (d ∷ s) = if c == d then s else after c s

-- the white space of ASCII, as Python's `str.strip` reads it
abbrev pub is_space : ℕ → Bool
is_space c = (c == 32) || (leb 9 c && leb c 13) || (leb 28 c && leb c 31)

abbrev pub strip_left : Text → Text
strip_left [] = []
strip_left (c ∷ s) = if is_space c then strip_left s else c ∷ s

abbrev pub blank : Text → Bool
blank [] = true
blank (c ∷ s) = is_space c && blank s

abbrev pub strip_right : Text → Text
strip_right [] = []
strip_right (c ∷ s) = if is_space c && blank s then [] else c ∷ strip_right s

-- `s.strip()`
abbrev pub strip : Text → Text
strip s = strip_right (strip_left s)

-- `" ".join(ts)`
abbrev pub join_spaces : List Text → Text
join_spaces [] = []
join_spaces (t ∷ []) = t
join_spaces (t ∷ u ∷ ts) = t ++ 32 ∷ join_spaces (u ∷ ts)

-- `s or t`, on texts
abbrev pub or_text : Text → Text → Text
or_text s t = if truthy s then s else t

-- `s in names`
abbrev pub listed : Text → List Text → Bool
listed s [] = false
listed s (t ∷ ts) = text_eq s t || listed s ts

pub text_eq_refl : (s : Text) → text_eq s s ≡ true
text_eq_refl [] = refl
text_eq_refl (a ∷ s) = ground (arith, text_eq_refl s)

pub text_eq-eq : (s t : Text) → text_eq s t ≡ true → s ≡ t
text_eq-eq [] [] h = refl
text_eq-eq [] (b ∷ t) h = cc
text_eq-eq (a ∷ s) [] h = cc
text_eq-eq (a ∷ s) (b ∷ t) h = ground (arith, text_eq-eq s t)

pub starts_with-append : (p rest : Text) → starts_with p (p ++ rest) ≡ true
starts_with-append [] rest = refl
starts_with-append (a ∷ p) rest = ground (arith, starts_with-append p rest)

-- `o or ""`, of a value that may be missing or `None`
abbrev pub or_empty : Option Text → Text
or_empty none = []
or_empty (some s) = s

unfoldable pub decimal_from : ℕ → ℕ → Text → Text
decimal_from zero n rest = rest
decimal_from (suc fuel) n rest =
    let text = (48 + n % 10) ∷ rest in
    let longer = decimal_from fuel (n / 10) text in if leb n 9 then text else longer

-- `str(n)`; a number has at most as many digits as it counts, and one
unfoldable pub decimal : ℕ → Text
unfolding decimal_from
decimal n = decimal_from (n + 1) n []
