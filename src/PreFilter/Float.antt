-- ===== src/PreFilter/Float.antt =====
-- The sums of binary64 numbers between 0 and 2 that services/email/pre_filter.py forms, in units of
-- 2 ^ -56: each number of that range whose last place is not below the unit is a natural number of
-- them, and a sum is rounded to 53 significant bits, to the nearest and to the even one of two.
use enterprise_ai_sales_orch.Prelude.{ℕ, ◌+◌, ◌*◌, ◌/◌, ◌%◌, ◌≡◌, refl, ltb, if◌then◌else◌}

-- the whole part of a fraction, or one more: the nearest, and the even one where both are as near
abbrev nearest : ℕ → ℕ → ℕ → ℕ
nearest rest half whole =
    if ltb rest half then whole else if ltb half rest then whole + 1 else whole + whole % 2

-- the nearest multiple of twice the number
abbrev round_at : ℕ → ℕ → ℕ
round_at half n = nearest (n % (2 * half)) half (n / (2 * half)) * (2 * half)

-- the nearest number of 53 significant bits
unfoldable pub rounded : ℕ → ℕ
rounded n =
    if ltb n 9007199254740992
    then n
    else if ltb n 18014398509481984
    then round_at 1 n
    else if ltb n 36028797018963968
    then round_at 2 n
    else if ltb n 72057594037927936
    then round_at 4 n
    else round_at 8 n

unfoldable pub add_float : ℕ → ℕ → ℕ
unfolding rounded
add_float a b = rounded (a + b)

-- the sum of 0.3 and 0.35 is the number before 0.65
one_below : add_float 21617278211378380 25220157913274776 ≡ 46837436124653152
unfolding add_float
one_below = refl
