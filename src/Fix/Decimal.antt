-- ===== src/Fix/Decimal.antt =====
-- Numbers as Python prints them: `str(n)` and `"%03d" % n`.
pub mod Value
use pyfix.Base.{ℕ, zero, suc, ◌+◌, ◌/◌, ◌%◌, [], ◌∷◌, ◌++◌, Text, ltb, if◌then◌else◌}

-- The digits of `n`, by fuel above `n`: a division by ten lowers the number.
unfoldable pub digits : ℕ → ℕ → Text
digits zero n = []
digits (suc fuel) n =
    let front = digits fuel (n / 10) in
    if ltb n 10 then (b'0' + n) ∷ [] else front ++ (b'0' + n % 10) ∷ []

-- `str(n)`
unfoldable pub decimal : ℕ → Text
unfolding digits
decimal n = digits (suc n) n

-- `"%03d" % n` of a number below 1000.
unfoldable pub three_digits : ℕ → Text
three_digits n = (b'0' + n / 100) ∷ (b'0' + n / 10 % 10) ∷ (b'0' + n % 10) ∷ []
