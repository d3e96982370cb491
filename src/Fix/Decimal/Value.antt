-- ===== src/Fix/Decimal/Value.antt =====
-- The fuel of `decimal` is enough: the digits are those of the number.
use pyfix.Base.{
  ℕ, zero, suc, ◌+◌, ◌*◌, ◌-◌, ◌/◌, ◌%◌, ◌<◌, ◌≤◌, ◌≡◌, refl, ◌∙◌, false, Bool-cases, inl, inr, [],
  ◌∷◌, ◌++◌, Text, ltb, arith,
}
use pyfix.Fix.Decimal.{digits, decimal}

-- The number that digits stand for, behind the digits of `n`.
abbrev pub value_from : ℕ → Text → ℕ
value_from n [] = n
value_from n (c ∷ s) = value_from (n * 10 + (c - b'0')) s

value_from-append :
    (n c : ℕ) (s : Text) → value_from n (s ++ c ∷ []) ≡ value_from n s * 10 + (c - b'0')
value_from-append n c [] = refl
value_from-append n c (x ∷ s) = value_from-append (n * 10 + (x - b'0')) c s

not_below : (n : ℕ) → ltb n 10 ≡ false → 10 ≤ n
not_below n e = ground arith

value-digits : (fuel n : ℕ) → n < fuel → value_from 0 (digits fuel n) ≡ n
unfolding digits
value-digits zero n h = absurd (omega (arith, h))
value-digits (suc fuel) n h = elim (Bool-cases (ltb n 10)) [
  | inl e ↦ rw e (omega arith)
  | inr e ↦ rw e (
      value_from-append 0 (b'0' + n % 10) (digits fuel (n / 10))
      ∙ (omega (arith, value-digits fuel (n / 10) (omega (arith, h, not_below n e)))))
]

-- The digits of `decimal` stand for its number.
pub value-decimal : (n : ℕ) → value_from 0 (decimal n) ≡ n
unfolding decimal
value-decimal n = value-digits (suc n) n (omega arith)
