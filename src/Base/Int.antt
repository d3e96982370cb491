-- ===== src/Base/Int.antt =====
-- Signed integers over the native numbers: the scores of the search and the ratings of comments.
use Prim.Native.Nat.{ℕ, suc, ◌+◌, ◌-◌, ◌≤◌}
use mathlib.Core.Bool.{Bool, false}
use mathlib.Core.Path.{◌≡◌}
use mathlib.Core.Logic.{◌↔◌}
use native.Mathlib.Omega.{arith}
use pyfix.Base.Tests.{ltb, leb, if◌then◌else◌}

-- `negsuc n` is -(n + 1).
pub data ℤ : Type 0 where
  pos : ℕ → ℤ
  negsuc : ℕ → ℤ

abbrev pub pos_part : ℤ → ℕ
pos_part (pos n) = n
pos_part (negsuc n) = 0

abbrev pub neg_part : ℤ → ℕ
neg_part (pos n) = 0
neg_part (negsuc n) = suc n

-- a - b, as an integer.
abbrev pub sub_ℕ : ℕ → ℕ → ℤ
sub_ℕ a b = if leb b a then pos (a - b) else negsuc (b - a - 1)

infixl 65 ◌+ℤ◌
infix 50 ◌≤ℤ◌
unfoldable pub ◌+ℤ◌ : ℤ → ℤ → ℤ
a +ℤ b = sub_ℕ (pos_part a + pos_part b) (neg_part a + neg_part b)

abbrev pub ◌≤ℤ◌ : ℤ → ℤ → Type 0
a ≤ℤ b = pos_part a + neg_part b ≤ pos_part b + neg_part a

abbrev pub ltb_ℤ : ℤ → ℤ → Bool
ltb_ℤ a b = ltb (pos_part a + neg_part b) (pos_part b + neg_part a)

infixl 65 ◌-ℤ◌
unfoldable pub ◌-ℤ◌ : ℤ → ℤ → ℤ
a -ℤ b = sub_ℕ (pos_part a + neg_part b) (neg_part a + pos_part b)

-- A difference is at most 0 exactly if the first number is at most the second.
pub sub_le_iff : (a b : ℤ) → (ltb_ℤ (pos 0) (a -ℤ b) ≡ false) ↔ (a ≤ℤ b)
unfolding ◌-ℤ◌
sub_le_iff (pos m) (pos n) = ground arith
sub_le_iff (pos m) (negsuc n) = ground arith
sub_le_iff (negsuc m) (pos n) = ground arith
sub_le_iff (negsuc m) (negsuc n) = ground arith

-- Numbers of bytes that are added, and taken away again.
pub pos_add : (a b : ℕ) → pos a +ℤ pos b ≡ pos (a + b)
unfolding ◌+ℤ◌
pos_add a b = ground arith

pub sub_zero : (a : ℤ) → a -ℤ pos 0 ≡ a
unfolding ◌-ℤ◌
sub_zero (pos n) = ground arith
sub_zero (negsuc n) = ground arith

pub pos_sub : (a b c : ℕ) → a ≡ b + c → pos a -ℤ pos b ≡ pos c
unfolding ◌-ℤ◌
pos_sub a b c e = ground arith

parts-sub_ℕ : (a b : ℕ) → pos_part (sub_ℕ a b) + b ≡ a + neg_part (sub_ℕ a b)
parts-sub_ℕ a b = ground arith

sub_ℕ-eq : (a b c d : ℕ) → a + d ≡ c + b → sub_ℕ a b ≡ sub_ℕ c d
sub_ℕ-eq a b c d e = ground arith

-- A number moved by the difference of two others.
pub add_sub_sub : (r v w : ℤ) → (r +ℤ (w -ℤ v)) -ℤ w ≡ r -ℤ v
unfolding ◌+ℤ◌ ◌-ℤ◌
add_sub_sub r v w =
    let d = sub_ℕ (pos_part w + neg_part v) (neg_part w + pos_part v) in
    let moved = parts-sub_ℕ (pos_part r + pos_part d) (neg_part r + neg_part d) in
    sub_ℕ-eq _ _ _ _
      (omega (arith, moved, parts-sub_ℕ (pos_part w + neg_part v) (neg_part w + pos_part v)))
