-- ===== src/Num/Scaled.antt =====
-- Bounds of the scaled product and quotient.
use Prim.Native.Nat.{ℕ, ◌*◌, ◌/◌, ◌≤◌}
use native.Mathlib.Nat.{div-le_of_le-mul}
use trading_crew.Prelude.{◌≡◌, true, arith}
use trading_crew.Num.Int.{ℤ, pos, negsuc, ◌*ℤ◌, mul_scaled, div_scaled, ltb_ℤ, leb_ℤ}

pub mul_mono : (m n s : ℕ) → m ≤ n → m * s ≤ n * s
mul_mono m n s h = grind arith

-- A quotient of a number by a larger one is at most 1.
pub div_scaled-le :
    (s : ℕ) (a b : ℤ)
    → leb_ℤ (pos 0) a ≡ true
    → leb_ℤ a b ≡ true
    → ltb_ℤ (pos 0) b ≡ true
    → leb_ℤ (div_scaled s a b) (pos s) ≡ true
unfolding div_scaled
div_scaled-le s (negsuc m) b h k l = ground arith
div_scaled-le s (pos m) (negsuc n) h k l = ground arith
div_scaled-le s (pos m) (pos n) h k l =
    let below : m ≤ n = ground arith in
    let bound : m * s / n ≤ s = div-le_of_le-mul n (mul_mono m n s below) in ground (arith, bound)

-- A product by a number of at most 1 is at most the other factor.
pub mul_scaled-le :
    (s : ℕ) (a b : ℤ)
    → leb_ℤ (pos 0) b ≡ true
    → leb_ℤ a (pos s) ≡ true
    → leb_ℤ (mul_scaled s a b) b ≡ true
unfolding mul_scaled
mul_scaled-le s a (negsuc n) h k = ground arith
mul_scaled-le s (negsuc m) (pos n) h k = ground arith
mul_scaled-le s (pos m) (pos n) h k =
    let below : m ≤ s = ground arith in
    let bound : m * n / s ≤ n = div-le_of_le-mul s (mul_mono m s n below) in ground (arith, bound)

pub *ℤ-le : (a b : ℤ) → leb_ℤ (pos 0) b ≡ true → leb_ℤ a (pos 1) ≡ true → leb_ℤ (a *ℤ b) b ≡ true
unfolding ◌*ℤ◌
*ℤ-le a (negsuc n) h k = ground arith
*ℤ-le (negsuc m) (pos n) h k = grind arith
*ℤ-le (pos m) (pos n) h k =
    let below : m ≤ 1 = ground arith in
    let bound : m * n ≤ n = grind (arith, mul_mono m 1 n below) in ground (arith, bound)
