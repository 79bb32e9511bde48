-- ===== src/Num/Int.antt =====
-- Signed integers over the native numbers.
use Prim.Native.Nat.{ℕ, suc, ◌+◌, ◌-◌, ◌*◌, ◌/◌, ◌<◌, compare, Ordering}
use native.Mathlib.Nat.{mul-div_cancel}
use trading_crew.Prelude.{◌≡◌, ap, Bool, true, false, arith, if◌then◌else◌}

-- `negsuc n` is -(n + 1).
pub data ℤ : Type 0 where
  pos : ℕ → ℤ
  negsuc : ℕ → ℤ

abbrev pub ltb_ℕ : ℕ → ℕ → Bool
ltb_ℕ a b = elim (compare a b) [ Ordering.lt ↦ true | _ ↦ false ]

abbrev pub leb_ℕ : ℕ → ℕ → Bool
leb_ℕ a b = elim (compare a b) [ Ordering.gt ↦ false | _ ↦ true ]

abbrev pub eqb_ℕ : ℕ → ℕ → Bool
eqb_ℕ a b = elim (compare a b) [ Ordering.eq ↦ true | _ ↦ false ]

abbrev pub pos_part : ℤ → ℕ
pos_part (pos n) = n
pos_part (negsuc n) = 0

abbrev pub neg_part : ℤ → ℕ
neg_part (pos n) = 0
neg_part (negsuc n) = suc n

-- a - b, as an integer.
abbrev pub sub_ℕ : ℕ → ℕ → ℤ
sub_ℕ a b = if leb_ℕ b a then pos (a - b) else negsuc (b - a - 1)

infixl 65 ◌+ℤ◌ ◌-ℤ◌
infixl 70 ◌*ℤ◌
unfoldable pub ◌+ℤ◌ : ℤ → ℤ → ℤ
a +ℤ b = sub_ℕ (pos_part a + pos_part b) (neg_part a + neg_part b)

unfoldable pub ◌-ℤ◌ : ℤ → ℤ → ℤ
a -ℤ b = sub_ℕ (pos_part a + neg_part b) (neg_part a + pos_part b)

-- A sign put on a size.
abbrev pub signed : Bool → ℕ → ℤ
signed negative n = if negative then sub_ℕ 0 n else pos n

abbrev pub is_negative : ℤ → Bool
is_negative (pos _) = false
is_negative (negsuc _) = true

abbrev pub size : ℤ → ℕ
size a = pos_part a + neg_part a

abbrev differ : Bool → Bool → Bool
differ true b = if b then false else true
differ false b = b

unfoldable pub ◌*ℤ◌ : ℤ → ℤ → ℤ
a *ℤ b =
    sub_ℕ (pos_part a * pos_part b + neg_part a * neg_part b)
      (pos_part a * neg_part b + neg_part a * pos_part b)

-- a * b / s, rounded to zero.
unfoldable pub mul_scaled : ℕ → ℤ → ℤ → ℤ
mul_scaled s a b = signed (differ (is_negative a) (is_negative b)) (size a * size b / s)

-- a * s / b, rounded to zero.
unfoldable pub div_scaled : ℕ → ℤ → ℤ → ℤ
div_scaled s a b = signed (differ (is_negative a) (is_negative b)) (size a * s / size b)

abbrev pub leb_ℤ : ℤ → ℤ → Bool
leb_ℤ a b = leb_ℕ (pos_part a + neg_part b) (pos_part b + neg_part a)

abbrev pub ltb_ℤ : ℤ → ℤ → Bool
ltb_ℤ a b = ltb_ℕ (pos_part a + neg_part b) (pos_part b + neg_part a)

abbrev pub eqb_ℤ : ℤ → ℤ → Bool
eqb_ℤ a b = eqb_ℕ (pos_part a + neg_part b) (pos_part b + neg_part a)

pub +ℤ_parts :
    (a b : ℤ)
    → pos_part (a +ℤ b) + neg_part a + neg_part b ≡ neg_part (a +ℤ b) + pos_part a + pos_part b
unfolding ◌+ℤ◌
+ℤ_parts a b = ground arith

pub -ℤ_parts :
    (a b : ℤ)
    → pos_part (a -ℤ b) + neg_part a + pos_part b ≡ neg_part (a -ℤ b) + pos_part a + neg_part b
unfolding ◌-ℤ◌
-ℤ_parts a b = ground arith

pub *ℤ_parts :
    (a b : ℤ)
    → pos_part (a *ℤ b) + (pos_part a * neg_part b + neg_part a * pos_part b)
      ≡ neg_part (a *ℤ b) + (pos_part a * pos_part b + neg_part a * neg_part b)
unfolding ◌*ℤ◌
*ℤ_parts a b = ground arith

pub eq_of_parts : (a b : ℤ) → pos_part a + neg_part b ≡ pos_part b + neg_part a → a ≡ b
eq_of_parts a b h = ground arith

pub ruleset int_laws = (arith, +ℤ_parts, -ℤ_parts, *ℤ_parts, eq_of_parts)

pub *ℤ_comm : (a b : ℤ) → a *ℤ b ≡ b *ℤ a
*ℤ_comm a b = omega int_laws

pub *ℤ-+ℤ : (a b c : ℤ) → a *ℤ (b +ℤ c) ≡ a *ℤ b +ℤ a *ℤ c
*ℤ-+ℤ a b c = omega (
  int_laws,
  ap (λ (t : ℕ). pos_part a * t) (+ℤ_parts b c),
  ap (λ (t : ℕ). neg_part a * t) (+ℤ_parts b c),
)

pos_of_ltb : (n : ℕ) → ltb_ℤ (pos 0) (pos n) ≡ true → 0 < n
pos_of_ltb n h = ground arith

mul-pos : (m n : ℕ) → 0 < m → 0 < n → 0 < m * n
mul-pos m n h k = grind arith

pub *ℤ_pos :
    (a b : ℤ) → ltb_ℤ (pos 0) a ≡ true → ltb_ℤ (pos 0) b ≡ true → ltb_ℤ (pos 0) (a *ℤ b) ≡ true
unfolding ◌*ℤ◌
*ℤ_pos (pos m) (pos n) h k =
    let product : 0 < m * n = mul-pos m n (pos_of_ltb m h) (pos_of_ltb n k) in ground arith
*ℤ_pos (negsuc m) b h k = ground arith
*ℤ_pos a (negsuc n) h k = ground arith

-- A product over a positive factor is undone by the quotient.
pub *ℤ-div : (a b : ℤ) → ltb_ℤ (pos 0) b ≡ true → div_scaled 1 (a *ℤ b) b ≡ a
unfolding ◌*ℤ◌ div_scaled
*ℤ-div a (negsuc n) h = ground arith
*ℤ-div (pos m) (pos n) h =
    let known : m * n / n ≡ m = mul-div_cancel m (omega (arith, pos_of_ltb n h)) in
    ground (arith, known)
*ℤ-div (negsuc m) (pos n) h =
    let known : suc m * n / n ≡ suc m = mul-div_cancel (suc m) (omega (arith, pos_of_ltb n h)) in
    let size_pos : 0 < suc m * n = mul-pos (suc m) n (omega arith) (pos_of_ltb n h) in
    ground (arith, known)
