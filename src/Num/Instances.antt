-- ===== src/Num/Instances.antt =====
-- Two readings of `float` that meet the laws, and compute: decimals of fixed scale, rounded to zero,
-- which are ordered and monotone; and the integers, which are exact too (there a literal such as
-- `1e-10` and a quotient are rounded to zero).
use Prim.Native.Nat.{ℕ, ◌+◌, ◌*◌, ◌/◌, ◌^◌, ◌<◌ as ◌<ℕ◌}
use trading_crew.Prelude.{arith, if◌then◌else◌}
use trading_crew.Num.{Num}
use trading_crew.Num.Laws.{IsOrdered, IsMonotone, IsExact}
use trading_crew.Num.Int.{
  ℤ, pos, ◌+ℤ◌, ◌-ℤ◌, ◌*ℤ◌, mul_scaled, div_scaled, ltb_ℤ, leb_ℤ, eqb_ℤ, int_laws, *ℤ_comm, *ℤ_pos,
  *ℤ-div, *ℤ-+ℤ, size, signed, is_negative,
}
use trading_crew.Num.Scaled.{mul_mono, div_scaled-le, mul_scaled-le, *ℤ-le}

-- `round(x, digits)` at a scale s: the nearest multiple of s / 10 ^ digits, halves away from zero.
abbrev round_scaled : ℕ → ℤ → ℕ → ℤ
round_scaled s x digits =
    let unit = s / 10 ^ digits in
    if eqb_ℤ (pos unit) (pos 0)
    then x
    else signed (is_negative x) ((size x + unit / 2) / unit * unit)

-- The number x stands for x / s.
abbrev pub decimals : ℕ → Num
decimals s = record {
  Carrier = ℤ;
  dec = λ m e. pos (m * s / 10 ^ e);
  add = ◌+ℤ◌;
  sub = ◌-ℤ◌;
  mul = mul_scaled s;
  div = div_scaled s;
  ltb = ltb_ℤ;
  leb = leb_ℤ;
  eqb = eqb_ℤ;
  round = round_scaled s;
}

abbrev pub integers : Num
integers = record {
  Carrier = ℤ;
  dec = λ m e. pos (m / 10 ^ e);
  add = ◌+ℤ◌;
  sub = ◌-ℤ◌;
  mul = ◌*ℤ◌;
  div = div_scaled 1;
  ltb = ltb_ℤ;
  leb = leb_ℤ;
  eqb = eqb_ℤ;
  round = λ x digits. x;
}

pub decimals-IsOrdered : (s : ℕ) → IsOrdered ⦃num = decimals s⦄
decimals-IsOrdered s = record {
  le_refl = λ a. ground arith;
  le_trans = λ a b c h k. ground arith;
  le_total = λ a b. ground arith;
  le_antisym = λ a b h k. ground arith;
  ltb-not-leb = λ a b. ground arith;
  eqb_iff = λ a b. ground arith;
}

pub integers-IsOrdered : IsOrdered ⦃num = integers⦄
integers-IsOrdered = record {
  le_refl = λ a. ground arith;
  le_trans = λ a b c h k. ground arith;
  le_total = λ a b. ground arith;
  le_antisym = λ a b h k. ground arith;
  ltb-not-leb = λ a b. ground arith;
  eqb_iff = λ a b. ground arith;
}

pub decimals-IsMonotone : (s : ℕ) → 0 <ℕ s → IsMonotone ⦃num = decimals s⦄
unfolding ◌+ℤ◌ ◌-ℤ◌ mul_scaled div_scaled
decimals-IsMonotone s positive = record {
  dec_nonneg = λ m e. ground arith;
  dec_pos = λ m. grind arith;
  dec_mono = λ m n h. ground (arith, mul_mono m n s h);
  div-le_one = λ a b h k l. ground (arith, div_scaled-le s a b);
  mul-le = λ a b h k. ground (arith, mul_scaled-le s a b);
  add_nonneg = λ a b h k. ground arith;
  sub_nonneg = λ a b h. ground arith;
  sub_pos = λ a b h. ground arith;
  sub-le = λ a b h. ground arith;
  le-add = λ a b h. ground arith;
  mul_nonneg = λ a b h k. ground arith;
  div_nonneg = λ a b h k. ground arith;
}

pub integers-IsMonotone : IsMonotone ⦃num = integers⦄
unfolding ◌+ℤ◌ ◌-ℤ◌ ◌*ℤ◌ div_scaled
integers-IsMonotone = record {
  dec_nonneg = λ m e. ground arith;
  dec_pos = λ m. ground arith;
  dec_mono = λ m n h. ground arith;
  div-le_one = λ a b h k l. div_scaled-le 1 a b h k l;
  mul-le = λ a b h k. *ℤ-le a b h k;
  add_nonneg = λ a b h k. ground arith;
  sub_nonneg = λ a b h. ground arith;
  sub_pos = λ a b h. ground arith;
  sub-le = λ a b h. ground arith;
  le-add = λ a b h. ground arith;
  mul_nonneg = λ a b h k. ground arith;
  div_nonneg = λ a b h k. ground arith;
}

pub integers-IsExact : IsExact ⦃num = integers⦄
unfolding ◌*ℤ◌ div_scaled
integers-IsExact = record {
  mul_pos = λ a b h k. *ℤ_pos a b h k;
  mul-div = λ a b h. *ℤ-div a b h;
  add_comm = λ a b. omega int_laws;
  add_assoc = λ a b c. omega int_laws;
  add_zero = λ a. omega int_laws;
  sub-add = λ a b. omega int_laws;
  mul_comm = *ℤ_comm;
  mul-add = *ℤ-+ℤ;
}
