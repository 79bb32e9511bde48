-- ===== src/Num/Laws.antt =====
-- What the theorems assume of the arithmetic. Each record is a named hypothesis of the theorems that
-- use it. `IsOrdered` and `IsMonotone` hold of IEEE doubles away from NaN and overflow (with the two
-- zeros taken as one); `IsExact` is the usual reading of the code by exact numbers.
use Prim.Native.Nat.{◌≤◌ as ◌≤ℕ◌}
use trading_crew.Prelude.{ℕ, suc, ◌≡◌, ◌↔◌, ◌⊎◌, true, not}
use trading_crew.Num.{Num, R, dec, ◌+◌, ◌-◌, ◌*◌, ◌/◌, ltb, leb, eqb, ◌≤◌, ◌<◌, zero_num}

module _ ⦃num : Num⦄ where
  -- A total order, and the comparisons read it.
  pub record IsOrdered : Type 0 where
    pub le_refl : (a : R) → a ≤ a
    pub le_trans : (a b c : R) → a ≤ b → b ≤ c → a ≤ c
    pub le_total : (a b : R) → (a ≤ b) ⊎ (b ≤ a)
    pub le_antisym : (a b : R) → a ≤ b → b ≤ a → a ≡ b
    pub ltb-not-leb : (a b : R) → ltb a b ≡ not (leb b a)
    pub eqb_iff : (a b : R) → (eqb a b ≡ true) ↔ (a ≡ b)

  -- Rounded operations keep signs and order.
  pub record IsMonotone : Type 0 where
    pub dec_nonneg : (m e : ℕ) → zero_num ≤ dec m e
    pub dec_pos : (m : ℕ) → zero_num < dec (suc m) 0
    pub dec_mono : (m n : ℕ) → m ≤ℕ n → dec m 0 ≤ dec n 0
    pub div-le_one : (a b : R) → zero_num ≤ a → a ≤ b → zero_num < b → a / b ≤ dec 1 0
    pub mul-le : (a b : R) → zero_num ≤ b → a ≤ dec 1 0 → a * b ≤ b
    pub add_nonneg : (a b : R) → zero_num ≤ a → zero_num ≤ b → zero_num ≤ a + b
    pub sub_nonneg : (a b : R) → b ≤ a → zero_num ≤ a - b
    pub sub_pos : (a b : R) → b < a → zero_num < a - b
    pub sub-le : (a b : R) → zero_num ≤ b → a - b ≤ a
    pub le-add : (a b : R) → zero_num ≤ b → a ≤ a + b
    pub mul_nonneg : (a b : R) → zero_num ≤ a → zero_num ≤ b → zero_num ≤ a * b
    pub div_nonneg : (a b : R) → zero_num ≤ a → zero_num < b → zero_num ≤ a / b

  -- A commutative ring with an order, and a quotient that undoes a product.
  pub record IsExact : Type 0 where
    pub add_comm : (a b : R) → a + b ≡ b + a
    pub add_assoc : (a b c : R) → a + b + c ≡ a + (b + c)
    pub add_zero : (a : R) → a + zero_num ≡ a
    pub sub-add : (a b : R) → a - b + b ≡ a
    pub mul_comm : (a b : R) → a * b ≡ b * a
    pub mul-add : (a b c : R) → a * (b + c) ≡ a * b + a * c
    pub mul_pos : (a b : R) → zero_num < a → zero_num < b → zero_num < a * b
    pub mul-div : (a b : R) → zero_num < b → a * b / b ≡ a
