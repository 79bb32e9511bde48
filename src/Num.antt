-- ===== src/Num.antt =====
-- The program's `float`, as an interface: the literals, the arithmetic and the comparisons that the
-- source uses. Its values are the finite numbers, so there is no NaN. `Laws` states what is assumed
-- of the operations, in three strengths, and `Instances` shows that the laws can be met.
pub mod Laws
pub mod Order
pub mod Ring
pub mod Int
mod Scaled
pub mod Instances
use trading_crew.Prelude.{
  Bool, true, if◌then◌else◌, ℕ, ◌≡◌, Option, none, some, List, [], ◌∷◌, Result, ok, err,
  zero_division,
}

pub record Num : Type 1 where
  pub Carrier : Type 0
  -- `dec m e` is the literal m / 10 ^ e: `dec 1 10` is `1e-10`.
  pub dec : ℕ → ℕ → Carrier
  pub add : Carrier → Carrier → Carrier
  pub sub : Carrier → Carrier → Carrier
  pub mul : Carrier → Carrier → Carrier
  pub div : Carrier → Carrier → Carrier
  pub ltb : Carrier → Carrier → Bool
  pub leb : Carrier → Carrier → Bool
  pub eqb : Carrier → Carrier → Bool
  -- `round(x, digits)`
  pub round : Carrier → ℕ → Carrier

module _ ⦃num : Num⦄ where
  infixl 65 ◌+◌ ◌-◌
  infixl 70 ◌*◌ ◌/◌
  infix 50 ◌≤◌ ◌<◌
  abbrev pub R : Type 0
  R = num.Carrier

  abbrev pub dec : ℕ → ℕ → R
  dec = num.dec

  abbrev pub ◌+◌ : R → R → R
  ◌+◌ = num.add

  abbrev pub ◌-◌ : R → R → R
  ◌-◌ = num.sub

  abbrev pub ◌*◌ : R → R → R
  ◌*◌ = num.mul

  -- Where the divisor is not zero: what the source divides without a guard is `div_checked`.
  abbrev pub ◌/◌ : R → R → R
  ◌/◌ = num.div

  abbrev pub ltb : R → R → Bool
  ltb = num.ltb

  abbrev pub leb : R → R → Bool
  leb = num.leb

  abbrev pub eqb : R → R → Bool
  eqb = num.eqb

  abbrev pub round : R → ℕ → R
  round = num.round

  abbrev pub ◌≤◌ : R → R → Type 0
  a ≤ b = leb a b ≡ true

  abbrev pub ◌<◌ : R → R → Type 0
  a < b = ltb a b ≡ true

  -- `0.0`
  abbrev pub zero_num : R
  zero_num = dec 0 0

  abbrev pub one : R
  one = dec 1 0

  abbrev pub hundred : R
  hundred = dec 100 0

  -- Python's `min(a, b)`: the first of the arguments that no other is below.
  unfoldable pub min : R → R → R
  min a b = if ltb b a then b else a

  -- Python's `max(a, b)`.
  unfoldable pub max : R → R → R
  max a b = if ltb a b then b else a

  -- A division that raises where the divisor is zero.
  unfoldable pub div_checked : R → R → Result R
  div_checked a b = if eqb b zero_num then err zero_division else ok (a / b)

  -- `abs(x)`
  unfoldable pub abs : R → R
  abs x = if ltb x zero_num then zero_num - x else x

  -- `x or y` at a number: zero is false.
  unfoldable pub or_else : R → R → R
  or_else x y = if eqb x zero_num then y else x

  -- `x or y` at a number that may be None.
  unfoldable pub opt_or : Option R → R → R
  opt_or none y = y
  opt_or (some x) y = if eqb x zero_num then y else x

  -- `x or y` where both may be None.
  unfoldable pub opt_or_opt : Option R → Option R → Option R
  opt_or_opt none y = y
  opt_or_opt (some x) y = if eqb x zero_num then y else some x

  -- `sum(xs)`, from the left.
  unfoldable pub sum_from : R → List R → R
  sum_from acc [] = acc
  sum_from acc (x ∷ xs) = sum_from (acc + x) xs

  unfoldable pub sum : List R → R
  unfolding sum_from
  sum xs = sum_from zero_num xs
