-- ===== src/Num/Order.antt =====
-- Facts that follow from the order.
use trading_crew.Prelude.{◌≡◌, false, arith}
use trading_crew.Num.{Num, R, ltb, leb, eqb, ◌≤◌, ◌<◌, min, max}
use trading_crew.Num.Laws.{IsOrdered}

module _ ⦃num : Num⦄ (laws : IsOrdered) where
  open laws use {le_refl, le_trans, le_total, le_antisym, ltb-not-leb}

  pub le_of_not_lt : (a b : R) → ltb a b ≡ false → b ≤ a
  le_of_not_lt a b h = ground (arith, ltb-not-leb a b)

  pub not_lt_of_le : (a b : R) → b ≤ a → ltb a b ≡ false
  not_lt_of_le a b h = ground (arith, ltb-not-leb a b)

  pub lt_of_not_le : (a b : R) → leb b a ≡ false → a < b
  lt_of_not_le a b h = ground (arith, ltb-not-leb a b)

  pub not_le_of_lt : (a b : R) → a < b → leb b a ≡ false
  not_le_of_lt a b h = ground (arith, ltb-not-leb a b)

  pub le_of_lt : (a b : R) → a < b → a ≤ b
  le_of_lt a b h = ground (arith, ltb-not-leb a b, le_total a b)

  pub lt_irrefl : (a : R) → ltb a a ≡ false
  lt_irrefl a = not_lt_of_le a a (le_refl a)

  pub lt_of_lt_of_le : (a b c : R) → a < b → b ≤ c → a < c
  lt_of_lt_of_le a b c h k = ground (arith, ltb-not-leb a b, ltb-not-leb a c, le_trans b c a k)

  pub lt_of_le_of_lt : (a b c : R) → a ≤ b → b < c → a < c
  lt_of_le_of_lt a b c h k =
      ground (arith, ltb-not-leb b c, ltb-not-leb a c, λ (q : c ≤ a). le_trans c a b q h)

  pub min-le_left : (a b : R) → min a b ≤ a
  unfolding min
  min-le_left a b = ground (arith, le_of_lt b a, le_refl a)

  pub min-le_right : (a b : R) → min a b ≤ b
  unfolding min
  min-le_right a b = ground (arith, le_of_not_lt b a, le_refl b)

  pub le-min : (a b c : R) → c ≤ a → c ≤ b → c ≤ min a b
  unfolding min
  le-min a b c h k = ground arith

  pub min_self_of_le : (a b : R) → a ≤ b → min a b ≡ a
  unfolding min
  min_self_of_le a b h = ground (arith, not_lt_of_le b a h)

  pub le-max_left : (a b : R) → a ≤ max a b
  unfolding max
  le-max_left a b = ground (arith, le_of_lt a b, le_refl a)

  pub max-le : (a b c : R) → a ≤ c → b ≤ c → max a b ≤ c
  unfolding max
  max-le a b c h k = ground arith

  pub eqb_of_lt : (a b : R) → a < b → eqb b a ≡ false
  eqb_of_lt a b h = ground (arith, laws.eqb_iff b a, lt_irrefl a)

  pub max_self_of_le : (a b : R) → a ≤ b → max a b ≡ b
  unfolding max
  max_self_of_le a b h = ground (arith, le_antisym a b h, le_of_not_lt a b)
