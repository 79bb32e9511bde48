-- ===== src/Risk/Sizer/Bounds.antt =====
-- How large a position `calculate_position_size` allows, and that it returns one.
use trading_crew.Prelude.{◌≡◌, Option, some, none, arith, if◌then◌else◌, refl, true, ok, is_ok}
use trading_crew.Num.{
  Num, R, ◌*◌, ◌/◌, ltb, leb, ◌≤◌, ◌<◌, zero_num, hundred, min, abs, ◌-◌, div_checked,
}
use trading_crew.Num.Laws.{IsOrdered}
use trading_crew.Num.Order.{min-le_left, min-le_right, lt_of_not_le, eqb_of_lt}
use trading_crew.Models.Portfolio.{Portfolio}
use trading_crew.Models.Risk.{RiskParams}
use trading_crew.Risk.Sizer.{calculate_position_size, stop_distance, raw_stop_distance, sized_from}

module _ ⦃num : Num⦄ (order : IsOrdered) where
  open order use {le_trans}

  floored_pos :
      (standard raw : R)
      → zero_num < standard
      → zero_num < (if leb raw zero_num then standard else raw)
  floored_pos standard raw h = ground (arith, lt_of_not_le order zero_num raw)

  -- Over ordered numbers, a size is at most the balance, the largest position and the size that the
  -- risk allows, and it counts as capped exactly when it is below the last.
  sized_from_caps :
      (portfolio : Portfolio) (params : RiskParams) (from_risk : R)
      → let sizing = sized_from portfolio params from_risk in
        let available = portfolio.balance_quote in
        (sizing.value ≤ available)
        × (sizing.value ≤ available * (params.max_position_size_pct / hundred))
        × (sizing.value ≤ from_risk)
        × (sizing.was_capped ≡ ltb sizing.value from_risk)
  sized_from_caps portfolio params from_risk =
      let largest : R = portfolio.balance_quote * (params.max_position_size_pct / hundred) in
      let inner = min-le_left order (min from_risk largest) portfolio.balance_quote in
      (
        min-le_right order _ _,
        le_trans _ _ _ inner (min-le_right order _ _),
        le_trans _ _ _ inner (min-le_left order _ _),
        refl,
      )

  -- The fallback of the stop distance makes it positive, and an entry price that is not zero has a
  -- distance.
  stop_distance_pos :
      (entry_price : R) (stop : Option R) (params : RiskParams)
      → zero_num < entry_price
      → zero_num < params.default_stop_loss_pct / hundred
      → (distance : R) × (stop_distance entry_price stop params ≡ ok distance)
        × (zero_num < distance)
  unfolding stop_distance raw_stop_distance div_checked
  stop_distance_pos entry_price none params price h =
      let standard : R = params.default_stop_loss_pct / hundred in
      (if leb standard zero_num then standard else standard, refl, floored_pos standard standard h)
  stop_distance_pos entry_price (some stop) params price h =
      let standard : R = params.default_stop_loss_pct / hundred in
      let raw : R = abs (entry_price - stop) / entry_price in
      (
        if leb raw zero_num then standard else raw,
        ground (arith, eqb_of_lt order zero_num entry_price price),
        floored_pos standard raw h,
      )

  -- With a positive entry price and a positive default distance, neither division raises.
  pub calculate_position_size-is_ok :
      (portfolio : Portfolio) (entry_price : R) (stop : Option R) (params : RiskParams)
      → zero_num < entry_price
      → zero_num < params.default_stop_loss_pct / hundred
      → is_ok (calculate_position_size portfolio entry_price stop params) ≡ true
  unfolding calculate_position_size div_checked
  calculate_position_size-is_ok portfolio entry_price stop params price h =
      let (distance, found, positive) = stop_distance_pos entry_price stop params price h in
      ground (arith, found, eqb_of_lt order zero_num distance positive)
