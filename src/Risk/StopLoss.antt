-- ===== src/Risk/StopLoss.antt =====
-- src/trading_crew/risk/stop_loss.py. The side is true for "long".
use trading_crew.Prelude.{Bool, if◌then◌else◌}
use trading_crew.Num.{Num, R, ◌+◌, ◌-◌, ◌*◌, ◌/◌, hundred}

module _ ⦃num : Num⦄ where
  unfoldable pub fixed_percentage_stop : R → R → Bool → R
  fixed_percentage_stop entry_price stop_pct is_long =
      let distance : R = entry_price * (stop_pct / hundred) in
      if is_long then entry_price - distance else entry_price + distance

  unfoldable pub atr_based_stop : R → R → R → Bool → R
  atr_based_stop entry_price atr_value multiplier is_long =
      let distance : R = atr_value * multiplier in
      if is_long then entry_price - distance else entry_price + distance
