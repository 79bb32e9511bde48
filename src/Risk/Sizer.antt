-- ===== src/Risk/Sizer.antt =====
-- src/trading_crew/risk/position_sizer.py
pub mod Bounds
use trading_crew.Prelude.{Bool, true, false, if◌then◌else◌, Option, none, some, Result, ok, err}
use trading_crew.Num.{Num, R, ◌-◌, ◌*◌, ◌/◌, ltb, leb, zero_num, hundred, min, abs, div_checked}
use trading_crew.Models.Portfolio.{Portfolio}
use trading_crew.Models.Risk.{RiskParams}

module _ ⦃num : Num⦄ where
  pub record PositionSizeResult : Type 0 where
    pub value : R
    pub risk_based_value : R
    pub was_capped : Bool

  -- The distance of the stop, as a fraction of the entry price. A division by zero raises.
  unfoldable pub raw_stop_distance : R → Option R → RiskParams → Result R
  raw_stop_distance entry_price none params = ok (params.default_stop_loss_pct / hundred)
  raw_stop_distance entry_price (some stop) params =
      div_checked (abs (entry_price - stop)) entry_price

  unfoldable pub stop_distance : R → Option R → RiskParams → Result R
  unfolding raw_stop_distance
  stop_distance entry_price stop params = elim (raw_stop_distance entry_price stop params) [
    | err e ↦ err e
    | ok raw ↦ ok (if leb raw zero_num then params.default_stop_loss_pct / hundred else raw)
  ]

  -- The size, from what the risk allows.
  abbrev pub sized_from : Portfolio → RiskParams → R → PositionSizeResult
  sized_from portfolio params from_risk =
      let available : R = portfolio.balance_quote in
      let max_position : R = available * (params.max_position_size_pct / hundred) in
      let size : R = min (min from_risk max_position) available in
      record { value = size; risk_based_value = from_risk; was_capped = ltb size from_risk }

  unfoldable pub calculate_position_size :
      Portfolio → R → Option R → RiskParams → Result PositionSizeResult
  unfolding stop_distance
  calculate_position_size portfolio entry_price stop_loss_price params =
      let available : R = portfolio.balance_quote in
      let risk_amount : R = available * (params.risk_per_trade_pct / hundred) in
      if leb available zero_num
      then ok record { value = zero_num; risk_based_value = zero_num; was_capped = false }
      else elim (stop_distance entry_price stop_loss_price params) [
        | err e ↦ err e
        | ok distance ↦ elim (div_checked risk_amount distance) [
          | err e ↦ err e
          | ok from_risk ↦ ok (sized_from portfolio params from_risk)
        ]
      ]
