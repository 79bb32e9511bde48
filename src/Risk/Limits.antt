-- ===== src/Risk/Limits.antt =====
-- src/trading_crew/risk/portfolio_limits.py
use trading_crew.Prelude.{Bool, true, false, if◌then◌else◌, Option, none, some, String, lookup}
use trading_crew.Num.{Num, R, ◌+◌, ◌*◌, ◌/◌, ltb, leb, zero_num, hundred}
use trading_crew.Models.Portfolio.{
  Position, Portfolio, market_value, total_market_value, total_balance,
}
use trading_crew.Models.Risk.{
  RiskParams, Reason, balance_zero, exposure_exceeded, exposure_within, concentration_exceeded,
  concentration_within,
}

module _ ⦃num : Num⦄ where
  unfoldable pub exposure_after : Portfolio → R → R
  exposure_after portfolio value =
      (total_market_value portfolio + value) / total_balance portfolio * hundred

  unfoldable pub check_exposure_limit : Portfolio → R → RiskParams → Bool × Reason
  check_exposure_limit portfolio value params =
      if leb (total_balance portfolio) zero_num
      then (false, balance_zero)
      else if ltb params.max_portfolio_exposure_pct (exposure_after portfolio value)
      then (
        false,
        exposure_exceeded (exposure_after portfolio value) params.max_portfolio_exposure_pct,
      )
      else (true, exposure_within)

  abbrev existing_value : Option Position → R
  existing_value none = zero_num
  existing_value (some p) = market_value p

  unfoldable pub concentration_after : Portfolio → String → R → R
  concentration_after portfolio symbol value =
      (existing_value (lookup symbol portfolio.positions) + value)
      / total_balance portfolio
      * hundred

  unfoldable pub check_concentration_limit : Portfolio → String → R → RiskParams → Bool × Reason
  check_concentration_limit portfolio symbol value params =
      if leb (total_balance portfolio) zero_num
      then (false, balance_zero)
      else if ltb params.max_position_size_pct (concentration_after portfolio symbol value)
      then (
        false,
        concentration_exceeded symbol (concentration_after portfolio symbol value)
            params.max_position_size_pct,
      )
      else (true, concentration_within)
