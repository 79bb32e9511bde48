-- ===== src/Models/Risk.antt =====
-- src/trading_crew/models/risk.py. A reason is kept as the message's kind with the values that the
-- source formats into it.
use trading_crew.Prelude.{
  Bool, true, false, if◌then◌else◌, Option, List, String, Result, ok, err, validation, ℕ,
}
use trading_crew.Num.{Num, R, ltb, ◌≤◌, ◌<◌, zero_num, one, hundred, dec}

pub data RiskVerdict : Type 0 where
  approved reduced rejected circuit_break : RiskVerdict

module _ ⦃num : Num⦄ where
  pub record RiskParams : Type 0 where
    pub max_position_size_pct : R
    pub max_portfolio_exposure_pct : R
    pub max_drawdown_pct : R
    pub default_stop_loss_pct : R
    pub risk_per_trade_pct : R
    pub min_confidence : R
    pub cooldown_after_loss_seconds : ℕ
    pub min_profit_margin_pct : R

  -- The bounds that pydantic enforces on the fields.
  pub record IsRiskParams (p : RiskParams) : Type 0 where
    position_pos : zero_num < p.max_position_size_pct
    position_le : p.max_position_size_pct ≤ hundred
    exposure_pos : zero_num < p.max_portfolio_exposure_pct
    exposure_le : p.max_portfolio_exposure_pct ≤ hundred
    drawdown_pos : zero_num < p.max_drawdown_pct
    drawdown_le : p.max_drawdown_pct ≤ hundred
    stop_pos : zero_num < p.default_stop_loss_pct
    stop_le : p.default_stop_loss_pct ≤ dec 50 0
    risk_pos : zero_num < p.risk_per_trade_pct
    risk_le : p.risk_per_trade_pct ≤ hundred
    confidence_nonneg : zero_num ≤ p.min_confidence
    confidence_le : p.min_confidence ≤ one
    margin_nonneg : zero_num ≤ p.min_profit_margin_pct
    margin_le : p.min_profit_margin_pct ≤ hundred

  -- The reason of a trip: the drawdown and the limit.
  pub data TripReason : Type 0 where
    not_tripped : TripReason
    drawdown_exceeded : R → R → TripReason

  pub data Reason : Type 0 where
    circuit_breaker : TripReason → Reason
    confidence_below : R → R → Reason
    no_open_position : String → Reason
    no_guard : Reason
    no_break_even : Reason
    holding : R → R → R → R → Reason
    clears_min_sell : R → R → Reason
    no_sellable_quantity : Reason
    sell_capped : R → R → Reason
    averaging_down : R → R → Reason
    size_zero : Reason
    balance_zero : Reason
    exposure_exceeded : R → R → Reason
    exposure_within : Reason
    concentration_exceeded : String → R → R → Reason
    concentration_within : Reason
    position_capped : R → R → Reason

  pub record RiskCheckResult : Type 0 where
    pub verdict : RiskVerdict
    pub approved_amount : R
    pub approved_price : Option R
    pub stop_loss_price : Option R
    pub take_profit_price : Option R
    pub reasons : List Reason
    pub checks_passed : List String
    pub checks_failed : List String

  -- The constructor call `RiskCheckResult(...)`, with its field bound.
  unfoldable pub make_check_result : RiskCheckResult → Result RiskCheckResult
  make_check_result r = if ltb r.approved_amount zero_num then err validation else ok r

  abbrev verdict_approves : RiskVerdict → Bool
  verdict_approves approved = true
  verdict_approves reduced = true
  verdict_approves _ = false

  unfoldable pub is_approved : RiskCheckResult → Bool
  is_approved r = verdict_approves r.verdict
