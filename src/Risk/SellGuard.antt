-- ===== src/Risk/SellGuard.antt =====
-- src/trading_crew/risk/sell_guard.py. The two guards that the source has are the constructors; a guard
-- decides by its `evaluate`.
use trading_crew.Prelude.{Bool, true, false, if◌then◌else◌, Option, none, some, String}
use trading_crew.Num.{Num, R, ◌+◌, ◌*◌, ◌/◌, ltb, hundred, one}
use trading_crew.Models.Risk.{RiskParams, Reason, no_guard, no_break_even, holding, clears_min_sell}

pub data SellGuard : Type 0 where
  allow_all break_even : SellGuard

module _ ⦃num : Num⦄ where
  unfoldable pub min_sell : R → RiskParams → R
  min_sell bep params = bep * (one + params.min_profit_margin_pct / hundred)

  unfoldable pub evaluate_guard : SellGuard → String → R → Option R → RiskParams → Bool × Reason
  evaluate_guard allow_all symbol price bep params = (true, no_guard)
  evaluate_guard break_even symbol price none params = (true, no_break_even)
  evaluate_guard break_even symbol price (some bep) params =
      if ltb price (min_sell bep params)
      then (false, holding (min_sell bep params) bep params.min_profit_margin_pct price)
      else (true, clears_min_sell price (min_sell bep params))
