-- ===== src/Tests/Risk.antt =====
-- The risk checks, the uncertainty score and the portfolio over decimals of four places.
use trading_crew.Prelude.{
  ◌≡◌, refl, true, false, some, none, [], ◌∷◌, List, String, ok, arith, Returns,
}
use Prim.Native.Nat.{ℕ, ◌*◌ as ◌*ℕ◌}
use trading_crew.Num.{Num, sum, sum_from, min, abs, ◌≤◌, ◌<◌, ◌/◌}
use trading_crew.Num.Int.{ℤ, pos, div_scaled, mul_scaled, ◌-ℤ◌, ◌+ℤ◌}
use trading_crew.Num.Instances.{decimals, decimals-IsOrdered, decimals-IsMonotone}
use trading_crew.Num.Laws.{IsOrdered, IsMonotone}
use trading_crew.Models.Signal.{SignalType, SignalStrength, TradeSignal}
use trading_crew.Models.Portfolio.{
  Position, Portfolio, drawdown_pct, total_balance, total_market_value, market_value,
}
use trading_crew.Models.Risk.{
  RiskParams, RiskCheckResult, RiskVerdict, not_tripped, sell_capped, position_capped, is_approved,
  make_check_result,
}
use trading_crew.Risk.CircuitBreaker.{CircuitBreaker, check}
use trading_crew.Risk.CircuitBreaker.Latch.{any_breach, Sample, run_checks, run_checks_latch}
use trading_crew.Risk.SellGuard.{break_even, evaluate_guard}
use trading_crew.Num.{div_checked}
use trading_crew.Risk.Sizer.{
  PositionSizeResult, calculate_position_size, stop_distance, raw_stop_distance,
}
use trading_crew.Risk.Pipeline.{
  evaluate_sell, evaluate_buy, sell_amount, limits_result, RiskPipeline, StopLossMethod,
  compute_stop_loss, evaluate,
}
use trading_crew.Risk.Limits.{
  check_exposure_limit, check_concentration_limit, exposure_after, concentration_after,
}
use trading_crew.Risk.StopLoss.{fixed_percentage_stop}
use trading_crew.Risk.Pipeline.Buy.{IsWithinLimits}
use trading_crew.Risk.Pipeline.Evaluate.{
  IsSoundSell, evaluate_approved_gate, evaluate_approved_sell, evaluate_approved_buy,
  evaluate-Returns,
}

instance abbrev decimal_num : Num
decimal_num = decimals 10000

order : IsOrdered
order = decimals-IsOrdered 10000

mono : IsMonotone
mono = decimals-IsMonotone 10000 (omega arith)

abbrev whole : ℕ → ℤ
whole n = pos (n *ℕ 10000)

abbrev params : RiskParams
params = record {
  max_position_size_pct = whole 10;
  max_portfolio_exposure_pct = whole 80;
  max_drawdown_pct = whole 15;
  default_stop_loss_pct = whole 3;
  risk_per_trade_pct = whole 2;
  min_confidence = pos 5000;
  cooldown_after_loss_seconds = 0;
  min_profit_margin_pct = whole 1;
}

abbrev pipeline : RiskPipeline
pipeline = record {
  risk_params = params;
  stop_loss_method = StopLossMethod.fixed;
  atr_stop_multiplier = whole 2;
  anti_averaging_down = true;
  sell_guard = break_even;
}

abbrev position : Position
position = record {
  symbol = "ETH/USDT";
  exchange = "binance";
  is_long = true;
  entry_price = whole 20;
  amount = whole 5;
  current_price = whole 20;
  stop_loss_price = none;
  take_profit_price = none;
  strategy_name = "ema";
}

-- 1,000 in cash, and 5 ETH at 20.
abbrev portfolio : Portfolio
portfolio = record {
  positions = ("ETH/USDT", position) ∷ [];
  balance_quote = whole 1000;
  quote_currency = "USDT";
  realized_pnl = pos 0;
  total_fees = pos 0;
  peak_balance = whole 1100;
}

-- A drawdown of half the peak.
abbrev halved : Portfolio
halved = record portfolio { peak_balance = whole 2200 }

abbrev signal : SignalType → String → TradeSignal
signal t symbol = record {
  symbol = symbol;
  exchange = "binance";
  signal_type = t;
  strength = SignalStrength.strong;
  confidence = pos 9000;
  strategy_name = "ema";
  entry_price = whole 25;
  stop_loss_price = none;
  take_profit_price = none;
  reason = "";
  timestamp = pos 0;
}

abbrev breaker : CircuitBreaker
breaker = record {
  max_drawdown_pct = whole 15;
  is_tripped = false;
  tripped_at = none;
  trip_reason = not_tripped;
}

abbrev eth_sale : TradeSignal
eth_sale = signal SignalType.sell "ETH/USDT"

abbrev btc_buy : TradeSignal
btc_buy = signal SignalType.buy "BTC/USDT"

-- 4 of the 5 ETH, by the size of a position.
abbrev sale_result : RiskCheckResult
sale_result = record {
  verdict = RiskVerdict.reduced;
  approved_amount = whole 4;
  approved_price = some (whole 25);
  stop_loss_price = some (pos 257500);
  take_profit_price = none;
  reasons = sell_capped (whole 4) (whole 5) ∷ [];
  checks_passed =
      "circuit_breaker" ∷ "min_confidence" ∷ "inventory" ∷ "sell_guard" ∷ "position_sizing" ∷ [];
  checks_failed = [];
}

-- BTC for a tenth of the cash.
abbrev buy_result : RiskCheckResult
buy_result = record {
  verdict = RiskVerdict.reduced;
  approved_amount = whole 4;
  approved_price = some (whole 25);
  stop_loss_price = some (pos 242500);
  take_profit_price = none;
  reasons = position_capped (pos 6666666) (whole 100) ∷ [];
  checks_passed =
      "circuit_breaker" ∷ "min_confidence" ∷ "anti_averaging_down" ∷ "position_sizing"
      ∷ "exposure_limit" ∷ "concentration_limit" ∷ [];
  checks_failed = [];
}

sale_run : (evaluate (pos 0) pipeline breaker eth_sale portfolio none []).0 ≡ ok sale_result
unfolding evaluate check drawdown_pct mul_scaled div_scaled ◌-ℤ◌ ◌+ℤ◌ total_balance
    total_market_value market_value sum sum_from min abs calculate_position_size stop_distance
    raw_stop_distance div_checked compute_stop_loss fixed_percentage_stop make_check_result
    evaluate_sell evaluate_guard sell_amount
sale_run = refl

buy_run : (evaluate (pos 0) pipeline breaker btc_buy portfolio none []).0 ≡ ok buy_result
unfolding evaluate check drawdown_pct mul_scaled div_scaled ◌-ℤ◌ ◌+ℤ◌ total_balance
    total_market_value market_value sum sum_from min abs calculate_position_size stop_distance
    raw_stop_distance div_checked compute_stop_loss fixed_percentage_stop make_check_result
    evaluate_buy check_exposure_limit check_concentration_limit limits_result exposure_after
    concentration_after
buy_run = refl

evaluate_approved_gate_example :
    (breaker.is_tripped ≡ false)
    × (drawdown_pct portfolio < whole 15)
    × (pos 5000 ≤ pos 9000)
    × ((evaluate (pos 0) pipeline breaker btc_buy portfolio none []).1 ≡ breaker)
unfolding is_approved drawdown_pct
evaluate_approved_gate_example =
    evaluate_approved_gate order (pos 0) pipeline breaker btc_buy portfolio none [] buy_run refl

evaluate_approved_sell_example : IsSoundSell order portfolio "ETH/USDT" sale_result
unfolding is_approved
evaluate_approved_sell_example =
    evaluate_approved_sell order (pos 0) pipeline breaker eth_sale portfolio none [] refl sale_run
      refl

evaluate_approved_buy_example :
    (sizing : PositionSizeResult) × (calculate_position_size portfolio
        (whole 25)
        (some (compute_stop_loss pipeline btc_buy none))
        params
      ≡ ok sizing)
    × (pos 0 < sizing.value)
    × IsWithinLimits pipeline portfolio "BTC/USDT" sizing.value
    × (whole 4 ≡ sizing.value / whole 25)
unfolding is_approved
evaluate_approved_buy_example =
    evaluate_approved_buy order (pos 0) pipeline breaker btc_buy portfolio none [] refl refl buy_run
      refl

evaluate-Returns_example : Returns (evaluate (pos 0) pipeline breaker eth_sale portfolio none []).0
unfolding div_scaled
evaluate-Returns_example =
    evaluate-Returns order mono (pos 0) pipeline breaker eth_sale portfolio none [] refl refl

-- The second sample trips the breaker, and it stays tripped at the third.
abbrev samples : List Sample
samples =
    record { now = pos 0; portfolio = portfolio }
    ∷ record { now = pos 1; portfolio = halved }
    ∷ record { now = pos 2; portfolio = portfolio }
    ∷ []

run_checks_latch_example :
    let (halts, final) = run_checks samples breaker in
    (final.is_tripped ≡ true)
    × (halts ≡ false ∷ true ∷ true ∷ [])
    × (final.max_drawdown_pct ≡ whole 15)
unfolding any_breach drawdown_pct mul_scaled div_scaled ◌-ℤ◌ total_balance ◌+ℤ◌ total_market_value
    sum
run_checks_latch_example = run_checks_latch samples breaker
