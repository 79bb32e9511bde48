-- ===== src/Tests/Loop.antt =====
-- The advisory directives, the token budget, the exchange client and the confidence of a signal over
-- the integers.
use Prim.Native.Nat.{ℕ, suc, ◌≤◌ as ◌≤ℕ◌, ◌+◌ as ◌+ℕ◌}
use trading_crew.Prelude.{◌≡◌, refl, true, false, some, none, [], ◌∷◌, List, String, length, arith}
use trading_crew.Num.{Num}
use trading_crew.Num.Int.{pos}
use trading_crew.Num.Instances.{integers, integers-IsOrdered, integers-IsMonotone}
use trading_crew.Models.Signal.{SignalType, SignalStrength, TradeSignal}
use trading_crew.Models.Portfolio.{Portfolio}
use trading_crew.Models.Risk.{RiskParams, not_tripped}
use trading_crew.Risk.CircuitBreaker.{CircuitBreaker}
use trading_crew.Risk.SellGuard.{SellGuard}
use trading_crew.Risk.Pipeline.{RiskPipeline, StopLossMethod, evaluate}
use trading_crew.Risk.Pipeline.Confidence.{evaluate_confidence}
use trading_crew.Advisory.{
  AdvisoryResult, apply_advisory_directives, reduce_position_size, veto_signal,
}
use trading_crew.Advisory.Effects.{AllUnit, apply_advisory_directives-AllUnit}
use trading_crew.Budget.{BudgetSettings, Budget, normal, degrade_budget_stop, update_degrade_level}
use trading_crew.Budget.Day.{here, next, degrade, length-sent-le}
use trading_crew.Budget.Plan.{budget_run, used-budget_run}
use trading_crew.Client.{
  Venue, CallBreaker, new_breaker, Outcome, returned, failed, rate_limited, dispatch, Call,
}
use trading_crew.Client.Breaker.{IsArmed, after_calls, new_breaker-IsArmed}
use trading_crew.Client.Range.{RawCandle, IsEnded, fetch_ohlcv_range, fetch_ohlcv_range-IsEnded}

instance abbrev int_num : Num
int_num = integers

abbrev signal : String → TradeSignal
signal symbol = record {
  symbol = symbol;
  exchange = "binance";
  signal_type = SignalType.buy;
  strength = SignalStrength.strong;
  confidence = pos 1;
  strategy_name = "ema";
  entry_price = pos 25;
  stop_loss_price = none;
  take_profit_price = none;
  reason = "";
  timestamp = pos 0;
}

abbrev advice : AdvisoryResult
advice = record {
  adjustments =
      record { action = veto_signal; symbol = some "ETH/USDT"; reason = ""; params = [] }
      ∷ record {
        action = reduce_position_size;
        symbol = some "BTC/USDT";
        reason = "";
        params = ("size_factor", pos 1) ∷ [];
      }
      ∷ [];
  summary = "";
  uncertainty_score = pos 1;
}

abbrev signals : List TradeSignal
signals = signal "BTC/USDT" ∷ signal "ETH/USDT" ∷ []

apply_advisory_directives-AllUnit_example :
    AllUnit integers-IsOrdered integers-IsMonotone (apply_advisory_directives signals advice)
apply_advisory_directives-AllUnit_example =
    apply_advisory_directives-AllUnit integers-IsOrdered integers-IsMonotone refl signals advice
      (refl, refl, (refl, refl, tt))

-- The veto leaves one of the two.
veto_run : length (apply_advisory_directives signals advice) ≡ 1
unfolding apply_advisory_directives
veto_run = refl

abbrev budget_settings : BudgetSettings
budget_settings = record {
  daily_token_budget_enabled = true;
  token_budget_degrade_mode = degrade_budget_stop;
  daily_token_budget_tokens = 100;
  advisory_estimated_tokens = 60;
}

abbrev spent : ℕ → Budget
spent tokens = record {
  runtime = record {
    token_budget_day = 7;
    estimated_tokens_used_today = tokens;
    budget_breach_notified = false;
    degrade_level = normal;
  };
  sent = [];
}

length-sent-le_example :
    let twice =
      update_degrade_level budget_settings (update_degrade_level budget_settings (spent 120)) in
    length twice.sent ≤ℕ 1
length-sent-le_example =
    length-sent-le budget_settings 7 (spent 120)
      (update_degrade_level budget_settings (update_degrade_level budget_settings (spent 120))) refl
      (next (next here (degrade (spent 120)))
        (degrade (update_degrade_level budget_settings (spent 120))))

used-budget_run_example :
    let after = budget_run budget_settings ((7, true) ∷ (7, true) ∷ (8, true) ∷ []) (spent 50) in
    after.runtime.estimated_tokens_used_today ≤ℕ 160
used-budget_run_example =
    used-budget_run budget_settings ((7, true) ∷ (7, true) ∷ (8, true) ∷ []) (spent 50) refl
      (omega arith)

-- A library that counts its requests and refuses them all.
instance abbrev venue : Venue
venue = record { State = ℕ; monotonic = λ s. pos 0; sleep = λ d s. s }

abbrev refusing : Call ℕ
refusing s = (failed rate_limited, suc s)

abbrev call_breaker : CallBreaker
call_breaker = record {
  threshold = 1;
  cooldown_seconds = pos 60;
  consecutive_failures = 0;
  cooldown_until = none;
}

new_breaker-IsArmed_example :
    IsArmed (after_calls ((refusing, 0) ∷ (refusing, 3) ∷ []) (new_breaker 2 (pos 60)))
new_breaker-IsArmed_example =
    new_breaker-IsArmed 2 (pos 60) ((refusing, 0) ∷ (refusing, 3) ∷ []) (omega arith)

-- Three requests, and the breaker is open.
dispatch_run : (dispatch refusing 0 call_breaker).1 ≡ 3
unfolding dispatch
dispatch_run = refl

abbrev raw : RawCandle
raw = record { open_price = pos 1; high = pos 2; low = pos 1; close = pos 2; volume = pos 5 }

abbrev page : ℕ → Outcome (List (ℕ × RawCandle))
page cursor = returned ((cursor, raw) ∷ (cursor +ℕ 3, raw) ∷ [])

fetch_ohlcv_range-IsEnded_example : IsEnded page 20 (fetch_ohlcv_range page 2 10 20)
fetch_ohlcv_range-IsEnded_example = fetch_ohlcv_range-IsEnded page 2 10 20

abbrev params : RiskParams
params = record {
  max_position_size_pct = pos 10;
  max_portfolio_exposure_pct = pos 80;
  max_drawdown_pct = pos 15;
  default_stop_loss_pct = pos 3;
  risk_per_trade_pct = pos 2;
  min_confidence = pos 1;
  cooldown_after_loss_seconds = 0;
  min_profit_margin_pct = pos 1;
}

abbrev pipeline : RiskPipeline
pipeline = record {
  risk_params = params;
  stop_loss_method = StopLossMethod.fixed;
  atr_stop_multiplier = pos 2;
  anti_averaging_down = false;
  sell_guard = SellGuard.allow_all;
}

abbrev breaker : CircuitBreaker
breaker = record {
  max_drawdown_pct = pos 15;
  is_tripped = false;
  tripped_at = none;
  trip_reason = not_tripped;
}

abbrev portfolio : Portfolio
portfolio = record {
  positions = [];
  balance_quote = pos 1000;
  quote_currency = "USDT";
  realized_pnl = pos 0;
  total_fees = pos 0;
  peak_balance = pos 1000;
}

evaluate_confidence_example :
    evaluate
      (pos 0)
      pipeline
      breaker
      (record (signal "BTC/USDT") { confidence = pos 2 })
      portfolio
      none
      []
    ≡ evaluate (pos 0) pipeline breaker (signal "BTC/USDT") portfolio none []
evaluate_confidence_example =
    evaluate_confidence (pos 0) pipeline breaker (signal "BTC/USDT") (pos 2) portfolio none [] refl
      refl
