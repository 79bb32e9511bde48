-- ===== src/Tests/Uncertainty.antt =====
-- The uncertainty score and the fills of an order over the integers.
use trading_crew.Prelude.{◌≡◌, refl, true, some, none, [], ◌∷◌, String, Dict}
use trading_crew.Num.{Num, sum, min, max}
use trading_crew.Num.Int.{pos, ◌*ℤ◌, ◌+ℤ◌, ◌-ℤ◌, div_scaled}
use trading_crew.Num.Instances.{integers}
use trading_crew.Models.Market.{MarketAnalysis}
use trading_crew.Models.Order.{OrderSide, OrderType, OrderFill, Order, open_status}
use trading_crew.Models.Portfolio.{Portfolio, drawdown_pct, total_balance, total_market_value}
use trading_crew.Models.Risk.{RiskParams}
use trading_crew.Uncertainty.{
  UncertaintyWeights, UncertaintyScorer, score, volatile_regime, regime_change, update_threshold,
  clamp_unit, all_factors, count_volatile, changed, compared, drawdown_proximity,
  strategy_disagreement, sentiment_extreme, low_sentiment_confidence,
}

instance abbrev int_num : Num
int_num = integers

abbrev weights : UncertaintyWeights
weights = record {
  volatile_regime = pos 1;
  sentiment_extreme = pos 1;
  low_sentiment_confidence = pos 1;
  strategy_disagreement = pos 1;
  drawdown_proximity = pos 1;
  regime_change = pos 1;
}

abbrev analysis : String → MarketAnalysis
analysis regime = record {
  symbol = "BTC/USDT";
  exchange = "binance";
  timestamp = pos 0;
  current_price = pos 100;
  indicators = [];
  ohlcv_data = [];
  metadata = record {
    market_regime = some regime;
    sentiment_score = none;
    sentiment_confidence = none;
  };
}

abbrev analyses : Dict MarketAnalysis
analyses = ("BTC/USDT", analysis "volatile") ∷ []

abbrev previous : Dict String
previous = ("BTC/USDT", "ranging") ∷ []

abbrev portfolio : Portfolio
portfolio = record {
  positions = [];
  balance_quote = pos 1000;
  quote_currency = "USDT";
  realized_pnl = pos 0;
  total_fees = pos 0;
  peak_balance = pos 1000;
}

abbrev params : RiskParams
params = record {
  max_position_size_pct = pos 10;
  max_portfolio_exposure_pct = pos 80;
  max_drawdown_pct = pos 15;
  default_stop_loss_pct = pos 3;
  risk_per_trade_pct = pos 2;
  min_confidence = pos 0;
  cooldown_after_loss_seconds = 0;
  min_profit_margin_pct = pos 1;
}

abbrev scorer : UncertaintyScorer
scorer = record { weights = weights; threshold = pos 0 }

-- The factors of a volatile market whose regime changed add up to 2: the threshold 1 is met.
raised_run :
    (score
      (update_threshold (pos 7) scorer)
      analyses
      []
      portfolio
      params
      none
      previous).recommend_advisory
    ≡ true
unfolding score update_threshold clamp_unit max min sum all_factors ◌+ℤ◌ volatile_regime ◌*ℤ◌
    div_scaled count_volatile regime_change changed compared drawdown_proximity drawdown_pct
    strategy_disagreement sentiment_extreme low_sentiment_confidence ◌-ℤ◌ total_balance
    total_market_value
raised_run = refl

abbrev fill : OrderFill
fill = record {
  price = pos 90;
  amount = pos 3;
  fee = pos 2;
  fee_currency = "USDT";
  timestamp = pos 0;
}

abbrev unfilled : Order
unfilled = record {
  id = "a1";
  request = record {
    symbol = "BTC/USDT";
    exchange = "binance";
    side = OrderSide.buy;
    order_type = OrderType.limit;
    amount = pos 3;
    price = some (pos 100);
    stop_loss_price = none;
    take_profit_price = none;
    strategy_name = "ema";
    signal_confidence = pos 1;
  };
  status = open_status;
  filled_amount = pos 0;
  average_fill_price = none;
  break_even_price = none;
  fills = [];
  created_at = pos 0;
  updated_at = pos 0;
}
