-- ===== src/Tests/Flow.antt =====
-- A cycle of the flow, the replayed exchange and the backtest over the integers.
use trading_crew.Prelude.{
  ◌≡◌, refl, true, false, Bool, some, none, [], ◌∷◌, ◌++◌, List, ok, err, Result,
}
use trading_crew.Num.{Num, sum, ◌+◌}
use trading_crew.Num.Int.{pos, ℤ, ◌*ℤ◌, ◌+ℤ◌, ◌-ℤ◌}
use trading_crew.Num.Instances.{integers, integers-IsExact}
use trading_crew.Models.Market.{Candle, MarketAnalysis}
use trading_crew.Models.Order.{OrderSide, OrderType, OrderRequest, Order}
use trading_crew.Models.Portfolio.{
  Portfolio, make_position, total_balance, total_market_value, update_peak,
}
use trading_crew.Models.Risk.{RiskParams, not_tripped}
use trading_crew.Models.Signal.{SignalType, SignalStrength}
use trading_crew.Risk.SellGuard.{SellGuard}
use trading_crew.Risk.Pipeline.{RiskPipeline, StopLossMethod}
use trading_crew.Execution.Exchange.{Exchange}
use trading_crew.Execution.World.{Settings, World, empty_result}
use trading_crew.Strategies.{Runtime, Strategy, signal_of}
use trading_crew.Strategies.Runner.{StrategyRunner}
use trading_crew.Uncertainty.{UncertaintyScorer, default_weights}
use trading_crew.Budget.{normal}
use trading_crew.Simulated.{
  SimulatedConfig, SimulatedState, simulated, create_order, fetch_order_status, cancel_order,
  filled_order, fill_of,
}
use trading_crew.Simulated.Orders.{fetch_order_status-create_order, status_of}
use trading_crew.Flow.{Services, Flow}
use trading_crew.Flow.Phases.{give_back, market_phase, reserve_phase}
use trading_crew.Flow.Restore.{give_back-reserve_phase}
use trading_crew.Flow.Route.{
  IsOver, Reach, halt, here, kickoff, market, market-IsOver, perform, step, then_step,
}
use trading_crew.Flow.Halt.{halted_cycle, IsHaltPhase, IsUntraded, tripped-IsUntraded}
use trading_crew.Backtest.{
  BacktestTrade, BacktestConfig, PendingOrder, Account, end_of_data, open_position, close_position,
  bought,
}
use trading_crew.Backtest.Cash.{close_position-open_position}
use trading_crew.Backtest.Run.{BacktestService, Run, run_bars, start_run}
use trading_crew.Backtest.Past.{run_bars_past}

instance abbrev int_num : Num
int_num = integers

abbrev candle : ℤ → ℤ → Candle
candle time price = record {
  symbol = "BTC/USDT";
  exchange = "binance";
  timeframe = "1h";
  timestamp = time;
  open_price = price;
  high = price;
  low = price;
  close = price;
  volume = pos 1;
}

abbrev past : List Candle
past = candle (pos 0) (pos 100) ∷ candle (pos 1) (pos 110) ∷ []

abbrev future : List Candle
future = candle (pos 2) (pos 90) ∷ []

abbrev config : SimulatedConfig
config = record {
  candles = past ++ future;
  symbol = "BTC/USDT";
  exchange_id = "binance";
  fee_rate = pos 0;
  slippage_pct = pos 0;
  order_name = λ n. "sim-1";
}

abbrev replay : SimulatedState
replay = record { bar_index = 1; orders = []; next_order_id = 0 }

abbrev request : OrderRequest
request = record {
  symbol = "BTC/USDT";
  exchange = "binance";
  side = OrderSide.buy;
  order_type = OrderType.market;
  amount = pos 2;
  price = some (pos 110);
  stop_loss_price = none;
  take_profit_price = none;
  strategy_name = "ema";
  signal_confidence = pos 1;
}

abbrev order : Order
order =
    filled_order config "sim-1" request (candle (pos 1) (pos 110))
      (fill_of config request (candle (pos 1) (pos 110)))

fetch_order_status-create_order_example :
    let placed = (create_order config request replay).1 in
    ((fetch_order_status config "sim-1" "BTC/USDT" placed).0 ≡ ok (status_of config order))
    × ((fetch_order_status config "sim-1" "BTC/USDT"
          (cancel_order config "sim-1" "BTC/USDT" placed).1).0
        ≡ ok (record (status_of config order) { status = some "canceled" }))
unfolding create_order ◌*ℤ◌ ◌+ℤ◌
fetch_order_status-create_order_example =
    fetch_order_status-create_order config request replay order refl

instance abbrev exchange : Exchange
exchange = simulated config

abbrev params : RiskParams
params = record {
  max_position_size_pct = pos 10;
  max_portfolio_exposure_pct = pos 80;
  max_drawdown_pct = pos 15;
  default_stop_loss_pct = pos 3;
  risk_per_trade_pct = pos 2;
  min_confidence = pos 1;
  cooldown_after_loss_seconds = 0;
  min_profit_margin_pct = pos 1;
}

abbrev pipeline : RiskPipeline
pipeline = record {
  risk_params = params;
  stop_loss_method = StopLossMethod.fixed;
  atr_stop_multiplier = pos 2;
  anti_averaging_down = false;
  sell_guard = SellGuard.allow_all;
}

abbrev runtime : Runtime
runtime = record { format = λ template values. template; now = pos 0 }

abbrev buyer : Strategy
buyer = record {
  name = "buyer";
  generate_signal = λ a.
      ok (some (signal_of runtime a "buyer" SignalType.buy SignalStrength.strong (pos 1) "test"));
}

abbrev runner : StrategyRunner
runner = record {
  strategies = buyer ∷ [];
  min_confidence = pos 1;
  ensemble = false;
  ensemble_threshold = pos 1;
}

abbrev scorer : UncertaintyScorer
scorer = record { weights = default_weights; threshold = pos 1 }

abbrev analysis : MarketAnalysis
analysis = record {
  symbol = "BTC/USDT";
  exchange = "binance";
  timestamp = pos 0;
  current_price = pos 110;
  indicators = [];
  ohlcv_data = [];
  metadata = record { market_regime = none; sentiment_score = none; sentiment_confidence = none };
}

abbrev services : Services
services = record {
  runtime = runtime;
  market = ok (("BTC/USDT", analysis) ∷ []);
  sentiment = none;
  strategy_runner = runner;
  risk_pipeline = pipeline;
  risk = params;
  uncertainty_scorer = scorer;
  advise = none;
  advisory_enabled = false;
  degrade_level = normal;
  previous_regimes = [];
  cached_analyses = [];
  stop_loss_monitoring_enabled = true;
  save_cycle_history = true;
}

abbrev settings : Settings
settings = record {
  stale_minutes = pos 60;
  stale_partial_minutes = pos 360;
  anti_averaging_down_enabled = true;
  now = pos 7200;
  fresh_id = λ n. "pending";
  lower = λ s. s;
}

abbrev portfolio : Portfolio
portfolio = record {
  positions = [];
  balance_quote = pos 1000;
  quote_currency = "USDT";
  realized_pnl = pos 0;
  total_fees = pos 0;
  peak_balance = pos 1000;
}

abbrev world : World
world = record {
  portfolio = portfolio;
  db = record { orders = []; failed_orders = []; portfolios = [] };
  exchange = replay;
  notices = [];
  result = empty_result;
  ids_drawn = 0;
}

-- A flow with one order request, given whether its breaker is tripped.
abbrev flow : Bool → Flow
flow tripped = record {
  world = world;
  journal = record { signals = []; pnl_snapshots = []; summaries = [] };
  breaker = record {
    max_drawdown_pct = pos 15;
    is_tripped = tripped;
    tripped_at = none;
    trip_reason = not_tripped;
  };
  plan = record {
    run_market = true;
    run_strategy = true;
    run_execution = false;
    open_orders_count = none;
  };
  state = record {
    market_analyses = [];
    signals = [];
    risk_results = [];
    order_requests = request ∷ [];
    orders = [];
    filled_orders = [];
    cancelled_orders = [];
    failed_orders = [];
    circuit_breaker_tripped = false;
    uncertainty_score = pos 0;
    advisory_ran = false;
  };
  portfolio_snapshot = none;
  evaluation = none;
  uncertainty_result = none;
}

give_back-reserve_phase_example :
    let reserved = (reserve_phase settings services (flow false)).1 in
    (give_back settings services reserved).1.world.portfolio ≡ portfolio
give_back-reserve_phase_example = give_back-reserve_phase settings services (flow false)

market-IsOver_example : IsOver settings services (kickoff settings services 7 market (flow false)).0
market-IsOver_example = market-IsOver settings services (flow false)

abbrev halted : Flow
halted = (kickoff settings services 1 market (flow true)).1

halted_run : Reach settings services market (flow true) halt halted
unfolding perform market_phase kickoff
halted_run = then_step here (step market (flow true) halted refl)

tripped-IsUntraded_example :
    (kickoff settings services 7 market (flow true) ≡ halted_cycle settings services (flow true))
    × IsHaltPhase halt
    × (IsUntraded (flow true) halted)
tripped-IsUntraded_example =
    tripped-IsUntraded settings services (flow true) halted halt refl halted_run

abbrev backtest_config : BacktestConfig
backtest_config = record {
  initial_balance = pos 1000;
  fee_rate = pos 1;
  slippage_pct = pos 0;
  min_candles_for_analysis = 1;
  candle_window_size = 50;
  with_advisory = false;
}

abbrev service : BacktestService
service = record {
  runtime = runtime;
  runner = runner;
  risk_params = params;
  config = backtest_config;
  stop_loss_method = StopLossMethod.fixed;
  atr_stop_multiplier = pos 2;
  advise = none;
  uncertainty_scorer = none;
  analyze = λ candles. ok analysis;
  symbol = "BTC/USDT";
}

run_bars_past_example :
    run_bars service (past ++ future) 0 (past ++ future) (start_run service)
    ≡ (elim (run_bars service past 0 past (start_run service)) as (λ o. Result Run) [
      | err e ↦ err e
      | ok r ↦ run_bars service (past ++ future) 2 future r
    ])
run_bars_past_example = run_bars_past service past future (start_run service)

abbrev account : Account
account = record { portfolio = portfolio; entry_bars = []; trades = [] }

abbrev pending : PendingOrder
pending = record {
  symbol = "BTC/USDT";
  is_buy = true;
  amount = pos 2;
  stop_loss_price = none;
  strategy_name = "buyer";
}

-- Bought at 100 with a fee of 200.
abbrev opened : Account
opened = record {
  portfolio = record portfolio {
    positions = ("BTC/USDT", bought backtest_config pending (pos 100) (pos 2)) ∷ [];
    balance_quote = pos 600;
    total_fees = pos 200;
  };
  entry_bars = ("BTC/USDT", 3) ∷ [];
  trades = [];
}

close_position-open_position_example :
    let closed =
      close_position backtest_config "BTC/USDT"
        (bought backtest_config pending (pos 100) (pos 2))
        (pos 120)
        5
        (pos 9)
        end_of_data
        opened in
    (trade : BacktestTrade) × (closed.trades ≡ trade ∷ [])
    × (closed.portfolio.positions ≡ [])
    × (closed.portfolio.balance_quote ≡ pos 1000 + trade.pnl)
unfolding open_position make_position update_peak total_balance ◌+ℤ◌ total_market_value sum ◌*ℤ◌
    ◌-ℤ◌
close_position-open_position_example =
    close_position-open_position integers-IsExact backtest_config 3 5 pending (pos 100) (pos 2)
      (pos 120) (pos 9) end_of_data account opened refl refl
