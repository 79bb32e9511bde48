-- ===== src/Backtest/Run.antt =====
-- `BacktestService.run` of src/trading_crew/services/backtest_service.py. The technical analyzer and the
-- advisory crew are given by what they return or raise.
use Prim.Native.Nat.{◌-◌ as ◌-ℕ◌, ◌+◌ as ◌+ℕ◌}
use trading_crew.Prelude.{
  Bool, true, false, ◌&&◌, ◌||◌, not, if◌then◌else◌, Option, none, some, get_or, List, [], ◌∷◌,
  ◌++◌, String, Dict, insert, ℕ, suc, length, take, drop, Result, ok, err, value_error,
}
use trading_crew.Num.{Num, R, leb, zero_num, max}
use trading_crew.Num.Int.{ltb_ℕ}
use trading_crew.Models.Market.{Candle, MarketAnalysis}
use trading_crew.Models.Signal.{SignalType, TradeSignal}
use trading_crew.Models.Portfolio.{Position, Portfolio, total_balance}
use trading_crew.Models.Risk.{RiskParams, RiskCheckResult, is_approved}
use trading_crew.Risk.CircuitBreaker.{new_breaker}
use trading_crew.Risk.SellGuard.{SellGuard}
use trading_crew.Risk.Pipeline.{RiskPipeline, StopLossMethod, evaluate}
use trading_crew.Strategies.{Runtime}
use trading_crew.Strategies.Runner.{StrategyRunner, StrategyEvaluation}
use trading_crew.Strategies.Runner.{evaluate as evaluate_strategies}
use trading_crew.Uncertainty.{UncertaintyScorer, score}
use trading_crew.Advisory.{
  AdvisoryResult, AdvisoryAdjustment, AdjustmentAction, veto_signal, sit_out,
  apply_advisory_directives,
}
use trading_crew.Backtest.{
  BacktestConfig, EquityPoint, PendingOrder, Account, fill_at_open, check_stops, close_all,
  equity_point,
}

module _ ⦃num : Num⦄ where
  -- `BacktestService`, and the arguments of `run`. `advise` is given the score.
  pub record BacktestService : Type 0 where
    pub runtime : Runtime
    pub runner : StrategyRunner
    pub risk_params : RiskParams
    pub config : BacktestConfig
    pub stop_loss_method : StopLossMethod
    pub atr_stop_multiplier : R
    pub advise : Option (R → Result AdvisoryResult)
    pub uncertainty_scorer : Option UncertaintyScorer
    pub analyze : List Candle → Result MarketAnalysis
    pub symbol : String

  -- The variables of the loop.
  pub record Run : Type 0 where
    pub account : Account
    pub pending : List PendingOrder
    pub equity_curve : List EquityPoint
    pub peak_equity : R
    pub advisory_activations : ℕ
    pub advisory_vetoes : ℕ
    pub uncertainty_scores : List R
    pub previous_regimes : Dict String

  module _ (svc : BacktestService) where
    unfoldable pub start_run : Run
    start_run =
        let balance : R = svc.config.initial_balance in
        record {
          account = record {
            portfolio = record {
              positions = [];
              balance_quote = balance;
              quote_currency = "USDT";
              realized_pnl = zero_num;
              total_fees = zero_num;
              peak_balance = balance;
            };
            entry_bars = [];
            trades = [];
          };
          pending = [];
          equity_curve = [];
          peak_equity = balance;
          advisory_activations = 0;
          advisory_vetoes = 0;
          uncertainty_scores = [];
          previous_regimes = [];
        }

    -- `_record_equity`, and the peak after it.
    unfoldable pub record_equity : Candle → Run → Run
    unfolding equity_point
    record_equity candle r = record r {
      equity_curve = r.equity_curve ++ equity_point candle r.account.portfolio r.peak_equity ∷ [];
      peak_equity = max r.peak_equity (total_balance r.account.portfolio);
    }

    abbrev set_prices : R → Dict Position → Dict Position
    set_prices price [] = []
    set_prices price ((k, pos) ∷ d) = (k, record pos { current_price = price }) ∷ set_prices price d

    abbrev set_portfolio_prices : R → Run → Run
    set_portfolio_prices price r = record r {
      account = record (r.account) {
        portfolio = record (r.account.portfolio) {
          positions = set_prices price r.account.portfolio.positions;
        };
      };
    }

    -- The pipeline of `_evaluate_signal`: the guards are off.
    abbrev backtest_pipeline : RiskPipeline
    backtest_pipeline = record {
      risk_params = svc.risk_params;
      stop_loss_method = svc.stop_loss_method;
      atr_stop_multiplier = svc.atr_stop_multiplier;
      anti_averaging_down = false;
      sell_guard = SellGuard.allow_all;
    }

    abbrev is_buy_type : SignalType → Bool
    is_buy_type SignalType.buy = true
    is_buy_type _ = false

    abbrev queued : TradeSignal → RiskCheckResult → Option PendingOrder
    queued signal result =
        if not (is_approved result) || leb result.approved_amount zero_num
        then none
        else some record {
          symbol = signal.symbol;
          is_buy = is_buy_type signal.signal_type;
          amount = result.approved_amount;
          stop_loss_price = result.stop_loss_price;
          strategy_name = signal.strategy_name;
        }

    -- `_evaluate_signal`, with a fresh circuit breaker.
    unfoldable pub evaluate_signal :
        TradeSignal → Portfolio → MarketAnalysis → Result (Option PendingOrder)
    evaluate_signal signal portfolio analysis =
        elim (evaluate svc.runtime.now backtest_pipeline (new_breaker svc.risk_params) signal
          portfolio (some analysis) []).0 [ err e ↦ err e | ok result ↦ ok (queued signal result) ]

    abbrev append_order : List PendingOrder → Option PendingOrder → List PendingOrder
    append_order orders none = orders
    append_order orders (some order) = orders ++ order ∷ []

    unfoldable pub queue_signals : MarketAnalysis → List TradeSignal → Run → Result Run
    unfolding evaluate_signal
    queue_signals analysis [] r = ok r
    queue_signals analysis (s ∷ ss) r = elim (evaluate_signal s r.account.portfolio analysis) [
      | err e ↦ err e
      | ok order ↦ queue_signals analysis ss (record r { pending = append_order r.pending order })
    ]

    abbrev is_veto : AdjustmentAction → Bool
    is_veto veto_signal = true
    is_veto sit_out = true
    is_veto _ = false

    unfoldable pub count_vetoes : List AdvisoryAdjustment → ℕ
    count_vetoes [] = 0
    count_vetoes (a ∷ ds) = if is_veto a.action then suc (count_vetoes ds) else count_vetoes ds

    -- The advisory crew, where it is asked: a failure leaves the signals.
    unfoldable pub take_advice :
        List TradeSignal → Result AdvisoryResult → Run → List TradeSignal × Run
    unfolding count_vetoes apply_advisory_directives
    take_advice signals (err e) r =
        (signals, record r { advisory_activations = suc r.advisory_activations })
    take_advice signals (ok advice) r = (
      apply_advisory_directives signals advice,
      record r {
        advisory_activations = suc r.advisory_activations;
        advisory_vetoes = ◌+ℕ◌ r.advisory_vetoes (count_vetoes advice.adjustments);
      },
    )

    abbrev has_signals : List TradeSignal → Bool
    has_signals [] = false
    has_signals (s ∷ ss) = true

    -- The advisory layer, with a scorer and a crew.
    unfoldable pub advise_with :
        UncertaintyScorer
        → (R → Result AdvisoryResult)
        → MarketAnalysis
        → StrategyEvaluation
        → Run
        → List TradeSignal × Run
    unfolding take_advice
    advise_with scorer advise analysis evaluation r =
        let result =
          score scorer ((svc.symbol, analysis) ∷ []) evaluation.votes r.account.portfolio
            svc.risk_params none r.previous_regimes in
        let scored = record r {
          uncertainty_scores = r.uncertainty_scores ++ result.score ∷ [];
          previous_regimes =
              insert svc.symbol (get_or "unknown" analysis.metadata.market_regime)
                r.previous_regimes;
        } in
        if result.recommend_advisory && has_signals evaluation.signals
        then take_advice evaluation.signals (advise result.score) scored
        else (evaluation.signals, scored)

    unfoldable pub advisory_layer :
        MarketAnalysis → StrategyEvaluation → Run → List TradeSignal × Run
    unfolding advise_with
    advisory_layer analysis evaluation r = elim svc.uncertainty_scorer [
      | none ↦ (evaluation.signals, r)
      | some scorer ↦ elim svc.advise [
        | none ↦ (evaluation.signals, r)
        | some advise ↦
            if svc.config.with_advisory
            then advise_with scorer advise analysis evaluation r
            else (evaluation.signals, r)
      ]
    ]

    -- From the analysis of a bar to its queued orders.
    unfoldable pub trade_bar : Candle → MarketAnalysis → Run → Result Run
    unfolding advisory_layer queue_signals
    trade_bar candle analysis r =
        let priced = set_portfolio_prices candle.close r in
        elim (evaluate_strategies svc.runtime svc.runner ((svc.symbol, analysis) ∷ []) none) [
          | err e ↦ err e
          | ok evaluation ↦
              let (signals, advised) = advisory_layer analysis evaluation priced in
              queue_signals analysis signals advised
        ]

    -- What the bar sees of the candles: at most the window's size, up to the bar.
    unfoldable pub rolling_window : List Candle → ℕ → List Candle
    rolling_window candles i =
        drop (◌-ℕ◌ (suc i) svc.config.candle_window_size) (take (suc i) candles)

    -- The bar after the fills: a bar of the warm-up, or one whose analysis fails, is only recorded.
    unfoldable pub analyze_bar : List Candle → ℕ → Candle → Run → Result Run
    unfolding trade_bar record_equity
    analyze_bar window i candle r =
        if ltb_ℕ i (◌-ℕ◌ svc.config.min_candles_for_analysis 1)
        then ok (record_equity candle r)
        else elim (svc.analyze window) [
          | err e ↦ ok (record_equity candle r)
          | ok analysis ↦ elim (trade_bar candle analysis r) [
            | err e ↦ err e
            | ok r' ↦ ok (record_equity candle r')
          ]
        ]

    -- The fills at the open, and the stop losses.
    unfoldable pub fill_bar : ℕ → Candle → Run → Result Run
    fill_bar i candle r = elim (fill_at_open svc.config candle i r.pending r.account) [
      | err e ↦ err e
      | ok filled ↦ ok record r {
        account = check_stops svc.config candle i filled.portfolio.positions filled;
        pending = [];
      }
    ]

    -- One pass of the loop, given the window that the analyzer sees.
    unfoldable pub bar_step : List Candle → ℕ → Candle → Run → Result Run
    unfolding fill_bar analyze_bar
    bar_step window i candle r = elim (fill_bar i candle r) [
      | err e ↦ err e
      | ok r' ↦ analyze_bar window i candle r'
    ]

    -- The loop over the candles that are left, from the bar i.
    unfoldable pub run_bars : List Candle → ℕ → List Candle → Run → Result Run
    unfolding bar_step rolling_window
    run_bars candles i [] r = ok r
    run_bars candles i (candle ∷ rest) r = elim (bar_step (rolling_window candles i) i candle r) [
      | err e ↦ err e
      | ok r' ↦ run_bars candles (suc i) rest r'
    ]

    abbrev last_of : List Candle → Option Candle
    last_of [] = none
    last_of (x ∷ []) = some x
    last_of (x ∷ y ∷ xs) = last_of (y ∷ xs)

    abbrev close_run : Option Candle → ℕ → Run → Run
    close_run none last_bar r = r
    close_run (some candle) last_bar r = record r {
      account = close_all svc.config candle last_bar r.account.portfolio.positions r.account;
    }

    -- `run`, up to the metrics: what is open at the end is closed.
    unfoldable pub run_backtest : List Candle → Result Run
    unfolding run_bars start_run
    run_backtest candles =
        if ltb_ℕ (length candles) svc.config.min_candles_for_analysis
        then err value_error
        else elim (run_bars candles 0 candles start_run) [
          | err e ↦ err e
          | ok r ↦ ok (close_run (last_of candles) (◌-ℕ◌ (length candles) 1) r)
        ]
