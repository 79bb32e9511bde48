-- ===== src/Flow.antt =====
-- src/trading_crew/flows/trading_flow.py: the state of a cycle, and what its phases read. The market
-- service and the advisory crew are given by what they return or raise, and a database write does not
-- fail. The texts of the log and of the advisory context are left out.
pub mod StopLoss
pub mod Halt
pub mod Restore
pub mod Route
pub mod Phases
use trading_crew.Prelude.{
  Bool, Option, List, [], ◌∷◌, ◌++◌, String, Dict, Result, Action, modify, zoom,
}
use trading_crew.Num.{Num, R}
use trading_crew.Models.Order.{OrderRequest, Order}
use trading_crew.Models.Market.{MarketAnalysis}
use trading_crew.Models.Signal.{TradeSignal}
use trading_crew.Models.Portfolio.{Portfolio, PnlSnapshot}
use trading_crew.Models.Risk.{RiskParams, RiskVerdict, RiskCheckResult}
use trading_crew.Risk.CircuitBreaker.{CircuitBreaker}
use trading_crew.Risk.Pipeline.{RiskPipeline}
use trading_crew.Execution.Types.{FailedOrder, Notice}
use trading_crew.Execution.Exchange.{Exchange}
use trading_crew.Execution.World.{World, notify}
use trading_crew.Strategies.{Runtime}
use trading_crew.Strategies.Runner.{StrategyRunner, StrategyEvaluation}
use trading_crew.Uncertainty.{SentimentSnapshot, UncertaintyScorer, UncertaintyResult}
use trading_crew.Advisory.{AdvisoryResult}
use trading_crew.Budget.{RunPlan, BudgetDegradeLevel}

module _ ⦃num : Num⦄ where
  -- `CycleState`
  pub record CycleState : Type 0 where
    pub market_analyses : Dict MarketAnalysis
    pub signals : List TradeSignal
    pub risk_results : List RiskCheckResult
    pub order_requests : List OrderRequest
    pub orders : List Order
    pub filled_orders : List Order
    pub cancelled_orders : List Order
    pub failed_orders : List FailedOrder
    pub circuit_breaker_tripped : Bool
    pub uncertainty_score : R
    pub advisory_ran : Bool

  -- The tables that only the flow writes: `save_signal`, `save_pnl_snapshot`, `save_cycle_summary`.
  pub record Journal : Type 0 where
    pub signals : List (TradeSignal × RiskVerdict)
    pub pnl_snapshots : List PnlSnapshot
    pub summaries : List (CycleState × Portfolio)

  -- The services and the settings of a flow. `advise` is None where there is no advisory crew.
  pub record Services : Type 0 where
    pub runtime : Runtime
    pub market : Result (Dict MarketAnalysis)
    pub sentiment : Option SentimentSnapshot
    pub strategy_runner : StrategyRunner
    pub risk_pipeline : RiskPipeline
    pub risk : RiskParams
    pub uncertainty_scorer : UncertaintyScorer
    pub advise : Option (R → Result AdvisoryResult)
    pub advisory_enabled : Bool
    pub degrade_level : BudgetDegradeLevel
    pub previous_regimes : Dict String
    pub cached_analyses : Dict MarketAnalysis
    pub stop_loss_monitoring_enabled : Bool
    pub save_cycle_history : Bool

  module _ ⦃ex : Exchange⦄ where
    -- `TradingFlow`: what changes in a cycle. The portfolio stands in the world.
    pub record Flow : Type 0 where
      pub world : World
      pub journal : Journal
      pub breaker : CircuitBreaker
      pub plan : RunPlan
      pub state : CycleState
      pub portfolio_snapshot : Option Portfolio
      pub evaluation : Option StrategyEvaluation
      pub uncertainty_result : Option UncertaintyResult

    abbrev pub on_world : {A : Type 0} → Action World A → Action Flow A
    on_world = zoom (λ f. f.world) (λ w f. record f { world = w })

    abbrev pub set_state : (CycleState → CycleState) → Action Flow (Unit {0})
    set_state g = modify (λ f. record f { state = g f.state })

    abbrev pub set_portfolio : (Portfolio → Portfolio) → Action Flow (Unit {0})
    set_portfolio g =
        modify (λ f. record f { world = record (f.world) { portfolio = g f.world.portfolio } })

    abbrev pub send : Notice → Action Flow (Unit {0})
    send n = on_world (notify n)
