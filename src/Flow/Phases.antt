-- ===== src/Flow/Phases.antt =====
-- The phases of src/trading_crew/flows/trading_flow.py: `market_phase`, `strategy_phase`,
-- `compute_uncertainty`, `advisory_phase`, `reserve_phase`, `execution_phase`,
-- `execution_only_phase`, `post_cycle_hooks` and `circuit_breaker_halt`.
use trading_crew.Prelude.{
  Bool, true, false, not, if◌then◌else◌, is_some, Option, none, some, List, [], ◌∷◌, ◌++◌, String,
  Dict, lookup, ok, err, Action, pure, raise, gets, modify, when, attempt, from_result, ◌>>=◌, ◌>>◌,
}
use trading_crew.Num.{Num, R}
use trading_crew.Models.Order.{OrderRequest, Order}
use trading_crew.Models.Market.{MarketAnalysis}
use trading_crew.Models.Signal.{TradeSignal, StrategyVote}
use trading_crew.Models.Portfolio.{Position, update_peak}
use trading_crew.Risk.Pipeline.{evaluate, to_order_request}
use trading_crew.Database.{get_break_even_prices}
use trading_crew.Execution.Types.{ExecutionResult, pipeline_failed}
use trading_crew.Execution.Exchange.{Exchange}
use trading_crew.Execution.World.{Settings, on_portfolio}
use trading_crew.Execution.Place.{process_order_requests}
use trading_crew.Execution.Poll.{poll_and_reconcile}
use trading_crew.Cycle.Reserve.{reserve, rollback}
use trading_crew.Cycle.Dedup.{dedup_sell_orders}
use trading_crew.Strategies.Runner.{StrategyEvaluation}
use trading_crew.Strategies.Runner.{evaluate as evaluate_strategies}
use trading_crew.Uncertainty.{score}
use trading_crew.Advisory.{AdvisoryResult, apply_advisory_directives}
use trading_crew.Budget.{apply_market_data_gate}
use trading_crew.Flow.{CycleState, Services, Flow, on_world, set_state, set_portfolio, send}
use trading_crew.Flow.StopLoss.{
  on_order_filled, on_circuit_breaker_activated, check_stop_losses, store_portfolio,
}

module _ ⦃num : Num⦄ where
  -- `_update_position_prices`
  unfoldable pub update_position_prices : Dict MarketAnalysis → Dict Position → Dict Position
  update_position_prices analyses [] = []
  update_position_prices analyses ((symbol, pos) ∷ positions) =
      let rest = update_position_prices analyses positions in
      elim (lookup symbol analyses) [
        | none ↦ (symbol, pos) ∷ rest
        | some a ↦ (symbol, record pos { current_price = a.current_price }) ∷ rest
      ]

  abbrev pub keys : {V : Type 0} → Dict V → List String
  keys [] = []
  keys ((k, v) ∷ d) = k ∷ keys d

  abbrev pub is_empty : {A : Type 0} → List A → Bool
  is_empty [] = true
  is_empty (x ∷ xs) = false

  abbrev cons_request : Option OrderRequest → List OrderRequest → List OrderRequest
  cons_request none xs = xs
  cons_request (some x) xs = xs ++ x ∷ []

module _ ⦃num : Num⦄ ⦃ex : Exchange⦄ (settings : Settings) (services : Services) where
  unfoldable pub market_body : Action Flow (Unit {0})
  unfolding update_position_prices apply_market_data_gate
  market_body = do
    analyses ← from_result (services.market)
    set_state (λ s. record s { market_analyses = analyses })
    modify (λ f. record f { plan = apply_market_data_gate (not (is_empty analyses)) f.plan })
    set_portfolio (λ p. record p { positions = update_position_prices analyses p.positions })

  unfoldable pub market_phase : Action Flow (Unit {0})
  unfolding market_body
  market_phase = do f ← gets (λ f. f); if f.plan.run_market then market_body else pure tt

  -- One signal of the loops that derive the order requests.
  unfoldable pub derive_request : Dict (Option R) → TradeSignal → Action Flow (Unit {0})
  derive_request break_even sig = do
    f ← gets (λ f. f)
    let (outcome, breaker) =
        evaluate settings.now services.risk_pipeline f.breaker sig f.world.portfolio
          (lookup sig.symbol f.state.market_analyses) break_even
    modify (λ f. record f { breaker = breaker })
    result ← from_result outcome
    set_state (λ s. record s { risk_results = s.risk_results ++ result ∷ [] })
    request ← from_result (to_order_request sig result)
    set_state (λ s. record s { order_requests = cons_request request s.order_requests })
    modify (λ f. record f {
      journal = record (f.journal) { signals = f.journal.signals ++ ((sig, result.verdict) ∷ []) };
    })

  derive_all : Dict (Option R) → List TradeSignal → Action Flow (Unit {0})
  unfolding derive_request
  derive_all break_even [] = pure tt
  derive_all break_even (sig ∷ sigs) = derive_request break_even sig >> derive_all break_even sigs

  -- The same loop in both phases: the break-even prices of the symbols that are held, then each signal.
  unfoldable pub derive_requests : List TradeSignal → Action Flow (Unit {0})
  unfolding derive_all
  derive_requests sigs = do
    f ← gets (λ f. f)
    derive_all (get_break_even_prices (keys f.world.portfolio.positions) f.world.db) sigs

  unfoldable pub strategy_body : Action Flow (Unit {0})
  unfolding derive_requests
  strategy_body = do
    f ← gets (λ f. f)
    evaluation ← from_result (
        evaluate_strategies services.runtime services.strategy_runner f.state.market_analyses
          (some (f.world.portfolio)))
    modify (λ f. record f {
      evaluation = some evaluation;
      state = record (f.state) { signals = evaluation.signals };
    })
    derive_requests evaluation.signals

  -- A failure is reported, and raised again.
  unfoldable pub strategy_phase : Action Flow (Unit {0})
  unfolding strategy_body
  strategy_phase = do
    outcome ← attempt strategy_body
    elim outcome [
      | ok done ↦ pure tt
      | err e ↦ send (pipeline_failed "Strategy pipeline failed") >> raise e
    ]

  abbrev votes_of : Option StrategyEvaluation → Dict (List StrategyVote)
  votes_of none = []
  votes_of (some e) = e.votes

  unfoldable pub compute_uncertainty : Action Flow (Unit {0})
  compute_uncertainty = modify (λ f.
      let result =
        score services.uncertainty_scorer f.state.market_analyses (votes_of f.evaluation)
          f.world.portfolio services.risk services.sentiment services.previous_regimes in
      record f {
        state = record (f.state) { uncertainty_score = result.score };
        uncertainty_result = some result;
      })

  take_advice : List TradeSignal → Action Flow (Unit {0})
  unfolding derive_requests
  take_advice adjusted = do
    set_state (λ s. record s { signals = adjusted; risk_results = []; order_requests = [] })
    derive_requests adjusted

  -- What the crew returned: without adjustments the requests stay as they are.
  unfoldable pub apply_advice : AdvisoryResult → Action Flow (Unit {0})
  unfolding take_advice apply_advisory_directives
  apply_advice advice = do
    set_state (λ s. record s { advisory_ran = true })
    f ← gets (λ f. f)
    let adjusted = apply_advisory_directives f.state.signals advice
    if is_empty advice.adjustments then pure tt else take_advice adjusted

  -- A failure of the crew leaves the signals.
  unfoldable pub advisory_phase : Action Flow (Unit {0})
  unfolding apply_advice
  advisory_phase = do
    f ← gets (λ f. f)
    elim services.advise [
      | none ↦ pure tt
      | some advise ↦ elim (advise f.state.uncertainty_score) [
        | err e ↦ pure tt
        | ok advice ↦ apply_advice advice
      ]
    ]

  unfoldable pub reserve_all : List OrderRequest → Action Flow (Unit {0})
  reserve_all [] = pure tt
  reserve_all (req ∷ requests) = on_world (on_portfolio (reserve req)) >> reserve_all requests

  -- `reserve_phase`, from the requests that are left.
  unfoldable pub reserve_requests : List OrderRequest → Action Flow (Unit {0})
  unfolding reserve_all
  reserve_requests requests = do
    set_state (λ s. record s { order_requests = requests })
    modify (λ f. record f { portfolio_snapshot = some (f.world.portfolio) })
    reserve_all requests
    if is_empty requests then pure tt else set_portfolio update_peak

  unfoldable pub reserve_phase : Action Flow (Unit {0})
  unfolding reserve_requests
  reserve_phase = do
    f ← gets (λ f. f)
    reserve_requests (dedup_sell_orders f.state.order_requests f.world.portfolio)

  abbrev polled_state : ExecutionResult → CycleState → CycleState
  polled_state r s = record s {
    orders = r.placed;
    filled_orders = r.filled;
    cancelled_orders = r.cancelled;
    failed_orders = r.failed;
  }

  -- A failure is logged only.
  unfoldable pub execution_only_phase : Action Flow (Unit {0})
  execution_only_phase = do
    outcome ← on_world (attempt (poll_and_reconcile settings))
    elim outcome [ ok result ↦ set_state (polled_state result) | err e ↦ pure tt ]

  abbrev executed_state : ExecutionResult → ExecutionResult → CycleState → CycleState
  executed_state r q s = record s {
    orders = r.placed ++ q.placed;
    filled_orders = r.filled ++ q.filled;
    cancelled_orders = r.cancelled ++ q.cancelled;
    failed_orders = r.failed ++ q.failed;
  }

  unfoldable pub execution_body : Action Flow (Unit {0})
  execution_body = do
    f ← gets (λ f. f)
    placed ← on_world (process_order_requests settings f.state.order_requests f.portfolio_snapshot)
    polled ← on_world (poll_and_reconcile settings)
    set_state (executed_state placed polled)

  abbrev drop_snapshot : Action Flow (Unit {0})
  drop_snapshot = modify (λ f. record f { portfolio_snapshot = none })

  -- `_rollback_portfolio(self._portfolio, self._portfolio_snapshot, self.state)`
  abbrev pub roll_back : Action Flow (Unit {0})
  roll_back = modify (λ f. record f {
    world = record (f.world) {
      portfolio = rollback f.portfolio_snapshot f.state.order_requests f.world.portfolio;
    };
  })

  -- A failure rolls the reservations back.
  unfoldable pub execution_phase : Action Flow (Unit {0})
  unfolding execution_body rollback
  execution_phase = do
    outcome ← attempt execution_body
    elim outcome [
      | ok done ↦ drop_snapshot
      | err e ↦ do
        roll_back
        drop_snapshot
        send (pipeline_failed "Execution pipeline failed — reservations rolled back")
    ]

  fill_hooks : List Order → Action Flow (Unit {0})
  unfolding on_order_filled
  fill_hooks [] = pure tt
  fill_hooks (o ∷ orders) = on_order_filled settings o >> fill_hooks orders

  -- The first lines of `post_cycle_hooks`: what was reserved and not executed is given back.
  unfoldable pub give_back : Action Flow (Unit {0})
  unfolding rollback
  give_back = do f ← gets (λ f. f); when (is_some f.portfolio_snapshot) (roll_back >> drop_snapshot)

  unfoldable pub save_summary : Action Flow (Unit {0})
  save_summary = when services.save_cycle_history (
      modify (λ f. record f {
        journal = record (f.journal) {
          summaries = f.journal.summaries ++ ((f.state, f.world.portfolio) ∷ []);
        };
      }))

  unfoldable pub post_cycle_hooks : Action Flow (Unit {0})
  unfolding give_back fill_hooks save_summary
  post_cycle_hooks = do
    give_back
    f ← gets (λ f. f)
    fill_hooks f.state.filled_orders
    when services.stop_loss_monitoring_enabled (check_stop_losses settings services)
    save_summary
    store_portfolio settings

  unfoldable pub circuit_breaker_halt : Action Flow (Unit {0})
  circuit_breaker_halt = do
    set_state (λ s. record s { circuit_breaker_tripped = true })
    on_circuit_breaker_activated settings
