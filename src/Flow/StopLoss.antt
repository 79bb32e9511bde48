-- ===== src/Flow/StopLoss.antt =====
-- The hooks of a cycle: `_on_order_filled`, `_on_circuit_breaker_activated`, `_check_stop_losses` and
-- `_on_stop_loss_triggered`.
use trading_crew.Prelude.{
  ◌&&◌, if◌then◌else◌, Option, none, some, [], ◌∷◌, ◌++◌, String, str_eq, Dict, lookup, ok, err,
  Action, pure, gets, modify, attempt, from_result, ◌>>=◌, ◌>>◌,
}
use trading_crew.Num.{Num, R, leb, zero_num}
use trading_crew.Models.Order.{OrderSide, OrderType, OrderRequest, Order, make_request}
use trading_crew.Models.Market.{MarketAnalysis}
use trading_crew.Models.Portfolio.{Position, snapshot}
use trading_crew.Risk.CircuitBreaker.{check}
use trading_crew.Database.{save_portfolio}
use trading_crew.Execution.Types.{breaker_tripped, stop_loss_triggered, ExecutionResult}
use trading_crew.Execution.Exchange.{Exchange}
use trading_crew.Execution.World.{Settings}
use trading_crew.Execution.Place.{process_order_requests}
use trading_crew.Flow.{CycleState, Services, Flow, on_world, set_state, send}

module _ ⦃num : Num⦄ ⦃ex : Exchange⦄ (settings : Settings) where
  -- `self._db.save_portfolio(self._portfolio)`
  abbrev pub store_portfolio : Action Flow (Unit {0})
  store_portfolio = on_world (modify (λ w. record w { db = save_portfolio w.portfolio w.db }))

  unfoldable pub on_order_filled : Order → Action Flow (Unit {0})
  on_order_filled order = modify (λ f. record f {
    journal = record (f.journal) {
      pnl_snapshots = f.journal.pnl_snapshots ++ (snapshot settings.now f.world.portfolio ∷ []);
    };
    breaker = (check settings.now f.world.portfolio f.breaker).1;
  })

  unfoldable pub on_circuit_breaker_activated : Action Flow (Unit {0})
  on_circuit_breaker_activated = do
    store_portfolio
    breaker ← gets (λ f. f.breaker)
    send (breaker_tripped breaker.trip_reason)

  -- The SELL of the whole position, as `OrderRequest(...)` makes it.
  unfoldable pub stop_request : String → Position → R → OrderRequest
  stop_request symbol pos price = record {
    symbol = symbol;
    exchange = pos.exchange;
    side = OrderSide.sell;
    order_type = OrderType.market;
    amount = pos.amount;
    price = some price;
    stop_loss_price = none;
    take_profit_price = none;
    strategy_name = if str_eq pos.strategy_name "" then "stop_loss" else pos.strategy_name;
    signal_confidence = zero_num;
  }

  abbrev pub add_results : ExecutionResult → CycleState → CycleState
  add_results r s = record s {
    orders = s.orders ++ r.placed;
    filled_orders = s.filled_orders ++ r.filled;
    failed_orders = s.failed_orders ++ r.failed;
  }

  -- A failure of the placement is logged only.
  unfoldable pub place_stop : OrderRequest → Action Flow (Unit {0})
  place_stop req = do
    outcome ← on_world (attempt (process_order_requests settings (req ∷ []) none))
    elim outcome [ ok result ↦ set_state (add_results result) | err e ↦ pure tt ]

  -- `_on_stop_loss_triggered`
  unfoldable pub on_stop_loss_triggered : String → Position → R → Action Flow (Unit {0})
  unfolding place_stop stop_request
  on_stop_loss_triggered symbol pos price = do
    req ← from_result (make_request (stop_request symbol pos price))
    place_stop req
    send (stop_loss_triggered symbol price pos.stop_loss_price)

  -- The test of `_check_stop_losses`: the price at which the position is to be sold.
  unfoldable pub stop_hit : Position → Option MarketAnalysis → Option R
  stop_hit pos analysis = elim pos.stop_loss_price [
    | none ↦ none
    | some stop ↦ elim analysis [
      | none ↦ none
      | some a ↦ if pos.is_long && leb a.current_price stop then some a.current_price else none
    ]
  ]

  check_positions : Dict MarketAnalysis → Dict Position → Action Flow (Unit {0})
  unfolding stop_hit
  check_positions analyses [] = pure tt
  check_positions analyses ((symbol, pos) ∷ positions) =
      let rest = check_positions analyses positions in
      elim (stop_hit pos (lookup symbol analyses)) [
        | none ↦ rest
        | some price ↦ on_stop_loss_triggered symbol pos price >> rest
      ]

  -- `self.state.market_analyses or self._cached_analyses`
  abbrev pub analyses_or : Dict MarketAnalysis → Dict MarketAnalysis → Dict MarketAnalysis
  analyses_or [] cached = cached
  analyses_or (a ∷ d) cached = a ∷ d

  -- `_check_stop_losses`, over a copy of the positions.
  unfoldable pub check_stop_losses : Services → Action Flow (Unit {0})
  unfolding check_positions
  check_stop_losses services = do
    f ← gets (λ f. f)
    check_positions (analyses_or f.state.market_analyses services.cached_analyses)
        f.world.portfolio.positions
