-- ===== src/Lib.antt =====
-- A model of the deterministic core of trading_crew: the path of one trade through a cycle.
--
-- A cycle of the program (src/trading_crew/flows/trading_flow.py) reads the market, lets the strategies
-- emit signals, checks each signal against the risk limits, reserves capital for what was approved,
-- sends the orders to the exchange, and polls the open ones. The parts that decide about money are
-- modelled here, each as the functions that the source has, over the state that they change.
--
-- Prelude          names shared by all files, Python dicts as association lists, exceptions as `Result`,
--                  and `Action`: a computation over a state that can raise and keeps what it changed.
-- Num              Python's `float`, as an interface: the literals, the arithmetic and the comparisons.
--                  Num/Laws states what a theorem assumes of it, in three strengths: a total order,
--                  monotone rounding, and exact arithmetic. Num/Instances has decimals of fixed scale,
--                  which meet the first two, and integers, which meet all three.
-- Models           src/trading_crew/models: orders, portfolio and positions, signals, market analysis, risk
--                  parameters. A pydantic constructor with bounds is a `make_` function that can fail.
-- Risk             src/trading_crew/risk and src/trading_crew/services/risk_pipeline.py: circuit breaker, position
--                  sizer, stop-losses, exposure and concentration limits, the break-even guard on a sale,
--                  and `RiskPipeline.evaluate`, which runs them in order (Risk/Pipeline).
-- Cycle            `_apply_single_order_to_portfolio` and `_rollback_portfolio` of src/trading_crew/main.py
--                  (Cycle/Reserve): the tentative reservations that precede execution; and before them
--                  `_dedup_sell_orders` of src/trading_crew/flows/trading_flow.py (Cycle/Dedup).
-- Execution        src/trading_crew/services/execution_service.py. Validate, Place and Poll are its three
--                  handlers, over World: the portfolio, the database, the exchange, the messages and
--                  the result. Reconcile, Incremental and Release change the portfolio alone.
-- Database         the tables of orders, of failed orders and of portfolios that the service writes,
--                  src/trading_crew/services/database_service.py.
-- Strategies       src/trading_crew/strategies: the four rules (Strategies/Single), the composite strategy
--                  (Strategies/Composite), and src/trading_crew/services/strategy_runner.py (Strategies/Runner)
--                  with its individual and its ensemble mode.
-- Advisory         `apply_advisory_directives` of src/trading_crew/models/advisory.py.
-- Flow             the phases of a cycle (Flow/Phases), the hooks on stop-losses and fills (Flow/StopLoss) and
--                  the routers (Flow/Route), over one state that holds the portfolio, the breaker, the world
--                  of Execution and `CycleState`. A phase is an `Action`; what listens to what is `Step`.
-- Analyzer         src/trading_crew/services/technical_analyzer.py: the indicators and the market regime.
-- Budget           the token budget, the run plan and the balance sync of src/trading_crew/main.py.
-- Simulated        src/trading_crew/services/simulated_exchange.py, as an implementation of the interface
--                  Execution/Exchange.Exchange.
-- Backtest         src/trading_crew/services/backtest_service.py: fills and stops (Backtest), the loop over
--                  the candles (Backtest/Run) and the metrics (Backtest/Metrics); and the matching of sells with
--                  buys of src/trading_crew/services/simulation_runner.py (Backtest/Lots).
-- Client           src/trading_crew/services/exchange_service.py: retries and the rate-limit breaker, paper
--                  orders (Client/Paper) and the paging of a range of candles (Client/Range). What ccxt
--                  answers is an argument.
-- Accounting       what Cycle and Execution do to a portfolio together: a reservation and then a fill, a
--                  partial fill, a cancellation, or a sale that was never reserved.
-- Uncertainty      src/trading_crew/services/uncertainty_scorer.py.
-- Tests            each theorem at concrete values, and runs.
--
-- The exchange, a service behind a network, is the record Execution/Exchange.Exchange: its calls,
-- each of which can raise, over a state of its own. Every theorem on Execution holds of every
-- exchange; the one in Tests/Execution is concrete. The clock, the database's included, stands
-- still during a call, and the ids that uuid4 gives are an argument (Execution/World.Settings). A
-- message is a value with what the source formats into it. Most loops of the modelled code run over
-- a list, so there is no fuel. Four do not: a cycle of the flow, of which `Flow/Route.kickoff` runs
-- seven phases, the length of the longest path; the paging of a range, which passes at most once
-- for each millisecond of it, since a page that does not advance ends it; the matching of a sell,
-- which passes at most once for each lot and once more; and the retries, of which there are as many
-- as the source allows.
--
-- Not modelled: logging; NaN and infinities; the agents, the crew and the tools that ask a language
-- model; the HTTP interface, the dashboard and the scripts, which present or start; the market
-- service, which calls the exchange and the analyzer for each symbol; the loop of the simulation
-- runner, the loader of candles and the comparison of backtests; the live orders of the exchange
-- client, which forward to ccxt; the notification client; the configuration; the metadata of a
-- signal and the time at which a position was opened, which nothing modelled reads; the loop of
-- `main_async` itself.
pub mod Prelude
pub mod Num
pub mod Models
pub mod Risk
pub mod Execution
pub mod Cycle
pub mod Accounting
pub mod Database
pub mod Uncertainty
pub mod Strategies
pub mod Advisory
pub mod Analyzer
pub mod Budget
pub mod Flow
pub mod Simulated
pub mod Backtest
pub mod Client
pub mod Tests
