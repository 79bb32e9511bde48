-- ===== src/Risk/Pipeline.antt =====
-- src/trading_crew/services/risk_pipeline.py: `RiskPipeline`, with the attributes that its methods read
-- in a record. A signal is BUY or SELL there, and what is no SELL takes the BUY branch.
pub mod Buy
pub mod Sell
pub mod Evaluate
pub mod Confidence
pub mod Request
use trading_crew.Prelude.{
  Bool, true, false, ◌&&◌, ◌||◌, not, if◌then◌else◌, Option, none, some, List, [], ◌∷◌, ◌++◌,
  String, Dict, lookup, Result, ok, err,
}
use trading_crew.Num.{Num, R, ◌/◌, ltb, leb, zero_num, min}
use trading_crew.Models.Order.{OrderRequest, OrderSide, OrderType, make_request}
use trading_crew.Models.Market.{MarketAnalysis, get_indicator}
use trading_crew.Models.Signal.{SignalType, TradeSignal}
use trading_crew.Models.Portfolio.{Position, Portfolio}
use trading_crew.Models.Risk.{
  RiskParams, RiskCheckResult, RiskVerdict, approved, reduced, rejected, circuit_break, Reason,
  circuit_breaker, confidence_below, no_open_position, no_sellable_quantity, sell_capped,
  averaging_down, size_zero, position_capped, make_check_result, is_approved,
}
use trading_crew.Risk.CircuitBreaker.{CircuitBreaker, check}
use trading_crew.Risk.StopLoss.{fixed_percentage_stop, atr_based_stop}
use trading_crew.Risk.Sizer.{PositionSizeResult, calculate_position_size}
use trading_crew.Risk.Limits.{check_exposure_limit, check_concentration_limit}
use trading_crew.Risk.SellGuard.{SellGuard, evaluate_guard}

pub data StopLossMethod : Type 0 where
  fixed atr : StopLossMethod

abbrev pub is_buy : SignalType → Bool
is_buy SignalType.buy = true
is_buy _ = false

abbrev is_sell : SignalType → Bool
is_sell SignalType.sell = true
is_sell _ = false

abbrev is_atr : StopLossMethod → Bool
is_atr atr = true
is_atr fixed = false

module _ ⦃num : Num⦄ where
  pub record RiskPipeline : Type 0 where
    pub risk_params : RiskParams
    pub stop_loss_method : StopLossMethod
    pub atr_stop_multiplier : R
    pub anti_averaging_down : Bool
    pub sell_guard : SellGuard

  -- A rejection at one check, with what had passed.
  abbrev rejection : Option R → List Reason → List String → List String → RiskCheckResult
  rejection stop reasons passed failed = record {
    verdict = rejected;
    approved_amount = zero_num;
    approved_price = none;
    stop_loss_price = stop;
    take_profit_price = none;
    reasons = reasons;
    checks_passed = passed;
    checks_failed = failed;
  }

  -- The indicator that an ATR stop wants, where the method is ATR and it is positive.
  abbrev usable_atr : Option R → Option R
  usable_atr none = none
  usable_atr (some a) = if ltb zero_num a then some a else none

  abbrev atr_of : RiskPipeline → Option MarketAnalysis → Option R
  atr_of p none = none
  atr_of p (some analysis) =
      if is_atr p.stop_loss_method then usable_atr (get_indicator analysis "atr_14") else none

  abbrev stop_from : RiskPipeline → TradeSignal → Option R → R
  stop_from p signal (some atr_value) =
      atr_based_stop signal.entry_price atr_value p.atr_stop_multiplier (is_buy signal.signal_type)
  stop_from p signal none =
      fixed_percentage_stop signal.entry_price p.risk_params.default_stop_loss_pct
        (is_buy signal.signal_type)

  unfoldable pub compute_stop_loss : RiskPipeline → TradeSignal → Option MarketAnalysis → R
  compute_stop_loss p signal analysis = elim signal.stop_loss_price [
    | some stop ↦ stop
    | none ↦ stop_from p signal (atr_of p analysis)
  ]

  -- The quantity to sell: by risk, but no more than is held.
  abbrev pub sell_quantity : TradeSignal → Position → PositionSizeResult → R
  sell_quantity signal held sizing =
      let risk_amount : R =
        if ltb zero_num signal.entry_price then sizing.value / signal.entry_price else zero_num in
      if ltb zero_num risk_amount then min risk_amount held.amount else held.amount

  unfoldable pub sell_amount : RiskPipeline → TradeSignal → Portfolio → Position → R → Result R
  sell_amount p signal portfolio held stop =
      elim (calculate_position_size portfolio signal.entry_price (some stop) p.risk_params) [
        | err e ↦ err e
        | ok sizing ↦ ok (sell_quantity signal held sizing)
      ]

  abbrev optional_price : Option (Option R) → Option R
  optional_price none = none
  optional_price (some x) = x

  abbrev sell_result :
      TradeSignal → Position → R → R → List String → List Reason → Result RiskCheckResult
  sell_result signal held stop amount passed reasons =
      let capped : Bool = ltb amount held.amount in
      make_check_result (record {
        verdict = if capped then reduced else approved;
        approved_amount = amount;
        approved_price = some signal.entry_price;
        stop_loss_price = some stop;
        take_profit_price = signal.take_profit_price;
        reasons = if capped then reasons ++ (sell_capped amount held.amount ∷ []) else reasons;
        checks_passed = passed;
        checks_failed = [];
      })

  unfoldable pub evaluate_sell :
      RiskPipeline
      → TradeSignal
      → Portfolio
      → Position
      → Option MarketAnalysis
      → List String
      → List Reason
      → Dict (Option R)
      → Result RiskCheckResult
  evaluate_sell p signal portfolio held analysis passed reasons bep_prices =
      let bep : Option R = optional_price (lookup signal.symbol bep_prices) in
      let guard = evaluate_guard p.sell_guard signal.symbol signal.entry_price bep p.risk_params in
      let passed_guard : List String = passed ++ ("sell_guard" ∷ []) in
      let stop : R = compute_stop_loss p signal analysis in
      if not guard.0
      then make_check_result (rejection none (guard.1 ∷ []) passed ("sell_guard" ∷ []))
      else elim (sell_amount p signal portfolio held stop) [
        | err e ↦ err e
        | ok amount ↦
            if leb amount zero_num
            then make_check_result (
                rejection (some stop) (no_sellable_quantity ∷ []) passed_guard
                  ("position_sizing" ∷ []))
            else sell_result signal held stop amount (passed_guard ++ ("position_sizing" ∷ []))
                reasons
      ]

  -- The stop-loss of the position held in the symbol, if the signal's price is at or below it.
  abbrev below_stop : R → Option Position → Option R
  below_stop price none = none
  below_stop price (some held) = elim held.stop_loss_price [
    | none ↦ none
    | some stop ↦ if leb price stop then some stop else none
  ]

  abbrev check_names : String → Bool → List String
  check_names name passes = if passes then name ∷ [] else []

  abbrev check_reasons : Bool × Reason → List Reason
  check_reasons (passes, reason) = if passes then [] else reason ∷ []

  -- The order of a BUY that passed every check, or its rejection by the two portfolio limits.
  unfoldable pub limits_result :
      RiskPipeline
      → TradeSignal
      → Portfolio
      → R
      → R
      → Bool
      → R
      → List String
      → List String
      → List Reason
      → Result RiskCheckResult
  limits_result p signal portfolio stop value capped risk_value passed failed reasons =
      let exposure = check_exposure_limit portfolio value p.risk_params in
      let concentration = check_concentration_limit portfolio signal.symbol value p.risk_params in
      let passed' : List String =
        (passed ++ check_names "exposure_limit" exposure.0)
        ++ check_names "concentration_limit" concentration.0 in
      let failed' : List String =
        (failed ++ check_names "exposure_limit" (not exposure.0))
        ++ check_names "concentration_limit" (not concentration.0) in
      let reasons' : List Reason =
        (reasons ++ check_reasons exposure) ++ check_reasons concentration in
      elim failed' [
        | name ∷ more ↦ make_check_result (rejection (some stop) reasons' passed' (name ∷ more))
        | [] ↦ make_check_result (record {
          verdict = if capped then reduced else approved;
          approved_amount =
              if ltb zero_num signal.entry_price then value / signal.entry_price else zero_num;
          approved_price = some signal.entry_price;
          stop_loss_price = some stop;
          take_profit_price = signal.take_profit_price;
          reasons =
              if capped then reasons' ++ (position_capped risk_value value ∷ []) else reasons';
          checks_passed = passed';
          checks_failed = [];
        })
      ]

  -- Position sizing, then the limits.
  sized_buy :
      RiskPipeline
      → TradeSignal
      → Portfolio
      → Option MarketAnalysis
      → List String
      → List String
      → List Reason
      → Result RiskCheckResult
  unfolding limits_result
  sized_buy p signal portfolio analysis passed failed reasons =
      let stop : R = compute_stop_loss p signal analysis in
      elim (calculate_position_size portfolio signal.entry_price (some stop) p.risk_params) [
        | err e ↦ err e
        | ok sizing ↦
            if leb sizing.value zero_num
            then make_check_result
                (rejection (some stop) (size_zero ∷ []) passed ("position_sizing" ∷ []))
            else limits_result p signal portfolio stop sizing.value sizing.was_capped
                sizing.risk_based_value (passed ++ ("position_sizing" ∷ [])) failed reasons
      ]

  unfoldable pub evaluate_buy :
      RiskPipeline
      → TradeSignal
      → Portfolio
      → Option MarketAnalysis
      → List String
      → List String
      → List Reason
      → Result RiskCheckResult
  unfolding sized_buy
  evaluate_buy p signal portfolio analysis passed failed reasons =
      if p.anti_averaging_down
      then elim (below_stop signal.entry_price (lookup signal.symbol portfolio.positions)) [
        | some stop ↦ make_check_result (
            rejection none (averaging_down signal.entry_price stop ∷ []) passed
              ("anti_averaging_down" ∷ []))
        | none ↦
            sized_buy p signal portfolio analysis (passed ++ ("anti_averaging_down" ∷ [])) failed
              reasons
      ]
      else sized_buy p signal portfolio analysis passed failed reasons

  -- The position that can be sold: one that is held, in a positive amount.
  abbrev pub sellable : Option Position → Option Position
  sellable none = none
  sellable (some held) = if leb held.amount zero_num then none else some held

  -- `evaluate` behind the circuit breaker.
  evaluate_open :
      RiskPipeline
      → TradeSignal
      → Portfolio
      → Option MarketAnalysis
      → Dict (Option R)
      → Result RiskCheckResult
  evaluate_open p signal portfolio analysis bep_prices =
      let passed : List String = "circuit_breaker" ∷ "min_confidence" ∷ [] in
      if ltb signal.confidence p.risk_params.min_confidence
      then make_check_result (
          rejection none (confidence_below signal.confidence p.risk_params.min_confidence ∷ [])
            ("circuit_breaker" ∷ []) ("min_confidence" ∷ []))
      else if is_sell signal.signal_type
      then elim (sellable (lookup signal.symbol portfolio.positions)) [
        | none ↦
            make_check_result
              (rejection none (no_open_position signal.symbol ∷ []) passed ("inventory" ∷ []))
        | some held ↦
            evaluate_sell p signal portfolio held analysis (passed ++ ("inventory" ∷ [])) []
              bep_prices
      ]
      else evaluate_buy p signal portfolio analysis passed [] []

  -- `RiskPipeline.evaluate` at the time `now`. The breaker is an object that it shares with other
  -- callers: it comes back as the call leaves it.
  unfoldable pub evaluate :
      R
      → RiskPipeline
      → CircuitBreaker
      → TradeSignal
      → Portfolio
      → Option MarketAnalysis
      → Dict (Option R)
      → Result RiskCheckResult × CircuitBreaker
  unfolding evaluate_open
  evaluate now p breaker signal portfolio analysis bep_prices =
      let (tripped, breaker') = check now portfolio breaker in
      if tripped
      then (
        make_check_result (record {
          verdict = circuit_break;
          approved_amount = zero_num;
          approved_price = none;
          stop_loss_price = none;
          take_profit_price = none;
          reasons = circuit_breaker breaker'.trip_reason ∷ [];
          checks_passed = [];
          checks_failed = "circuit_breaker" ∷ [];
        }),
        breaker',
      )
      else (evaluate_open p signal portfolio analysis bep_prices, breaker')

  abbrev pub request_of : TradeSignal → RiskCheckResult → OrderRequest
  request_of signal result = record {
    symbol = signal.symbol;
    exchange = signal.exchange;
    side = if is_buy signal.signal_type then OrderSide.buy else OrderSide.sell;
    order_type = OrderType.market;
    amount = result.approved_amount;
    price = result.approved_price;
    stop_loss_price = result.stop_loss_price;
    take_profit_price = result.take_profit_price;
    strategy_name = signal.strategy_name;
    signal_confidence = signal.confidence;
  }

  abbrev some_result : Result OrderRequest → Result (Option OrderRequest)
  some_result (ok r) = ok (some r)
  some_result (err e) = err e

  unfoldable pub to_order_request : TradeSignal → RiskCheckResult → Result (Option OrderRequest)
  to_order_request signal result =
      if not (is_approved result) || leb result.approved_amount zero_num
      then ok none
      else some_result (make_request (request_of signal result))
