-- ===== src/Risk/Pipeline/Request.antt =====
-- The order request that the pipeline makes of a result.
use trading_crew.Prelude.{
  ◌≡◌, Option, some, none, arith, ok, Dict, if◌then◌else◌, ◌&&◌, ◌⊎◌, lookup, List, String, [], ◌∷◌,
  inl, inr, Option-cases, Result-cases, ◌++◌, Bool,
}
use trading_crew.Num.{Num, R, ltb, ◌≤◌, ◌<◌, zero_num, one}
use trading_crew.Num.Laws.{IsOrdered}
use trading_crew.Num.Order.{not_lt_of_le, not_le_of_lt}
use trading_crew.Models.Order.{make_request}
use trading_crew.Models.Market.{MarketAnalysis}
use trading_crew.Models.Signal.{TradeSignal}
use trading_crew.Models.Portfolio.{Portfolio, Position}
use trading_crew.Models.Risk.{RiskCheckResult, is_approved, make_check_result, Reason}
use trading_crew.Risk.CircuitBreaker.{CircuitBreaker}
use trading_crew.Risk.Sizer.{calculate_position_size}
use trading_crew.Risk.Pipeline.{
  RiskPipeline, evaluate, evaluate_sell, evaluate_buy, limits_result, sellable, to_order_request,
  request_of, compute_stop_loss,
}

module _ ⦃num : Num⦄ where
  -- The approved price is the signal's, or there is none.
  abbrev IsPriced : TradeSignal → RiskCheckResult → Type 0
  IsPriced signal r = (r.approved_price ≡ none) ⊎ (r.approved_price ≡ some signal.entry_price)

  limits_result-IsPriced :
      (p : RiskPipeline) (signal : TradeSignal) (portfolio : Portfolio) (stop value : R)
      (capped : Bool) (risk_value : R) (passed failed : List String) (reasons : List Reason)
      (r : RiskCheckResult)
      → limits_result p signal portfolio stop value capped risk_value passed failed reasons ≡ ok r
      → IsPriced signal r
  unfolding limits_result make_check_result
  limits_result-IsPriced p signal portfolio stop value capped risk_value passed failed reasons r h =
      ground arith

  evaluate_sell-IsPriced :
      (p : RiskPipeline) (signal : TradeSignal) (portfolio : Portfolio) (held : Position)
      (analysis : Option MarketAnalysis) (passed : List String) (bep_prices : Dict (Option R))
      (r : RiskCheckResult)
      → evaluate_sell p signal portfolio held analysis passed [] bep_prices ≡ ok r
      → IsPriced signal r
  unfolding evaluate_sell make_check_result
  evaluate_sell-IsPriced p signal portfolio held analysis passed bep_prices r h = ground arith

  evaluate_buy-IsPriced :
      (p : RiskPipeline) (signal : TradeSignal) (portfolio : Portfolio)
      (analysis : Option MarketAnalysis) (passed : List String) (r : RiskCheckResult)
      → evaluate_buy p signal portfolio analysis passed [] [] ≡ ok r
      → IsPriced signal r
  unfolding evaluate_buy make_check_result
  evaluate_buy-IsPriced p signal portfolio analysis passed r h =
      let stop = compute_stop_loss p signal analysis in
      let sized : List String = passed ++ ("position_sizing" ∷ []) in
      let guarded : List String =
        (passed ++ ("anti_averaging_down" ∷ [])) ++ ("position_sizing" ∷ []) in
      elim (Result-cases
        (calculate_position_size portfolio signal.entry_price (some stop) p.risk_params)) [
          | inl (sizing, e) ↦ ground (
            arith,
            e,
            limits_result-IsPriced p signal portfolio stop sizing.value sizing.was_capped
                sizing.risk_based_value sized [] [] r,
            limits_result-IsPriced p signal portfolio stop sizing.value sizing.was_capped
                sizing.risk_based_value guarded [] [] r,
          )
          | inr (failure, e) ↦ ground (arith, e, h)
        ]

  evaluate-IsPriced :
      (now : R) (p : RiskPipeline) (c : CircuitBreaker) (signal : TradeSignal)
      (portfolio : Portfolio) (analysis : Option MarketAnalysis) (bep_prices : Dict (Option R))
      (r : RiskCheckResult)
      → (evaluate now p c signal portfolio analysis bep_prices).0 ≡ ok r
      → IsPriced signal r
  unfolding evaluate make_check_result
  evaluate-IsPriced now p c signal portfolio analysis bep_prices r h =
      let passed : List String = "circuit_breaker" ∷ "min_confidence" ∷ [] in
      let sold : List String = "circuit_breaker" ∷ "min_confidence" ∷ "inventory" ∷ [] in
      elim (Option-cases (sellable (lookup signal.symbol portfolio.positions))) [
        | inl nothing ↦ ground (arith, evaluate_buy-IsPriced p signal portfolio analysis passed r)
        | inr (held, e) ↦ ground (
          arith,
          evaluate_buy-IsPriced p signal portfolio analysis passed r,
          evaluate_sell-IsPriced p signal portfolio held analysis sold bep_prices r,
        )
      ]

  -- Over ordered numbers, of what the pipeline returns for a signal with a positive price and a
  -- confidence between 0 and 1, `to_order_request` makes an order exactly if the result is
  -- approved for a positive amount. The order passes the validation of OrderRequest, so nothing
  -- raises.
  pub evaluate-to_order_request :
      (order : IsOrdered) (now : R) (p : RiskPipeline) (c : CircuitBreaker) (signal : TradeSignal)
      (portfolio : Portfolio) (analysis : Option MarketAnalysis) (bep_prices : Dict (Option R))
      {r : RiskCheckResult}
      → zero_num < signal.entry_price
      → zero_num ≤ signal.confidence
      → signal.confidence ≤ one
      → (evaluate now p c signal portfolio analysis bep_prices).0 ≡ ok r
      → to_order_request signal r
        ≡ ok (
            if is_approved r && ltb zero_num r.approved_amount
            then some (request_of signal r)
            else none)
  unfolding to_order_request make_request
  evaluate-to_order_request order now p c signal portfolio analysis bep_prices {r} price low high
        h =
      let priced = evaluate-IsPriced now p c signal portfolio analysis bep_prices r h in
      ground (
        arith,
        order.ltb-not-leb zero_num r.approved_amount,
        not_le_of_lt order zero_num signal.entry_price price,
        not_lt_of_le order signal.confidence zero_num low,
        not_lt_of_le order one signal.confidence high,
      )
