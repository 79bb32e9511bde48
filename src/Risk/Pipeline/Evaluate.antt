-- ===== src/Risk/Pipeline/Evaluate.antt =====
-- What the whole pipeline promises, from the breaker to the order request.
use trading_crew.Prelude.{
  ◌≡◌, true, false, Bool, Option, some, none, arith, List, String, ok, lookup, Dict, ◌++◌, ◌∷◌, [],
  is_ok, Returns, is_ok-Returns, Option-cases, inl, inr,
}
use trading_crew.Num.{Num, R, ◌/◌, ◌≤◌, ◌<◌, zero_num, hundred}
use trading_crew.Num.Laws.{IsOrdered, IsMonotone}
use trading_crew.Num.Order.{lt_of_not_le, le_of_not_lt, lt_irrefl, not_lt_of_le, le_of_lt}
use trading_crew.Models.Market.{MarketAnalysis}
use trading_crew.Models.Signal.{TradeSignal, SignalType}
use trading_crew.Models.Portfolio.{Portfolio, Position, drawdown_pct}
use trading_crew.Models.Risk.{RiskCheckResult, is_approved, Reason, make_check_result}
use trading_crew.Risk.CircuitBreaker.{CircuitBreaker, check}
use trading_crew.Risk.Sizer.{PositionSizeResult, calculate_position_size}
use trading_crew.Risk.Sizer.Bounds.{calculate_position_size-is_ok}
use trading_crew.Risk.Pipeline.{
  RiskPipeline, compute_stop_loss, limits_result, evaluate_buy, evaluate_sell, evaluate_open,
  evaluate, sellable,
}
use trading_crew.Risk.Pipeline.Buy.{IsWithinLimits, evaluate_buy_approved}
use trading_crew.Risk.Pipeline.Sell.{evaluate_sell_approved, evaluate_sell-is_ok}

module _ ⦃num : Num⦄ (order : IsOrdered) where
  -- What holds of an approved SELL.
  pub record IsSoundSell (portfolio : Portfolio) (symbol : String) (r : RiskCheckResult)
      : Type 0 where
    pub held : Position
    pub holds : lookup symbol portfolio.positions ≡ some held
    pub positive : zero_num < r.approved_amount
    covered : r.approved_amount ≤ held.amount

  -- Over ordered numbers, a signal is approved only while the breaker is not tripped and the
  -- drawdown is below its limit, with at least the minimum confidence, and the breaker is left as
  -- it was.
  pub evaluate_approved_gate :
      (now : R) (p : RiskPipeline) (c : CircuitBreaker) (signal : TradeSignal)
      (portfolio : Portfolio) (analysis : Option MarketAnalysis) (bep_prices : Dict (Option R))
      {r : RiskCheckResult}
      → (evaluate now p c signal portfolio analysis bep_prices).0 ≡ ok r
      → is_approved r ≡ true
      → (c.is_tripped ≡ false)
        × (drawdown_pct portfolio < c.max_drawdown_pct)
        × (p.risk_params.min_confidence ≤ signal.confidence)
        × ((evaluate now p c signal portfolio analysis bep_prices).1 ≡ c)
  unfolding evaluate check make_check_result is_approved
  evaluate_approved_gate now p c signal portfolio analysis bep_prices h k = ground (
    arith,
    lt_of_not_le order (drawdown_pct portfolio) c.max_drawdown_pct,
    le_of_not_lt order signal.confidence p.risk_params.min_confidence,
  )

  sellable_held :
      (found : Option Position) (held : Position) → sellable found ≡ some held → found ≡ some held
  sellable_held none held h = cc
  sellable_held (some p) held h = ground arith

  -- Over ordered numbers, an approved SELL is for a positive quantity that the portfolio holds:
  -- there is no short sale.
  pub evaluate_approved_sell :
      (now : R) (p : RiskPipeline) (c : CircuitBreaker) (signal : TradeSignal)
      (portfolio : Portfolio) (analysis : Option MarketAnalysis) (bep_prices : Dict (Option R))
      {r : RiskCheckResult}
      → signal.signal_type ≡ SignalType.sell
      → (evaluate now p c signal portfolio analysis bep_prices).0 ≡ ok r
      → is_approved r ≡ true
      → IsSoundSell portfolio signal.symbol r
  unfolding evaluate check make_check_result is_approved
  evaluate_approved_sell now p c signal portfolio analysis bep_prices {r} sells h k =
      elim (Option-cases (sellable (lookup signal.symbol portfolio.positions))) [
        | inl nothing ↦ absurd (ground arith)
        | inr (held, e) ↦
            let passed : List String = "circuit_breaker" ∷ "min_confidence" ∷ "inventory" ∷ [] in
            let sold : evaluate_sell p signal portfolio held analysis passed [] bep_prices ≡ ok r =
              ground arith in
            let facts =
              evaluate_sell_approved order p signal portfolio held analysis passed bep_prices sold
                k in
            record {
              held = held;
              holds = sellable_held _ held e;
              positive = facts.0;
              covered = facts.1;
            }
      ]

  -- Over ordered numbers, an approved BUY of a signal with a positive entry price was sized, and the
  -- size is positive. The portfolio's total balance is positive, the exposure and the concentration are within
  -- their limits with that size added, and the amount is the size over the entry price.
  pub evaluate_approved_buy :
      (now : R) (p : RiskPipeline) (c : CircuitBreaker) (signal : TradeSignal)
      (portfolio : Portfolio) (analysis : Option MarketAnalysis) (bep_prices : Dict (Option R))
      {r : RiskCheckResult}
      → signal.signal_type ≡ SignalType.buy
      → zero_num < signal.entry_price
      → (evaluate now p c signal portfolio analysis bep_prices).0 ≡ ok r
      → is_approved r ≡ true
      → (sizing : PositionSizeResult) × (calculate_position_size portfolio signal.entry_price
            (some (compute_stop_loss p signal analysis))
            p.risk_params
          ≡ ok sizing)
        × (zero_num < sizing.value)
        × IsWithinLimits p portfolio signal.symbol sizing.value
        × (r.approved_amount ≡ sizing.value / signal.entry_price)
  unfolding evaluate check make_check_result is_approved
  evaluate_approved_buy now p c signal portfolio analysis bep_prices {r} buys price h k =
      let passed : List String = "circuit_breaker" ∷ "min_confidence" ∷ [] in
      let bought : evaluate_buy p signal portfolio analysis passed [] [] ≡ ok r = ground arith in
      let facts = evaluate_buy_approved order p signal portfolio analysis passed price bought k in
      (facts.0, facts.1, facts.2, facts.3, facts.4)

  module _ (mono : IsMonotone) where
    open mono use {div_nonneg}

    limits_result-is_ok :
        (p : RiskPipeline) (signal : TradeSignal) (portfolio : Portfolio) (stop value : R)
        (capped : Bool) (risk_value : R) (passed failed : List String) (reasons : List Reason)
        → zero_num < signal.entry_price
        → zero_num ≤ value
        → is_ok
            (limits_result p signal portfolio stop value capped risk_value passed failed reasons)
          ≡ true
    unfolding limits_result make_check_result
    limits_result-is_ok p signal portfolio stop value capped risk_value passed failed reasons price
          h =
        ground (
          arith,
          lt_irrefl order zero_num,
          not_lt_of_le order (value / signal.entry_price) zero_num,
          div_nonneg value signal.entry_price h price,
        )

    evaluate_buy-is_ok :
        (p : RiskPipeline) (signal : TradeSignal) (portfolio : Portfolio)
        (analysis : Option MarketAnalysis) (passed : List String)
        → zero_num < signal.entry_price
        → zero_num < p.risk_params.default_stop_loss_pct / hundred
        → is_ok (evaluate_buy p signal portfolio analysis passed [] []) ≡ true
    unfolding evaluate_buy make_check_result
    evaluate_buy-is_ok p signal portfolio analysis passed price distance =
        let stop = compute_stop_loss p signal analysis in
        let (sizing, e) =
          is_ok-Returns
            (calculate_position_size portfolio signal.entry_price (some stop) p.risk_params)
            (calculate_position_size-is_ok order portfolio signal.entry_price (some stop)
              p.risk_params price distance) in
        let sized : List String = passed ++ ("position_sizing" ∷ []) in
        let guarded : List String =
          (passed ++ ("anti_averaging_down" ∷ [])) ++ ("position_sizing" ∷ []) in
        ground (
          arith,
          e,
          lt_irrefl order zero_num,
          lt_of_not_le order zero_num sizing.value,
          le_of_lt order zero_num sizing.value,
          limits_result-is_ok p signal portfolio stop sizing.value sizing.was_capped
              sizing.risk_based_value sized [] [] price,
          limits_result-is_ok p signal portfolio stop sizing.value sizing.was_capped
              sizing.risk_based_value guarded [] [] price,
        )

    evaluate_open-is_ok :
        (p : RiskPipeline) (signal : TradeSignal) (portfolio : Portfolio)
        (analysis : Option MarketAnalysis) (bep_prices : Dict (Option R))
        → zero_num < signal.entry_price
        → zero_num < p.risk_params.default_stop_loss_pct / hundred
        → is_ok (evaluate_open p signal portfolio analysis bep_prices) ≡ true
    unfolding evaluate_open make_check_result
    evaluate_open-is_ok p signal portfolio analysis bep_prices price distance =
        let passed : List String = "circuit_breaker" ∷ "min_confidence" ∷ [] in
        let sold : List String = "circuit_breaker" ∷ "min_confidence" ∷ "inventory" ∷ [] in
        let bought = evaluate_buy-is_ok p signal portfolio analysis passed price distance in
        elim (Option-cases (sellable (lookup signal.symbol portfolio.positions))) [
          | inl nothing ↦ ground (arith, lt_irrefl order zero_num)
          | inr (held, e) ↦ ground (
            arith,
            lt_irrefl order zero_num,
            evaluate_sell-is_ok order p signal portfolio held analysis sold bep_prices price
                distance,
          )
        ]

    evaluate-is_ok :
        (now : R) (p : RiskPipeline) (c : CircuitBreaker) (signal : TradeSignal)
        (portfolio : Portfolio) (analysis : Option MarketAnalysis) (bep_prices : Dict (Option R))
        → zero_num < signal.entry_price
        → zero_num < p.risk_params.default_stop_loss_pct / hundred
        → is_ok (evaluate now p c signal portfolio analysis bep_prices).0 ≡ true
    unfolding evaluate make_check_result
    evaluate-is_ok now p c signal portfolio analysis bep_prices price distance = ground (
      arith,
      lt_irrefl order zero_num,
      evaluate_open-is_ok p signal portfolio analysis bep_prices price distance,
    )

    -- Over ordered numbers with monotone rounding, where a hundredth of the default stop-loss
    -- percentage is positive, the pipeline returns a result for every signal with a positive entry
    -- price: no path divides by a stop distance or an entry price of zero, or builds a result that
    -- the bounds of RiskCheckResult refuse.
    pub evaluate-Returns :
        (now : R) (p : RiskPipeline) (c : CircuitBreaker) (signal : TradeSignal)
        (portfolio : Portfolio) (analysis : Option MarketAnalysis) (bep_prices : Dict (Option R))
        → zero_num < signal.entry_price
        → zero_num < p.risk_params.default_stop_loss_pct / hundred
        → Returns (evaluate now p c signal portfolio analysis bep_prices).0
    evaluate-Returns now p c signal portfolio analysis bep_prices price distance =
        is_ok-Returns _ (evaluate-is_ok now p c signal portfolio analysis bep_prices price distance)
