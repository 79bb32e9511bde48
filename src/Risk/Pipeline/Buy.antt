-- ===== src/Risk/Pipeline/Buy.antt =====
-- What an approved BUY satisfies.
use trading_crew.Prelude.{
  ◌≡◌, true, Bool, Option, some, arith, List, [], String, ok, ◌++◌, ◌∷◌, if◌then◌else◌,
  Result-cases, inl, inr,
}
use trading_crew.Num.{Num, R, ◌/◌, ◌≤◌, ◌<◌, zero_num}
use trading_crew.Num.Laws.{IsOrdered}
use trading_crew.Num.Order.{lt_of_not_le, le_of_not_lt}
use trading_crew.Models.Market.{MarketAnalysis}
use trading_crew.Models.Signal.{TradeSignal}
use trading_crew.Models.Portfolio.{Portfolio, total_balance}
use trading_crew.Models.Risk.{
  RiskCheckResult, is_approved, Reason, make_check_result, approved, reduced,
}
use trading_crew.Risk.Limits.{
  check_exposure_limit, check_concentration_limit, exposure_after, concentration_after,
}
use trading_crew.Risk.Sizer.{PositionSizeResult, calculate_position_size}
use trading_crew.Risk.Pipeline.{RiskPipeline, compute_stop_loss, limits_result, evaluate_buy}

module _ ⦃num : Num⦄ where
  -- The portfolio's limits hold with a position of this value added to the symbol.
  pub record IsWithinLimits (p : RiskPipeline) (portfolio : Portfolio) (symbol : String) (value : R)
      : Type 0 where
    pub solvent : zero_num < total_balance portfolio
    pub exposure : exposure_after portfolio value ≤ p.risk_params.max_portfolio_exposure_pct
    pub concentration :
        concentration_after portfolio symbol value ≤ p.risk_params.max_position_size_pct

  module _ (order : IsOrdered) where
    exposure_ok :
        (p : RiskPipeline) (portfolio : Portfolio) (value : R)
        → (check_exposure_limit portfolio value p.risk_params).0 ≡ true
        → (zero_num < total_balance portfolio)
          × (exposure_after portfolio value ≤ p.risk_params.max_portfolio_exposure_pct)
    unfolding check_exposure_limit
    exposure_ok p portfolio value h = ground (
      arith,
      lt_of_not_le order zero_num (total_balance portfolio),
      le_of_not_lt order p.risk_params.max_portfolio_exposure_pct (exposure_after portfolio value),
    )

    concentration_ok :
        (p : RiskPipeline) (portfolio : Portfolio) (symbol : String) (value : R)
        → (check_concentration_limit portfolio symbol value p.risk_params).0 ≡ true
        → concentration_after portfolio symbol value ≤ p.risk_params.max_position_size_pct
    unfolding check_concentration_limit
    concentration_ok p portfolio symbol value h = ground (
      arith,
      le_of_not_lt order p.risk_params.max_position_size_pct
          (concentration_after portfolio symbol value),
    )

    limits_result_approved :
        (p : RiskPipeline) (signal : TradeSignal) (portfolio : Portfolio) (stop value : R)
        (capped : Bool) (risk_value : R) (passed : List String) (reasons : List Reason)
        {r : RiskCheckResult}
        → zero_num < signal.entry_price
        → limits_result p signal portfolio stop value capped risk_value passed [] reasons ≡ ok r
        → is_approved r ≡ true
        → IsWithinLimits p portfolio signal.symbol value
          × (r.approved_amount ≡ value / signal.entry_price)
          × (r.stop_loss_price ≡ some stop)
          × (r.verdict ≡ (if capped then reduced else approved))
    unfolding limits_result is_approved make_check_result
    limits_result_approved p signal portfolio stop value capped risk_value passed reasons price h
          k =
        ground
          (arith, exposure_ok p portfolio value, concentration_ok p portfolio signal.symbol value)

    -- What an approved BUY satisfies at the size that was computed for it.
    sized_buy_approved :
        (p : RiskPipeline) (signal : TradeSignal) (portfolio : Portfolio)
        (analysis : Option MarketAnalysis) (passed : List String) (sizing : PositionSizeResult)
        {r : RiskCheckResult}
        → calculate_position_size portfolio signal.entry_price
            (some (compute_stop_loss p signal analysis))
            p.risk_params
          ≡ ok sizing
        → zero_num < signal.entry_price
        → evaluate_buy p signal portfolio analysis passed [] [] ≡ ok r
        → is_approved r ≡ true
        → (zero_num < sizing.value)
          × IsWithinLimits p portfolio signal.symbol sizing.value
          × (r.approved_amount ≡ sizing.value / signal.entry_price)
          × (r.stop_loss_price ≡ some (compute_stop_loss p signal analysis))
          × (r.verdict ≡ (if sizing.was_capped then reduced else approved))
    unfolding evaluate_buy is_approved make_check_result
    sized_buy_approved p signal portfolio analysis passed sizing {r} e price h k =
        let stop = compute_stop_loss p signal analysis in
        let sized : List String = passed ++ ("position_sizing" ∷ []) in
        let guarded : List String =
          (passed ++ ("anti_averaging_down" ∷ [])) ++ ("position_sizing" ∷ []) in
        ground (
          arith,
          lt_of_not_le order zero_num sizing.value,
          limits_result_approved p signal portfolio stop sizing.value sizing.was_capped
              sizing.risk_based_value sized [] {r = r} price,
          limits_result_approved p signal portfolio stop sizing.value sizing.was_capped
              sizing.risk_based_value guarded [] {r = r} price,
        )

    -- An approved BUY was sized, for a positive size, within the exposure and the concentration limit
    -- of a portfolio with a positive balance. Where the entry price is positive, the amount is the size
    -- over the entry price, the stop is the pipeline's, and the verdict is REDUCED exactly if the
    -- size was capped.
    pub evaluate_buy_approved :
        (p : RiskPipeline) (signal : TradeSignal) (portfolio : Portfolio)
        (analysis : Option MarketAnalysis) (passed : List String) {r : RiskCheckResult}
        → zero_num < signal.entry_price
        → evaluate_buy p signal portfolio analysis passed [] [] ≡ ok r
        → is_approved r ≡ true
        → let stop = compute_stop_loss p signal analysis in
          (sizing : PositionSizeResult) × (calculate_position_size portfolio signal.entry_price
              (some stop)
              p.risk_params
            ≡ ok sizing)
          × (zero_num < sizing.value)
          × IsWithinLimits p portfolio signal.symbol sizing.value
          × (r.approved_amount ≡ sizing.value / signal.entry_price)
          × (r.stop_loss_price ≡ some stop)
          × (r.verdict ≡ (if sizing.was_capped then reduced else approved))
    unfolding evaluate_buy is_approved make_check_result
    evaluate_buy_approved p signal portfolio analysis passed {r} price h k =
        elim (Result-cases (
          calculate_position_size portfolio signal.entry_price
            (some (compute_stop_loss p signal analysis)) p.risk_params)) [
              | inl (sizing, e) ↦
                  let facts =
                    sized_buy_approved p signal portfolio analysis passed sizing e price h k in
                  (sizing, e, facts.0, facts.1, facts.2, facts.3, facts.4)
              | inr (failure, e) ↦ absurd (ground (arith, e, h, k))
            ]
