-- ===== src/Risk/Pipeline/Sell.antt =====
-- What an approved SELL satisfies.
use trading_crew.Prelude.{
  ◌≡◌, true, Option, some, arith, List, String, ok, lookup, Dict, [], if◌then◌else◌, is_ok,
  is_ok-Returns, Result-cases, inl, inr, subst,
}
use trading_crew.Num.{Num, R, ◌/◌, ltb, ◌≤◌, ◌<◌, zero_num, hundred}
use trading_crew.Num.Laws.{IsOrdered}
use trading_crew.Num.Order.{
  lt_of_not_le, le_of_not_lt, min-le_right, lt_irrefl, not_lt_of_le, le_of_lt,
}
use trading_crew.Models.Market.{MarketAnalysis}
use trading_crew.Models.Signal.{TradeSignal}
use trading_crew.Models.Portfolio.{Portfolio, Position}
use trading_crew.Models.Risk.{RiskCheckResult, is_approved, make_check_result, reduced, approved}
use trading_crew.Risk.SellGuard.{SellGuard, break_even, evaluate_guard, min_sell}
use trading_crew.Risk.Sizer.{PositionSizeResult, calculate_position_size}
use trading_crew.Risk.Sizer.Bounds.{calculate_position_size-is_ok}
use trading_crew.Risk.Pipeline.{
  RiskPipeline, compute_stop_loss, evaluate_sell, sell_amount, sell_quantity, optional_price,
}

module _ ⦃num : Num⦄ (order : IsOrdered) where
  open order use {le_refl}

  -- The quantity to sell is never above what is held.
  sell_quantity-le :
      (signal : TradeSignal) (held : Position) (sizing : PositionSizeResult)
      → sell_quantity signal held sizing ≤ held.amount
  sell_quantity-le signal held sizing = ground (
    arith,
    le_refl held.amount,
    min-le_right order zero_num held.amount,
    min-le_right order (sizing.value / signal.entry_price) held.amount,
  )

  sell_amount-le :
      (p : RiskPipeline) (signal : TradeSignal) (portfolio : Portfolio) (held : Position)
      (stop amount : R)
      → sell_amount p signal portfolio held stop ≡ ok amount
      → amount ≤ held.amount
  unfolding sell_amount
  sell_amount-le p signal portfolio held stop amount h =
      elim (Result-cases
        (calculate_position_size portfolio signal.entry_price (some stop) p.risk_params)) [
          | inl (sizing, e) ↦
              let same : sell_quantity signal held sizing ≡ amount = ground (arith, e, h) in
              subst (λ x. x ≤ held.amount) same (sell_quantity-le signal held sizing)
          | inr (failure, e) ↦ absurd (ground (arith, e, h))
        ]

  -- The break-even guard lets a SELL pass only at its minimum price or above.
  evaluate_guard-le :
      (g : SellGuard) (symbol : String) (price bep : R) (p : RiskPipeline)
      → g ≡ break_even
      → (evaluate_guard g symbol price (some bep) p.risk_params).0 ≡ true
      → min_sell bep p.risk_params ≤ price
  unfolding evaluate_guard
  evaluate_guard-le g symbol price bep p e h =
      ground (arith, le_of_not_lt order price (min_sell bep p.risk_params))

  -- An approved SELL is for a positive quantity that is held, it has passed the guard, and the
  -- verdict is REDUCED exactly if less than the whole position is sold.
  pub evaluate_sell_approved :
      (p : RiskPipeline) (signal : TradeSignal) (portfolio : Portfolio) (held : Position)
      (analysis : Option MarketAnalysis) (passed : List String) (bep_prices : Dict (Option R))
      {r : RiskCheckResult}
      → evaluate_sell p signal portfolio held analysis passed [] bep_prices ≡ ok r
      → is_approved r ≡ true
      → let bep = optional_price (lookup signal.symbol bep_prices) in
        (zero_num < r.approved_amount)
        × (r.approved_amount ≤ held.amount)
        × ((evaluate_guard p.sell_guard signal.symbol signal.entry_price bep p.risk_params).0
            ≡ true)
        × (r.verdict ≡ (if ltb r.approved_amount held.amount then reduced else approved))
  unfolding evaluate_sell is_approved make_check_result
  evaluate_sell_approved p signal portfolio held analysis passed bep_prices h k =
      elim (Result-cases
        (sell_amount p signal portfolio held (compute_stop_loss p signal analysis))) [
          | inl (amount, e) ↦ ground (
            arith,
            e,
            lt_of_not_le order zero_num amount,
            sell_amount-le p signal portfolio held (compute_stop_loss p signal analysis) amount e,
          )
          | inr (failure, e) ↦ absurd (ground (arith, e, h, k))
        ]

  -- The SELL branch returns a result where the size has one.
  pub evaluate_sell-is_ok :
      (p : RiskPipeline) (signal : TradeSignal) (portfolio : Portfolio) (held : Position)
      (analysis : Option MarketAnalysis) (passed : List String) (bep_prices : Dict (Option R))
      → zero_num < signal.entry_price
      → zero_num < p.risk_params.default_stop_loss_pct / hundred
      → is_ok (evaluate_sell p signal portfolio held analysis passed [] bep_prices) ≡ true
  unfolding evaluate_sell sell_amount make_check_result
  evaluate_sell-is_ok p signal portfolio held analysis passed bep_prices price distance =
      let stop = compute_stop_loss p signal analysis in
      let (sizing, e) =
        is_ok-Returns
          (calculate_position_size portfolio signal.entry_price (some stop) p.risk_params)
          (calculate_position_size-is_ok order portfolio signal.entry_price (some stop)
            p.risk_params price distance) in
      let amount = sell_quantity signal held sizing in
      ground (
        arith,
        e,
        lt_irrefl order zero_num,
        lt_of_not_le order zero_num amount,
        le_of_lt order zero_num amount,
        not_lt_of_le order amount zero_num,
      )
