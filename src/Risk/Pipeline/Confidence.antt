-- ===== src/Risk/Pipeline/Confidence.antt =====
-- The part that the confidence of a signal has in its evaluation.
use trading_crew.Prelude.{◌≡◌, refl, false, Option, Dict}
use trading_crew.Num.{Num, R, ltb}
use trading_crew.Models.Signal.{TradeSignal}
use trading_crew.Models.Market.{MarketAnalysis}
use trading_crew.Models.Portfolio.{Portfolio}
use trading_crew.Risk.CircuitBreaker.{CircuitBreaker}
use trading_crew.Risk.Pipeline.{
  RiskPipeline, evaluate, evaluate_open, evaluate_sell, evaluate_buy, compute_stop_loss,
  sell_amount,
}

module _ ⦃num : Num⦄ where
  -- Two confidences that both pass the pipeline's smallest confidence give the same verdict, amount
  -- and stop: a scaled confidence rejects a signal or changes nothing, and never scales the size.
  pub evaluate_confidence :
      (now : R) (p : RiskPipeline) (breaker : CircuitBreaker) (s : TradeSignal) (c : R)
      (portfolio : Portfolio) (analysis : Option MarketAnalysis) (bep_prices : Dict (Option R))
      → ltb s.confidence p.risk_params.min_confidence ≡ false
      → ltb c p.risk_params.min_confidence ≡ false
      → evaluate now p breaker (record s { confidence = c }) portfolio analysis bep_prices
        ≡ evaluate now p breaker s portfolio analysis bep_prices
  unfolding evaluate evaluate_open evaluate_sell evaluate_buy compute_stop_loss sell_amount
  evaluate_confidence now p breaker s c portfolio analysis bep_prices h k = rw (h, k) refl
