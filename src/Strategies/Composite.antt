-- ===== src/Strategies/Composite.antt =====
-- src/trading_crew/strategies/composite.py
use trading_crew.Prelude.{
  ◌&&◌, if◌then◌else◌, Option, none, some, List, [], ◌∷◌, map, length, Result, ok, err, value_error,
}
use trading_crew.Num.{Num, R, ◌/◌, ltb, leb, zero_num, one, min, max, sum}
use trading_crew.Num.{div_checked}
use trading_crew.Execution.Types.{}
use trading_crew.Models.Signal.{SignalType, TradeSignal, is_actionable}
use trading_crew.Models.Market.{MarketAnalysis}
use trading_crew.Uncertainty.{of_count}
use trading_crew.Strategies.{Value, Runtime, Strategy, signal_of, give}
use trading_crew.Strategies.Runner.{
  buy_signals, sell_signals, consensus_strength, confidence_of, name_of, direction_text,
}

module _ ⦃num : Num⦄ where
  pub record CompositeStrategy : Type 0 where
    pub strategies : List Strategy
    pub agreement_threshold : R
    pub min_confidence : R

  -- `CompositeStrategy(strategies, agreement_threshold, min_confidence)`
  unfoldable pub new_composite : List Strategy → R → R → Result CompositeStrategy
  new_composite [] threshold min_confidence = err value_error
  new_composite (s ∷ ss) threshold min_confidence = ok record {
    strategies = s ∷ ss;
    agreement_threshold = max zero_num (min one threshold);
    min_confidence = min_confidence;
  }

  -- The loop of `generate_signal`: `raw_signals`.
  unfoldable pub gather : MarketAnalysis → List Strategy → List TradeSignal
  unfolding is_actionable
  gather a [] = []
  gather a (st ∷ sts) =
      let rest = gather a sts in
      elim (st.generate_signal a) [
        | err e ↦ rest
        | ok none ↦ rest
        | ok (some s) ↦ if is_actionable s then s ∷ rest else rest
      ]

  -- `_consensus`, which divides by the number of the signals.
  unfoldable pub consensus :
      Runtime
      → CompositeStrategy
      → MarketAnalysis
      → List TradeSignal
      → SignalType
      → Result (Option TradeSignal)
  unfolding div_checked consensus_strength give signal_of
  consensus rt c a signals direction =
      elim (div_checked (sum (map confidence_of signals)) (of_count (length signals))) [
        | err e ↦ err e
        | ok avg ↦
            if ltb avg c.min_confidence
            then ok none
            else give (
                signal_of rt a "composite" direction (consensus_strength avg) avg (
                  rt.format "Composite: strategies agree" (
                    Value.text (direction_text direction)
                    ∷ Value.count (length signals)
                    ∷ Value.count (length c.strategies)
                    ∷ map name_of signals)))
      ]

  unfoldable pub composite_decide :
      Runtime → CompositeStrategy → MarketAnalysis → List TradeSignal → Result (Option TradeSignal)
  unfolding consensus buy_signals sell_signals
  composite_decide rt c a [] = ok none
  composite_decide rt c a (s ∷ ss) =
      let buys = buy_signals (s ∷ ss) in
      let sells = sell_signals (s ∷ ss) in
      let total : R = of_count (length c.strategies) in
      let buy_agreement : R = of_count (length buys) / total in
      let sell_agreement : R = of_count (length sells) / total in
      if leb c.agreement_threshold buy_agreement && leb sell_agreement buy_agreement
      then consensus rt c a buys SignalType.buy
      else if leb c.agreement_threshold sell_agreement
      then consensus rt c a sells SignalType.sell
      else ok none

  unfoldable pub composite_signal :
      Runtime → CompositeStrategy → MarketAnalysis → Result (Option TradeSignal)
  unfolding gather composite_decide
  composite_signal rt c a = composite_decide rt c a (gather a c.strategies)
