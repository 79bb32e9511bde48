-- ===== src/Strategies/Runner.antt =====
-- src/trading_crew/services/strategy_runner.py. The portfolio is None where the checks against it are
-- skipped.
use trading_crew.Prelude.{
  Bool, true, false, ◌&&◌, not, if◌then◌else◌, Option, none, some, is_some, List, [], ◌∷◌, ◌++◌,
  map, String, Dict, lookup, insert, length, Result, ok, err, value_error,
}
use trading_crew.Num.{Num, R, ◌/◌, ltb, leb, dec, zero_num, one, min, max, sum}
use trading_crew.Models.Signal.{
  SignalType, SignalStrength, TradeSignal, StrategyVote, is_actionable,
}
use trading_crew.Models.Market.{MarketAnalysis}
use trading_crew.Models.Portfolio.{Portfolio}
use trading_crew.Uncertainty.{of_count}
use trading_crew.Strategies.{Value, Runtime, Strategy, signal_of, give}

module _ ⦃num : Num⦄ where
  pub record StrategyEvaluation : Type 0 where
    pub signals : List TradeSignal
    pub votes : Dict (List StrategyVote)

  pub record StrategyRunner : Type 0 where
    pub strategies : List Strategy
    pub min_confidence : R
    pub ensemble : Bool
    pub ensemble_threshold : R

  -- `StrategyRunner(strategies, min_confidence, ensemble, ensemble_agreement_threshold)`
  unfoldable pub new_runner : List Strategy → R → Bool → R → Result StrategyRunner
  new_runner [] min_confidence ensemble threshold = err value_error
  new_runner (s ∷ ss) min_confidence ensemble threshold = ok record {
    strategies = s ∷ ss;
    min_confidence = min_confidence;
    ensemble = ensemble;
    ensemble_threshold = max zero_num (min one threshold);
  }

  abbrev pub is_sell : TradeSignal → Bool
  is_sell s = elim s.signal_type [ SignalType.sell ↦ true | _ ↦ false ]

  abbrev pub is_buy : TradeSignal → Bool
  is_buy s = elim s.signal_type [ SignalType.buy ↦ true | _ ↦ false ]

  -- The portfolio pre-flight of an actionable signal: why it is filtered, if it is.
  unfoldable pub preflight : Option Portfolio → String → TradeSignal → Option String
  preflight none symbol s = none
  preflight (some p) symbol s =
      if is_sell s && not (is_some (lookup symbol p.positions))
      then some "no_position"
      else if is_buy s && leb p.balance_quote zero_num
      then some "no_funds"
      else none

  abbrev vote_of : Strategy → String → Option TradeSignal → Option String → StrategyVote
  vote_of st symbol signal reason = record {
    strategy_name = st.name;
    symbol = symbol;
    signal = signal;
    filtered_reason = reason;
  }

  -- Why a signal is filtered in the individual mode: the tests in the order of the source.
  unfoldable pub filter_reason : R → Option Portfolio → String → TradeSignal → Option String
  unfolding is_actionable preflight
  filter_reason min_confidence p symbol s =
      if not (is_actionable s) then some "hold" else elim (preflight p symbol s) [
        | some reason ↦ some reason
        | none ↦ if ltb s.confidence min_confidence then some "below_min_confidence" else none
      ]

  -- One pass of the inner loop of `_evaluate_individual`: the vote, and the signal if it is kept.
  unfoldable pub judge_signal :
      R → Option Portfolio → String → Strategy → TradeSignal → StrategyVote × Option TradeSignal
  unfolding filter_reason
  judge_signal min_confidence p symbol st s = elim (filter_reason min_confidence p symbol s) [
    | some reason ↦ (vote_of st symbol (some s) (some reason), none)
    | none ↦ (vote_of st symbol (some s) none, some s)
  ]

  unfoldable pub judge_outcome :
      R
      → Option Portfolio
      → String
      → Strategy
      → Result (Option TradeSignal)
      → StrategyVote × Option TradeSignal
  unfolding judge_signal
  judge_outcome min_confidence p symbol st (err e) = (vote_of st symbol none (some "error"), none)
  judge_outcome min_confidence p symbol st (ok none) = (vote_of st symbol none (some "none"), none)
  judge_outcome min_confidence p symbol st (ok (some s)) = judge_signal min_confidence p symbol st s

  unfoldable pub judge :
      R → Option Portfolio → String → MarketAnalysis → Strategy → StrategyVote × Option TradeSignal
  unfolding judge_outcome
  judge min_confidence p symbol a st =
      judge_outcome min_confidence p symbol st (st.generate_signal a)

  abbrev pub append_opt {ℓ} : {A : Type ℓ} → List A → Option A → List A
  append_opt xs none = xs
  append_opt xs (some x) = xs ++ x ∷ []

  -- The inner loop: the votes of the symbol and the signals of the run, so far.
  unfoldable pub judge_all :
      R
      → Option Portfolio
      → String
      → MarketAnalysis
      → List Strategy
      → List StrategyVote × List TradeSignal
      → List StrategyVote × List TradeSignal
  judge_all min_confidence p symbol a [] (votes, signals) = (votes, signals)
  judge_all min_confidence p symbol a (st ∷ sts) (votes, signals) =
      let (vote, kept) = judge min_confidence p symbol a st in
      judge_all min_confidence p symbol a sts (votes ++ vote ∷ [], append_opt signals kept)

  unfoldable pub individual_from :
      StrategyRunner
      → Option Portfolio
      → Dict MarketAnalysis
      → StrategyEvaluation
      → StrategyEvaluation
  unfolding judge_all
  individual_from r p [] acc = acc
  individual_from r p ((symbol, a) ∷ analyses) acc =
      let (votes, signals) = judge_all r.min_confidence p symbol a r.strategies ([], acc.signals) in
      individual_from r p analyses
        record { signals = signals; votes = insert symbol votes acc.votes }

  abbrev no_evaluation : StrategyEvaluation
  no_evaluation = record { signals = []; votes = [] }

  unfoldable pub evaluate_individual :
      StrategyRunner → Dict MarketAnalysis → Option Portfolio → StrategyEvaluation
  unfolding individual_from
  evaluate_individual r analyses p = individual_from r p analyses no_evaluation

  -- One pass of the loop of `_vote`: the vote, and the signal if it counts.
  unfoldable pub cast_signal :
      Option Portfolio → String → Strategy → TradeSignal → StrategyVote × Option TradeSignal
  unfolding is_actionable preflight
  cast_signal p symbol st s =
      if is_actionable s
      then elim (preflight p symbol s) [
        | some reason ↦ (vote_of st symbol (some s) (some reason), none)
        | none ↦ (vote_of st symbol (some s) none, some s)
      ]
      else (vote_of st symbol (some s) (some "hold"), none)

  unfoldable pub cast :
      Option Portfolio → MarketAnalysis → Strategy → StrategyVote × Option TradeSignal
  unfolding cast_signal
  cast p a st = elim (st.generate_signal a) [
    | err e ↦ (vote_of st a.symbol none (some "error"), none)
    | ok none ↦ (vote_of st a.symbol none (some "none"), none)
    | ok (some s) ↦ cast_signal p a.symbol st s
  ]

  abbrev pub cons_opt {ℓ} : {A : Type ℓ} → Option A → List A → List A
  cons_opt none xs = xs
  cons_opt (some x) xs = x ∷ xs

  -- The loop of `_vote`: the votes and `raw_signals`.
  unfoldable pub cast_all :
      Option Portfolio → MarketAnalysis → List Strategy → List StrategyVote × List TradeSignal
  unfolding cast
  cast_all p a [] = ([], [])
  cast_all p a (st ∷ sts) =
      let (vote, raw) = cast p a st in
      let (votes, signals) = cast_all p a sts in (vote ∷ votes, cons_opt raw signals)

  -- `[s for s in raw_signals if s.signal_type == ...]`
  unfoldable pub buy_signals : List TradeSignal → List TradeSignal
  buy_signals [] = []
  buy_signals (s ∷ ss) = if is_buy s then s ∷ buy_signals ss else buy_signals ss

  unfoldable pub sell_signals : List TradeSignal → List TradeSignal
  sell_signals [] = []
  sell_signals (s ∷ ss) = if is_sell s then s ∷ sell_signals ss else sell_signals ss

  abbrev pub confidence_of : TradeSignal → R
  confidence_of s = s.confidence

  abbrev pub name_of : TradeSignal → Value
  name_of s = Value.text s.strategy_name

  -- The strength of a consensus.
  unfoldable pub consensus_strength : R → SignalStrength
  consensus_strength c =
      if ltb (dec 75 2) c
      then SignalStrength.strong
      else if ltb (dec 55 2) c
      then SignalStrength.moderate
      else SignalStrength.weak

  abbrev pub direction_text : SignalType → String
  direction_text SignalType.buy = "buy"
  direction_text SignalType.sell = "sell"
  direction_text SignalType.hold = "hold"

  -- `_build_consensus`
  unfoldable pub build_consensus :
      Runtime
      → StrategyRunner
      → MarketAnalysis
      → List TradeSignal
      → SignalType
      → Result (Option TradeSignal)
  unfolding consensus_strength give signal_of
  build_consensus rt r a [] direction = ok none
  build_consensus rt r a (s ∷ ss) direction =
      let agreeing = s ∷ ss in
      let avg : R = sum (map confidence_of agreeing) / of_count (length agreeing) in
      if ltb avg r.min_confidence
      then ok none
      else give (
          signal_of rt a "ensemble" direction (consensus_strength avg) avg (
            rt.format "Ensemble: strategies agree" (
              Value.text (direction_text direction)
              ∷ Value.count (length agreeing)
              ∷ Value.count (length r.strategies)
              ∷ map name_of agreeing)))

  -- The decision of `_vote` on `raw_signals`.
  unfoldable pub decide :
      Runtime → StrategyRunner → MarketAnalysis → List TradeSignal → Result (Option TradeSignal)
  unfolding build_consensus buy_signals sell_signals
  decide rt r a [] = ok none
  decide rt r a (s ∷ ss) =
      let buys = buy_signals (s ∷ ss) in
      let sells = sell_signals (s ∷ ss) in
      let total : R = of_count (length r.strategies) in
      let buy_agreement : R = of_count (length buys) / total in
      let sell_agreement : R = of_count (length sells) / total in
      if leb r.ensemble_threshold buy_agreement && leb sell_agreement buy_agreement
      then build_consensus rt r a buys SignalType.buy
      else if leb r.ensemble_threshold sell_agreement
      then build_consensus rt r a sells SignalType.sell
      else ok none

  -- `_vote`: `out_votes`, and the consensus.
  unfoldable pub vote :
      Runtime
      → StrategyRunner
      → MarketAnalysis
      → Option Portfolio
      → List StrategyVote × Result (Option TradeSignal)
  unfolding cast_all decide
  vote rt r a p = let (votes, raw) = cast_all p a r.strategies in (votes, decide rt r a raw)

  unfoldable pub ensemble_from :
      Runtime
      → StrategyRunner
      → Option Portfolio
      → Dict MarketAnalysis
      → StrategyEvaluation
      → Result StrategyEvaluation
  unfolding vote
  ensemble_from rt r p [] acc = ok acc
  ensemble_from rt r p ((k, a) ∷ analyses) acc =
      let (votes, consensus) = vote rt r a p in
      elim consensus [
        | err e ↦ err e
        | ok s ↦
            ensemble_from rt r p analyses
              record { signals = append_opt acc.signals s; votes = insert a.symbol votes acc.votes }
      ]

  unfoldable pub evaluate :
      Runtime → StrategyRunner → Dict MarketAnalysis → Option Portfolio → Result StrategyEvaluation
  unfolding ensemble_from evaluate_individual
  evaluate rt r analyses p =
      if r.ensemble
      then ensemble_from rt r p analyses no_evaluation
      else ok (evaluate_individual r analyses p)
