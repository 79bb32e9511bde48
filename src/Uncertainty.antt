-- ===== src/Uncertainty.antt =====
-- src/trading_crew/services/uncertainty_scorer.py
pub mod Bounds
use trading_crew.Prelude.{
  Bool, true, false, ◌&&◌, ◌||◌, not, if◌then◌else◌, Option, none, some, List, [], ◌∷◌, String,
  str_eq, Dict, lookup, ℕ, zero, suc, length, map,
}
use Prim.Native.Nat.{◌+◌ as ◌+ℕ◌, ◌-◌ as ◌-ℕ◌}
use trading_crew.Num.{
  Num, R, ◌+◌, ◌-◌, ◌*◌, ◌/◌, ltb, leb, eqb, dec, zero_num, one, min, max, abs, sum,
}
use trading_crew.Num.Int.{ltb_ℕ}
use trading_crew.Models.Market.{MarketAnalysis}
use trading_crew.Models.Signal.{SignalType, TradeSignal, StrategyVote}
use trading_crew.Models.Portfolio.{Portfolio, drawdown_pct}
use trading_crew.Models.Risk.{RiskParams}

module _ ⦃num : Num⦄ where
  -- What is read of src/trading_crew/services/sentiment_service.py's snapshot.
  pub record SentimentSnapshot : Type 0 where
    pub score : R
    pub confidence : R

  pub record UncertaintyFactor : Type 0 where
    pub name : String
    raw_value : R
    pub weighted_contribution : R

  pub record UncertaintyResult : Type 0 where
    pub score : R
    pub factors : List UncertaintyFactor
    pub recommend_advisory : Bool

  pub record UncertaintyWeights : Type 0 where
    pub volatile_regime : R
    pub sentiment_extreme : R
    pub low_sentiment_confidence : R
    pub strategy_disagreement : R
    pub drawdown_proximity : R
    pub regime_change : R

  pub record UncertaintyScorer : Type 0 where
    pub weights : UncertaintyWeights
    pub threshold : R

  -- The defaults of `UncertaintyWeights`.
  abbrev pub default_weights : UncertaintyWeights
  default_weights = record {
    volatile_regime = dec 3 1;
    sentiment_extreme = dec 2 1;
    low_sentiment_confidence = dec 2 1;
    strategy_disagreement = dec 3 1;
    drawdown_proximity = dec 2 1;
    regime_change = dec 3 1;
  }

  -- `max(0.0, min(1.0, x))`
  unfoldable pub clamp_unit : R → R
  clamp_unit x = max zero_num (min one x)

  -- `UncertaintyScorer(weights, activation_threshold)`
  unfoldable pub new_scorer : UncertaintyWeights → R → UncertaintyScorer
  new_scorer w threshold = record { weights = w; threshold = clamp_unit threshold }

  unfoldable pub update_threshold : R → UncertaintyScorer → UncertaintyScorer
  update_threshold threshold s = record s { threshold = clamp_unit threshold }

  abbrev factor : String → R → R → UncertaintyFactor
  factor name raw weighted = record {
    name = name;
    raw_value = raw;
    weighted_contribution = weighted;
  }

  abbrev no_factor : String → UncertaintyFactor
  no_factor name = factor name zero_num zero_num

  -- An integer count as a float.
  abbrev pub of_count : ℕ → R
  of_count n = dec n 0

  abbrev is_volatile : MarketAnalysis → Bool
  is_volatile a = elim a.metadata.market_regime [ none ↦ false | some r ↦ str_eq r "volatile" ]

  unfoldable pub count_volatile : Dict MarketAnalysis → ℕ
  count_volatile [] = zero
  count_volatile ((k, a) ∷ d) = if is_volatile a then suc (count_volatile d) else count_volatile d

  unfoldable pub volatile_regime : UncertaintyWeights → Dict MarketAnalysis → UncertaintyFactor
  volatile_regime w [] = no_factor "volatile_regime"
  volatile_regime w (e ∷ d) =
      let raw : R = of_count (count_volatile (e ∷ d)) / of_count (length (e ∷ d)) in
      factor "volatile_regime" raw (raw * w.volatile_regime)

  abbrev triggered : R → R
  triggered raw = if leb (dec 5 1) raw then one else zero_num

  unfoldable pub sentiment_extreme :
      UncertaintyWeights → Option SentimentSnapshot → UncertaintyFactor
  sentiment_extreme w none = no_factor "sentiment_extreme"
  sentiment_extreme w (some s) =
      let raw : R = abs s.score in
      if eqb s.confidence zero_num
      then no_factor "sentiment_extreme"
      else factor "sentiment_extreme" raw (triggered raw * w.sentiment_extreme)

  unfoldable pub low_sentiment_confidence :
      UncertaintyWeights → Option SentimentSnapshot → UncertaintyFactor
  low_sentiment_confidence w none = no_factor "low_sentiment_confidence"
  low_sentiment_confidence w (some s) =
      let raw : R = one - s.confidence in
      factor "low_sentiment_confidence" raw (triggered raw * w.low_sentiment_confidence)

  abbrev votes_for : SignalType → Option TradeSignal → Bool
  votes_for t none = false
  votes_for SignalType.buy (some s) = elim s.signal_type [ SignalType.buy ↦ true | _ ↦ false ]
  votes_for SignalType.sell (some s) = elim s.signal_type [ SignalType.sell ↦ true | _ ↦ false ]
  votes_for SignalType.hold (some s) = elim s.signal_type [ SignalType.hold ↦ true | _ ↦ false ]

  unfoldable pub count_votes : SignalType → List StrategyVote → ℕ
  count_votes t [] = zero
  count_votes t (v ∷ vs) = if votes_for t v.signal then suc (count_votes t vs) else count_votes t vs

  abbrev max_count : ℕ → ℕ → ℕ
  max_count a b = if ltb_ℕ a b then b else a

  -- The largest of the three factions; what is neither BUY nor SELL is the third.
  unfoldable pub max_faction : List StrategyVote → ℕ
  max_faction vs =
      let buy = count_votes SignalType.buy vs in
      let sell = count_votes SignalType.sell vs in
      max_count (max_count buy sell) (◌-ℕ◌ (◌-ℕ◌ (length vs) buy) sell)

  unfoldable pub disagreement : List StrategyVote → R
  unfolding max_faction
  disagreement vs = one - of_count (max_faction vs) / of_count (length vs)

  -- The disagreement of each symbol that has votes.
  unfoldable pub disagreements : Dict (List StrategyVote) → List R
  disagreements [] = []
  disagreements ((k, []) ∷ d) = disagreements d
  disagreements ((k, v ∷ vs) ∷ d) = disagreement (v ∷ vs) ∷ disagreements d

  abbrev mean : List R → R
  mean [] = zero_num
  mean (x ∷ xs) = sum (x ∷ xs) / of_count (length (x ∷ xs))

  unfoldable pub strategy_disagreement :
      UncertaintyWeights → Dict (List StrategyVote) → UncertaintyFactor
  unfolding disagreements disagreement
  strategy_disagreement w [] = no_factor "strategy_disagreement"
  strategy_disagreement w (e ∷ d) =
      let raw : R = mean (disagreements (e ∷ d)) in
      factor "strategy_disagreement" raw (raw * w.strategy_disagreement)

  unfoldable pub drawdown_proximity :
      UncertaintyWeights → Portfolio → RiskParams → UncertaintyFactor
  drawdown_proximity w portfolio params =
      let raw : R = min one (drawdown_pct portfolio / params.max_drawdown_pct) in
      if leb params.max_drawdown_pct zero_num
      then no_factor "drawdown_proximity"
      else factor "drawdown_proximity" raw (raw * w.drawdown_proximity)

  abbrev differs : Option String → String → Bool
  differs none prev = true
  differs (some r) prev = not (str_eq r prev)

  -- How many symbols have a previous regime, and in how many of those it changed.
  unfoldable pub compared : Dict MarketAnalysis → Dict String → ℕ
  compared [] previous = zero
  compared ((k, a) ∷ d) previous = elim (lookup k previous) [
    | none ↦ compared d previous
    | some r ↦ suc (compared d previous)
  ]

  unfoldable pub changed : Dict MarketAnalysis → Dict String → ℕ
  changed [] previous = zero
  changed ((k, a) ∷ d) previous = elim (lookup k previous) [
    | none ↦ changed d previous
    | some r ↦
        if differs a.metadata.market_regime r then suc (changed d previous) else changed d previous
  ]

  abbrev pub ratio : ℕ → ℕ → R
  ratio a zero = zero_num
  ratio a (suc b) = of_count a / of_count (suc b)

  unfoldable pub regime_change :
      UncertaintyWeights → Dict MarketAnalysis → Dict String → UncertaintyFactor
  regime_change w [] previous = no_factor "regime_change"
  regime_change w (e ∷ d) [] = no_factor "regime_change"
  regime_change w (e ∷ d) (p ∷ previous) =
      let raw : R = ratio (changed (e ∷ d) (p ∷ previous)) (compared (e ∷ d) (p ∷ previous)) in
      factor "regime_change" raw (raw * w.regime_change)

  abbrev contribution : UncertaintyFactor → R
  contribution f = f.weighted_contribution

  unfoldable pub all_factors :
      UncertaintyWeights
      → Dict MarketAnalysis
      → Dict (List StrategyVote)
      → Portfolio
      → RiskParams
      → Option SentimentSnapshot
      → Dict String
      → List UncertaintyFactor
  all_factors w analyses votes portfolio params sentiment previous =
      volatile_regime w analyses
      ∷ sentiment_extreme w sentiment
      ∷ low_sentiment_confidence w sentiment
      ∷ strategy_disagreement w votes
      ∷ drawdown_proximity w portfolio params
      ∷ regime_change w analyses previous
      ∷ []

  -- `UncertaintyScorer.score`
  unfoldable pub score :
      UncertaintyScorer
      → Dict MarketAnalysis
      → Dict (List StrategyVote)
      → Portfolio
      → RiskParams
      → Option SentimentSnapshot
      → Dict String
      → UncertaintyResult
  score s analyses votes portfolio params sentiment previous =
      let factors = all_factors s.weights analyses votes portfolio params sentiment previous in
      let raw : R = clamp_unit (sum (map contribution factors)) in
      record { score = raw; factors = factors; recommend_advisory = leb s.threshold raw }
