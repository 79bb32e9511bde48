-- ===== src/Uncertainty/Bounds.antt =====
-- The score lies in [0, 1], the recommendation reads the threshold and nothing else of the scorer,
-- and no share of symbols or of votes counts for more than its weight.
use Prim.Native.Nat.{◌≤◌ as ◌≤ℕ◌}
use trading_crew.Prelude.{
  true, ◌≡◌, Option, List, [], ◌∷◌, Dict, lookup, ℕ, zero, suc, length, String, arith, Option-cases,
  inl, inr,
}
use trading_crew.Num.{Num, R, ◌≤◌, ◌<◌, zero_num, one, min, ◌/◌, ◌*◌}
use trading_crew.Num.Laws.{IsOrdered, IsMonotone}
use trading_crew.Num.Order.{le-max_left, max-le, min-le_left}
use trading_crew.Models.Market.{MarketAnalysis}
use trading_crew.Models.Signal.{StrategyVote}
use trading_crew.Models.Portfolio.{Portfolio}
use trading_crew.Models.Risk.{RiskParams}
use trading_crew.Uncertainty.{
  SentimentSnapshot, UncertaintyWeights, UncertaintyScorer, clamp_unit, update_threshold, score,
  volatile_regime, count_volatile, of_count, regime_change, changed, compared, ratio,
}

module _ ⦃num : Num⦄ (order : IsOrdered) (mono : IsMonotone) where
  clamp_unit-bounds : (x : R) → (zero_num ≤ clamp_unit x) × (clamp_unit x ≤ one)
  unfolding clamp_unit
  clamp_unit-bounds x = (
    le-max_left order zero_num (min one x),
    max-le order zero_num (min one x) one (mono.dec_nonneg 1 0) (min-le_left order one x),
  )

  -- Over ordered numbers with monotone rounding, the score of a cycle lies between 0 and 1,
  -- whatever the inputs.
  pub score-bounds :
      (s : UncertaintyScorer) (analyses : Dict MarketAnalysis) (votes : Dict (List StrategyVote))
      (portfolio : Portfolio) (params : RiskParams) (sentiment : Option SentimentSnapshot)
      (previous : Dict String)
      → let r = score s analyses votes portfolio params sentiment previous in
        (zero_num ≤ r.score) × (r.score ≤ one)
  unfolding score
  score-bounds s analyses votes portfolio params sentiment previous = clamp_unit-bounds _

  -- A scorer whose threshold is raised recommends the advisory crew in no cycle in which it did
  -- not recommend it before.
  pub update_threshold-score :
      (s : UncertaintyScorer) (threshold : R) (analyses : Dict MarketAnalysis)
      (votes : Dict (List StrategyVote)) (portfolio : Portfolio) (params : RiskParams)
      (sentiment : Option SentimentSnapshot) (previous : Dict String)
      → s.threshold ≤ (update_threshold threshold s).threshold
      → let raised = update_threshold threshold s in
        (score raised analyses votes portfolio params sentiment previous).recommend_advisory ≡ true
        → (score s analyses votes portfolio params sentiment previous).recommend_advisory ≡ true
  unfolding score update_threshold
  update_threshold-score s threshold analyses votes portfolio params sentiment previous h k =
      order.le_trans _ _ _ h k

  count_volatile-le : (d : Dict MarketAnalysis) → count_volatile d ≤ℕ length d
  unfolding count_volatile
  count_volatile-le [] = omega arith
  count_volatile-le ((k, a) ∷ d) = ground (arith, count_volatile-le d)

  changed-le :
      (d : Dict MarketAnalysis) (previous : Dict String) → changed d previous ≤ℕ compared d previous
  unfolding changed compared
  changed-le [] previous = omega arith
  changed-le ((k, a) ∷ d) previous =
      let rest = changed-le d previous in
      elim (Option-cases (lookup k previous)) [
        | inl h ↦ rw (changed, compared, h) rest
        | inr (r, h) ↦ rw (changed, compared, h) (ground (arith, rest))
      ]

  -- A share of a nonempty whole counts at most its weight, and not below zero.
  share-le :
      (w : R) (m n : ℕ)
      → zero_num ≤ w
      → m ≤ℕ suc n
      → let share : R = of_count m / of_count (suc n) in (zero_num ≤ share * w) × (share * w ≤ w)
  share-le w m n h k =
      let pos : zero_num < of_count (suc n) = mono.dec_pos n in
      let share : R = of_count m / of_count (suc n) in
      (
        mono.mul_nonneg share w (mono.div_nonneg _ _ (mono.dec_nonneg m 0) pos) h,
        mono.mul-le share w h
            (mono.div-le_one _ _ (mono.dec_nonneg m 0) (mono.dec_mono m (suc n) k) pos),
      )

  -- Over ordered numbers with monotone rounding, the volatile-regime factor lies between zero and
  -- its weight, when the weight is not negative.
  pub volatile_regime-bounds :
      (w : UncertaintyWeights) (analyses : Dict MarketAnalysis)
      → zero_num ≤ w.volatile_regime
      → let f = volatile_regime w analyses in
        (zero_num ≤ f.weighted_contribution) × (f.weighted_contribution ≤ w.volatile_regime)
  unfolding volatile_regime
  volatile_regime-bounds w [] h = (order.le_refl _, h)
  volatile_regime-bounds w (e ∷ d) h =
      share-le w.volatile_regime (count_volatile (e ∷ d)) (length d) h (count_volatile-le (e ∷ d))

  -- A ratio of changes: none compared counts as zero.
  ratio-bounds :
      (w : R) (m n : ℕ)
      → zero_num ≤ w
      → zero_num * w ≡ zero_num
      → m ≤ℕ n
      → (zero_num ≤ ratio m n * w) × (ratio m n * w ≤ w)
  ratio-bounds w m zero h z k = rw z (order.le_refl zero_num, h)
  ratio-bounds w m (suc n) h z k = share-le w m n h k

  -- Over ordered numbers with monotone rounding, the regime-change factor lies between zero and
  -- its weight, when the weight is not negative and zero times it is zero.
  pub regime_change-bounds :
      (w : UncertaintyWeights) (analyses : Dict MarketAnalysis) (previous : Dict String)
      → zero_num ≤ w.regime_change
      → zero_num * w.regime_change ≡ zero_num
      → let f = regime_change w analyses previous in
        (zero_num ≤ f.weighted_contribution) × (f.weighted_contribution ≤ w.regime_change)
  unfolding regime_change
  regime_change-bounds w [] previous h z = (order.le_refl _, h)
  regime_change-bounds w (e ∷ d) [] h z = (order.le_refl _, h)
  regime_change-bounds w (e ∷ d) (p ∷ previous) h z =
      ratio-bounds w.regime_change _ _ h z (changed-le (e ∷ d) (p ∷ previous))
