-- ===== src/Strategies/Agree.antt =====
-- The two ensembles, `StrategyRunner._vote` and `CompositeStrategy.generate_signal`.
use trading_crew.Prelude.{
  ◌≡◌, refl, true, false, ◌&&◌, Option, none, some, List, [], ◌∷◌, length, ℕ, suc, zero, Result, ok,
  err, arith,
}
use Prim.Native.Nat.{◌≤◌ as ◌≤ℕ◌, ◌<◌ as ◌<ℕ◌, ◌+◌}
use trading_crew.Num.{Num, R, ◌<◌, ◌/◌, leb, zero_num}
use trading_crew.Num.Laws.{IsOrdered, IsMonotone}
use trading_crew.Num.Order.{eqb_of_lt, not_le_of_lt, le_of_lt}
use trading_crew.Models.Signal.{SignalType, TradeSignal, is_actionable}
use trading_crew.Models.Market.{MarketAnalysis}
use trading_crew.Num.{div_checked}
use trading_crew.Execution.Types.{}
use trading_crew.Uncertainty.{of_count}
use trading_crew.Strategies.{Runtime, Strategy, give, make_signal, signal_of}
use trading_crew.Strategies.Runner.{
  StrategyRunner, vote, cast_all, cast, cast_signal, decide, build_consensus, buy_signals,
  sell_signals, preflight,
}
use trading_crew.Strategies.Composite.{
  CompositeStrategy, composite_signal, composite_decide, consensus, gather,
}

module _ ⦃num : Num⦄ where
  -- A decision apart from the name and the words of the ensemble that took it.
  abbrev pub unsigned_outcome : Result (Option TradeSignal) → Result (Option TradeSignal)
  unsigned_outcome r = elim r [
    | err e ↦ err e
    | ok none ↦ ok none
    | ok (some s) ↦ ok (some (record s { strategy_name = ""; reason = "" }))
  ]

  cast_all-gather :
      (a : MarketAnalysis) (sts : List Strategy) → (cast_all none a sts).1 ≡ gather a sts
  unfolding cast_all cast cast_signal gather preflight
  cast_all-gather a [] = refl
  cast_all-gather a (st ∷ sts) = ground (arith, cast_all-gather a sts)

  -- The composite with the runner's strategies and thresholds.
  abbrev pub composite_of : StrategyRunner → CompositeStrategy
  composite_of r = record {
    strategies = r.strategies;
    agreement_threshold = r.ensemble_threshold;
    min_confidence = r.min_confidence;
  }

  abbrev IsAllActionable : List TradeSignal → Type 0
  IsAllActionable [] = Unit
  IsAllActionable (s ∷ ss) = (is_actionable s ≡ true) × IsAllActionable ss

  gather-IsAllActionable :
      (a : MarketAnalysis) (sts : List Strategy) → IsAllActionable (gather a sts)
  unfolding gather is_actionable
  gather-IsAllActionable a [] = tt
  gather-IsAllActionable a (st ∷ sts) = ground (arith, gather-IsAllActionable a sts)

  length-gather : (a : MarketAnalysis) (sts : List Strategy) → length (gather a sts) ≤ℕ length sts
  unfolding gather
  length-gather a [] = omega arith
  length-gather a (st ∷ sts) = ground (arith, length-gather a sts)

  length-buy_signals-sell_signals :
      (ss : List TradeSignal)
      → IsAllActionable ss
      → length (buy_signals ss) + length (sell_signals ss) ≡ length ss
  unfolding buy_signals sell_signals is_actionable
  length-buy_signals-sell_signals [] h = refl
  length-buy_signals-sell_signals (s ∷ ss) h =
      ground (arith, length-buy_signals-sell_signals ss h.1)

module _ ⦃num : Num⦄ (order : IsOrdered) (mono : IsMonotone) where
  build_consensus-consensus :
      (rt : Runtime) (r : StrategyRunner) (a : MarketAnalysis) (ss : List TradeSignal)
      (direction : SignalType)
      → 0 <ℕ length ss
      → unsigned_outcome (build_consensus rt r a ss direction)
        ≡ unsigned_outcome (consensus rt (composite_of r) a ss direction)
  unfolding build_consensus consensus div_checked give make_signal signal_of
  build_consensus-consensus rt r a [] direction h = absurd (omega arith)
  build_consensus-consensus rt r a (s ∷ ss) direction h =
      ground
        (arith, eqb_of_lt order zero_num (of_count (suc (length ss))) (mono.dec_pos (length ss)))

  -- A share of the strategies is told apart from none.
  module _ (total : ℕ)
      (resolved : (k : ℕ)
        → suc k ≤ℕ total
        → of_count 0 / of_count total < of_count (suc k) / of_count total) where
    buys_chosen :
        (m n : ℕ)
        → 0 <ℕ m + n
        → m + n ≤ℕ total
        → leb (of_count n / of_count total) (of_count m / of_count total) ≡ true
        → 0 <ℕ m
    buys_chosen zero zero h k l = omega arith
    buys_chosen zero (suc n) h k l =
        ground (arith, not_le_of_lt order _ _ (resolved n (omega arith)))
    buys_chosen (suc m) n h k l = omega arith

    sells_chosen :
        (threshold : R) (m n : ℕ)
        → 0 <ℕ m + n
        → m + n ≤ℕ total
        → leb threshold (of_count n / of_count total) ≡ true
        → (leb threshold (of_count m / of_count total)
            && leb (of_count n / of_count total) (of_count m / of_count total))
          ≡ false
        → 0 <ℕ n
    sells_chosen threshold m (suc n) h k l x = omega arith
    sells_chosen threshold zero zero h k l x = omega arith
    sells_chosen threshold (suc m) zero h k l x = ground (
      arith,
      le_of_lt order (of_count 0 / of_count total) (of_count (suc m) / of_count total)
          (resolved m (omega arith)),
      order.le_trans threshold (of_count 0 / of_count total) (of_count (suc m) / of_count total) l,
    )

  decide-composite_decide :
      (rt : Runtime) (r : StrategyRunner) (a : MarketAnalysis) (raw : List TradeSignal)
      → ((k : ℕ)
          → suc k ≤ℕ length r.strategies
          → of_count 0 / of_count (length r.strategies)
            < of_count (suc k) / of_count (length r.strategies))
      → IsAllActionable raw
      → length raw ≤ℕ length r.strategies
      → unsigned_outcome (decide rt r a raw)
        ≡ unsigned_outcome (composite_decide rt (composite_of r) a raw)
  unfolding decide composite_decide
  decide-composite_decide rt r a [] resolved h k = refl
  decide-composite_decide rt r a (s ∷ ss) resolved h k =
      let buys = buy_signals (s ∷ ss) in
      let sells = sell_signals (s ∷ ss) in
      let total = length r.strategies in
      let counts = length-buy_signals-sell_signals (s ∷ ss) h in
      ground (
        arith,
        counts,
        buys_chosen total resolved (length buys) (length sells),
        sells_chosen total resolved r.ensemble_threshold (length buys) (length sells),
        build_consensus-consensus rt r a buys SignalType.buy,
        build_consensus-consensus rt r a sells SignalType.sell,
      )

  -- The composite strategy, given the runner's strategies and thresholds, takes the decision that
  -- the runner's ensemble takes without a portfolio: the same None, exception, or signal, but for
  -- its strategy name and its reason. The two differ where no strategy agrees (the composite divides
  -- by their number), which never happens, on ordered numbers with monotone rounding in which a
  -- share of the strategies is above none.
  pub vote-composite_signal :
      (rt : Runtime) (r : StrategyRunner) (a : MarketAnalysis)
      → ((k : ℕ)
          → suc k ≤ℕ length r.strategies
          → of_count 0 / of_count (length r.strategies)
            < of_count (suc k) / of_count (length r.strategies))
      → unsigned_outcome (vote rt r a none).1
        ≡ unsigned_outcome (composite_signal rt (composite_of r) a)
  unfolding vote composite_signal
  vote-composite_signal rt r a resolved = rw (cast_all-gather a r.strategies) (
      decide-composite_decide rt r a (gather a r.strategies) resolved
        (gather-IsAllActionable a r.strategies) (length-gather a r.strategies))
