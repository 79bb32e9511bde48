-- ===== src/Backtest/Bounds.antt =====
-- What the metrics count, and the equity curve.
use Prim.Native.Nat.{◌+◌ as ◌+ℕ◌}
use trading_crew.Prelude.{◌≡◌, refl, List, [], ◌∷◌, length, String, arith}
use trading_crew.Num.{Num, R, ◌≤◌, zero_num, max}
use trading_crew.Num.Laws.{IsOrdered}
use trading_crew.Num.Order.{le-max_left}
use trading_crew.Backtest.{BacktestTrade, EquityPoint}
use trading_crew.Backtest.Metrics.{
  compute_metrics, winning_of, losing_of, max_drawdown, max_drawdown_from,
}

module _ ⦃num : Num⦄ (order : IsOrdered) where
  length-winning_of-losing_of :
      (trades : List BacktestTrade)
      → length (winning_of trades) +ℕ length (losing_of trades) ≡ length trades
  unfolding winning_of losing_of
  length-winning_of-losing_of [] = refl
  length-winning_of-losing_of (t ∷ ts) =
      ground (arith, length-winning_of-losing_of ts, order.ltb-not-leb zero_num t.pnl)

  abbrev pub AllBelow : R → List EquityPoint → Type 0
  AllBelow bound [] = Unit
  AllBelow bound (p ∷ ps) = (p.drawdown_pct ≤ bound) × AllBelow bound ps

  AllBelow-trans : (a b : R) (ps : List EquityPoint) → a ≤ b → AllBelow a ps → AllBelow b ps
  AllBelow-trans a b [] h hs = tt
  AllBelow-trans a b (p ∷ ps) h hs =
      (order.le_trans p.drawdown_pct a b hs.0 h, AllBelow-trans a b ps h hs.1)

  max-le_right : (a b : R) → b ≤ max a b
  unfolding max
  max-le_right a b = ground (arith, order.ltb-not-leb a b, order.le_refl b)

  max_drawdown_from-AllBelow :
      (best : R) (ps : List EquityPoint)
      → (best ≤ max_drawdown_from best ps) × AllBelow (max_drawdown_from best ps) ps
  unfolding max_drawdown_from
  max_drawdown_from-AllBelow best [] = (order.le_refl best, tt)
  max_drawdown_from-AllBelow best (p ∷ ps) =
      let up = max best p.drawdown_pct in
      let bound = max_drawdown_from up ps in
      let (le, rest) = max_drawdown_from-AllBelow up ps in
      (
        order.le_trans best up bound (le-max_left order best p.drawdown_pct) le,
        (order.le_trans p.drawdown_pct up bound (max-le_right best p.drawdown_pct) le, rest),
      )

  max_drawdown-AllBelow : (ps : List EquityPoint) → AllBelow (max_drawdown ps) ps
  unfolding max_drawdown
  max_drawdown-AllBelow [] = tt
  max_drawdown-AllBelow (p ∷ ps) = max_drawdown_from-AllBelow p.drawdown_pct ps

  -- Every trade is counted once, as won or as lost, and the largest drawdown is below that of no point
  -- of the curve. The numbers are ordered.
  pub compute_metrics-counts :
      (sqrt : R → R) (trades : List BacktestTrade) (curve : List EquityPoint) (initial : R)
      (timeframe : String)
      → let m = compute_metrics sqrt trades curve initial timeframe in
        (m.winning_trades +ℕ m.losing_trades ≡ length trades) × AllBelow m.max_drawdown_pct curve
  unfolding compute_metrics
  compute_metrics-counts sqrt trades curve initial timeframe =
      (length-winning_of-losing_of trades, max_drawdown-AllBelow curve)
