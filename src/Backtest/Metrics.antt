-- ===== src/Backtest/Metrics.antt =====
-- `_compute_metrics` of src/trading_crew/services/backtest_service.py. A square root is a parameter; NaN is
-- None, and so is the infinite profit factor.
use trading_crew.Prelude.{
  Bool, if◌then◌else◌, Option, none, some, get_or, List, [], ◌∷◌, map, String, Dict, lookup, ℕ, suc,
  zero, length,
}
use trading_crew.Num.{Num, R, ◌-◌, ◌*◌, ◌/◌, ltb, leb, zero_num, hundred, max, abs, sum}
use trading_crew.Uncertainty.{of_count}
use trading_crew.Backtest.{BacktestTrade, EquityPoint}

-- `_TIMEFRAME_SECONDS`
abbrev timeframe_seconds : Dict ℕ
timeframe_seconds =
    ("1m", 60)
    ∷ ("5m", 300)
    ∷ ("15m", 900)
    ∷ ("30m", 1800)
    ∷ ("1h", 3600)
    ∷ ("4h", 14400)
    ∷ ("1d", 86400)
    ∷ []

module _ ⦃num : Num⦄ where
  pub record Metrics : Type 0 where
    pub total_return_pct : R
    pub sharpe_ratio : Option R
    pub max_drawdown_pct : R
    pub win_rate_pct : R
    pub profit_factor : Option R
    pub winning_trades : ℕ
    pub losing_trades : ℕ
    pub total_fees : R

  -- `_periods_per_year`
  unfoldable pub periods_per_year : String → R
  periods_per_year timeframe =
      of_count 31536000 / of_count (get_or 3600 (lookup timeframe timeframe_seconds))

  abbrev is_winning : BacktestTrade → Bool
  is_winning t = ltb zero_num t.pnl

  -- `[t for t in trades if t.pnl > 0]`, and those with `t.pnl <= 0`.
  unfoldable pub winning_of : List BacktestTrade → List BacktestTrade
  winning_of [] = []
  winning_of (t ∷ ts) = if ltb zero_num t.pnl then t ∷ winning_of ts else winning_of ts

  unfoldable pub losing_of : List BacktestTrade → List BacktestTrade
  losing_of [] = []
  losing_of (t ∷ ts) = if leb t.pnl zero_num then t ∷ losing_of ts else losing_of ts

  abbrev pub pnl_field : BacktestTrade → R
  pnl_field t = t.pnl

  abbrev pub fee_field : BacktestTrade → R
  fee_field t = t.fee

  abbrev last_balance : R → List EquityPoint → R
  last_balance initial [] = initial
  last_balance initial (p ∷ []) = p.balance
  last_balance initial (p ∷ q ∷ ps) = last_balance initial (q ∷ ps)

  -- `max(...)` of a list that is not empty, from its first value.
  unfoldable pub max_drawdown_from : R → List EquityPoint → R
  max_drawdown_from best [] = best
  max_drawdown_from best (p ∷ ps) = max_drawdown_from (max best p.drawdown_pct) ps

  unfoldable pub max_drawdown : List EquityPoint → R
  unfolding max_drawdown_from
  max_drawdown [] = zero_num
  max_drawdown (p ∷ ps) = max_drawdown_from p.drawdown_pct ps

  -- The returns of the candles whose predecessor has a positive balance.
  unfoldable pub returns_of : List EquityPoint → List R
  returns_of [] = []
  returns_of (p ∷ []) = []
  returns_of (p ∷ q ∷ ps) =
      let rest = returns_of (q ∷ ps) in
      if ltb zero_num p.balance then (q.balance - p.balance) / p.balance ∷ rest else rest

  abbrev square_from : R → R → R
  square_from mean r = (r - mean) * (r - mean)

  abbrev positive_root : (R → R) → R → R
  positive_root sqrt x = if ltb zero_num x then sqrt x else zero_num

  -- The Sharpe ratio of at least two returns.
  unfoldable pub sharpe_of : (R → R) → R → List R → Option R
  sharpe_of sqrt factor [] = none
  sharpe_of sqrt factor (r ∷ []) = none
  sharpe_of sqrt factor (r ∷ s ∷ rs) =
      let returns = r ∷ s ∷ rs in
      let mean : R = sum returns / of_count (length returns) in
      let variance : R = sum (map (square_from mean) returns) / of_count (suc (length rs)) in
      let std : R = positive_root sqrt variance in
      some (if ltb zero_num std then mean / std * factor else zero_num)

  abbrev win_rate : ℕ → ℕ → R
  win_rate winners zero = zero_num
  win_rate winners (suc n) = of_count winners / of_count (suc n) * hundred

  -- `_compute_metrics`
  unfoldable pub compute_metrics :
      (R → R) → List BacktestTrade → List EquityPoint → R → String → Metrics
  unfolding periods_per_year winning_of losing_of max_drawdown returns_of sharpe_of
  compute_metrics sqrt trades equity_curve initial timeframe =
      let winning = winning_of trades in
      let losing = losing_of trades in
      let gross_loss : R = abs (sum (map pnl_field losing)) in
      record {
        total_return_pct = (last_balance initial equity_curve - initial) / initial * hundred;
        sharpe_ratio = sharpe_of sqrt (sqrt (periods_per_year timeframe)) (returns_of equity_curve);
        max_drawdown_pct = max_drawdown equity_curve;
        win_rate_pct = win_rate (length winning) (length trades);
        profit_factor =
            if ltb zero_num gross_loss
            then some (sum (map pnl_field winning) / gross_loss)
            else none;
        winning_trades = length winning;
        losing_trades = length losing;
        total_fees = sum (map fee_field trades);
      }
