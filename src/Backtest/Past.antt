-- ===== src/Backtest/Past.antt =====
-- The backtest does not look ahead, and records one point for each candle.
use Prim.Native.Nat.{◌≤◌ as ◌≤ℕ◌, ◌<◌ as ◌<ℕ◌, ◌+◌ as ◌+ℕ◌}
use trading_crew.Prelude.{
  ◌≡◌, refl, sym, ap, ◌∙◌, List, [], ◌∷◌, ◌++◌, ℕ, zero, suc, length, take, Result, ok, err, arith,
}
use trading_crew.Num.{Num}
use trading_crew.Models.Market.{Candle}
use trading_crew.Backtest.Run.{BacktestService, Run, run_bars, bar_step, rolling_window}

module _ ⦃num : Num⦄ where
  take-append : (n : ℕ) (xs ys : List Candle) → n ≤ℕ length xs → take n (xs ++ ys) ≡ take n xs
  take-append zero xs ys h = refl
  take-append (suc n) [] ys h = absurd (omega arith)
  take-append (suc n) (x ∷ xs) ys h = ap (λ l. x ∷ l) (take-append n xs ys (omega arith))

  module _ (svc : BacktestService) where
    -- What the run makes of a bar, and then of the bars after it.
    abbrev continued : Result Run → (Run → Result Run) → Result Run
    continued r k = elim r [ err e ↦ err e | ok r' ↦ k r' ]

    continued-eq :
        (o : Result Run) (k l : Run → Result Run)
        → ((r : Run) → k r ≡ l r)
        → continued o k ≡ continued o l
    continued-eq (ok r) k l h = h r
    continued-eq (err e) k l h = refl

    continued-continued :
        (o : Result Run) (k l : Run → Result Run)
        → continued (continued o k) l ≡ continued o (λ r. continued (k r) l)
    continued-continued (ok r) k l = refl
    continued-continued (err e) k l = refl

    rolling_window-append :
        (past future : List Candle) (i : ℕ)
        → i <ℕ length past
        → rolling_window svc (past ++ future) i ≡ rolling_window svc past i
    unfolding rolling_window
    rolling_window-append past future i h = rw (take-append (suc i) past future (omega arith)) refl

    -- The bars of the past see nothing of the future.
    run_bars-append :
        (past future bars : List Candle) (i n : ℕ) (r : Run)
        → n ≡ i +ℕ length bars
        → n ≤ℕ length past
        → run_bars svc (past ++ future) i (bars ++ future) r
          ≡ continued (run_bars svc past i bars r) (λ r'. run_bars svc (past ++ future) n future r')
    unfolding run_bars
    run_bars-append past future [] i n r e h =
        ap (λ k. run_bars svc (past ++ future) k future r) (here i n e)
      where
        here : (i n : ℕ) → n ≡ i +ℕ 0 → i ≡ n
        here i n e = omega arith
    run_bars-append past future (candle ∷ bars) i n r e h =
        let step = bar_step svc (rolling_window svc past i) i candle r in
        let all = past ++ future in
        ap
          (λ w.
            continued (bar_step svc w i candle r)
              (λ r'. run_bars svc all (suc i) (bars ++ future) r'))
          (rolling_window-append past future i (omega arith))
        ∙ continued-eq step _ _
            (λ r'. run_bars-append past future bars (suc i) n r' (omega arith) h)
        ∙ sym (
            continued-continued step (λ r'. run_bars svc past (suc i) bars r')
              (λ r'. run_bars svc all n future r'))

    -- A backtest over the candles of the past and those of the future goes through the state in which
    -- the backtest over the past alone ends, and raises where that raises: no decision, fill or
    -- recorded value depends on a later candle.
    pub run_bars_past :
        (past future : List Candle) (r : Run)
        → run_bars svc (past ++ future) 0 (past ++ future) r
          ≡ (elim (run_bars svc past 0 past r) as (λ o. Result Run) [
            | err e ↦ err e
            | ok r' ↦ run_bars svc (past ++ future) (length past) future r'
          ])
    run_bars_past past future r =
        run_bars-append past future past 0 (length past) r (omega arith) (omega arith)
