-- ===== src/Models/Portfolio/Drawdown.antt =====
-- The peak of a portfolio and the drawdown that is measured from it.
use trading_crew.Prelude.{◌≡◌, refl, Bool-cases, inl, inr}
use trading_crew.Num.{Num, ◌≤◌, ◌<◌, ltb, zero_num}
use trading_crew.Num.Laws.{IsOrdered, IsMonotone}
use trading_crew.Num.Order.{le_of_not_lt, le_of_lt, lt_of_lt_of_le, eqb_of_lt}
use trading_crew.Models.Portfolio.{
  Portfolio, total_balance, total_market_value, drawdown_pct, update_peak,
}

module _ ⦃num : Num⦄ (order : IsOrdered) (mono : IsMonotone) where
  -- After `update_peak` the peak is at least the total balance and at least the old peak, and the
  -- total balance is what it was.
  update_peak-le :
      (p : Portfolio)
      → (total_balance p ≤ (update_peak p).peak_balance)
        × (p.peak_balance ≤ (update_peak p).peak_balance)
        × (total_balance (update_peak p) ≡ total_balance p)
  unfolding update_peak total_balance total_market_value
  update_peak-le p = elim (Bool-cases (ltb p.peak_balance (total_balance p))) [
    | inl h ↦ rw h (order.le_refl _, le_of_lt order _ _ h, refl)
    | inr h ↦ rw h (le_of_not_lt order _ _ h, order.le_refl _, refl)
  ]

  -- Over ordered numbers with monotone rounding, the drawdown that a portfolio with a positive
  -- peak reports after `update_peak` is not negative.
  pub update_peak-drawdown_pct :
      (p : Portfolio) → zero_num < p.peak_balance → zero_num ≤ drawdown_pct (update_peak p)
  unfolding drawdown_pct
  update_peak-drawdown_pct p h =
      let (over, grows, same) = update_peak-le p in
      let peak = (update_peak p).peak_balance in
      let pos : zero_num < peak = lt_of_lt_of_le order _ _ _ h grows in
      rw (same, eqb_of_lt order _ _ pos)
        (mono.mul_nonneg _ _ (mono.div_nonneg _ _ (mono.sub_nonneg _ _ over) pos)
          (mono.dec_nonneg 100 0))
