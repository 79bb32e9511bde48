-- ===== src/Analyzer/Rising.antt =====
-- The relative strength index of prices that do not fall.
use Prim.Native.Nat.{◌-◌ as ◌-ℕ◌}
use trading_crew.Prelude.{
  false, some, List, [], ◌∷◌, map, ℕ, zero, suc, take, drop, lookup, String, ok, length, ◌≡◌, refl,
  sym, ◌∙◌, ap, arith, subst,
}
use trading_crew.Num.{Num, R, ◌+◌, ◌*◌, ◌/◌, zero_num, hundred, sum, sum_from}
use trading_crew.Num.Int.{ltb_ℕ}
use trading_crew.Num.Laws.{IsOrdered, IsMonotone, IsExact}
use trading_crew.Num.Order.{not_lt_of_le}
use trading_crew.Num.Ring.{sub_self, mul-sub}
use trading_crew.Models.Market.{Candle, MarketAnalysis, get_indicator}
use trading_crew.Uncertainty.{of_count}
use trading_crew.Analyzer.{
  average_from, smoothed_average, loss_of, rsi_from, rsi, deltas, close_of, TechnicalAnalyzer,
  analyze_from_candles,
}
use trading_crew.Analyzer.Bounds.{AllNonneg, indicators-analyze, indicators_of-rsi-some}

module _ ⦃num : Num⦄ where
  abbrev AllZero : List R → Type 0
  AllZero [] = Unit
  AllZero (x ∷ xs) = (x ≡ zero_num) × AllZero xs

  take-AllZero : (n : ℕ) (xs : List R) → AllZero xs → AllZero (take n xs)
  take-AllZero zero xs h = tt
  take-AllZero (suc n) [] h = tt
  take-AllZero (suc n) (x ∷ xs) (h, k) = (h, take-AllZero n xs k)

  drop-AllZero : (n : ℕ) (xs : List R) → AllZero xs → AllZero (drop n xs)
  drop-AllZero zero xs h = h
  drop-AllZero (suc n) [] h = tt
  drop-AllZero (suc n) (x ∷ xs) (h, k) = drop-AllZero n xs k

  length-map_close : (cs : List Candle) → length (map close_of cs) ≡ length cs
  length-map_close [] = refl
  length-map_close (c ∷ cs) = ap suc (length-map_close cs)

  module _ (order : IsOrdered) (mono : IsMonotone) (exact : IsExact) where
    mul_zero : (a : R) → a * zero_num ≡ zero_num
    mul_zero a =
        ap (λ x. a * x) (sym (sub_self exact a)) ∙ mul-sub exact a a a ∙ sub_self exact (a * a)

    div_zero : (n : ℕ) → zero_num / of_count (suc n) ≡ zero_num
    div_zero n =
        ap (λ x. x / of_count (suc n))
          (sym (exact.mul_comm zero_num (of_count (suc n)) ∙ mul_zero (of_count (suc n))))
        ∙ exact.mul-div zero_num (of_count (suc n)) (mono.dec_pos n)

    sum_from-AllZero : (xs : List R) → AllZero xs → sum_from zero_num xs ≡ zero_num
    unfolding sum_from
    sum_from-AllZero [] h = refl
    sum_from-AllZero (x ∷ xs) (h, k) =
        ap (λ y. sum_from y xs) (ap (λ y. zero_num + y) h ∙ exact.add_zero zero_num)
        ∙ sum_from-AllZero xs k

    average_from-AllZero :
        (n : ℕ) (xs : List R) → AllZero xs → average_from (suc n) zero_num xs ≡ zero_num
    unfolding average_from
    average_from-AllZero n [] h = refl
    average_from-AllZero n (x ∷ xs) (h, k) =
        let weight : R = of_count (◌-ℕ◌ (suc n) 1) in
        let next : (zero_num * weight + x) / of_count (suc n) ≡ zero_num =
          ap (λ y. y / of_count (suc n))
            (ap (λ y. zero_num * weight + y) h
              ∙ exact.add_zero (zero_num * weight)
              ∙ exact.mul_comm zero_num weight
              ∙ mul_zero weight)
          ∙ div_zero n in
        ap (λ y. average_from (suc n) y xs) next ∙ average_from-AllZero n xs k

    smoothed_average-AllZero :
        (n : ℕ) (xs : List R) → AllZero xs → smoothed_average (suc n) xs ≡ zero_num
    unfolding smoothed_average sum
    smoothed_average-AllZero n xs h =
        ap (λ y. average_from (suc n) y (drop (suc n) xs))
          (ap (λ y. y / of_count (suc n))
              (sum_from-AllZero (take (suc n) xs) (take-AllZero (suc n) xs h))
            ∙ div_zero n)
        ∙ average_from-AllZero n (drop (suc n) xs) (drop-AllZero (suc n) xs h)

    losses-AllZero : (xs : List R) → AllNonneg xs → AllZero (map loss_of xs)
    unfolding loss_of
    losses-AllZero [] h = tt
    losses-AllZero (x ∷ xs) (h, k) =
        (rw (not_lt_of_le order x zero_num h) refl, losses-AllZero xs k)

    rsi_rising :
        (values : List R) (n : ℕ)
        → AllNonneg (deltas values)
        → ltb_ℕ (length values) (suc (suc n)) ≡ false
        → rsi values (suc n) ≡ some hundred
    unfolding rsi rsi_from
    rsi_rising values n h enough = ground (
      arith,
      enough,
      smoothed_average-AllZero n (map loss_of (deltas values)) (losses-AllZero (deltas values) h),
      order.eqb_iff zero_num zero_num,
    )

    -- Over exact numbers, the analysis of candles whose closes never fall from one to the next gives the
    -- RSI of 100: there are gains only.
    pub analyze_from_candles_rising :
        (t : TechnicalAnalyzer) (symbol exchange : String) (candles : List Candle)
        (a : MarketAnalysis)
        → analyze_from_candles t symbol exchange candles ≡ ok a
        → AllNonneg (deltas (map close_of candles))
        → get_indicator a "rsi_14" ≡ some hundred
    unfolding analyze_from_candles get_indicator
    analyze_from_candles_rising t symbol exchange [] a h k = absurd (ground (arith, h))
    analyze_from_candles_rising t symbol exchange (c ∷ cs) a h k =
        let (enough, same) = indicators-analyze t symbol exchange c cs a h in
        subst (λ d. lookup "rsi_14" d ≡ some hundred) same
          (indicators_of-rsi-some t c cs hundred
            (rsi_rising (map close_of (c ∷ cs)) 13 k (ground (arith, enough, length-map_close cs))))
