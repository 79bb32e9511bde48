-- ===== src/Analyzer/Bounds.antt =====
-- The range of the relative strength index.
use Prim.Native.Nat.{◌-◌ as ◌-ℕ◌}
use trading_crew.Prelude.{
  Bool, true, false, if◌then◌else◌, Option, none, some, List, [], ◌∷◌, map, ℕ, zero, suc, take,
  drop, ◌++◌, lookup, String, ok, length, ◌≡◌, refl, sym, ap, err, value_error, arith, Bool-cases,
  subst, inl, inr,
}
use trading_crew.Num.{
  Num, R, ◌+◌, ◌-◌, ◌*◌, ◌/◌, ◌≤◌, ◌<◌, leb, eqb, zero_num, one, hundred, sum, sum_from,
}
use trading_crew.Num.Laws.{IsOrdered, IsMonotone}
use trading_crew.Num.Order.{lt_of_lt_of_le, lt_of_not_le, le_of_lt}
use trading_crew.Models.Market.{Candle, MarketAnalysis, get_indicator}
use trading_crew.Num.Int.{ltb_ℕ}
use trading_crew.Uncertainty.{of_count}
use trading_crew.Analyzer.{
  average_from, smoothed_average, gain_of, loss_of, rsi_from, rsi, deltas, entry_if, close_of,
  indicators_of, atr, TechnicalAnalyzer, make_analysis, analyze_from_candles,
}

module _ ⦃num : Num⦄ where
  abbrev pub AllNonneg : List R → Type 0
  AllNonneg [] = Unit
  AllNonneg (x ∷ xs) = (zero_num ≤ x) × AllNonneg xs

  take-AllNonneg : (n : ℕ) (xs : List R) → AllNonneg xs → AllNonneg (take n xs)
  take-AllNonneg zero xs h = tt
  take-AllNonneg (suc n) [] h = tt
  take-AllNonneg (suc n) (x ∷ xs) (h, k) = (h, take-AllNonneg n xs k)

  drop-AllNonneg : (n : ℕ) (xs : List R) → AllNonneg xs → AllNonneg (drop n xs)
  drop-AllNonneg zero xs h = h
  drop-AllNonneg (suc n) [] h = tt
  drop-AllNonneg (suc n) (x ∷ xs) (h, k) = drop-AllNonneg n xs k

  -- The entry of the RSI in a table of the shape of the indicators.
  table-rsi :
      (mean upper lower line signal histogram high low : R) (o p : Option R) (r : R)
      → lookup "rsi_14" (
          entry_if "rsi_14" o
          ++ ("bb_middle", mean)
            ∷ ("bb_upper", upper)
            ∷ ("bb_lower", lower)
            ∷ ("macd_line", line)
            ∷ ("macd_signal", signal)
            ∷ ("macd_histogram", histogram)
            ∷ entry_if "atr_14" p
          ++ ("range_high", high) ∷ ("range_low", low) ∷ [])
        ≡ some r
      → o ≡ some r
  table-rsi mean upper lower line signal histogram high low (some x) p r h = h
  table-rsi mean upper lower line signal histogram high low none none r h = h
  table-rsi mean upper lower line signal histogram high low none (some y) r h = h

  table-rsi-some :
      (mean upper lower line signal histogram high low : R) (o p : Option R) (r : R)
      → o ≡ some r
      → lookup "rsi_14" (
          entry_if "rsi_14" o
          ++ ("bb_middle", mean)
            ∷ ("bb_upper", upper)
            ∷ ("bb_lower", lower)
            ∷ ("macd_line", line)
            ∷ ("macd_signal", signal)
            ∷ ("macd_histogram", histogram)
            ∷ entry_if "atr_14" p
          ++ ("range_high", high) ∷ ("range_low", low) ∷ [])
        ≡ some r
  table-rsi-some mean upper lower line signal histogram high low (some x) p r h = h
  table-rsi-some mean upper lower line signal histogram high low none p r h =
      absurd (ground (arith, h))

  -- An analysis that is returned is of at least 20 candles, with the indicators of them.
  unguarded :
      (b : Bool) (x y : MarketAnalysis)
      → (if b then err value_error else make_analysis x) ≡ ok y
      → (b ≡ false) × (x ≡ y)
  unfolding make_analysis
  unguarded true x y h = absurd (ground (arith, h))
  unguarded false x y h = (refl, ground (arith, h))

  pub indicators-analyze :
      (t : TechnicalAnalyzer) (symbol exchange : String) (c : Candle) (cs : List Candle)
      (a : MarketAnalysis)
      → analyze_from_candles t symbol exchange (c ∷ cs) ≡ ok a
      → (ltb_ℕ (length (c ∷ cs)) 20 ≡ false) × (indicators_of t c cs ≡ a.indicators)
  unfolding analyze_from_candles
  indicators-analyze t symbol exchange c cs a h =
      let (enough, same) = unguarded (ltb_ℕ (length (c ∷ cs)) 20) _ a h in
      (enough, ap (λ (z : MarketAnalysis). z.indicators) same)

  pub indicators_of-rsi-some :
      (t : TechnicalAnalyzer) (c : Candle) (cs : List Candle) (r : R)
      → rsi (map close_of (c ∷ cs)) 14 ≡ some r
      → lookup "rsi_14" (indicators_of t c cs) ≡ some r
  unfolding indicators_of
  indicators_of-rsi-some t c cs r h =
      table-rsi-some _ _ _ _ _ _ _ _ (rsi (map close_of (c ∷ cs)) 14) (atr (c ∷ cs) 14) r h

  indicators_of-rsi :
      (t : TechnicalAnalyzer) (c : Candle) (cs : List Candle) (r : R)
      → lookup "rsi_14" (indicators_of t c cs) ≡ some r
      → rsi (map close_of (c ∷ cs)) 14 ≡ some r
  unfolding indicators_of
  indicators_of-rsi t c cs r h =
      table-rsi _ _ _ _ _ _ _ _ (rsi (map close_of (c ∷ cs)) 14) (atr (c ∷ cs) 14) r h

  module _ (order : IsOrdered) (mono : IsMonotone) where
    sum_from_nonneg :
        (acc : R) (xs : List R) → zero_num ≤ acc → AllNonneg xs → zero_num ≤ sum_from acc xs
    unfolding sum_from
    sum_from_nonneg acc [] h k = h
    sum_from_nonneg acc (x ∷ xs) h (k, ks) =
        sum_from_nonneg (acc + x) xs (mono.add_nonneg acc x h k) ks

    average_from_nonneg :
        (n : ℕ) (avg : R) (xs : List R)
        → zero_num ≤ avg
        → AllNonneg xs
        → zero_num ≤ average_from (suc n) avg xs
    unfolding average_from
    average_from_nonneg n avg [] h k = h
    average_from_nonneg n avg (x ∷ xs) h (k, ks) =
        average_from_nonneg n ((avg * of_count (◌-ℕ◌ (suc n) 1) + x) / of_count (suc n)) xs
          (mono.div_nonneg (avg * of_count (◌-ℕ◌ (suc n) 1) + x) (of_count (suc n))
            (mono.add_nonneg (avg * of_count (◌-ℕ◌ (suc n) 1)) x
              (mono.mul_nonneg avg (of_count (◌-ℕ◌ (suc n) 1)) h
                (mono.dec_nonneg (◌-ℕ◌ (suc n) 1) 0))
              k)
            (mono.dec_pos n))
          ks

    smoothed_average_nonneg :
        (n : ℕ) (xs : List R) → AllNonneg xs → zero_num ≤ smoothed_average (suc n) xs
    unfolding smoothed_average sum
    smoothed_average_nonneg n xs h =
        average_from_nonneg n (sum (take (suc n) xs) / of_count (suc n)) (drop (suc n) xs)
          (mono.div_nonneg (sum (take (suc n) xs)) (of_count (suc n))
            (sum_from_nonneg zero_num (take (suc n) xs) (order.le_refl zero_num)
              (take-AllNonneg (suc n) xs h))
            (mono.dec_pos n))
          (drop-AllNonneg (suc n) xs h)

    gains-AllNonneg : (xs : List R) → AllNonneg (map gain_of xs)
    unfolding gain_of
    gains-AllNonneg [] = tt
    gains-AllNonneg (x ∷ xs) =
        ((ground (arith, le_of_lt order zero_num x, order.le_refl zero_num)), gains-AllNonneg xs)

    losses-AllNonneg : (xs : List R) → AllNonneg (map loss_of xs)
    unfolding loss_of
    losses-AllNonneg [] = tt
    losses-AllNonneg (x ∷ xs) = (
      ground (arith, mono.sub_nonneg zero_num x, le_of_lt order x zero_num, order.le_refl zero_num),
      losses-AllNonneg xs,
    )

    pos_of_nonzero : (a : R) → zero_num ≤ a → eqb a zero_num ≡ false → zero_num < a
    pos_of_nonzero a h k = lt_of_not_le order zero_num a (elim (Bool-cases (leb a zero_num)) [
      | inl e ↦
          absurd (ground (arith, k, order.eqb_iff a zero_num, order.le_antisym a zero_num e h))
      | inr e ↦ e
    ])

    index-le : (x : R) → zero_num ≤ x → (hundred - hundred / (one + x)) ≤ hundred
    index-le x h = mono.sub-le hundred (hundred / (one + x)) (
        mono.div_nonneg hundred (one + x) (mono.dec_nonneg 100 0)
          (lt_of_lt_of_le order zero_num one (one + x) (mono.dec_pos 0) (mono.le-add one x h)))

    rsi_from-le : (gain loss : R) → zero_num ≤ gain → zero_num ≤ loss → rsi_from gain loss ≤ hundred
    unfolding rsi_from
    rsi_from-le gain loss h k = elim (Bool-cases (eqb loss zero_num)) [
      | inl e ↦ rw e (order.le_refl hundred)
      | inr e ↦
          rw e (index-le (gain / loss) (mono.div_nonneg gain loss h (pos_of_nonzero loss k e)))
    ]

    rsi-le : (values : List R) (n : ℕ) (r : R) → rsi values (suc n) ≡ some r → r ≤ hundred
    unfolding rsi
    rsi-le values n r h =
        let gain : R = smoothed_average (suc n) (map gain_of (deltas values)) in
        let loss : R = smoothed_average (suc n) (map loss_of (deltas values)) in
        ground (
          arith,
          h,
          rsi_from-le gain loss
              (smoothed_average_nonneg n (map gain_of (deltas values))
                (gains-AllNonneg (deltas values)))
              (smoothed_average_nonneg n (map loss_of (deltas values))
                (losses-AllNonneg (deltas values))),
        )

    -- Over ordered numbers with monotone rounding, the analysis of any candles gives an RSI of at most
    -- 100, if it gives one.
    pub analyze_from_candles-rsi :
        (t : TechnicalAnalyzer) (symbol exchange : String) (candles : List Candle)
        (a : MarketAnalysis) (r : R)
        → analyze_from_candles t symbol exchange candles ≡ ok a
        → get_indicator a "rsi_14" ≡ some r
        → r ≤ hundred
    unfolding analyze_from_candles get_indicator
    analyze_from_candles-rsi t symbol exchange [] a r h k = absurd (ground (arith, h))
    analyze_from_candles-rsi t symbol exchange (c ∷ cs) a r h k =
        rsi-le (map close_of (c ∷ cs)) 13 r (
          indicators_of-rsi t c cs r (
            subst (λ d. lookup "rsi_14" d ≡ some r)
              (sym (indicators-analyze t symbol exchange c cs a h).1) k))
