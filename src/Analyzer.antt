-- ===== src/Analyzer.antt =====
-- src/trading_crew/services/technical_analyzer.py, over candles of the model. A square root is a
-- parameter.
pub mod Bounds
pub mod Rising
use Prim.Native.Nat.{◌-◌ as ◌-ℕ◌}
use trading_crew.Prelude.{
  Bool, true, false, if◌then◌else◌, Option, none, some, get_or, List, [], ◌∷◌, ◌++◌, map, String,
  Dict, lookup, ℕ, suc, length, take, drop, Result, ok, err, value_error, validation,
}
use trading_crew.Num.{
  Num, R, ◌+◌, ◌-◌, ◌*◌, ◌/◌, ltb, leb, eqb, dec, zero_num, one, hundred, min, max, abs, sum,
  or_else,
}
use trading_crew.Num.Int.{ltb_ℕ}
use trading_crew.Uncertainty.{of_count}
use trading_crew.Models.Market.{Candle, MarketMetadata, MarketAnalysis}

module _ ⦃num : Num⦄ where
  -- The thresholds, and what Python gives: the root, and the time of `datetime.now(UTC)`.
  pub record TechnicalAnalyzer : Type 0 where
    pub volatility_threshold : R
    pub trend_threshold : R
    pub sqrt : R → R
    pub now : R

  -- `TechnicalAnalyzer.__init__`
  unfoldable pub new_analyzer : R → R → (R → R) → R → TechnicalAnalyzer
  new_analyzer volatility trend sqrt now = record {
    volatility_threshold = max zero_num volatility;
    trend_threshold = max zero_num trend;
    sqrt = sqrt;
    now = now;
  }

  -- `values[-1]` of a list that is not empty.
  abbrev pub last_value : R → List R → R
  last_value x [] = x
  last_value x (y ∷ ys) = last_value y ys

  unfoldable pub smooth : R → R → List R → R
  smooth multiplier ema [] = ema
  smooth multiplier ema (price ∷ prices) =
      smooth multiplier ((price - ema) * multiplier + ema) prices

  -- `_ema`
  unfoldable pub ema_of : List R → ℕ → R
  unfolding smooth
  ema_of values period =
      if ltb_ℕ (length values) period
      then last_value zero_num values
      else smooth (dec 2 0 / of_count (suc period)) (sum (take period values) / of_count period)
          (drop period values)

  unfoldable pub series_from : R → R → List R → List R
  series_from multiplier ema [] = []
  series_from multiplier ema (price ∷ prices) =
      let next : R = (price - ema) * multiplier + ema in next ∷ series_from multiplier next prices

  -- `_ema_series`
  unfoldable pub ema_series : List R → ℕ → List R
  unfolding series_from
  ema_series [] period = []
  ema_series (v ∷ vs) period = v ∷ series_from (dec 2 0 / of_count (suc period)) v vs

  unfoldable pub differences : List R → List R → List R
  differences [] ys = []
  differences (a ∷ xs) [] = []
  differences (a ∷ xs) (b ∷ ys) = (a - b) ∷ differences xs ys

  -- `_macd`
  unfoldable pub macd : List R → R × R × R
  unfolding ema_series differences
  macd closes =
      let series = differences (ema_series closes 12) (ema_series closes 26) in
      let line : R = last_value zero_num series in
      let signal : R = last_value zero_num (ema_series series 9) in (line, signal, line - signal)

  unfoldable pub deltas : List R → List R
  deltas [] = []
  deltas (v ∷ []) = []
  deltas (v ∷ w ∷ vs) = (w - v) ∷ deltas (w ∷ vs)

  unfoldable pub gain_of : R → R
  gain_of d = if ltb zero_num d then d else zero_num

  unfoldable pub loss_of : R → R
  loss_of d = if ltb d zero_num then zero_num - d else zero_num

  -- An average with the weight of `period` values, updated by the values that follow.
  unfoldable pub average_from : ℕ → R → List R → R
  average_from period avg [] = avg
  average_from period avg (x ∷ xs) =
      average_from period ((avg * of_count (◌-ℕ◌ period 1) + x) / of_count period) xs

  unfoldable pub smoothed_average : ℕ → List R → R
  unfolding average_from
  smoothed_average period xs =
      average_from period (sum (take period xs) / of_count period) (drop period xs)

  -- The index of an average gain and an average loss.
  unfoldable pub rsi_from : R → R → R
  rsi_from avg_gain avg_loss =
      if eqb avg_loss zero_num then hundred else hundred - hundred / (one + avg_gain / avg_loss)

  -- `_rsi`
  unfoldable pub rsi : List R → ℕ → Option R
  unfolding deltas gain_of loss_of smoothed_average rsi_from
  rsi values period =
      if ltb_ℕ (length values) (suc period)
      then none
      else some (
          rsi_from (smoothed_average period (map gain_of (deltas values)))
            (smoothed_average period (map loss_of (deltas values))))

  abbrev squared_from : R → R → R
  squared_from mean x = (x - mean) * (x - mean)

  -- `_sma_std`
  unfoldable pub sma_std : (R → R) → List R → ℕ → R × R
  sma_std sqrt values period =
      let window = drop (◌-ℕ◌ (length values) period) values in
      let mean : R = sum window / of_count (length window) in
      (mean, sqrt (sum (map (squared_from mean) window) / of_count (length window)))

  unfoldable pub true_ranges : List Candle → List R
  true_ranges [] = []
  true_ranges (p ∷ []) = []
  true_ranges (p ∷ c ∷ cs) =
      max (max (c.high - c.low) (abs (c.high - p.close))) (abs (c.low - p.close))
      ∷ true_ranges (c ∷ cs)

  -- `_atr`
  unfoldable pub atr : List Candle → ℕ → Option R
  unfolding true_ranges smoothed_average
  atr candles period =
      if ltb_ℕ (length candles) (suc period)
      then none
      else if ltb_ℕ (length (true_ranges candles)) period
      then none
      else some (smoothed_average period (true_ranges candles))

  -- `_classify_regime`
  unfoldable pub classify_regime : TechnicalAnalyzer → Dict R → String
  classify_regime t indicators =
      let fast : R = get_or zero_num (lookup "ema_fast" indicators) in
      let slow : R = get_or zero_num (lookup "ema_slow" indicators) in
      let atr : R = get_or zero_num (lookup "atr_14" indicators) in
      let price_ref : R =
        or_else (get_or (get_or one (lookup "ema_slow" indicators)) (lookup "bb_middle" indicators))
          one in
      let volatility : R = if ltb zero_num atr then atr / price_ref else zero_num in
      if ltb t.volatility_threshold volatility
      then "volatile"
      else if ltb t.trend_threshold (abs (fast - slow) / price_ref)
      then "trending"
      else "ranging"

  abbrev pub entry_if : String → Option R → Dict R
  entry_if name none = []
  entry_if name (some x) = (name, x) ∷ []

  abbrev pub close_of : Candle → R
  close_of c = c.close

  unfoldable pub highest : R → List Candle → R
  highest best [] = best
  highest best (c ∷ cs) = highest (max best c.high) cs

  unfoldable pub lowest : R → List Candle → R
  lowest best [] = best
  lowest best (c ∷ cs) = lowest (min best c.low) cs

  unfoldable pub indicators_of : TechnicalAnalyzer → Candle → List Candle → Dict R
  unfolding ema_of rsi sma_std macd atr highest lowest
  indicators_of t c cs =
      let candles = c ∷ cs in
      let closes = map close_of candles in
      let (mean, std) = sma_std t.sqrt closes 20 in
      let (line, signal, histogram) = macd closes in
      ("ema_fast", ema_of closes 12)
        ∷ (
          "ema_slow",
          if ltb_ℕ (length closes) 50 then last_value zero_num closes else ema_of closes 50,
        )
        ∷ entry_if "rsi_14" (rsi closes 14)
      ++ ("bb_middle", mean)
        ∷ ("bb_upper", mean + dec 2 0 * std)
        ∷ ("bb_lower", mean - dec 2 0 * std)
        ∷ ("macd_line", line)
        ∷ ("macd_signal", signal)
        ∷ ("macd_histogram", histogram)
        ∷ entry_if "atr_14" (atr candles 14)
      ++ ("range_high", highest c.high cs) ∷ ("range_low", lowest c.low cs) ∷ []

  -- The bound that pydantic enforces on an analysis that is built.
  unfoldable pub make_analysis : MarketAnalysis → Result MarketAnalysis
  make_analysis a = if leb a.current_price zero_num then err validation else ok a

  -- `analyze_from_candles`
  unfoldable pub analyze_from_candles :
      TechnicalAnalyzer → String → String → List Candle → Result MarketAnalysis
  unfolding indicators_of classify_regime make_analysis
  analyze_from_candles t symbol exchange [] = err value_error
  analyze_from_candles t symbol exchange (c ∷ cs) =
      let indicators = indicators_of t c cs in
      if ltb_ℕ (length (c ∷ cs)) 20
      then err value_error
      else make_analysis (record {
        symbol = symbol;
        exchange = exchange;
        timestamp = t.now;
        current_price = last_value zero_num (map close_of (c ∷ cs));
        indicators = indicators;
        ohlcv_data = [];
        metadata = record {
          market_regime = some (classify_regime t indicators);
          sentiment_score = none;
          sentiment_confidence = none;
        };
      })
