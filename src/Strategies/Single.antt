-- ===== src/Strategies/Single.antt =====
-- src/trading_crew/strategies/ema_crossover.py, bollinger.py, rsi_range.py and macd_crossover.py
use trading_crew.Prelude.{◌&&◌, if◌then◌else◌, Option, none, some, [], ◌∷◌, String, Result, ok, err}
use trading_crew.Num.{
  Num, R, ◌+◌, ◌-◌, ◌*◌, ◌/◌, ltb, leb, dec, zero_num, one, hundred, min, max, abs,
}
use trading_crew.Num.{div_checked}
use trading_crew.Execution.Types.{}
use trading_crew.Models.Signal.{SignalType, SignalStrength, TradeSignal}
use trading_crew.Models.Market.{MarketAnalysis, get_indicator}
use trading_crew.Strategies.{Value, Runtime, Strategy, signal_of, give}

module _ ⦃num : Num⦄ where
  -- `STRONG if confidence > level else MODERATE`
  abbrev strength_above : R → R → SignalStrength
  strength_above level c = if ltb level c then SignalStrength.strong else SignalStrength.moderate

  -- Both crossovers of `EMACrossoverStrategy`: the distance to the base, as a confidence.
  unfoldable pub ema_confidence : R → R → Result R
  unfolding div_checked
  ema_confidence distance base = elim (div_checked distance base) [
    | err e ↦ err e
    | ok share ↦ ok (min (dec 5 1 + share * hundred * dec 1 1) (dec 95 2))
  ]

  unfoldable pub ema_emit :
      Runtime → MarketAnalysis → SignalType → String → Result R → Result (Option TradeSignal)
  unfolding give signal_of
  ema_emit rt a direction reason c = elim c [
    | err e ↦ err e
    | ok confidence ↦ give (
        signal_of rt a "ema_crossover" direction (strength_above (dec 7 1) confidence) confidence
          reason)
  ]

  unfoldable pub ema_signal : Runtime → MarketAnalysis → R → R → Result (Option TradeSignal)
  unfolding ema_confidence ema_emit
  ema_signal rt a fast slow =
      let price : R = a.current_price in
      let texts = Value.number fast ∷ Value.number slow ∷ Value.number price ∷ [] in
      if ltb slow fast && ltb fast price
      then ema_emit rt a SignalType.buy (rt.format "Bullish EMA crossover" texts)
          (ema_confidence (fast - slow) slow)
      else if ltb fast slow && ltb price fast
      then ema_emit rt a SignalType.sell (rt.format "Bearish EMA crossover" texts)
          (ema_confidence (slow - fast) fast)
      else ok none

  -- `EMACrossoverStrategy(fast_key, slow_key)`
  unfoldable pub ema_crossover : Runtime → String → String → Strategy
  unfolding get_indicator ema_signal
  ema_crossover rt fast_key slow_key = record {
    name = "ema_crossover";
    generate_signal = λ a. elim (get_indicator a fast_key) [
      | none ↦ ok none
      | some fast ↦ elim (get_indicator a slow_key) [
        | none ↦ ok none
        | some slow ↦ ema_signal rt a fast slow
      ]
    ];
  }

  -- Both bands of `BollingerBandsStrategy`: the distance to the trigger, as a confidence.
  unfoldable pub band_confidence : R → R → R
  band_confidence distance width = min (dec 55 2 + distance / width * hundred * dec 5 2) (dec 95 2)

  unfoldable pub band_emit :
      Runtime → MarketAnalysis → SignalType → R → String → Result (Option TradeSignal)
  unfolding give signal_of
  band_emit rt a direction confidence reason = give (
      signal_of rt a "bollinger_bands" direction (strength_above (dec 75 2) confidence) confidence
        reason)

  unfoldable pub band_signal :
      Runtime → R → MarketAnalysis → R → R → R → Result (Option TradeSignal)
  unfolding band_emit band_confidence
  band_signal rt proximity a upper middle lower =
      let price : R = a.current_price in
      let width : R = upper - lower in
      let threshold : R = width * proximity in
      let lower_trigger : R = lower + threshold in
      let upper_trigger : R = upper - threshold in
      if leb width zero_num
      then ok none
      else if leb price lower_trigger
      then band_emit rt a SignalType.buy (band_confidence (lower_trigger - price) width) (
          rt.format "Price near/below lower Bollinger Band" (
            Value.number price
            ∷ Value.number lower
            ∷ Value.number proximity
            ∷ Value.number middle
            ∷ Value.number upper
            ∷ []))
      else if leb upper_trigger price
      then band_emit rt a SignalType.sell (band_confidence (price - upper_trigger) width) (
          rt.format "Price near/above upper Bollinger Band" (
            Value.number price
            ∷ Value.number upper
            ∷ Value.number proximity
            ∷ Value.number middle
            ∷ Value.number lower
            ∷ []))
      else ok none

  -- `BollingerBandsStrategy(proximity_pct)`
  unfoldable pub bollinger_bands : Runtime → R → Strategy
  unfolding get_indicator band_signal
  bollinger_bands rt proximity_pct = record {
    name = "bollinger_bands";
    generate_signal = λ a. elim (get_indicator a "bb_upper") [
      | none ↦ ok none
      | some upper ↦ elim (get_indicator a "bb_middle") [
        | none ↦ ok none
        | some middle ↦ elim (get_indicator a "bb_lower") [
          | none ↦ ok none
          | some lower ↦ band_signal rt (max zero_num proximity_pct) a upper middle lower
        ]
      ]
    ];
  }

  pub record RsiLevels : Type 0 where
    pub rsi_oversold : R
    pub rsi_overbought : R
    pub range_low_pct : R
    pub range_high_pct : R

  unfoldable pub rsi_emit :
      Runtime → MarketAnalysis → SignalType → R → String → Result (Option TradeSignal)
  unfolding give signal_of
  rsi_emit rt a direction distance reason =
      let confidence : R = min (dec 5 1 + distance * dec 15 3) (dec 95 2) in
      give (
        signal_of rt a "rsi_range" direction (strength_above (dec 7 1) confidence) confidence
          reason)

  unfoldable pub rsi_signal :
      Runtime → RsiLevels → MarketAnalysis → R → R → R → Result (Option TradeSignal)
  unfolding rsi_emit
  rsi_signal rt levels a rsi low high =
      let total_range : R = high - low in
      let position_in_range : R = (a.current_price - low) / total_range in
      if leb total_range zero_num
      then ok none
      else if ltb rsi levels.rsi_oversold && ltb position_in_range levels.range_low_pct
      then rsi_emit rt a SignalType.buy (levels.rsi_oversold - rsi) (
          rt.format "RSI oversold" (
            Value.number rsi
            ∷ Value.number levels.rsi_oversold
            ∷ Value.number (levels.range_low_pct * hundred)
            ∷ Value.number low
            ∷ Value.number high
            ∷ []))
      else if ltb levels.rsi_overbought rsi && ltb levels.range_high_pct position_in_range
      then rsi_emit rt a SignalType.sell (rsi - levels.rsi_overbought) (
          rt.format "RSI overbought" (
            Value.number rsi
            ∷ Value.number levels.rsi_overbought
            ∷ Value.number ((one - levels.range_high_pct) * hundred)
            ∷ Value.number low
            ∷ Value.number high
            ∷ []))
      else ok none

  -- `RSIRangeStrategy(...)`
  unfoldable pub rsi_range : Runtime → RsiLevels → Strategy
  unfolding get_indicator rsi_signal
  rsi_range rt levels = record {
    name = "rsi_range";
    generate_signal = λ a. elim (get_indicator a "rsi_14") [
      | none ↦ ok none
      | some rsi ↦ elim (get_indicator a "range_low") [
        | none ↦ ok none
        | some low ↦ elim (get_indicator a "range_high") [
          | none ↦ ok none
          | some high ↦ rsi_signal rt levels a rsi low high
        ]
      ]
    ];
  }

  unfoldable pub macd_confidence : R → R → R
  macd_confidence histogram price =
      let magnitude_pct : R =
        if ltb zero_num price then abs histogram / price * hundred else zero_num in
      min (dec 50 2 + magnitude_pct * dec 50 1) (dec 85 2)

  unfoldable pub macd_signal :
      Runtime → R → MarketAnalysis → R → R → R → Result (Option TradeSignal)
  unfolding macd_confidence give signal_of
  macd_signal rt min_histogram a line signal histogram =
      let price : R = a.current_price in
      let confidence : R = macd_confidence histogram price in
      let strength = strength_above (dec 70 2) confidence in
      let texts =
        Value.number histogram
        ∷ Value.number line
        ∷ Value.number signal
        ∷ Value.number price
        ∷ [] in
      if ltb (abs histogram) min_histogram
      then ok none
      else if ltb zero_num histogram
      then give (
          signal_of rt a "macd_crossover" SignalType.buy strength confidence
            (rt.format "MACD bullish" texts))
      else give (
          signal_of rt a "macd_crossover" SignalType.sell strength confidence
            (rt.format "MACD bearish" texts))

  -- `MACDCrossoverStrategy(min_histogram)`
  unfoldable pub macd_crossover : Runtime → R → Strategy
  unfolding get_indicator macd_signal
  macd_crossover rt min_histogram = record {
    name = "macd_crossover";
    generate_signal = λ a. elim (get_indicator a "macd_line") [
      | none ↦ ok none
      | some line ↦ elim (get_indicator a "macd_signal") [
        | none ↦ ok none
        | some signal ↦ elim (get_indicator a "macd_histogram") [
          | none ↦ ok none
          | some histogram ↦ macd_signal rt (abs min_histogram) a line signal histogram
        ]
      ]
    ];
  }
