-- ===== src/Tests/Analyzer.antt =====
-- The technical analyzer over the integers.
use trading_crew.Prelude.{map, Result, none, some, ok, err, ◌≡◌}
use trading_crew.Models.Market.{MarketAnalysis}
use trading_crew.Analyzer.{make_analysis, deltas, close_of}
use trading_crew.Analyzer.Bounds.{AllNonneg}
use Prim.Native.Nat.{◌-◌ as ◌-ℕ◌}
use trading_crew.Prelude.{refl, [], ◌∷◌, List, ℕ, zero, suc}
use trading_crew.Num.{Num}
use trading_crew.Num.Int.{pos, ◌-ℤ◌}
use trading_crew.Num.Instances.{integers, integers-IsOrdered, integers-IsMonotone, integers-IsExact}
use trading_crew.Models.Market.{Candle, get_indicator}
use trading_crew.Analyzer.{TechnicalAnalyzer, analyze_from_candles}
use trading_crew.Analyzer.Rising.{analyze_from_candles_rising}

instance abbrev int_num : Num
int_num = integers

abbrev analyzer : TechnicalAnalyzer
analyzer = record {
  volatility_threshold = pos 0;
  trend_threshold = pos 0;
  sqrt = λ x. x;
  now = pos 0;
}

abbrev candle : ℕ → Candle
candle n = record {
  symbol = "BTC/USDT";
  exchange = "binance";
  timeframe = "1h";
  timestamp = pos n;
  open_price = pos 100;
  high = pos 101;
  low = pos 99;
  close = pos (120 -ℕ n);
  volume = pos 1;
}

abbrev candles_to : ℕ → List Candle
candles_to zero = []
candles_to (suc n) = candle n ∷ candles_to n

abbrev blank : MarketAnalysis
blank = record {
  symbol = "";
  exchange = "";
  timestamp = pos 0;
  current_price = pos 0;
  indicators = [];
  ohlcv_data = [];
  metadata = record { market_regime = none; sentiment_score = none; sentiment_confidence = none };
}

abbrev analysis_of : Result MarketAnalysis → MarketAnalysis
analysis_of (ok a) = a
analysis_of (err e) = blank

-- No close is below the one before it.
steps : AllNonneg (deltas (map close_of (candles_to 20)))
unfolding deltas ◌-ℤ◌
steps = (
  refl,
  (
    refl,
    (
      refl,
      (
        refl,
        (
          refl,
          (
            refl,
            (
              refl,
              (
                refl,
                (
                  refl,
                  (
                    refl,
                    (refl, (refl, (refl, (refl, (refl, (refl, (refl, (refl, (refl, tt))))))))),
                  ),
                ),
              ),
            ),
          ),
        ),
      ),
    ),
  ),
)

-- 20 closes from 101 up to 120.
analyze_from_candles_rising_example :
    get_indicator
      (analysis_of (analyze_from_candles analyzer "BTC/USDT" "binance" (candles_to 20)))
      "rsi_14"
    ≡ some (pos 100)
unfolding analyze_from_candles make_analysis deltas ◌-ℤ◌
analyze_from_candles_rising_example =
    analyze_from_candles_rising integers-IsOrdered integers-IsMonotone integers-IsExact analyzer
      "BTC/USDT" "binance" (candles_to 20) _ refl steps
