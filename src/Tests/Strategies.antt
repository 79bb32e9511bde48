-- ===== src/Tests/Strategies.antt =====
-- Strategies, the runner and the composite over decimals of four digits.
use Prim.Native.Nat.{ℕ, zero, suc, ◌≤◌ as ◌≤ℕ◌, ◌*◌ as ◌*ℕ◌}
use trading_crew.Prelude.{◌≡◌, refl, true, some, none, [], ◌∷◌, Dict, ok, length, arith}
use trading_crew.Num.{Num, dec, min, ◌/◌, ◌<◌}
use trading_crew.Num.Int.{div_scaled, mul_scaled, pos, ℤ, ◌+ℤ◌, ◌-ℤ◌}
use trading_crew.Num.Laws.{IsOrdered, IsMonotone}
use trading_crew.Num.Instances.{decimals, decimals-IsOrdered, decimals-IsMonotone}
use trading_crew.Models.Market.{MarketAnalysis}
use trading_crew.Models.Signal.{SignalType, SignalStrength}
use trading_crew.Models.Portfolio.{Portfolio}
use trading_crew.Uncertainty.{of_count}
use trading_crew.Strategies.{Runtime, Strategy, signal_of}
use trading_crew.Strategies.Single.{
  RsiLevels, ema_crossover, bollinger_bands, rsi_range, macd_crossover,
}
use trading_crew.Strategies.Sound.{IsOutcome, generate_signal-IsOutcome}
use trading_crew.Strategies.Runner.{StrategyRunner, evaluate_individual, judge, vote}
use trading_crew.Strategies.Kept.{
  evaluate_individual-vote_table, evaluate_individual-AllJustified, AllJustified, vote_table,
  all_kept,
}
use trading_crew.Strategies.Composite.{composite_signal}
use trading_crew.Strategies.Agree.{composite_of, unsigned_outcome, vote-composite_signal}

instance abbrev decimal_num : Num
decimal_num = decimals 10000

order : IsOrdered
order = decimals-IsOrdered 10000

mono : IsMonotone
mono = decimals-IsMonotone 10000 (omega arith)

abbrev whole : ℕ → ℤ
whole n = pos (n *ℕ 10000)

abbrev runtime : Runtime
runtime = record { format = λ template values. template; now = pos 0 }

abbrev analysis : MarketAnalysis
analysis = record {
  symbol = "BTC/USDT";
  exchange = "binance";
  timestamp = pos 0;
  current_price = whole 100;
  indicators = ("ema_fast", whole 99) ∷ ("ema_slow", whole 98) ∷ ("macd_histogram", whole 1) ∷ [];
  ohlcv_data = [];
  metadata = record { market_regime = none; sentiment_score = none; sentiment_confidence = none };
}

abbrev levels : RsiLevels
levels = record {
  rsi_oversold = whole 35;
  rsi_overbought = whole 65;
  range_low_pct = dec 2 1;
  range_high_pct = dec 8 1;
}

abbrev ema : Strategy
ema = ema_crossover runtime "ema_fast" "ema_slow"

-- A strategy that always sells.
abbrev seller : Strategy
seller = record {
  name = "seller";
  generate_signal = λ a.
      ok (some (signal_of runtime a "seller" SignalType.sell SignalStrength.weak (dec 6 1) "test"));
}

abbrev runner : StrategyRunner
runner = record {
  strategies = ema ∷ seller ∷ [];
  min_confidence = dec 5 1;
  ensemble = true;
  ensemble_threshold = dec 5 1;
}

abbrev analyses : Dict MarketAnalysis
analyses = ("BTC/USDT", analysis) ∷ []

abbrev portfolio : Portfolio
portfolio = record {
  positions = [];
  balance_quote = whole 1000;
  quote_currency = "USDT";
  realized_pnl = pos 0;
  total_fees = pos 0;
  peak_balance = whole 1000;
}

generate_signal-IsOutcome_example :
    IsOutcome order analysis (dec 95 2) (ema.generate_signal analysis)
    × IsOutcome order analysis
        (dec 95 2)
        ((bollinger_bands runtime (dec 1 1)).generate_signal analysis)
    × IsOutcome order analysis (dec 95 2) ((rsi_range runtime levels).generate_signal analysis)
    × IsOutcome order analysis
        (dec 85 2)
        ((macd_crossover runtime (pos 0)).generate_signal analysis)
generate_signal-IsOutcome_example =
    generate_signal-IsOutcome order runtime analysis "ema_fast" "ema_slow" (dec 1 1) levels (pos 0)

evaluate_individual-vote_table_example :
    evaluate_individual runner analyses (some portfolio) ≡ record {
      signals = all_kept (vote_table runner (some portfolio) analyses);
      votes = vote_table runner (some portfolio) analyses;
    }
evaluate_individual-vote_table_example =
    evaluate_individual-vote_table runner (some portfolio) analyses (refl, tt)

evaluate_individual-AllJustified_example :
    AllJustified
      (dec 5 1)
      (some portfolio)
      (evaluate_individual runner analyses (some portfolio)).votes
evaluate_individual-AllJustified_example =
    evaluate_individual-AllJustified runner (some portfolio) analyses (refl, tt)

-- The BUY of the crossover is kept, and the SELL of a symbol that is not held is not.
kept_run : length (evaluate_individual runner analyses (some portfolio)).signals ≡ 1
unfolding evaluate_individual judge signal_of ema_crossover min ◌+ℤ◌ mul_scaled div_scaled ◌-ℤ◌
kept_run = refl

resolved : (k : ℕ) → suc k ≤ℕ 2 → of_count 0 / of_count 2 < of_count (suc k) / of_count 2
unfolding div_scaled
resolved zero h = refl
resolved (suc zero) h = refl
resolved (suc (suc k)) h = absurd (omega arith)

vote-composite_signal_example :
    unsigned_outcome (vote runtime runner analysis none).1
    ≡ unsigned_outcome (composite_signal runtime (composite_of runner) analysis)
vote-composite_signal_example = vote-composite_signal order mono runtime runner analysis resolved
