-- ===== src/Strategies.antt =====
-- src/trading_crew/strategies/base.py, and the construction of a signal in each strategy. Metadata is
-- left out of a signal; the formatting of `reason` is Python's, and a parameter.
pub mod Single
pub mod Sound
pub mod Kept
pub mod Agree
pub mod Runner
pub mod Composite
use trading_crew.Prelude.{
  Bool, ◌||◌, if◌then◌else◌, Option, none, some, List, String, ℕ, Result, ok, err, validation,
}
use trading_crew.Num.{Num, R, ltb, leb, zero_num, one}
use trading_crew.Models.Signal.{SignalType, SignalStrength, TradeSignal}
use trading_crew.Models.Market.{MarketAnalysis}

module _ ⦃num : Num⦄ where
  -- What a strategy's texts are formatted from.
  pub data Value : Type 0 where
    number : R → Value
    count : ℕ → Value
    text : String → Value

  -- The f-strings of `reason`, and the time of `datetime.now(UTC)`.
  pub record Runtime : Type 0 where
    pub format : String → List Value → String
    pub now : R

  -- `BaseStrategy`: what `generate_signal` returns, or raises.
  pub record Strategy : Type 0 where
    pub name : String
    pub generate_signal : MarketAnalysis → Result (Option TradeSignal)

  -- `TradeSignal(...)`, with pydantic's checks of the fields.
  unfoldable pub make_signal : TradeSignal → Result TradeSignal
  make_signal s =
      if ltb s.confidence zero_num || ltb one s.confidence || leb s.entry_price zero_num
      then err validation
      else ok s

  -- The signal that the strategy `name` gives of an analysis.
  unfoldable pub signal_of :
      Runtime → MarketAnalysis → String → SignalType → SignalStrength → R → String → TradeSignal
  signal_of rt a name direction strength confidence reason = record {
    symbol = a.symbol;
    exchange = a.exchange;
    signal_type = direction;
    strength = strength;
    confidence = confidence;
    strategy_name = name;
    entry_price = a.current_price;
    stop_loss_price = none;
    take_profit_price = none;
    reason = reason;
    timestamp = rt.now;
  }

  -- `return TradeSignal(...)`
  unfoldable pub give : TradeSignal → Result (Option TradeSignal)
  unfolding make_signal
  give s = elim (make_signal s) [ ok s' ↦ ok (some s') | err e ↦ err e ]
