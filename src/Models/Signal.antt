-- ===== src/Models/Signal.antt =====
-- src/trading_crew/models/signal.py. The free-form metadata of a signal is left out.
use trading_crew.Prelude.{Bool, true, false, Option, String}
use trading_crew.Num.{Num, R}

pub data SignalType : Type 0 where
  buy sell hold : SignalType

pub data SignalStrength : Type 0 where
  strong moderate weak : SignalStrength

module _ ⦃num : Num⦄ where
  pub record TradeSignal : Type 0 where
    pub symbol : String
    pub exchange : String
    pub signal_type : SignalType
    pub strength : SignalStrength
    pub confidence : R
    pub strategy_name : String
    pub entry_price : R
    pub stop_loss_price : Option R
    pub take_profit_price : Option R
    pub reason : String
    pub timestamp : R

  abbrev is_hold : SignalType → Bool
  is_hold hold = true
  is_hold _ = false

  unfoldable pub is_actionable : TradeSignal → Bool
  is_actionable s = elim (is_hold s.signal_type) [ true ↦ false | false ↦ true ]

  pub record StrategyVote : Type 0 where
    pub strategy_name : String
    pub symbol : String
    pub signal : Option TradeSignal
    pub filtered_reason : Option String
