-- ===== src/Risk/CircuitBreaker.antt =====
-- src/trading_crew/risk/circuit_breaker.py
pub mod Latch
use trading_crew.Prelude.{Bool, true, false, if◌then◌else◌, Option, none, some}
use trading_crew.Num.{Num, R, leb}
use trading_crew.Models.Portfolio.{Portfolio, drawdown_pct}
use trading_crew.Models.Risk.{RiskParams, TripReason, not_tripped, drawdown_exceeded}

module _ ⦃num : Num⦄ where
  pub record CircuitBreaker : Type 0 where
    pub max_drawdown_pct : R
    pub is_tripped : Bool
    pub tripped_at : Option R
    pub trip_reason : TripReason

  -- `CircuitBreaker(risk_params)`
  unfoldable pub new_breaker : RiskParams → CircuitBreaker
  new_breaker params = record {
    max_drawdown_pct = params.max_drawdown_pct;
    is_tripped = false;
    tripped_at = none;
    trip_reason = not_tripped;
  }

  abbrev trip : R → R → CircuitBreaker → CircuitBreaker
  trip now drawdown c = record c {
    is_tripped = true;
    tripped_at = some now;
    trip_reason = drawdown_exceeded drawdown c.max_drawdown_pct;
  }

  -- `check` at the time `now`: true if trading should halt.
  unfoldable pub check : R → Portfolio → CircuitBreaker → Bool × CircuitBreaker
  check now portfolio c =
      if c.is_tripped
      then (true, c)
      else if leb c.max_drawdown_pct (drawdown_pct portfolio)
      then (true, trip now (drawdown_pct portfolio) c)
      else (false, c)

  unfoldable pub reset : CircuitBreaker → CircuitBreaker
  reset c = record c { is_tripped = false; tripped_at = none; trip_reason = not_tripped }
