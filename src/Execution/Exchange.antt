-- ===== src/Execution/Exchange.antt =====
-- The exchange, as the execution service is given it: what it calls of `ExchangeService`, or of the
-- `SimulatedExchangeService` that stands in for it. A call can raise, and changes the exchange's own state.
use trading_crew.Prelude.{Bool, Option, String, Result}
use trading_crew.Num.{Num, R}
use trading_crew.Models.Order.{OrderRequest, Order}
use trading_crew.Models.Market.{Ticker}

module _ ⦃num : Num⦄ where
  -- The entries that the service reads of the dict that `fetch_order_status` returns.
  pub record RawStatus : Type 0 where
    pub status : Option String
    pub filled : Option R
    pub average : Option R
    pub price : Option R

  pub record MarketLimits : Type 0 where
    pub amount_min : Option R
    pub cost_min : Option R
    pub price_min : Option R

  pub record Exchange : Type 1 where
    pub State : Type 0
    pub exchange_id : String
    pub is_paper : Bool
    pub fetch_ticker : String → State → Result Ticker × State
    pub create_order : OrderRequest → State → Result Order × State
    pub fetch_order_status : String → String → State → Result RawStatus × State
    pub cancel_order : String → String → State → Result (Unit {0}) × State
    pub normalize_order_precision : String → R → Option R → State → Result (R × Option R) × State
    pub get_market_limits : String → State → Result MarketLimits × State
