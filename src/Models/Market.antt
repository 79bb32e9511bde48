-- ===== src/Models/Market.antt =====
-- src/trading_crew/models/market.py, as far as risk and execution read it.
use trading_crew.Prelude.{Option, Dict, lookup, String, List}
use trading_crew.Num.{Num, R}

module _ ⦃num : Num⦄ where
  pub record Ticker : Type 0 where
    pub symbol : String
    pub exchange : String
    pub bid : R
    pub ask : R
    pub last : R
    pub volume_24h : R
    pub timestamp : R

  pub record Candle : Type 0 where
    pub symbol : String
    pub exchange : String
    pub timeframe : String
    pub timestamp : R
    pub open_price : R
    pub high : R
    pub low : R
    pub close : R
    pub volume : R

  pub record MarketMetadata : Type 0 where
    pub market_regime : Option String
    pub sentiment_score : Option R
    pub sentiment_confidence : Option R

  pub record MarketAnalysis : Type 0 where
    pub symbol : String
    pub exchange : String
    pub timestamp : R
    pub current_price : R
    pub indicators : Dict R
    pub ohlcv_data : List Candle
    pub metadata : MarketMetadata

  unfoldable pub get_indicator : MarketAnalysis → String → Option R
  get_indicator a name = lookup name a.indicators
