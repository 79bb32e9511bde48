-- ===== src/Simulated.antt =====
-- src/trading_crew/services/simulated_exchange.py: the exchange that replays candles, as the interface that
-- the execution service is given. The number in an order's id is written by Python, a parameter.
pub mod Replay
pub mod Orders
use Prim.Native.Nat.{◌-◌ as ◌-ℕ◌}
use trading_crew.Prelude.{
  Bool, true, ◌&&◌, ◌||◌, if◌then◌else◌, Option, none, some, List, [], ◌∷◌, String, str_eq, Dict,
  lookup, insert, ℕ, suc, length, take, drop, get_elem?, Result, ok, err, validation, value_error,
  index_error, Action, pure, raise, gets, modify, from_result, ◌>>=◌, ◌>>◌,
}
use trading_crew.Num.{Num, R, ◌+◌, ◌-◌, ◌*◌, ltb, leb, dec, zero_num, one, round}
use trading_crew.Num.Int.{ltb_ℕ}
use trading_crew.Models.Order.{OrderSide, filled, OrderRequest, OrderFill, Order}
use trading_crew.Models.Market.{Candle, Ticker}
use trading_crew.Execution.Exchange.{RawStatus, MarketLimits, Exchange}

module _ ⦃num : Num⦄ where
  -- The arguments of the constructor, and how `f"sim-{n}"` writes a number.
  pub record SimulatedConfig : Type 0 where
    pub candles : List Candle
    pub symbol : String
    pub exchange_id : String
    pub fee_rate : R
    pub slippage_pct : R
    pub order_name : ℕ → String

  pub record SimulatedState : Type 0 where
    pub bar_index : ℕ
    pub orders : Dict RawStatus
    pub next_order_id : ℕ

  -- `SimulatedExchangeService(...)`
  unfoldable pub new_simulated : SimulatedConfig → Result SimulatedState
  new_simulated c = elim c.candles [
    | [] ↦ err value_error
    | x ∷ xs ↦ ok record { bar_index = 0; orders = []; next_order_id = 0 }
  ]

  -- `_SYNTHETIC_SPREAD`
  abbrev synthetic_spread : R
  synthetic_spread = dec 5 4

  module _ (c : SimulatedConfig) where
    -- `min(index, len(self._candles) - 1)`
    unfoldable pub advance_bar : ℕ → SimulatedState → SimulatedState
    advance_bar index s =
        let last = ◌-ℕ◌ (length c.candles) 1 in
        record s { bar_index = if ltb_ℕ last index then last else index }

    -- `_assert_symbol`, and what is done after it.
    abbrev pub for_symbol :
        {A : Type 0} → String → Action SimulatedState A → Action SimulatedState A
    for_symbol symbol m s = if str_eq symbol c.symbol then m s else (err value_error, s)

    -- `self._candles[self._bar_index]`
    unfoldable pub current_candle : SimulatedState → Option Candle
    current_candle s = get_elem? c.candles s.bar_index

    -- `self._candles[start : self._bar_index + 1]`
    unfoldable pub window : ℕ → ℕ → List Candle
    window bar limit = drop (◌-ℕ◌ (suc bar) limit) (take (suc bar) c.candles)

    unfoldable pub fetch_ohlcv : String → ℕ → Action SimulatedState (List Candle)
    unfolding window
    fetch_ohlcv symbol limit = for_symbol symbol (λ s. (ok (window s.bar_index limit), s))

    unfoldable pub ticker_of : String → Option Candle → Result Ticker
    ticker_of symbol none = err index_error
    ticker_of symbol (some candle) = ok record {
      symbol = symbol;
      exchange = c.exchange_id;
      bid = candle.close * (one - synthetic_spread);
      ask = candle.close * (one + synthetic_spread);
      last = candle.close;
      volume_24h = candle.volume;
      timestamp = candle.timestamp;
    }

    unfoldable pub fetch_ticker : String → Action SimulatedState Ticker
    unfolding ticker_of current_candle
    fetch_ticker symbol = for_symbol symbol (λ s. (ticker_of symbol (current_candle s), s))

    unfoldable pub fill_price : OrderSide → Candle → R
    fill_price OrderSide.buy candle = candle.close * (one + c.slippage_pct)
    fill_price OrderSide.sell candle = candle.close * (one - c.slippage_pct)

    unfoldable pub fill_of : OrderRequest → Candle → OrderFill
    unfolding fill_price
    fill_of request candle = record {
      price = fill_price request.side candle;
      amount = request.amount;
      fee = request.amount * fill_price request.side candle * c.fee_rate;
      fee_currency = "USDT";
      timestamp = candle.timestamp;
    }

    -- The checks of `OrderFill(...)` that pydantic makes.
    abbrev is_bad_fill : OrderFill → Bool
    is_bad_fill fill = leb fill.price zero_num || leb fill.amount zero_num || ltb fill.fee zero_num

    -- The order that `create_order` returns, under its id.
    unfoldable pub filled_order : String → OrderRequest → Candle → OrderFill → Order
    filled_order id request candle fill = record {
      id = id;
      request = request;
      status = filled;
      filled_amount = request.amount;
      average_fill_price = some fill.price;
      break_even_price = none;
      fills = fill ∷ [];
      created_at = candle.timestamp;
      updated_at = candle.timestamp;
    }

    unfoldable pub closed_status : OrderRequest → OrderFill → RawStatus
    closed_status request fill = record {
      status = some "closed";
      filled = some request.amount;
      average = some fill.price;
      price = none;
    }

    -- `create_order` at the current candle: the id is drawn before the fill is checked.
    unfoldable pub create_at : OrderRequest → Option Candle → Action SimulatedState Order
    unfolding fill_of filled_order closed_status
    create_at request none s = (err index_error, s)
    create_at request (some candle) s =
        let id = c.order_name (suc s.next_order_id) in
        let fill = fill_of request candle in
        if is_bad_fill fill
        then (err validation, record s { next_order_id = suc s.next_order_id })
        else (
          ok (filled_order id request candle fill),
          record s {
            next_order_id = suc s.next_order_id;
            orders = insert id (closed_status request fill) s.orders;
          },
        )

    unfoldable pub create_order : OrderRequest → Action SimulatedState Order
    unfolding create_at current_candle
    create_order request = for_symbol request.symbol (λ s. create_at request (current_candle s) s)

    abbrev status_or_closed : Option RawStatus → RawStatus
    status_or_closed (some raw) = raw
    status_or_closed none = record {
      status = some "closed";
      filled = some zero_num;
      average = some zero_num;
      price = none;
    }

    unfoldable pub fetch_order_status : String → String → Action SimulatedState RawStatus
    fetch_order_status id symbol = gets (λ s. status_or_closed (lookup id s.orders))

    abbrev cancelled_in : String → Option RawStatus → Dict RawStatus → Dict RawStatus
    cancelled_in id none d = d
    cancelled_in id (some raw) d = insert id (record raw { status = some "canceled" }) d

    unfoldable pub cancel_order : String → String → Action SimulatedState (Unit {0})
    cancel_order id symbol =
        modify (λ s. record s { orders = cancelled_in id (lookup id s.orders) s.orders })

    abbrev round_opt : Option R → ℕ → Option R
    round_opt none digits = none
    round_opt (some x) digits = some (round x digits)

    unfoldable pub normalize_order_precision :
        String → R → Option R → Action SimulatedState (R × Option R)
    normalize_order_precision symbol amount price = pure (round amount 8, round_opt price 2)

    unfoldable pub get_market_limits : String → Action SimulatedState MarketLimits
    get_market_limits symbol = pure (record {
      amount_min = some (dec 1 8);
      cost_min = some (dec 1 2);
      price_min = some (dec 1 8);
    })

    in_range : R → R → List Candle → List Candle
    in_range since until [] = []
    in_range since until (x ∷ xs) =
        let rest = in_range since until xs in
        if leb since x.timestamp && leb x.timestamp until then x ∷ rest else rest

    unfoldable pub fetch_ohlcv_range : String → R → R → Action SimulatedState (List Candle)
    unfolding in_range
    fetch_ohlcv_range symbol since until = for_symbol symbol (pure (in_range since until c.candles))

    -- `fetch_tickers_parallel`
    unfoldable pub fetch_tickers : List String → Action SimulatedState (List Ticker)
    unfolding fetch_ticker
    fetch_tickers [] = pure []
    fetch_tickers (symbol ∷ symbols) = do
      t ← fetch_ticker symbol
      ts ← fetch_tickers symbols
      pure (t ∷ ts)

  -- What the execution service calls.
  abbrev pub simulated : SimulatedConfig → Exchange
  simulated c = record {
    State = SimulatedState;
    exchange_id = c.exchange_id;
    is_paper = true;
    fetch_ticker = fetch_ticker c;
    create_order = create_order c;
    fetch_order_status = fetch_order_status c;
    cancel_order = cancel_order c;
    normalize_order_precision = normalize_order_precision c;
    get_market_limits = get_market_limits c;
  }
