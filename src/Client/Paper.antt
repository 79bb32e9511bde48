-- ===== src/Client/Paper.antt =====
-- The paper orders of src/trading_crew/services/exchange_service.py: `_simulate_order` and
-- `_get_market_fill_price`. The id and the time are drawn by the library, and given.
use trading_crew.Prelude.{Bool, if◌then◌else◌, ◌||◌, none, some, [], ◌∷◌, String}
use trading_crew.Num.{Num, R, ◌+◌, ◌-◌, ◌*◌, ◌/◌, ltb, leb, dec, zero_num, one}
use trading_crew.Models.Market.{Ticker}
use trading_crew.Models.Order.{OrderSide, OrderType, filled, OrderRequest, Order}
use trading_crew.Execution.Types.{default_fee_rate, quote_currency}
use trading_crew.Client.{Outcome, returned, failed, bad_value}

module _ ⦃num : Num⦄ where
  -- `self.DEFAULT_SLIPPAGE_BPS / 10_000`
  abbrev slippage_mult : R
  slippage_mult = dec 10 0 / dec 10000 0

  unfoldable pub base_price : Ticker → OrderSide → R
  base_price ticker OrderSide.buy = if ltb zero_num ticker.ask then ticker.ask else ticker.last
  base_price ticker OrderSide.sell = if ltb zero_num ticker.bid then ticker.bid else ticker.last

  abbrev slipped : OrderSide → R → R
  slipped OrderSide.buy price = price * (one + slippage_mult)
  slipped OrderSide.sell price = price * (one - slippage_mult)

  -- `_get_market_fill_price`, from the outcome of `fetch_ticker`.
  unfoldable pub market_fill_price : Outcome Ticker → OrderSide → Outcome R
  unfolding base_price
  market_fill_price (failed f) side = failed f
  market_fill_price (returned ticker) side =
      if leb (base_price ticker side) zero_num
      then failed bad_value
      else returned (slipped side (base_price ticker side))

  -- The price of the fill: a limit order is filled at its price.
  unfoldable pub paper_price : Outcome Ticker → OrderRequest → Outcome R
  unfolding market_fill_price
  paper_price ticker request = elim request.order_type [
    | OrderType.limit ↦ elim request.price [ none ↦ failed bad_value | some p ↦ returned p ]
    | OrderType.market ↦ market_fill_price ticker request.side
  ]

  abbrev paper_order : String → R → OrderRequest → R → Order
  paper_order id now request price = record {
    id = id;
    request = request;
    status = filled;
    filled_amount = request.amount;
    average_fill_price = some price;
    break_even_price = none;
    fills =
        record {
          price = price;
          amount = request.amount;
          fee = price * request.amount * default_fee_rate;
          fee_currency = quote_currency request.symbol;
          timestamp = now;
        }
        ∷ [];
    created_at = now;
    updated_at = now;
  }

  -- The checks of `OrderFill(...)` that pydantic makes; its error is a ValueError.
  abbrev is_bad_fill : OrderRequest → R → Bool
  is_bad_fill request price =
      leb price zero_num
      || leb request.amount zero_num
      || ltb (price * request.amount * default_fee_rate) zero_num

  -- `_simulate_order`
  unfoldable pub simulate_order : String → R → Outcome Ticker → OrderRequest → Outcome Order
  unfolding paper_price
  simulate_order id now ticker request = elim (paper_price ticker request) [
    | failed f ↦ failed f
    | returned price ↦
        if is_bad_fill request price
        then failed bad_value
        else returned (paper_order id now request price)
  ]
