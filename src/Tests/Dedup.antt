-- ===== src/Tests/Dedup.antt =====
-- Merged requests over the integers.
use trading_crew.Prelude.{◌≡◌, refl, true, none, some, [], ◌∷◌, List}
use trading_crew.Num.{Num, min}
use trading_crew.Num.Int.{ℤ, pos}
use trading_crew.Num.Instances.{integers, integers-IsOrdered}
use trading_crew.Models.Order.{OrderSide, OrderType, OrderRequest}
use trading_crew.Models.Portfolio.{Portfolio}
use trading_crew.Cycle.Dedup.{dedup_sell_orders, split_orders, cap_sells}
use trading_crew.Cycle.Dedup.OneSell.{count_sells, has_sell, count-dedup_sell_orders}
use trading_crew.Cycle.Dedup.Sides.{all_covered, all_covered-dedup_sell_orders}

instance abbrev int_num : Num
int_num = integers

abbrev request : OrderSide → ℤ → OrderRequest
request side amount = record {
  symbol = "BTC";
  exchange = "binance";
  side = side;
  order_type = OrderType.market;
  amount = amount;
  price = some (pos 100);
  stop_loss_price = none;
  take_profit_price = none;
  strategy_name = "ema";
  signal_confidence = pos 1;
}

-- 5 BTC are held.
abbrev portfolio : Portfolio
portfolio = record {
  positions =
      (
        "BTC",
        record {
          symbol = "BTC";
          exchange = "binance";
          is_long = true;
          entry_price = pos 80;
          amount = pos 5;
          current_price = pos 80;
          stop_loss_price = none;
          take_profit_price = none;
          strategy_name = "ema";
        },
      )
      ∷ [];
  balance_quote = pos 1000;
  quote_currency = "USDT";
  realized_pnl = pos 0;
  total_fees = pos 0;
  peak_balance = pos 1000;
}

abbrev requests : List OrderRequest
requests =
    request OrderSide.sell (pos 3)
    ∷ request OrderSide.buy (pos 1)
    ∷ request OrderSide.sell (pos 7)
    ∷ []

-- The larger SELL, for what is held, after the BUY.
dedup_run :
    dedup_sell_orders requests portfolio
    ≡ request OrderSide.buy (pos 1) ∷ request OrderSide.sell (pos 5) ∷ []
unfolding dedup_sell_orders split_orders cap_sells min
dedup_run = refl

count-dedup_sell_orders_example : count_sells "BTC" (dedup_sell_orders requests portfolio) ≡ 1
unfolding has_sell
count-dedup_sell_orders_example = count-dedup_sell_orders "BTC" requests portfolio

all_covered-dedup_sell_orders_example :
    all_covered portfolio (dedup_sell_orders requests portfolio) ≡ true
all_covered-dedup_sell_orders_example =
    all_covered-dedup_sell_orders integers-IsOrdered requests portfolio
