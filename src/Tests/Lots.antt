-- ===== src/Tests/Lots.antt =====
-- The matching of sells with lots over the integers.
use trading_crew.Prelude.{◌≡◌, refl, none, some, [], ◌∷◌, List, map}
use trading_crew.Num.{Num, ◌+◌, ◌≤◌, sum, min}
use trading_crew.Num.Int.{pos, ◌-ℤ◌, ◌*ℤ◌}
use trading_crew.Num.Instances.{integers, integers-IsOrdered, integers-IsMonotone, integers-IsExact}
use trading_crew.Models.Order.{OrderSide, OrderType, filled}
use trading_crew.Execution.Types.{OrderRecord}
use trading_crew.Backtest.Lots.{
  BuyLot, Matching, match_sell, match_lots, match_lot, matched_trade, use_lot, entry_fee_share,
  nearest_from,
}
use trading_crew.Backtest.Fifo.{matched_amount, trade_amount, IsUsedUp, match_sell-IsSplit}

instance abbrev int_num : Num
int_num = integers

abbrev lots : List BuyLot
lots =
    record {
      amount = pos 3;
      price = pos 10;
      fee = pos 0;
      strategy_name = "ema";
      created_at = pos 1;
    }
    ∷ record {
      amount = pos 4;
      price = pos 20;
      fee = pos 0;
      strategy_name = "rsi";
      created_at = pos 2;
    }
    ∷ []

abbrev sale : OrderRecord
sale = record {
  exchange_order_id = "sim-3";
  symbol = "BTC/USDT";
  exchange = "binance";
  side = OrderSide.sell;
  order_type = OrderType.market;
  status = filled;
  requested_amount = pos 5;
  filled_amount = pos 5;
  requested_price = none;
  average_fill_price = some (pos 30);
  stop_loss_price = none;
  take_profit_price = none;
  total_fee = pos 0;
  break_even_price = none;
  strategy_name = "ema";
  signal_confidence = pos 1;
  created_at = pos 3;
  updated_at = pos 3;
}

abbrev matching : Matching
matching = match_sell [] sale lots []

match_sell-IsSplit_example :
    ((matched_amount matching.trades + matching.remaining ≡ pos 0 + pos 5)
      × (pos 0 ≤ matching.remaining))
    × IsUsedUp matching
unfolding sum
match_sell-IsSplit_example =
    match_sell-IsSplit integers-IsOrdered integers-IsMonotone integers-IsExact [] sale lots [] refl

-- The first lot is used up, and the second one in part.
matched_in_order : map trade_amount matching.trades ≡ pos 3 ∷ pos 2 ∷ []
unfolding match_sell match_lots match_lot matched_trade use_lot entry_fee_share nearest_from min
    ◌-ℤ◌ ◌*ℤ◌
matched_in_order = refl
