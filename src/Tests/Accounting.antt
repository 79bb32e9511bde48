-- ===== src/Tests/Accounting.antt =====
-- Reservations, fills and cancellations over the integers.
use trading_crew.Prelude.{◌≡◌, refl, true, some, none, [], ◌∷◌, String, ok, Dict}
use trading_crew.Num.{Num, opt_or, opt_or_opt, sum}
use trading_crew.Num.Int.{ℤ, pos, ◌+ℤ◌, ◌-ℤ◌, ◌*ℤ◌, div_scaled}
use trading_crew.Num.Instances.{integers, integers-IsOrdered, integers-IsMonotone, integers-IsExact}
use trading_crew.Models.Order.{OrderSide, OrderType, OrderRequest, Order, filled, total_fee}
use trading_crew.Models.Portfolio.{Position, Portfolio}
use trading_crew.Execution.Reconcile.{reconcile_fill, sell_portfolio, fill_price_of}
use trading_crew.Execution.Incremental.{reconcile_incremental_fill}
use trading_crew.Execution.Release.{release_reservation}
use trading_crew.Database.{row_of}
use trading_crew.Cycle.Reserve.{reserve}
use trading_crew.Accounting.Buy.{IsAffordableBuy, opened, reconcile_fill-reserve_new}
use trading_crew.Accounting.Sell.{IsSaleOf, sell_portfolio-reserve_part}
use trading_crew.Accounting.Cancel.{
  release_reservation-reserve_new, release_reservation-reserve_whole,
}
use trading_crew.Accounting.StopLoss.{sell_portfolio_unreserved}
use trading_crew.Accounting.Partial.{incremental_buy_held, release_reservation_partial}

instance abbrev int_num : Num
int_num = integers

abbrev btc : String
btc = "BTC/USDT"

abbrev position : ℤ → ℤ → Position
position price amount = record {
  symbol = btc;
  exchange = "binance";
  is_long = true;
  entry_price = price;
  amount = amount;
  current_price = price;
  stop_loss_price = none;
  take_profit_price = none;
  strategy_name = "ema";
}

abbrev portfolio : ℤ → Dict Position → Portfolio
portfolio balance positions = record {
  positions = positions;
  balance_quote = balance;
  quote_currency = "USDT";
  realized_pnl = pos 0;
  total_fees = pos 0;
  peak_balance = pos 1000;
}

abbrev request : OrderSide → ℤ → OrderRequest
request side amount = record {
  symbol = btc;
  exchange = "binance";
  side = side;
  order_type = OrderType.limit;
  amount = amount;
  price = some (pos 100);
  stop_loss_price = none;
  take_profit_price = none;
  strategy_name = "ema";
  signal_confidence = pos 1;
}

-- An order filled at the price, with a fee of 2.
abbrev filled_at : ℤ → ℤ → OrderRequest → Order
filled_at price amount req = record {
  id = "a1";
  request = req;
  status = filled;
  filled_amount = amount;
  average_fill_price = some price;
  break_even_price = none;
  fills =
      record {
        price = price;
        amount = amount;
        fee = pos 2;
        fee_currency = "USDT";
        timestamp = pos 0;
      }
      ∷ [];
  created_at = pos 0;
  updated_at = pos 0;
}

-- 1,000 in cash and nothing held; and the same with 5 held at 80.
abbrev cash : Portfolio
cash = portfolio (pos 1000) []

abbrev holding_five : Portfolio
holding_five = portfolio (pos 1000) ((btc, position (pos 80) (pos 5)) ∷ [])

abbrev buy_three : OrderRequest
buy_three = request OrderSide.buy (pos 3)

buy_three-IsAffordable : IsAffordableBuy buy_three (pos 100) cash
unfolding ◌*ℤ◌
buy_three-IsAffordable = record {
  buys = refl;
  priced = refl;
  price_pos = refl;
  amount_pos = refl;
  affordable = refl;
}

buy_three-IsAffordable_held : IsAffordableBuy buy_three (pos 100) holding_five
unfolding ◌*ℤ◌
buy_three-IsAffordable_held = record {
  buys = refl;
  priced = refl;
  price_pos = refl;
  amount_pos = refl;
  affordable = refl;
}

abbrev sale : ℤ → OrderRequest
sale amount = request OrderSide.sell amount

sale-IsSaleOf :
    (amount : ℤ) → IsSaleOf (sale amount) (pos 100) (position (pos 80) (pos 5)) holding_five
sale-IsSaleOf amount = record { sells = refl; priced = refl; price_pos = refl; held = refl }

-- Filled at 90: 1000 - (3 * 90 + 2) in cash.
reconcile_fill-reserve_new_example :
    (reconcile_fill true (filled_at (pos 90) (pos 3) buy_three) (reserve buy_three cash).1).1
    ≡ record (portfolio (pos 728) ((btc, opened buy_three (pos 90) (pos 3)) ∷ [])) {
      total_fees = pos 2;
    }
unfolding ◌+ℤ◌ ◌-ℤ◌ ◌*ℤ◌ total_fee fill_price_of opt_or opt_or_opt sum
reconcile_fill-reserve_new_example =
    reconcile_fill-reserve_new integers-IsOrdered integers-IsExact integers-IsMonotone true
      (filled_at (pos 90) (pos 3) buy_three) (pos 100) cash buy_three-IsAffordable refl refl refl

-- 2 of 5 sold at 90: 2 * 90 - 2 in, and a profit of 2 * (90 - 80).
sell_portfolio-reserve_part_example :
    sell_portfolio
      (filled_at (pos 90) (pos 2) (sale (pos 2)))
      (reserve (sale (pos 2)) holding_five).1
    ≡ record (portfolio (pos 1178) ((btc, position (pos 80) (pos 3)) ∷ [])) {
      realized_pnl = pos 20;
    }
unfolding ◌+ℤ◌ ◌-ℤ◌ ◌*ℤ◌ total_fee fill_price_of opt_or opt_or_opt sum
sell_portfolio-reserve_part_example =
    sell_portfolio-reserve_part integers-IsOrdered integers-IsMonotone integers-IsExact
      (filled_at (pos 90) (pos 2) (sale (pos 2))) (pos 100) (position (pos 80) (pos 5)) holding_five
      (sale-IsSaleOf (pos 2)) refl

-- The stop-loss sale of all 5 at 100: 498 should come in, and -2 does.
sell_portfolio_unreserved_example :
    sell_portfolio (filled_at (pos 100) (pos 5) (sale (pos 5))) holding_five
    ≡ record holding_five { balance_quote = pos 998; realized_pnl = pos 100 }
unfolding ◌+ℤ◌ ◌-ℤ◌ ◌*ℤ◌ total_fee fill_price_of opt_or opt_or_opt sum
sell_portfolio_unreserved_example =
    sell_portfolio_unreserved integers-IsOrdered integers-IsMonotone integers-IsExact
      (filled_at (pos 100) (pos 5) (sale (pos 5))) (pos 100) (position (pos 80) (pos 5))
      holding_five (sale-IsSaleOf (pos 5)) refl refl refl refl

release_reservation-reserve_new_example :
    release_reservation
      (row_of (filled_at (pos 90) (pos 3) buy_three))
      (pos 0)
      (reserve buy_three cash).1
    ≡ cash
release_reservation-reserve_new_example =
    release_reservation-reserve_new integers-IsOrdered integers-IsMonotone integers-IsExact
      (filled_at (pos 90) (pos 3) buy_three) (pos 100) cash buy_three-IsAffordable refl

-- The cancelled sale of all 5 leaves the cash and no position.
release_reservation-reserve_whole_example :
    release_reservation
      (row_of (filled_at (pos 90) (pos 5) (sale (pos 5))))
      (pos 0)
      (reserve (sale (pos 5)) holding_five).1
    ≡ cash
release_reservation-reserve_whole_example =
    release_reservation-reserve_whole integers-IsOrdered integers-IsMonotone integers-IsExact
      (filled_at (pos 90) (pos 5) (sale (pos 5))) (pos 100) (position (pos 80) (pos 5)) holding_five
      (sale-IsSaleOf (pos 5)) (refl, tt) refl refl refl

-- The rate of the fee, 0.001, is zero here. The cash is what it was.
incremental_buy_held_example :
    reconcile_incremental_fill "binance" btc OrderSide.buy (pos 3) (pos 100) (pos 0) holding_five
    ≡ (
      ok tt,
      portfolio
          (pos 1000)
          ((btc, record (position (pos 87) (pos 8)) { current_price = pos 100 }) ∷ []),
    )
unfolding ◌+ℤ◌ ◌-ℤ◌ ◌*ℤ◌ div_scaled
incremental_buy_held_example =
    incremental_buy_held integers-IsOrdered "binance" btc (pos 3) (pos 100)
      (position (pos 80) (pos 5)) holding_five refl refl

-- 2 of 3 at 90, and the third cancelled.
release_reservation_partial_example :
    let partly =
      (reconcile_incremental_fill "binance" btc OrderSide.buy
        (pos 2)
        (pos 90)
        (pos 100)
        (reserve buy_three cash).1).1 in
    release_reservation (row_of (filled_at (pos 90) (pos 3) buy_three)) (pos 2) partly
    ≡ portfolio (pos 820) ((btc, opened buy_three (pos 100) (pos 2)) ∷ [])
unfolding ◌+ℤ◌ ◌-ℤ◌ ◌*ℤ◌
release_reservation_partial_example =
    release_reservation_partial integers-IsOrdered integers-IsMonotone integers-IsExact
      (filled_at (pos 90) (pos 3) buy_three) "binance" (pos 100) (pos 2) (pos 90) cash
      buy_three-IsAffordable refl refl refl
