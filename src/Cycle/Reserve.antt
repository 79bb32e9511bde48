-- ===== src/Cycle/Reserve.antt =====
-- The tentative reservations of a cycle: `_apply_single_order_to_portfolio` and `_rollback_portfolio` of
-- src/trading_crew/main.py.
use trading_crew.Prelude.{
  true, if◌then◌else◌, Option, none, some, List, [], ◌∷◌, lookup, erase, Action, pure, gets, modify,
  from_result, ◌>>=◌, ◌>>◌,
}
use trading_crew.Num.{Num, R, ◌+◌, ◌-◌, ◌*◌, ◌/◌, ltb, leb, zero_num, min, opt_or, or_else}
use trading_crew.Models.Order.{OrderSide, OrderRequest}
use trading_crew.Models.Portfolio.{Position, Portfolio, make_position}
use trading_crew.Num.{div_checked}
use trading_crew.Execution.Types.{}
use trading_crew.Execution.Reconcile.{add_balance, take_balance, put_position}

module _ ⦃num : Num⦄ where
  book_reserved : OrderRequest → R → R → Option Position → Action Portfolio (Unit {0})
  book_reserved req price amount none = do
    pos ← from_result (
        make_position (record {
          symbol = req.symbol;
          exchange = req.exchange;
          is_long = true;
          entry_price = price;
          amount = amount;
          current_price = price;
          stop_loss_price = req.stop_loss_price;
          take_profit_price = req.take_profit_price;
          strategy_name = req.strategy_name;
        }))
    modify (put_position req.symbol pos)
  book_reserved req price amount (some pos) = do
    let total = pos.amount + amount
    entry ← from_result (div_checked (pos.entry_price * pos.amount + price * amount) total)
    modify (
        put_position req.symbol (record pos {
          amount = total;
          entry_price = entry;
          current_price = or_else price pos.current_price;
        }))

  -- The BUY branch, from the price and the balance that it finds.
  reserve_buy : OrderRequest → R → R → Action Portfolio (Unit {0})
  unfolding book_reserved
  reserve_buy req price balance =
      let affordable : R = min (req.amount * price) balance in
      let amount : R = if ltb zero_num price then affordable / price else zero_num in
      if leb affordable zero_num then pure tt else do
        modify (take_balance affordable)
        pos ← gets (λ p. lookup req.symbol p.positions)
        if leb amount zero_num then pure tt else book_reserved req price amount pos

  -- The SELL branch at the position that it finds.
  abbrev reserve_sell : OrderRequest → R → Option Position → Portfolio → Portfolio
  reserve_sell req price none p = p
  reserve_sell req price (some pos) p =
      let sold : R = min req.amount pos.amount in
      let credited = add_balance (sold * price) p in
      if leb (pos.amount - sold) zero_num
      then record credited { positions = erase req.symbol p.positions }
      else put_position req.symbol (record pos { amount = pos.amount - sold }) credited

  -- `_apply_single_order_to_portfolio`
  unfoldable pub reserve : OrderRequest → Action Portfolio (Unit {0})
  unfolding reserve_buy
  reserve req =
      let price : R = opt_or req.price zero_num in
      elim req.side [
        | OrderSide.buy ↦ do balance ← gets (λ p. p.balance_quote); reserve_buy req price balance
        | OrderSide.sell ↦ modify (λ p. reserve_sell req price (lookup req.symbol p.positions) p)
      ]

  -- `_rollback_portfolio`, from the snapshot and the requests of the cycle.
  unfoldable pub rollback : Option Portfolio → List OrderRequest → Portfolio → Portfolio
  rollback none requests p = p
  rollback (some saved) [] p = p
  rollback (some saved) (req ∷ more) p = record p {
    balance_quote = saved.balance_quote;
    positions = saved.positions;
    peak_balance = saved.peak_balance;
  }
