-- ===== src/Execution/Incremental.antt =====
-- `ExecutionService._reconcile_incremental_fill`, over the portfolio.
use trading_crew.Prelude.{
  true, if◌then◌else◌, Option, none, some, String, lookup, Action, gets, modify, from_result, ◌>>=◌,
  ◌>>◌,
}
use trading_crew.Num.{Num, R, ◌+◌, ◌-◌, ◌*◌, ltb, zero_num}
use trading_crew.Models.Order.{OrderSide}
use trading_crew.Models.Portfolio.{Position, Portfolio, make_position}
use trading_crew.Num.{div_checked}
use trading_crew.Execution.Types.{default_fee_rate}
use trading_crew.Execution.Reconcile.{add_balance, take_balance, put_position, shrink_to}

module _ ⦃num : Num⦄ where
  -- A BUY without a reservation. Only a new position is paid for.
  add_delta : String → String → R → R → Option Position → Action Portfolio (Unit {0})
  add_delta exchange_id symbol delta price none = do
    pos ← from_result (
        make_position (record {
          symbol = symbol;
          exchange = exchange_id;
          is_long = true;
          entry_price = price;
          amount = delta;
          current_price = price;
          stop_loss_price = none;
          take_profit_price = none;
          strategy_name = "";
        }))
    modify (put_position symbol pos)
    modify (take_balance (price * delta))
  add_delta exchange_id symbol delta price (some pos) = do
    let total = pos.amount + delta
    entry ← from_result (div_checked (pos.entry_price * pos.amount + price * delta) total)
    modify (
        put_position symbol
          (record pos { amount = total; entry_price = entry; current_price = price }))

  abbrev remove_delta : String → R → R → Option Position → Portfolio → Portfolio
  remove_delta symbol delta price none p = p
  remove_delta symbol delta price (some pos) p =
      let shrunk = shrink_to symbol (pos.amount - delta) pos p in
      record shrunk { realized_pnl = shrunk.realized_pnl + (price - pos.entry_price) * delta }

  -- `fill_price * delta_amount * _DEFAULT_FEE_RATE`
  abbrev pub delta_fee : R → R → R
  delta_fee price delta = price * delta * default_fee_rate

  unfoldable pub reconcile_incremental_fill :
      String → String → OrderSide → R → R → R → Action Portfolio (Unit {0})
  unfolding add_delta
  reconcile_incremental_fill exchange_id symbol side delta price requested_price = do
    let fee = delta_fee price delta
    pos ← gets (λ p. lookup symbol p.positions)
    elim side [
      | OrderSide.buy ↦
          if ltb zero_num requested_price
          then modify (add_balance (delta * (requested_price - price) - fee))
          else (add_delta exchange_id symbol delta price pos >> modify (take_balance fee))
      | OrderSide.sell ↦
          if ltb zero_num requested_price
          then modify (add_balance (delta * (price - requested_price) - fee))
          else (modify (remove_delta symbol delta price pos)
              >> modify (add_balance (price * delta - fee)))
    ]
    modify (λ p. record p { total_fees = p.total_fees + fee })
