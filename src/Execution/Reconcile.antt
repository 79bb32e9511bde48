-- ===== src/Execution/Reconcile.antt =====
-- `ExecutionService._reconcile_fill` and what it calls. Its state is the portfolio; what it returns is
-- the order, with its break-even price set, and the messages that it sends.
use trading_crew.Prelude.{
  Bool, true, false, if◌then◌else◌, Option, none, some, List, [], ◌∷◌, String, lookup, insert,
  erase, is_some, not, ◌&&◌, Action, pure, gets, modify, from_result, ◌>>=◌, ◌>>◌,
}
use trading_crew.Num.{Num, R, ◌+◌, ◌-◌, ◌*◌, ◌/◌, ltb, leb, zero_num, opt_or, opt_or_opt}
use trading_crew.Models.Order.{OrderSide, OrderStatus, filled, OrderRequest, Order, total_fee}
use trading_crew.Models.Portfolio.{Position, Portfolio, make_position}
use trading_crew.Num.{div_checked}
use trading_crew.Execution.Types.{dust, Notice, guard_reset}

module _ ⦃num : Num⦄ where
  -- `_compute_break_even`
  unfoldable pub compute_break_even : Order → Option R
  compute_break_even order =
      if ltb zero_num order.filled_amount
      then elim order.average_fill_price [
        | none ↦ none
        | some price ↦ some (price + total_fee order / order.filled_amount)
      ]
      else none

  abbrev pub add_balance : R → Portfolio → Portfolio
  add_balance x p = record p { balance_quote = p.balance_quote + x }

  abbrev pub take_balance : R → Portfolio → Portfolio
  take_balance x p = record p { balance_quote = p.balance_quote - x }

  abbrev pub put_position : String → Position → Portfolio → Portfolio
  put_position symbol pos p = record p { positions = insert symbol pos p.positions }

  -- A position whose amount became `remaining`: dropped if that is dust.
  abbrev pub shrink_to : String → R → Position → Portfolio → Portfolio
  shrink_to symbol remaining pos p =
      if leb remaining dust
      then record p { positions = erase symbol p.positions }
      else put_position symbol (record pos { amount = remaining }) p

  abbrev pub reduce_position : String → R → Option Position → Portfolio → Portfolio
  reduce_position symbol amount none p = p
  reduce_position symbol amount (some pos) p = shrink_to symbol (pos.amount - amount) pos p

  -- `average_fill_price or req.price or 0.0`
  unfoldable pub fill_price_of : Order → R
  fill_price_of order = opt_or (opt_or_opt order.average_fill_price order.request.price) zero_num

  -- `req.price or fill_price`
  unfoldable pub tentative_price_of : Order → R
  tentative_price_of order = opt_or order.request.price (fill_price_of order)

  -- A BUY, step 1: the reservation is reversed.
  unfoldable pub undo_buy : OrderRequest → R → Portfolio → Portfolio
  undo_buy req price p =
      let refunded = add_balance (req.amount * price) p in
      reduce_position req.symbol req.amount (lookup req.symbol p.positions) refunded

  -- A BUY, step 2: the fill is booked onto the position, or opens one.
  book_buy : Order → R → Option Position → Action Portfolio (Unit {0})
  book_buy order price none = do
    let req = order.request
    pos ← from_result (
        make_position (record {
          symbol = req.symbol;
          exchange = req.exchange;
          is_long = true;
          entry_price = price;
          amount = order.filled_amount;
          current_price = price;
          stop_loss_price = req.stop_loss_price;
          take_profit_price = req.take_profit_price;
          strategy_name = req.strategy_name;
        }))
    modify (put_position req.symbol pos)
  book_buy order price (some pos) = do
    let req = order.request
    let total = pos.amount + order.filled_amount
    entry ←
        from_result (div_checked (pos.entry_price * pos.amount + price * order.filled_amount) total)
    modify (
        put_position req.symbol (record pos {
          amount = total;
          entry_price = entry;
          current_price = price;
          stop_loss_price = opt_or_opt req.stop_loss_price pos.stop_loss_price;
          take_profit_price = opt_or_opt req.take_profit_price pos.take_profit_price;
        }))

  is_filled : OrderStatus → Bool
  is_filled filled = true
  is_filled _ = false

  reconcile_buy : Order → Action Portfolio Order
  unfolding book_buy is_filled
  reconcile_buy order = do
    let price = fill_price_of order
    let symbol = order.request.symbol
    modify (undo_buy order.request (tentative_price_of order))
    modify (take_balance (order.filled_amount * price + total_fee order))
    pos ← gets (λ p. lookup symbol p.positions)
    book_buy order price pos
    pure (
        if is_filled order.status
        then record order { break_even_price = compute_break_even order }
        else order)

  -- A SELL: the position as it was before the reservation, if that left one.
  abbrev restored : OrderRequest → Option Position → Option Position
  restored req none = none
  restored req (some pos) = some (record pos { amount = pos.amount + req.amount })

  -- Step 2 on the position: the profit is realised and the position shrinks by the fill.
  abbrev settle_sell : Order → R → Option Position → Portfolio → Portfolio
  settle_sell order price none p = p
  settle_sell order price (some pos) p =
      shrink_to order.request.symbol (pos.amount - order.filled_amount) pos (record p {
        realized_pnl = p.realized_pnl + (price - pos.entry_price) * order.filled_amount;
      })

  abbrev put_restored : String → Option Position → Portfolio → Portfolio
  put_restored symbol none p = p
  put_restored symbol (some pos) p = put_position symbol pos p

  unfoldable pub sell_portfolio : Order → Portfolio → Portfolio
  sell_portfolio order p =
      let req = order.request in
      let price : R = fill_price_of order in
      let pos : Option Position = restored req (lookup req.symbol p.positions) in
      let clawed = take_balance (req.amount * tentative_price_of order) p in
      let undone = put_restored req.symbol pos clawed in
      let credited = add_balance (order.filled_amount * price - total_fee order) undone in
      settle_sell order price pos credited

  -- `_reconcile_fill`; the flag is `anti_averaging_down_enabled`.
  unfoldable pub reconcile_fill : Bool → Order → Action Portfolio (Order × List Notice)
  unfolding reconcile_buy
  reconcile_fill guarded order = elim order.request.side [
    | OrderSide.buy ↦ do
      updated ← reconcile_buy order
      modify (λ p. record p { total_fees = p.total_fees + total_fee order })
      pure (updated, [])
    | OrderSide.sell ↦ do
      modify (sell_portfolio order)
      left ← gets (λ p. lookup order.request.symbol p.positions)
      modify (λ p. record p { total_fees = p.total_fees + total_fee order })
      pure (
        order,
        if not (is_some left) && guarded then guard_reset order.request.symbol ∷ [] else [],
      )
  ]
