-- ===== src/Accounting/Buy.antt =====
-- A BUY: reserved, then filled.
use trading_crew.Prelude.{
  erase-insert_new, insert-insert, lookup-insert_self, ◌≡◌, true, Bool, some, none, arith, ok,
  lookup, insert,
}
use trading_crew.Num.{or_else, ◌/◌, Num, R, ◌+◌, ◌-◌, ◌*◌, ◌≤◌, ◌<◌, zero_num, opt_or}
use trading_crew.Num.Laws.{IsOrdered, IsMonotone, IsExact}
use trading_crew.Num.Order.{
  le_of_lt, lt_of_le_of_lt, lt_of_lt_of_le, not_le_of_lt, min_self_of_le, eqb_of_lt,
}
use trading_crew.Num.Ring.{sub_self, add-sub}
use trading_crew.Models.Order.{OrderSide, OrderRequest, Order, total_fee}
use trading_crew.Models.Portfolio.{Position, Portfolio, make_position}
use trading_crew.Num.{div_checked}
use trading_crew.Execution.Types.{dust}
use trading_crew.Execution.Reconcile.{undo_buy, reconcile_fill, fill_price_of, tentative_price_of}
use trading_crew.Cycle.Reserve.{reserve}

module _ ⦃num : Num⦄ where
  -- The position that a reservation, or a fill, of a BUY opens.
  abbrev pub opened : OrderRequest → R → R → Position
  opened req price amount = record {
    symbol = req.symbol;
    exchange = req.exchange;
    is_long = true;
    entry_price = price;
    amount = amount;
    current_price = price;
    stop_loss_price = req.stop_loss_price;
    take_profit_price = req.take_profit_price;
    strategy_name = req.strategy_name;
  }

  -- A BUY at a positive price and amount that the balance covers.
  pub record IsAffordableBuy (req : OrderRequest) (price : R) (p : Portfolio) : Type 0 where
    pub buys : req.side ≡ OrderSide.buy
    pub priced : req.price ≡ some price
    pub price_pos : zero_num < price
    pub amount_pos : zero_num < req.amount
    pub affordable : req.amount * price ≤ p.balance_quote

  module _ (order : IsOrdered) (exact : IsExact) where
    open exact use {mul_pos, mul-div, sub-add, add_zero}

    -- The reservation of an affordable BUY in a symbol without a position.
    pub reserve_new :
        (req : OrderRequest) (price : R) (p : Portfolio)
        → IsAffordableBuy req price p
        → lookup req.symbol p.positions ≡ none
        → reserve req p ≡ (
          ok tt,
          record p {
            balance_quote = p.balance_quote - req.amount * price;
            positions = insert req.symbol (opened req price req.amount) p.positions;
          },
        )
    unfolding reserve opt_or make_position
    reserve_new req price p h fresh =
        let notional_pos : zero_num < req.amount * price =
          mul_pos req.amount price h.amount_pos h.price_pos in
        ground (
          arith,
          fresh,
          eqb_of_lt order zero_num price h.price_pos,
          not_le_of_lt order zero_num price h.price_pos,
          not_le_of_lt order zero_num req.amount h.amount_pos,
          not_le_of_lt order zero_num (req.amount * price) notional_pos,
          min_self_of_le order (req.amount * price) p.balance_quote h.affordable,
          mul-div req.amount price h.price_pos,
        )

    module _ (mono : IsMonotone) where
      open mono use {dec_nonneg, le-add}

      -- Over exact numbers, undoing the reservation of an affordable BUY in a symbol without a
      -- position gives the portfolio back, to the last field.
      pub undo_buy-reserve_new :
          (req : OrderRequest) (price : R) (p : Portfolio)
          → IsAffordableBuy req price p
          → lookup req.symbol p.positions ≡ none
          → undo_buy req price (reserve req p).1 ≡ p
      unfolding undo_buy
      undo_buy-reserve_new req price p h fresh =
          let pos = opened req price req.amount in
          rw (reserve_new req price p h fresh) (
            ground (
              arith,
              lookup-insert_self req.symbol pos p.positions,
              erase-insert_new req.symbol pos p.positions fresh,
              sub_self exact req.amount,
              dec_nonneg 1 10,
              sub-add p.balance_quote (req.amount * price),
            ))

      -- Over exact numbers, a BUY at a positive price, for a positive amount that the balance
      -- covers, in a symbol without a position, which is reserved and then filled, leaves the
      -- portfolio as if the fill alone had been booked: the cash falls by the cost and the fee,
      -- the position has the filled amount at the fill's price, and the fee is counted. So it is
      -- for every fill of a positive amount at a positive price, whatever was requested.
      pub reconcile_fill-reserve_new :
          (guarded : Bool) (placed : Order) (price : R) (p : Portfolio)
          → IsAffordableBuy placed.request price p
          → lookup placed.request.symbol p.positions ≡ none
          → zero_num < fill_price_of placed
          → zero_num < placed.filled_amount
          → let req = placed.request in
            (reconcile_fill guarded placed (reserve req p).1).1 ≡ record p {
              balance_quote =
                  p.balance_quote
                  - (placed.filled_amount * fill_price_of placed + total_fee placed);
              positions =
                  insert req.symbol
                    (opened req (fill_price_of placed) placed.filled_amount)
                    p.positions;
              total_fees = p.total_fees + total_fee placed;
            }
      unfolding reconcile_fill make_position tentative_price_of opt_or
      reconcile_fill-reserve_new guarded placed price p h fresh price_pos filled_pos =
          let req = placed.request in
          let tentative : tentative_price_of placed ≡ price =
            ground (arith, h.priced, eqb_of_lt order zero_num price h.price_pos) in
          ground (
            arith,
            h.buys,
            tentative,
            undo_buy-reserve_new req price p h fresh,
            not_le_of_lt order zero_num (fill_price_of placed) price_pos,
            not_le_of_lt order zero_num placed.filled_amount filled_pos,
            fresh,
          )

      -- The position after the reservation of a BUY, but for the amount.
      abbrev averaged : OrderRequest → R → Position → Position
      averaged req price pos = record pos {
        entry_price =
            (pos.entry_price * pos.amount + price * req.amount) / (pos.amount + req.amount);
        current_price = price;
      }

      reserve_held :
          (req : OrderRequest) (price : R) (p : Portfolio) (pos : Position)
          → IsAffordableBuy req price p
          → lookup req.symbol p.positions ≡ some pos
          → zero_num < pos.amount
          → reserve req p ≡ (
            ok tt,
            record p {
              balance_quote = p.balance_quote - req.amount * price;
              positions =
                  insert req.symbol
                    (record (averaged req price pos) { amount = pos.amount + req.amount })
                    p.positions;
            },
          )
      unfolding reserve opt_or or_else div_checked
      reserve_held req price p pos h held positive =
          let notional_pos : zero_num < req.amount * price =
            mul_pos req.amount price h.amount_pos h.price_pos in
          let total_pos : zero_num < pos.amount + req.amount =
            lt_of_lt_of_le order zero_num pos.amount (pos.amount + req.amount) positive
              (le-add pos.amount req.amount (le_of_lt order zero_num req.amount h.amount_pos)) in
          ground (
            arith,
            held,
            eqb_of_lt order zero_num price h.price_pos,
            eqb_of_lt order zero_num (pos.amount + req.amount) total_pos,
            not_le_of_lt order zero_num req.amount h.amount_pos,
            not_le_of_lt order zero_num (req.amount * price) notional_pos,
            min_self_of_le order (req.amount * price) p.balance_quote h.affordable,
            mul-div req.amount price h.price_pos,
          )

      -- Over exact numbers, where the symbol has a position above dust already, undoing an
      -- affordable reservation restores the cash and the amount, but the position keeps the
      -- average entry price and the current price of the reservation.
      pub undo_buy-reserve_held :
          (req : OrderRequest) (price : R) (p : Portfolio) (pos : Position)
          → IsAffordableBuy req price p
          → lookup req.symbol p.positions ≡ some pos
          → dust < pos.amount
          → undo_buy req price (reserve req p).1
            ≡ record p { positions = insert req.symbol (averaged req price pos) p.positions }
      unfolding undo_buy
      undo_buy-reserve_held req price p pos h held sizable =
          let positive : zero_num < pos.amount =
            lt_of_le_of_lt order zero_num dust pos.amount (dec_nonneg 1 10) sizable in
          let grown = record (averaged req price pos) { amount = pos.amount + req.amount } in
          rw (reserve_held req price p pos h held positive) (
            ground (
              arith,
              lookup-insert_self req.symbol grown p.positions,
              insert-insert req.symbol (averaged req price pos) grown p.positions,
              add-sub exact pos.amount req.amount,
              not_le_of_lt order dust pos.amount sizable,
              sub-add p.balance_quote (req.amount * price),
            ))
