-- ===== src/Accounting/Sell.antt =====
-- A SELL: reserved, then filled.
use trading_crew.Prelude.{
  ◌≡◌, some, arith, ok, lookup, insert, erase, lookup-insert_self, insert-insert, insert_self,
  lookup-erase_self, HasUniqueKeys,
}
use trading_crew.Num.{Num, R, ◌+◌, ◌-◌, ◌*◌, ◌<◌, zero_num, opt_or}
use trading_crew.Num.Laws.{IsOrdered, IsMonotone, IsExact}
use trading_crew.Num.Order.{not_le_of_lt, min_self_of_le, eqb_of_lt, le_of_lt}
use trading_crew.Num.Ring.{sub_self, add-sub}
use trading_crew.Models.Order.{OrderSide, OrderRequest, Order, total_fee}
use trading_crew.Models.Portfolio.{Position, Portfolio}
use trading_crew.Execution.Reconcile.{sell_portfolio, fill_price_of, tentative_price_of, shrink_to}
use trading_crew.Cycle.Reserve.{reserve}

module _ ⦃num : Num⦄ where
  -- A SELL at a positive price, of a symbol that is held.
  pub record IsSaleOf (req : OrderRequest) (price : R) (pos : Position) (p : Portfolio)
      : Type 0 where
    pub sells : req.side ≡ OrderSide.sell
    pub priced : req.price ≡ some price
    pub price_pos : zero_num < price
    pub held : lookup req.symbol p.positions ≡ some pos

  -- The portfolio once a fill of the order has been booked on the position, and nothing else.
  abbrev pub sold : Order → Position → Portfolio → Portfolio
  sold placed pos p =
      shrink_to placed.request.symbol (pos.amount - placed.filled_amount) pos (record p {
        balance_quote =
            p.balance_quote + (placed.filled_amount * fill_price_of placed - total_fee placed);
        realized_pnl =
            p.realized_pnl + (fill_price_of placed - pos.entry_price) * placed.filled_amount;
      })

  module _ (order : IsOrdered) (mono : IsMonotone) (exact : IsExact) where
    open mono use {sub_pos}
    open exact use {sub-add}

    pub tentative_price_lem :
        (placed : Order) (price : R)
        → placed.request.price ≡ some price
        → zero_num < price
        → tentative_price_of placed ≡ price
    unfolding tentative_price_of opt_or
    tentative_price_lem placed price priced positive =
        ground (arith, eqb_of_lt order zero_num price positive)

    pub reserve_part :
        (req : OrderRequest) (price : R) (pos : Position) (p : Portfolio)
        → IsSaleOf req price pos p
        → req.amount < pos.amount
        → reserve req p ≡ (
          ok tt,
          record p {
            balance_quote = p.balance_quote + req.amount * price;
            positions =
                insert req.symbol (record pos { amount = pos.amount - req.amount }) p.positions;
          },
        )
    unfolding reserve opt_or
    reserve_part req price pos p h part = ground (
      arith,
      h.held,
      eqb_of_lt order zero_num price h.price_pos,
      min_self_of_le order req.amount pos.amount (le_of_lt order req.amount pos.amount part),
      not_le_of_lt order zero_num (pos.amount - req.amount) (sub_pos pos.amount req.amount part),
    )

    -- Over exact numbers, a SELL at a positive price of less than the position, which is reserved
    -- and then filled, leaves the portfolio as if the fill alone had been booked: the proceeds
    -- less the fee, the profit against the entry price, and the position less the filled amount,
    -- or no position if that leaves dust.
    pub sell_portfolio-reserve_part :
        (placed : Order) (price : R) (pos : Position) (p : Portfolio)
        → IsSaleOf placed.request price pos p
        → placed.request.amount < pos.amount
        → sell_portfolio placed (reserve placed.request p).1 ≡ sold placed pos p
    unfolding sell_portfolio
    sell_portfolio-reserve_part placed price pos p h part =
        let req = placed.request in
        let less = record pos { amount = pos.amount - req.amount } in
        rw (reserve_part req price pos p h part) (
          ground (
            arith,
            tentative_price_lem placed price h.priced h.price_pos,
            lookup-insert_self req.symbol less p.positions,
            insert-insert req.symbol pos less p.positions,
            insert_self req.symbol pos p.positions h.held,
            sub-add pos.amount req.amount,
            add-sub exact p.balance_quote (req.amount * price),
          ))

    pub reserve_whole :
        (req : OrderRequest) (price : R) (pos : Position) (p : Portfolio)
        → IsSaleOf req price pos p
        → req.amount ≡ pos.amount
        → reserve req p ≡ (
          ok tt,
          record p {
            balance_quote = p.balance_quote + req.amount * price;
            positions = erase req.symbol p.positions;
          },
        )
    unfolding reserve opt_or
    reserve_whole req price pos p h whole = ground (
      arith,
      h.held,
      eqb_of_lt order zero_num price h.price_pos,
      min_self_of_le order req.amount pos.amount (rw whole (order.le_refl pos.amount)),
      sub_self exact pos.amount,
      order.le_refl zero_num,
    )

    -- Over exact numbers, a SELL of a whole position at a positive price that is reserved and then
    -- filled books the proceeds less the fee, and the position is gone whatever part of it was
    -- filled; the realised profit does not change.
    pub sell_portfolio-reserve_whole :
        (placed : Order) (price : R) (pos : Position) (p : Portfolio)
        → IsSaleOf placed.request price pos p
        → HasUniqueKeys p.positions
        → placed.request.amount ≡ pos.amount
        → sell_portfolio placed (reserve placed.request p).1 ≡ record p {
          balance_quote =
              p.balance_quote + (placed.filled_amount * fill_price_of placed - total_fee placed);
          positions = erase placed.request.symbol p.positions;
        }
    unfolding sell_portfolio
    sell_portfolio-reserve_whole placed price pos p h unique whole =
        let req = placed.request in
        rw (reserve_whole req price pos p h whole) (
          ground (
            arith,
            tentative_price_lem placed price h.priced h.price_pos,
            lookup-erase_self req.symbol p.positions unique,
            add-sub exact p.balance_quote (req.amount * price),
          ))
