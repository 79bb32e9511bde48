-- ===== src/Accounting/StopLoss.antt =====
-- The stop-loss sale of src/trading_crew/flows/trading_flow.py: it hands the execution service a SELL of the
-- whole position without a reservation, and a fill is reconciled as if there were one.
use trading_crew.Prelude.{◌≡◌, arith, insert-insert, insert_self}
use trading_crew.Num.{Num, R, ◌+◌, ◌-◌, ◌*◌, ◌<◌}
use trading_crew.Num.Laws.{IsOrdered, IsMonotone, IsExact}
use trading_crew.Num.Order.{not_le_of_lt}
use trading_crew.Num.Ring.{add-sub, sub-add-sub}
use trading_crew.Models.Order.{Order, total_fee}
use trading_crew.Models.Portfolio.{Position, Portfolio}
use trading_crew.Execution.Types.{dust}
use trading_crew.Execution.Reconcile.{sell_portfolio, fill_price_of}
use trading_crew.Accounting.Sell.{IsSaleOf, tentative_price_lem}

module _ ⦃num : Num⦄ (order : IsOrdered) (mono : IsMonotone) (exact : IsExact) where
  -- Over exact numbers, a SELL of a whole position above dust that was not reserved, filled in
  -- full at the requested positive price, leaves every position as it was and takes the fee from
  -- the cash: the sale credits nothing. Only the realised profit is booked.
  pub sell_portfolio_unreserved :
      (placed : Order) (price : R) (pos : Position) (p : Portfolio)
      → IsSaleOf placed.request price pos p
      → dust < pos.amount
      → placed.request.amount ≡ pos.amount
      → placed.filled_amount ≡ pos.amount
      → fill_price_of placed ≡ price
      → sell_portfolio placed p ≡ record p {
        balance_quote = p.balance_quote - total_fee placed;
        realized_pnl = p.realized_pnl + (price - pos.entry_price) * pos.amount;
      }
  unfolding sell_portfolio
  sell_portfolio_unreserved placed price pos p h sizable whole full at_price =
      let req = placed.request in
      let doubled = record pos { amount = pos.amount + pos.amount } in
      let proceeds = pos.amount * price in
      ground (
        arith,
        h.held,
        tentative_price_lem order mono exact placed price h.priced h.price_pos,
        insert-insert req.symbol pos doubled p.positions,
        insert_self req.symbol pos p.positions h.held,
        add-sub exact pos.amount pos.amount,
        not_le_of_lt order dust pos.amount sizable,
        sub-add-sub exact p.balance_quote proceeds (total_fee placed),
      )
