-- ===== src/Execution/Validate/Sound.antt =====
-- What a request that passes the validation satisfies.
use trading_crew.Prelude.{
  Returns, is_ok-Returns, ◌≡◌, some, none, arith, ok, lookup, Option-cases, inl, inr,
}
use trading_crew.Num.{Num, R, ◌*◌, ◌≤◌, ◌<◌, zero_num}
use trading_crew.Num.Laws.{IsOrdered}
use trading_crew.Num.Order.{le_of_not_lt}
use trading_crew.Models.Order.{OrderSide, OrderRequest}
use trading_crew.Models.Portfolio.{Portfolio, Position}
use trading_crew.Execution.Exchange.{Exchange}
use trading_crew.Execution.Validate.{
  validate_order, validation_price, check_balance, check_inventory,
}

module _ ⦃num : Num⦄ ⦃ex : Exchange⦄ (order : IsOrdered) where
  -- Over ordered numbers, a BUY that is validated at a positive price costs no more than the
  -- balance.
  pub validate_buy_covered :
      (req : OrderRequest) (portfolio sell_portfolio : Portfolio) (s : ex.State) (price : R)
      → req.side ≡ OrderSide.buy
      → (validate_order req portfolio sell_portfolio s).0 ≡ ok none
      → (validation_price req s).0 ≡ ok price
      → zero_num < price
      → req.amount * price ≤ portfolio.balance_quote
  unfolding validate_order check_balance
  validate_buy_covered req portfolio sell_portfolio s price buys valid priced positive =
      ground (arith, le_of_not_lt order portfolio.balance_quote (req.amount * price))

  -- Over ordered numbers, a SELL that is validated is of a position in the portfolio that it is
  -- checked against, and of no more than its amount.
  pub validate_sell_held :
      (req : OrderRequest) (portfolio sell_portfolio : Portfolio) (s : ex.State)
      → req.side ≡ OrderSide.sell
      → (validate_order req portfolio sell_portfolio s).0 ≡ ok none
      → (pos : Position) × (lookup req.symbol sell_portfolio.positions ≡ some pos)
        × (req.amount ≤ pos.amount)
  unfolding validate_order check_balance check_inventory validation_price
  validate_sell_held req portfolio sell_portfolio s sells valid =
      elim (Option-cases (lookup req.symbol sell_portfolio.positions)) [
        | inl nothing ↦ absurd (ground arith)
        | inr (pos, held) ↦ (pos, held, ground (arith, le_of_not_lt order pos.amount req.amount))
      ]

module _ ⦃num : Num⦄ ⦃ex : Exchange⦄ where
  -- The validation decides every request: what the exchange raises is caught.
  pub validate-Returns :
      (req : OrderRequest) (portfolio sell_portfolio : Portfolio) (s : ex.State)
      → Returns (validate_order req portfolio sell_portfolio s).0
  unfolding validate_order validation_price
  validate-Returns req portfolio sell_portfolio s = is_ok-Returns _ (ground arith)
