-- ===== src/Execution/Validate.antt =====
-- `_validate_order` and `_normalize_precision`. What they change is the exchange's state alone.
pub mod Sound
use trading_crew.Prelude.{
  Bool, true, false, ◌&&◌, ◌||◌, not, if◌then◌else◌, Option, none, some, String, lookup, Result, ok,
  err, Action, pure, attempt, ◌>>=◌, ◌>>◌,
}
use trading_crew.Num.{Num, R, ◌*◌, ltb, eqb, zero_num, opt_or}
use trading_crew.Models.Order.{OrderSide, OrderType, OrderRequest}
use trading_crew.Models.Market.{Ticker}
use trading_crew.Models.Portfolio.{Position, Portfolio}
use trading_crew.Execution.Types.{
  FailureReason, insufficient_balance, no_position, exceeds_position, below_amount_min,
  below_cost_min,
}
use trading_crew.Execution.Exchange.{Exchange, MarketLimits}

abbrev is_market_buy : OrderType → OrderSide → Bool
is_market_buy OrderType.market OrderSide.buy = true
is_market_buy _ _ = false

abbrev pub is_buy : OrderSide → Bool
is_buy OrderSide.buy = true
is_buy OrderSide.sell = false

module _ ⦃num : Num⦄ where
  -- The price that a ticker gives a market BUY; zero where the ticker could not be had.
  abbrev ask_price : Result Ticker → R
  ask_price (ok t) = if ltb zero_num t.ask then t.ask else t.last
  ask_price (err e) = zero_num

  -- The balance check of a BUY.
  unfoldable pub check_balance : OrderRequest → R → R → Portfolio → Option FailureReason
  check_balance req price notional p =
      if is_buy req.side && ltb zero_num price && ltb p.balance_quote notional
      then some (insufficient_balance notional p.balance_quote)
      else none

  abbrev check_held : OrderRequest → Option Position → Option FailureReason
  check_held req none = some (no_position req.symbol)
  check_held req (some pos) =
      if ltb pos.amount req.amount then some (exceeds_position req.amount pos.amount) else none

  -- The inventory check of a SELL.
  unfoldable pub check_inventory : OrderRequest → Portfolio → Option FailureReason
  check_inventory req p =
      if is_buy req.side then none else check_held req (lookup req.symbol p.positions)

  abbrev is_below : R → Option R → Bool
  is_below x none = false
  is_below x (some least) = ltb x least

  -- The exchange's minimum sizes; a failed look-up blocks nothing.
  unfoldable pub check_limits : OrderRequest → R → Result MarketLimits → Option FailureReason
  check_limits req notional (err e) = none
  check_limits req notional (ok limits) =
      if is_below req.amount limits.amount_min
      then some (below_amount_min req.amount (opt_or limits.amount_min zero_num))
      else if ltb zero_num notional && is_below notional limits.cost_min
      then some (below_cost_min notional (opt_or limits.cost_min zero_num))
      else none

  abbrev first_failure : Option FailureReason → Option FailureReason → Option FailureReason
  first_failure (some r) rest = some r
  first_failure none rest = rest

  module _ ⦃ex : Exchange⦄ where
    -- The price against which the request is checked.
    unfoldable pub validation_price : OrderRequest → Action (ex.State) R
    validation_price req =
        if is_market_buy req.order_type req.side
        then (attempt (ex.fetch_ticker req.symbol) >>= λ ticker. pure (ask_price ticker))
        else pure (opt_or req.price zero_num)

    -- `_validate_order`: the reason of a refusal, or none. The second portfolio is the one against
    -- which a SELL is checked.
    unfoldable pub validate_order :
        OrderRequest → Portfolio → Portfolio → Action (ex.State) (Option FailureReason)
    validate_order req portfolio sell_portfolio = do
      price ← validation_price req
      let notional = if ltb zero_num price then req.amount * price else zero_num
      let early =
          first_failure (check_balance req price notional portfolio)
            (check_inventory req sell_portfolio)
      elim early [
        | some r ↦ pure (some r)
        | none ↦ do
          limits ← attempt (ex.get_market_limits req.symbol)
          pure (check_limits req notional limits)
      ]

    abbrev same_price : Option R → Option R → Bool
    same_price none none = true
    same_price (some a) (some b) = eqb a b
    same_price _ _ = false

    abbrev rounded : OrderRequest → Result (R × Option R) → OrderRequest
    rounded req (err e) = req
    rounded req (ok (amount, price)) =
        if not (eqb amount req.amount) || not (same_price price req.price)
        then record req { amount = amount; price = price }
        else req

    -- `_normalize_precision`
    unfoldable pub normalize_precision : OrderRequest → Action (ex.State) OrderRequest
    normalize_precision req = do
      precise ← attempt (ex.normalize_order_precision req.symbol req.amount req.price)
      pure (rounded req precise)
