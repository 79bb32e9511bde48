-- ===== src/Execution/Release.antt =====
-- `ExecutionService._release_reservation`, over the portfolio.
use trading_crew.Prelude.{if◌then◌else◌, Option, none, some, String, lookup}
use trading_crew.Num.{Num, R, ◌+◌, ◌-◌, ◌*◌, leb, zero_num, max, opt_or}
use trading_crew.Models.Order.{OrderSide}
use trading_crew.Models.Portfolio.{Position, Portfolio}
use trading_crew.Execution.Types.{OrderRecord}
use trading_crew.Execution.Reconcile.{add_balance, put_position, reduce_position}

module _ ⦃num : Num⦄ where
  abbrev grow_position : String → R → Option Position → Portfolio → Portfolio
  grow_position symbol amount none p = p
  grow_position symbol amount (some pos) p =
      put_position symbol (record pos { amount = pos.amount + amount }) p

  -- The branches on the side, for a positive unfilled amount.
  abbrev release_side : OrderSide → String → R → R → Portfolio → Portfolio
  release_side OrderSide.buy symbol unfilled notional p =
      reduce_position symbol unfilled (lookup symbol p.positions) (add_balance notional p)
  release_side OrderSide.sell symbol unfilled notional p =
      let grown = grow_position symbol unfilled (lookup symbol p.positions) p in
      record grown { balance_quote = max zero_num (grown.balance_quote - notional) }

  unfoldable pub release_reservation : OrderRecord → R → Portfolio → Portfolio
  release_reservation rec filled_amount p =
      let unfilled : R = max zero_num (rec.requested_amount - filled_amount) in
      let notional : R = unfilled * opt_or rec.requested_price zero_num in
      if leb unfilled zero_num then p else release_side rec.side rec.symbol unfilled notional p
