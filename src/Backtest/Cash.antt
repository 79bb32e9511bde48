-- ===== src/Backtest/Cash.antt =====
-- What a position that is opened and closed leaves in cash.
use trading_crew.Prelude.{
  ◌≡◌, sym, ap, ◌∙◌, ◌++◌, ◌∷◌, [], get_or, none, lookup, insert, erase, erase-insert_new, ℕ, ok,
  arith,
}
use trading_crew.Num.{Num, R, ◌+◌, ◌-◌, ◌*◌}
use trading_crew.Num.Laws.{IsExact}
use trading_crew.Num.Ring.{sub_eq, sub_sub, sub-add_comm}
use trading_crew.Models.Portfolio.{Portfolio, make_position, update_peak}
use trading_crew.Backtest.{
  BacktestConfig, BacktestTrade, trade_of, PendingOrder, Account, ExitReason, open_position,
  close_position, bought, credit, pnl_of,
}

module _ ⦃num : Num⦄ where
  balance-update_peak : (p : Portfolio) → (update_peak p).balance_quote ≡ p.balance_quote
  unfolding update_peak
  balance-update_peak p = ground arith

  positions-update_peak : (p : Portfolio) → (update_peak p).positions ≡ p.positions
  unfolding update_peak
  positions-update_peak p = ground arith

  open_position-ok :
      (cfg : BacktestConfig) (bar : ℕ) (order : PendingOrder) (price amount : R)
      (acc after : Account)
      → open_position cfg bar order price amount acc ≡ ok after
      → after.portfolio
        ≡ update_peak (record (acc.portfolio) {
          balance_quote =
              acc.portfolio.balance_quote - (price * amount + price * amount * cfg.fee_rate);
          total_fees = acc.portfolio.total_fees + price * amount * cfg.fee_rate;
          positions = insert order.symbol (bought cfg order price amount) acc.portfolio.positions;
        })
  unfolding open_position make_position
  open_position-ok cfg bar order price amount acc after h = ground arith

  open_position-trades :
      (cfg : BacktestConfig) (bar : ℕ) (order : PendingOrder) (price amount : R)
      (acc after : Account)
      → open_position cfg bar order price amount acc ≡ ok after
      → after.trades ≡ acc.trades
  unfolding open_position make_position
  open_position-trades cfg bar order price amount acc after h = ground arith

module _ ⦃num : Num⦄ (exact : IsExact) where
  add-sub_assoc : (a b c : R) → a + (b - c) ≡ a + b - c
  add-sub_assoc a b c = sym (
      sub_eq exact (a + b) c (a + (b - c))
        (ap (λ x. a + x) (sym (exact.sub-add b c)) ∙ sym (exact.add_assoc a (b - c) c)))

  -- Cash out and in again: the fees and the prices come together in the profit.
  cash : (b cost fee net : R) → b - (cost + fee) + net ≡ b + (net - cost - fee)
  cash b cost fee net =
      sub-add_comm exact b (cost + fee) net
      ∙ sym (add-sub_assoc b net (cost + fee))
      ∙ ap (λ x. b + x)
          (ap (λ y. net - y) (exact.add_comm cost fee) ∙ sym (sub_sub exact net cost fee))

  -- A position that is bought in a symbol without one, and sold again at any price, leaves the
  -- positions as they were and adds one trade, and changes the balance by the profit that this trade
  -- reports, fees included. The arithmetic is exact.
  pub close_position-open_position :
      (cfg : BacktestConfig) (bar exit_bar : ℕ) (order : PendingOrder)
      (price amount exit_price time : R) (reason : ExitReason) (acc after : Account)
      → lookup order.symbol acc.portfolio.positions ≡ none
      → open_position cfg bar order price amount acc ≡ ok after
      → let closed =
          close_position cfg order.symbol
            (bought cfg order price amount)
            exit_price
            exit_bar
            time
            reason
            after in
        (trade : BacktestTrade) × (closed.trades ≡ acc.trades ++ trade ∷ [])
        × (closed.portfolio.positions ≡ acc.portfolio.positions)
        × (closed.portfolio.balance_quote ≡ acc.portfolio.balance_quote + trade.pnl)
  unfolding close_position credit pnl_of bought
  close_position-open_position cfg bar exit_bar order price amount exit_price time reason acc after
        new h =
      let opened = open_position-ok cfg bar order price amount acc after h in
      let cost : R = price * amount in
      let trade =
        trade_of cfg order.symbol order.strategy_name
          (get_or 0 (lookup order.symbol after.entry_bars)) exit_bar price exit_price amount reason
          time in
      let same : after.trades ≡ acc.trades =
        open_position-trades cfg bar order price amount acc after h in
      let net : R = exit_price * amount - exit_price * amount * cfg.fee_rate in
      (
        trade,
        ap (λ ts. ts ++ trade ∷ []) same,
        positions-update_peak _
            ∙ ap (erase order.symbol) (ap (λ p. p.positions) opened ∙ positions-update_peak _)
            ∙ erase-insert_new order.symbol (bought cfg order price amount) acc.portfolio.positions
                new,
        balance-update_peak _
            ∙ ap (λ b. b + net) (ap (λ p. p.balance_quote) opened ∙ balance-update_peak _)
            ∙ cash acc.portfolio.balance_quote cost (cost * cfg.fee_rate) net,
      )
