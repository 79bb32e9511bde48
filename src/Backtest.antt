-- ===== src/Backtest.antt =====
-- src/trading_crew/models/backtest.py, and the fills of src/trading_crew/services/backtest_service.py. The
-- opening time of a position, and with it that of a trade, is left out.
pub mod Run
pub mod Metrics
pub mod Bounds
pub mod Past
pub mod Cash
pub mod Lots
pub mod Fifo
use trading_crew.Prelude.{
  Bool, true, false, ◌||◌, if◌then◌else◌, Option, none, some, is_some, List, [], ◌∷◌, ◌++◌, String,
  Dict, lookup, insert, erase, ℕ, Result, ok, err, get_or,
}
use trading_crew.Num.{Num, R, ◌+◌, ◌-◌, ◌*◌, ◌/◌, ltb, leb, zero_num, one, hundred, max, abs}
use trading_crew.Models.Market.{Candle}
use trading_crew.Models.Order.{OrderSide}
use trading_crew.Models.Portfolio.{
  Position, Portfolio, make_position, update_peak, total_balance, total_unrealized_pnl,
}
use trading_crew.Execution.Types.{dust}

pub data ExitReason : Type 0 where
  stop_loss sell_signal end_of_data : ExitReason

module _ ⦃num : Num⦄ where
  pub record BacktestConfig : Type 0 where
    pub initial_balance : R
    pub fee_rate : R
    pub slippage_pct : R
    pub min_candles_for_analysis : ℕ
    pub candle_window_size : ℕ
    pub with_advisory : Bool

  pub record BacktestTrade : Type 0 where
    pub symbol : String
    pub side : OrderSide
    pub strategy_name : String
    pub entry_bar : ℕ
    pub exit_bar : ℕ
    pub entry_price : R
    pub exit_price : R
    pub amount : R
    pub pnl : R
    pub fee : R
    pub exit_reason : ExitReason
    pub closed_at : R

  pub record EquityPoint : Type 0 where
    pub timestamp : R
    pub balance : R
    pub unrealized_pnl : R
    pub drawdown_pct : R

  -- `_PendingOrder`: a BUY or a SELL.
  pub record PendingOrder : Type 0 where
    pub symbol : String
    pub is_buy : Bool
    pub amount : R
    pub stop_loss_price : Option R
    pub strategy_name : String

  -- What the fills change: the portfolio, `entry_bars` and the completed trades.
  pub record Account : Type 0 where
    pub portfolio : Portfolio
    pub entry_bars : Dict ℕ
    pub trades : List BacktestTrade

  module _ (cfg : BacktestConfig) where
    -- The position of a BUY, bought at the candle's open and the slippage.
    unfoldable pub bought : PendingOrder → R → R → Position
    bought order price amount = record {
      symbol = order.symbol;
      exchange = "backtest";
      is_long = true;
      entry_price = price;
      amount = amount;
      current_price = price;
      stop_loss_price = order.stop_loss_price;
      take_profit_price = none;
      strategy_name = order.strategy_name;
    }

    -- The BUY of an amount at a price: what it costs with the fee leaves the balance.
    unfoldable pub open_position : ℕ → PendingOrder → R → R → Account → Result Account
    unfolding bought
    open_position bar order price amount acc =
        let p = acc.portfolio in
        let cost : R = price * amount in
        let fee : R = cost * cfg.fee_rate in
        elim (make_position (bought order price amount)) [
          | err e ↦ err e
          | ok pos ↦ ok record acc {
            portfolio = update_peak (record p {
              balance_quote = p.balance_quote - (cost + fee);
              total_fees = p.total_fees + fee;
              positions = insert order.symbol pos p.positions;
            });
            entry_bars = insert order.symbol bar acc.entry_bars;
          }
        ]

    unfoldable pub fill_buy : Candle → ℕ → PendingOrder → Account → Result Account
    unfolding open_position
    fill_buy candle bar order acc =
        let price : R = candle.open_price * (one + cfg.slippage_pct) in
        let cost : R = price * order.amount in
        let fee : R = cost * cfg.fee_rate in
        let balance : R = acc.portfolio.balance_quote in
        let affordable : R = balance / (price * (one + cfg.fee_rate)) in
        if is_some (lookup order.symbol acc.portfolio.positions)
        then ok acc
        else if ltb balance (cost + fee)
        then (if leb affordable zero_num
            then ok acc
            else open_position bar order price affordable acc)
        else open_position bar order price order.amount acc

    -- The profit of selling an amount of a position at a price, fees of both sides included.
    unfoldable pub pnl_of : R → R → R → R
    pnl_of entry_price exit_price amount =
        let proceeds : R = exit_price * amount in
        let entry_cost : R = entry_price * amount in
        proceeds - proceeds * cfg.fee_rate - entry_cost - entry_cost * cfg.fee_rate

    -- The proceeds after the fee go to the balance.
    unfoldable pub credit : R → R → R → Portfolio → Portfolio
    unfolding pnl_of
    credit entry_price exit_price amount p =
        let proceeds : R = exit_price * amount in
        let fee : R = proceeds * cfg.fee_rate in
        record p {
          balance_quote = p.balance_quote + (proceeds - fee);
          realized_pnl = p.realized_pnl + pnl_of entry_price exit_price amount;
          total_fees = p.total_fees + fee;
        }

    abbrev pub trade_of : String → String → ℕ → ℕ → R → R → R → ExitReason → R → BacktestTrade
    trade_of symbol strategy entry_bar exit_bar entry_price exit_price amount reason time = record {
      symbol = symbol;
      side = OrderSide.sell;
      strategy_name = strategy;
      entry_bar = entry_bar;
      exit_bar = exit_bar;
      entry_price = entry_price;
      exit_price = exit_price;
      amount = amount;
      pnl = pnl_of entry_price exit_price amount;
      fee = exit_price * amount * cfg.fee_rate + entry_price * amount * cfg.fee_rate;
      exit_reason = reason;
      closed_at = time;
    }

    -- The SELL branch at the position that it finds.
    unfoldable pub sell_held : Candle → ℕ → PendingOrder → Position → Account → Account
    unfolding credit
    sell_held candle bar order pos acc =
        let price : R = candle.open_price * (one - cfg.slippage_pct) in
        let p = credit pos.entry_price price order.amount acc.portfolio in
        let entry_bar = get_or 0 (lookup order.symbol acc.entry_bars) in
        let trade =
          trade_of order.symbol order.strategy_name entry_bar bar pos.entry_price price order.amount
            sell_signal candle.timestamp in
        if ltb (abs (order.amount - pos.amount)) dust
        then record {
          portfolio = update_peak (record p { positions = erase order.symbol p.positions });
          entry_bars = erase order.symbol acc.entry_bars;
          trades = acc.trades ++ trade ∷ [];
        }
        else record {
          portfolio = update_peak (record p {
            positions =
                insert order.symbol (record pos { amount = pos.amount - order.amount }) p.positions;
          });
          entry_bars = acc.entry_bars;
          trades = acc.trades ++ trade ∷ [];
        }

    unfoldable pub fill_sell : Candle → ℕ → PendingOrder → Account → Account
    unfolding sell_held
    fill_sell candle bar order acc = elim (lookup order.symbol acc.portfolio.positions) [
      | none ↦ acc
      | some pos ↦ sell_held candle bar order pos acc
    ]

    unfoldable pub fill_order : Candle → ℕ → PendingOrder → Account → Result Account
    unfolding fill_buy fill_sell
    fill_order candle bar order acc =
        if order.is_buy then fill_buy candle bar order acc else ok (fill_sell candle bar order acc)

    -- `_fill_at_open`
    unfoldable pub fill_at_open : Candle → ℕ → List PendingOrder → Account → Result Account
    unfolding fill_order
    fill_at_open candle bar [] acc = ok acc
    fill_at_open candle bar (order ∷ orders) acc = elim (fill_order candle bar order acc) [
      | err e ↦ err e
      | ok acc' ↦ fill_at_open candle bar orders acc'
    ]

    -- `_close_position`, with the trade added.
    unfoldable pub close_position : String → Position → R → ℕ → R → ExitReason → Account → Account
    unfolding credit
    close_position symbol pos exit_price bar time reason acc =
        let p = credit pos.entry_price exit_price pos.amount acc.portfolio in
        let entry_bar = get_or 0 (lookup symbol acc.entry_bars) in
        record {
          portfolio = update_peak (record p { positions = erase symbol p.positions });
          entry_bars = erase symbol acc.entry_bars;
          trades =
              acc.trades
              ++ trade_of symbol pos.strategy_name entry_bar bar pos.entry_price exit_price
                  pos.amount reason time
                ∷ [];
        }

    -- The test of `_check_stop_losses`: the price at which the position is closed.
    unfoldable pub stop_price : Candle → Position → Option R
    stop_price candle pos = elim pos.stop_loss_price [
      | none ↦ none
      | some stop ↦ if ltb stop candle.low then none else some stop
    ]

    -- `_check_stop_losses`, over a copy of the positions.
    unfoldable pub check_stops : Candle → ℕ → Dict Position → Account → Account
    unfolding stop_price close_position
    check_stops candle bar [] acc = acc
    check_stops candle bar ((symbol, pos) ∷ positions) acc =
        check_stops candle bar positions (elim (stop_price candle pos) [
          | none ↦ acc
          | some price ↦ close_position symbol pos price bar candle.timestamp stop_loss acc
        ])

    -- The positions that are left at the end are closed at the last close.
    unfoldable pub close_all : Candle → ℕ → Dict Position → Account → Account
    unfolding close_position
    close_all candle bar [] acc = acc
    close_all candle bar ((symbol, pos) ∷ positions) acc =
        close_all candle bar positions
          (close_position symbol pos candle.close bar candle.timestamp end_of_data acc)

  -- `_record_equity`: the point that is added.
  unfoldable pub equity_point : Candle → Portfolio → R → EquityPoint
  equity_point candle p peak_equity =
      let total : R = total_balance p in
      let drawdown : R =
        if ltb zero_num peak_equity
        then (peak_equity - total) / peak_equity * hundred
        else zero_num in
      record {
        timestamp = candle.timestamp;
        balance = total;
        unrealized_pnl = total_unrealized_pnl p;
        drawdown_pct = max zero_num drawdown;
      }
