-- ===== src/Execution/Poll.antt =====
-- `poll_and_reconcile`, `_poll_single_order` and `_cancel_stale_order`.
pub mod Effects
use trading_crew.Prelude.{
  Bool, true, false, ◌&&◌, ◌||◌, if◌then◌else◌, Option, none, some, List, [], ◌∷◌, ◌++◌, String,
  Result, ok, err, Error, Action, pure, gets, modify, attempt, from_result, ◌>>=◌, ◌>>◌, get_or,
  when,
}
use trading_crew.Num.{Num, R, ◌-◌, ◌*◌, ◌/◌, ltb, leb, dec, zero_num, opt_or, opt_or_opt}
use trading_crew.Models.Order.{
  OrderStatus, pending, open_status, partially_filled, filled, cancelled, rejected, OrderRequest,
  Order, OrderFill, make_request, make_order,
}
use trading_crew.Database.{save_order, update_order_status, get_open_orders, save_portfolio}
use trading_crew.Execution.Types.{
  poll_failed, cancel_failed, Notice, partial_fill, stale_cancelled, poll_filled, ExecutionResult,
  OrderRecord, default_fee_rate, normalize_status, quote_currency,
}
use trading_crew.Execution.Exchange.{Exchange, RawStatus}
use trading_crew.Execution.Reconcile.{reconcile_fill}
use trading_crew.Execution.Incremental.{reconcile_incremental_fill}
use trading_crew.Execution.Release.{release_reservation}
use trading_crew.Execution.Place.{error_text}
use trading_crew.Execution.World.{
  Settings, World, on_portfolio, on_exchange, on_db, notify, notify_all, add_filled, add_cancelled,
  add_error, empty_result,
}

module _ ⦃num : Num⦄ where
  -- The fill that stands for all that the exchange reports.
  abbrev fills_of : R → String → R → R → List OrderFill
  fills_of now symbol amount price =
      if ltb zero_num amount && ltb zero_num price
      then record {
        price = price;
        amount = amount;
        fee = price * amount * default_fee_rate;
        fee_currency = quote_currency symbol;
        timestamp = now;
      }
        ∷ []
      else []

  -- `_build_order_from_record`. The request and the order are validated when they are built.
  unfoldable pub build_order_from_record : R → OrderRecord → OrderStatus → R → R → Result Order
  build_order_from_record now rec status amount price =
      let request = make_request (record {
        symbol = rec.symbol;
        exchange = rec.exchange;
        side = rec.side;
        order_type = rec.order_type;
        amount = rec.requested_amount;
        price = rec.requested_price;
        stop_loss_price = rec.stop_loss_price;
        take_profit_price = rec.take_profit_price;
        strategy_name = rec.strategy_name;
        signal_confidence = zero_num;
      }) in
      elim request [
        | err e ↦ err e
        | ok req ↦ make_order (record {
          id = rec.exchange_order_id;
          request = req;
          status = status;
          filled_amount = amount;
          average_fill_price = if ltb zero_num price then some price else none;
          break_even_price = none;
          fills = fills_of now rec.symbol amount price;
          created_at = rec.created_at;
          updated_at = now;
        })
      ]

  -- What the service takes from the raw status.
  pub record Report : Type 0 where
    pub status : OrderStatus
    pub filled : R
    pub price : R

  module _ ⦃ex : Exchange⦄ (settings : Settings) where
    unfoldable pub read_report : RawStatus → Report
    read_report raw = record {
      status = normalize_status (settings.lower (get_or "open" raw.status));
      filled = opt_or raw.filled zero_num;
      price = opt_or (opt_or_opt raw.average raw.price) zero_num;
    }

    unfoldable pub age_minutes : OrderRecord → R
    age_minutes rec = (settings.now - rec.created_at) / dec 60 0

    -- `_cancel_stale_order`: a refused cancellation is recorded and changes nothing.
    unfoldable pub cancel_stale_order : OrderRecord → R → R → Action World (Unit {0})
    cancel_stale_order rec amount price = do
      outcome ← on_exchange (attempt (ex.cancel_order rec.exchange_order_id rec.symbol))
      elim outcome [
        | err e ↦ add_error (cancel_failed rec.exchange_order_id (error_text e))
        | ok _ ↦ do
          on_db (λ db.
              (ok tt, (update_order_status settings.now rec.exchange_order_id cancelled db).1))
          on_portfolio (modify (release_reservation rec amount))
          order ← from_result (build_order_from_record settings.now rec cancelled amount price)
          add_cancelled order
          notify (stale_cancelled rec.symbol amount)
      ]

    -- The order is filled.
    on_full_fill : OrderRecord → R → R → Action World (Unit {0})
    on_full_fill rec amount price = do
      order ← from_result (build_order_from_record settings.now rec filled amount price)
      (updated, notices) ← on_portfolio (reconcile_fill settings.anti_averaging_down_enabled order)
      notify_all notices
      on_db (modify (save_order updated))
      on_db (λ db. (ok tt, (update_order_status settings.now rec.exchange_order_id filled db).1))
      add_filled updated
      notify (poll_filled rec.symbol amount price)

    -- More of the order is filled than the row says.
    on_partial_fill : OrderRecord → R → R → Action World (Unit {0})
    on_partial_fill rec amount price = do
      let delta = amount - rec.filled_amount
      on_portfolio (
          reconcile_incremental_fill ex.exchange_id rec.symbol rec.side delta price
            (opt_or rec.requested_price zero_num))
      on_db (λ db.
          (ok tt, (update_order_status settings.now rec.exchange_order_id partially_filled db).1))
      notify (partial_fill rec.symbol delta price)
      when (leb settings.stale_partial_minutes (age_minutes rec))
          (cancel_stale_order rec amount price)

    -- The exchange says that the order is over.
    on_terminal : OrderRecord → OrderStatus → R → R → Action World (Unit {0})
    on_terminal rec status amount price = do
      on_db (λ db. (ok tt, (update_order_status settings.now rec.exchange_order_id status db).1))
      on_portfolio (modify (release_reservation rec amount))
      order ← from_result (build_order_from_record settings.now rec status amount price)
      add_cancelled order

    on_open : OrderRecord → Action World (Unit {0})
    on_open rec =
        if leb settings.stale_minutes (age_minutes rec)
        then cancel_stale_order rec zero_num zero_num
        else pure tt

    -- The transitions, by the status that the exchange reports.
    unfoldable pub apply_report : OrderRecord → OrderStatus → R → R → Action World (Unit {0})
    unfolding on_full_fill on_partial_fill on_terminal on_open
    apply_report rec filled amount price = on_full_fill rec amount price
    apply_report rec partially_filled amount price =
        if ltb rec.filled_amount amount then on_partial_fill rec amount price else pure tt
    apply_report rec open_status amount price = on_open rec
    apply_report rec pending amount price = on_open rec
    apply_report rec cancelled amount price = on_terminal rec cancelled amount price
    apply_report rec rejected amount price = on_terminal rec rejected amount price

    -- `_poll_single_order`
    unfoldable pub poll_single_order : OrderRecord → Action World (Unit {0})
    poll_single_order rec = do
      outcome ← on_exchange (attempt (ex.fetch_order_status rec.exchange_order_id rec.symbol))
      elim outcome [
        | err e ↦ add_error (poll_failed rec.exchange_order_id (error_text e))
        | ok raw ↦
            let report = read_report raw in
            apply_report rec report.status report.filled report.price
      ]

    poll_all : List OrderRecord → Action World (Unit {0})
    poll_all [] = pure tt
    poll_all (rec ∷ more) = poll_single_order rec >> poll_all more

    -- `poll_and_reconcile`: the portfolio is saved once all are polled.
    unfoldable pub poll_and_reconcile : Action World ExecutionResult
    unfolding poll_all
    poll_and_reconcile = do
      modify (λ w. record w { result = empty_result })
      rows ← gets (λ w. get_open_orders w.db)
      poll_all rows
      modify (λ w. record w { db = save_portfolio w.portfolio w.db })
      gets (λ w. w.result)
