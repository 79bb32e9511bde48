-- ===== src/Execution/Place/Outcome.antt =====
-- What one request leaves behind, on each path of `_process_single_request`.
use trading_crew.Prelude.{
  ◌≡◌, ◌≢◌, Option, some, none, arith, [], ◌∷◌, ◌++◌, ok, err, Error, get_or,
}
use trading_crew.Num.{Num}
use trading_crew.Models.Order.{open_status, rejected, OrderRequest, Order}
use trading_crew.Models.Portfolio.{Portfolio}
use trading_crew.Database.{
  find_order, save_order, finalize_pending_order, row_of, promote, save_failed_order,
}
use trading_crew.Database.Lookup.{
  find_order-save_order_new, find_order-save_order_old, find_order-save_order_other,
  find_order-update_row_new,
}
use trading_crew.Execution.Types.{FailureReason, placement_error, order_rejected}
use trading_crew.Execution.Exchange.{Exchange}
use trading_crew.Execution.Validate.{validate_order, normalize_precision}
use trading_crew.Execution.World.{Settings, World}
use trading_crew.Execution.Place.{
  prepare_request, send_request, process_single_request, make_pending_order, error_text,
}

module _ ⦃num : Num⦄ ⦃ex : Exchange⦄ (settings : Settings) where
  -- A request that the validation refuses reaches neither the portfolio nor the table of orders: it
  -- becomes one dead-letter entry, in the result and in the database, with one message.
  pub process_refused :
      (req : OrderRequest) (sell_validation : Option Portfolio) (w : World) {reason : FailureReason}
      {s : ex.State}
      → validate_order req w.portfolio (get_or w.portfolio sell_validation) w.exchange
        ≡ (ok (some reason), s)
      → process_single_request settings req sell_validation w ≡ (
        ok tt,
        record w {
          exchange = s;
          db = save_failed_order req reason w.db;
          notices = w.notices ++ (order_rejected req ∷ []);
          result = record (w.result) {
            failed =
                w.result.failed
                ++ (record { order_request = req; error_reason = reason; timestamp = settings.now }
                    ∷ []);
          };
        },
      )
  unfolding process_single_request
  process_refused req sell_validation w refused = ground arith

  -- Save before place: where a request passes the validation and the exchange raises, and the id
  -- that is drawn is not in the table of orders, the handler saves the order as PENDING and calls the
  -- exchange from the world with that row, and the row is REJECTED after the call. The portfolio and the
  -- lists of placed and filled orders are as they were, and the request is a dead-letter entry with
  -- the text of the exception.
  pub process_raised :
      (req normalized : OrderRequest) (sell_validation : Option Portfolio) (w : World)
      {s s' s'' : ex.State} {e : Error}
      → validate_order req w.portfolio (get_or w.portfolio sell_validation) w.exchange
        ≡ (ok none, s)
      → normalize_precision req s ≡ (ok normalized, s')
      → ex.create_order normalized s' ≡ (err e, s'')
      → find_order (settings.fresh_id w.ids_drawn) w.db.orders ≡ none
      → let id = settings.fresh_id w.ids_drawn in
        let pending_order = make_pending_order settings.now id normalized in
        let saved = (prepare_request settings req (record w { exchange = s })).1 in
        let (outcome, after) = process_single_request settings req sell_validation w in
        (find_order id saved.db.orders ≡ some (row_of pending_order))
        × ((outcome, after) ≡ send_request settings pending_order saved)
        × (outcome ≡ ok tt)
        × (find_order id after.db.orders
            ≡ some (row_of (record pending_order { status = rejected })))
        × (after.portfolio ≡ w.portfolio)
        × (after.result.placed ≡ w.result.placed)
        × (after.result.filled ≡ w.result.filled)
        × (after.result.failed
            ≡ w.result.failed
              ++ (record {
                order_request = normalized;
                error_reason = placement_error (error_text e);
                timestamp = settings.now;
              }
                  ∷ []))
  unfolding process_single_request prepare_request send_request save_failed_order
  process_raised req normalized sell_validation w valid precise raised fresh =
      let id = settings.fresh_id w.ids_drawn in
      let pending_order = make_pending_order settings.now id normalized in
      ground (
        arith,
        find_order-save_order_new pending_order w.db fresh,
        find_order-save_order_old (record pending_order { status = rejected })
            (row_of pending_order) (save_order pending_order w.db),
      )

  -- An order that passes the validation, and that the exchange takes and leaves open, keeps the
  -- portfolio as it was. If neither the id that is drawn nor the exchange's is in the table, and
  -- they differ, the row that was saved as PENDING is found under the exchange's id, open.
  pub process_open :
      (req normalized : OrderRequest) (sell_validation : Option Portfolio) (w : World)
      (placed : Order) {s s' s'' : ex.State}
      → validate_order req w.portfolio (get_or w.portfolio sell_validation) w.exchange
        ≡ (ok none, s)
      → normalize_precision req s ≡ (ok normalized, s')
      → ex.create_order normalized s' ≡ (ok placed, s'')
      → placed.status ≡ open_status
      → find_order (settings.fresh_id w.ids_drawn) w.db.orders ≡ none
      → find_order placed.id w.db.orders ≡ none
      → placed.id ≢ settings.fresh_id w.ids_drawn
      → let id = settings.fresh_id w.ids_drawn in
        let pending_order = make_pending_order settings.now id normalized in
        let (outcome, after) = process_single_request settings req sell_validation w in
        (outcome ≡ ok tt)
        × (find_order placed.id after.db.orders ≡ some (promote placed (row_of pending_order)))
        × (after.portfolio ≡ w.portfolio)
        × (after.result.placed ≡ w.result.placed ++ (placed ∷ []))
        × (after.result.failed ≡ w.result.failed)
  unfolding process_single_request finalize_pending_order
  process_open req normalized sell_validation w placed valid precise taken still fresh unused ne =
      let id = settings.fresh_id w.ids_drawn in
      let pending_order = make_pending_order settings.now id normalized in
      let saved = save_order pending_order w.db in
      ground (
        arith,
        find_order-save_order_new pending_order w.db fresh,
        find_order-save_order_other pending_order placed.id w.db fresh unused,
        find_order-update_row_new id placed.id (promote placed) (row_of pending_order) saved.orders,
      )
