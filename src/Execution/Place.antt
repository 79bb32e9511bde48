-- ===== src/Execution/Place.antt =====
-- `process_order_requests` and `_process_single_request`.
pub mod Outcome
use trading_crew.Prelude.{
  get_or, Bool, true, false, if◌then◌else◌, Option, none, some, List, [], ◌∷◌, String, Result, ok,
  err, Error, validation, zero_division, value_error, index_error, key_error, type_error,
  exchange_error, Action, pure, raise, none, some, gets, modify, attempt, when, from_result, ◌>>=◌,
  ◌>>◌, ℕ, suc,
}
use trading_crew.Num.{Num, R, zero_num}
use trading_crew.Models.Order.{OrderStatus, pending, filled, rejected, OrderRequest, Order}
use trading_crew.Models.Portfolio.{Portfolio}
use trading_crew.Database.{save_order, finalize_pending_order}
use trading_crew.Execution.Types.{
  Notice, order_rejected, placement_failed, order_placed, order_filled, rejected_by_exchange,
  FailureReason, placement_error, exchange_rejected, ExecutionResult,
}
use trading_crew.Execution.Exchange.{Exchange}
use trading_crew.Execution.Reconcile.{reconcile_fill}
use trading_crew.Execution.Validate.{validate_order, normalize_precision}
use trading_crew.Execution.World.{
  Settings, World, on_portfolio, on_exchange, on_db, notify, notify_all, add_placed, amend_placed,
  add_filled, add_failed, empty_result,
}

-- `str(exc)`
abbrev pub error_text : Error → String
error_text (exchange_error s) = s
error_text validation = "validation error"
error_text value_error = "ValueError"
error_text index_error = "list index out of range"
error_text zero_division = "float division by zero"
error_text key_error = "key error"
error_text type_error = "type error"

module _ ⦃num : Num⦄ where
  -- `_make_pending_order`
  abbrev pub make_pending_order : R → String → OrderRequest → Order
  make_pending_order now id req = record {
    id = id;
    request = req;
    status = pending;
    filled_amount = zero_num;
    average_fill_price = none;
    break_even_price = none;
    fills = [];
    created_at = now;
    updated_at = now;
  }

  module _ ⦃ex : Exchange⦄ (settings : Settings) where
    -- The pending id that the next call draws.
    draw_id : Action World String
    draw_id w = (ok (settings.fresh_id w.ids_drawn), record w { ids_drawn = suc w.ids_drawn })

    -- Step 7: an order that came back terminal. The message on a fill formats the average price, which
    -- raises if there is none.
    settle_placed : OrderRequest → Order → OrderStatus → Action World (Unit {0})
    settle_placed req order filled = do
      (updated, notices) ← on_portfolio (reconcile_fill settings.anti_averaging_down_enabled order)
      amend_placed updated
      notify_all notices
      add_filled updated
      on_db (modify (save_order updated))
      elim updated.average_fill_price [
        | none ↦ raise type_error
        | some price ↦ notify (order_filled updated)
      ]
    settle_placed req order rejected = do
      add_failed settings.now req exchange_rejected
      notify (rejected_by_exchange req)
    settle_placed req order _ = pure tt

    -- Steps 6 and 7, once the exchange has taken the order.
    placed_on_exchange : OrderRequest → String → Order → Action World (Unit {0})
    unfolding settle_placed
    placed_on_exchange req pending_id order = do
      on_db (finalize_pending_order pending_id order)
      add_placed order
      notify (order_placed req)
      settle_placed req order order.status

    -- The exchange raised: no pending row is left behind.
    refused_by_exchange : OrderRequest → Order → Error → Action World (Unit {0})
    refused_by_exchange req pending_order e = do
      on_db (
          modify
            (save_order (record pending_order { status = rejected; updated_at = settings.now })))
      add_failed settings.now req (placement_error (error_text e))
      notify (placement_failed req)

    -- Steps 2 to 4: the precision, and the order that is saved as PENDING.
    unfoldable pub prepare_request : OrderRequest → Action World Order
    unfolding draw_id
    prepare_request req = do
      normalized ← on_exchange (normalize_precision req)
      pending_id ← draw_id
      let pending_order = make_pending_order settings.now pending_id normalized
      on_db (modify (save_order pending_order))
      pure pending_order

    -- Steps 5 to 7: the call of the exchange, and what follows it.
    unfoldable pub send_request : Order → Action World (Unit {0})
    unfolding placed_on_exchange refused_by_exchange
    send_request pending_order = do
      let normalized = pending_order.request
      outcome ← on_exchange (attempt (ex.create_order normalized))
      elim outcome [
        | ok order ↦ placed_on_exchange normalized pending_order.id order
        | err e ↦ refused_by_exchange normalized pending_order e
      ]

    -- Steps 2 to 7, for a request that passed the validation.
    submit_request : OrderRequest → Action World (Unit {0})
    unfolding prepare_request send_request
    submit_request req = do pending_order ← prepare_request req; send_request pending_order

    -- `_process_single_request`; a SELL is checked against the second portfolio, if one is given.
    unfoldable pub process_single_request :
        OrderRequest → Option Portfolio → Action World (Unit {0})
    unfolding submit_request
    process_single_request req sell_validation = do
      portfolio ← gets (λ w. w.portfolio)
      let sell_portfolio = get_or portfolio sell_validation
      refusal ← on_exchange (validate_order req portfolio sell_portfolio)
      elim refusal [
        | some reason ↦ do add_failed settings.now req reason; notify (order_rejected req)
        | none ↦ submit_request req
      ]

    process_all : List OrderRequest → Option Portfolio → Action World (Unit {0})
    process_all [] sell_validation = pure tt
    process_all (req ∷ more) sell_validation =
        process_single_request req sell_validation >> process_all more sell_validation

    -- `process_order_requests`: what the call returns is a result of its own.
    unfoldable pub process_order_requests :
        List OrderRequest → Option Portfolio → Action World ExecutionResult
    unfolding process_all
    process_order_requests requests sell_validation = do
      modify (λ w. record w { result = empty_result })
      process_all requests sell_validation
      gets (λ w. w.result)
