-- ===== src/Execution/Poll/Effects.antt =====
-- What polling one order does, by what the exchange reports.
use trading_crew.Prelude.{
  ◌∙◌, subst, ◌≡◌, false, Bool, some, arith, List, [], ◌∷◌, ◌++◌, String, ok, err, Error, refl,
}
use trading_crew.Num.{Num, R, ◌+◌, ◌-◌, ◌*◌, leb, ◌<◌, ◌≤◌, zero_num, opt_or}
use trading_crew.Num.Laws.{IsOrdered}
use trading_crew.Num.Order.{lt_irrefl}
use trading_crew.Models.Order.{
  OrderSide, OrderStatus, open_status, partially_filled, filled, Order, make_order,
}
use trading_crew.Models.Portfolio.{Portfolio}
use trading_crew.Database.{
  find_order, update_order_status, save_order, Database, refresh, set_status,
}
use trading_crew.Database.Lookup.{find_order-update_row, find_order-save_order_old}
use trading_crew.Execution.Types.{poll_failed, cancel_failed, OrderRecord, Notice}
use trading_crew.Execution.Exchange.{Exchange}
use trading_crew.Execution.Incremental.{reconcile_incremental_fill, delta_fee}
use trading_crew.Execution.Reconcile.{reconcile_fill}
use trading_crew.Execution.World.{Settings, World}
use trading_crew.Execution.Place.{error_text}
use trading_crew.Execution.Poll.{
  apply_report, poll_single_order, age_minutes, cancel_stale_order, build_order_from_record,
}

module _ ⦃num : Num⦄ ⦃ex : Exchange⦄ (settings : Settings) where
  -- A poll that the exchange refuses changes nothing but the exchange's state and the errors.
  poll_refused :
      (rec : OrderRecord) (w : World) {s : ex.State} {e : Error}
      → ex.fetch_order_status rec.exchange_order_id rec.symbol w.exchange ≡ (err e, s)
      → poll_single_order settings rec w ≡ (
        ok tt,
        record w {
          exchange = s;
          result = record (w.result) {
            errors = w.result.errors ++ (poll_failed rec.exchange_order_id (error_text e) ∷ []);
          };
        },
      )
  unfolding poll_single_order
  poll_refused rec w refused = ground arith

  -- An order that the exchange reports as partly filled, with no more filled than its row says, is
  -- left as it is, however old it is: it is never cancelled as stale.
  partial_without_progress :
      (order : IsOrdered) (rec : OrderRecord) (price : R) (w : World)
      → apply_report settings rec partially_filled rec.filled_amount price w ≡ (ok tt, w)
  unfolding apply_report
  partial_without_progress order rec price w = ground (arith, lt_irrefl order rec.filled_amount)

  set_status_id :
      (now : R) (status : OrderStatus) (r : OrderRecord)
      → (set_status now status r).exchange_order_id ≡ r.exchange_order_id
  set_status_id now status r = refl

  -- A row whose status is written is found with that status, and the time of the
  -- write if the status was another.
  find_order-update_order_status :
      (now : R) (id : String) (status : OrderStatus) (rec : OrderRecord) (db : Database)
      → find_order id db.orders ≡ some rec
      → find_order id (update_order_status now id status db).1.orders
        ≡ some (set_status now status rec)
  unfolding update_order_status
  find_order-update_order_status now id status rec db known = ground (
    arith,
    find_order-update_row id (set_status now status) rec db.orders (set_status_id now status) known,
  )

  -- A partial fill of a BUY with a limit price, on an order that is not stale, corrects the cash by the
  -- filled amount since the row was written; but the row keeps the filled amount that it had.
  partial_fill_row :
      (rec : OrderRecord) (amount price requested : R) (w : World)
      → rec.side ≡ OrderSide.buy
      → opt_or rec.requested_price zero_num ≡ requested
      → zero_num < requested
      → rec.filled_amount < amount
      → leb settings.stale_partial_minutes (age_minutes settings rec) ≡ false
      → find_order rec.exchange_order_id w.db.orders ≡ some rec
      → let after = (apply_report settings rec partially_filled amount price w).1 in
        let delta = amount - rec.filled_amount in
        (find_order rec.exchange_order_id after.db.orders
          ≡ some (set_status settings.now partially_filled rec))
        × (after.portfolio.balance_quote
            ≡ w.portfolio.balance_quote + (delta * (requested - price) - delta_fee price delta))
        × (after.portfolio.total_fees ≡ w.portfolio.total_fees + delta_fee price delta)
        × (after.portfolio.positions ≡ w.portfolio.positions)
  unfolding apply_report reconcile_incremental_fill
  partial_fill_row rec amount price requested w buys limit positive more young known = ground (
    arith,
    find_order-update_order_status settings.now rec.exchange_order_id partially_filled rec w.db
        known,
  )

  -- Polling a partly filled BUY with a positive requested price, whose row is known and not stale,
  -- twice with the same report, and with the row read afresh, charges the same partial fill twice:
  -- once per poll.
  pub partial_fill_twice :
      (rec : OrderRecord) (amount price requested : R) (w : World)
      → rec.side ≡ OrderSide.buy
      → opt_or rec.requested_price zero_num ≡ requested
      → zero_num < requested
      → rec.filled_amount < amount
      → leb settings.stale_partial_minutes (age_minutes settings rec) ≡ false
      → find_order rec.exchange_order_id w.db.orders ≡ some rec
      → let reread = set_status settings.now partially_filled rec in
        let first = (apply_report settings rec partially_filled amount price w).1 in
        let second = (apply_report settings reread partially_filled amount price first).1 in
        let delta = amount - rec.filled_amount in
        let change = delta * (requested - price) - delta_fee price delta in
        (find_order rec.exchange_order_id first.db.orders ≡ some reread)
        × (second.portfolio.balance_quote ≡ w.portfolio.balance_quote + change + change)
        × (second.portfolio.total_fees
            ≡ w.portfolio.total_fees + delta_fee price delta + delta_fee price delta)
  unfolding age_minutes
  partial_fill_twice rec amount price requested w buys limit positive more young known =
      let reread = set_status settings.now partially_filled rec in
      let first = (apply_report settings rec partially_filled amount price w).1 in
      let once =
        partial_fill_row rec amount price requested w buys limit positive more young known in
      let again =
        partial_fill_row reread amount price requested first buys limit positive more young
          once.0 in
      (once.0, cc (again.1, once.1), cc (again.2, once.2))

  -- Where an order of at least the stale age is open and the exchange refuses its cancellation,
  -- the portfolio and the database stay as they were and the error is recorded.
  pub stale_open_refused :
      (rec : OrderRecord) (amount price : R) (w : World) (s : ex.State) (e : Error)
      → settings.stale_minutes ≤ age_minutes settings rec
      → ex.cancel_order rec.exchange_order_id rec.symbol w.exchange ≡ (err e, s)
      → apply_report settings rec open_status amount price w ≡ (
        ok tt,
        record w {
          exchange = s;
          result = record (w.result) {
            errors = w.result.errors ++ (cancel_failed rec.exchange_order_id (error_text e) ∷ []);
          };
        },
      )
  unfolding apply_report cancel_stale_order
  stale_open_refused rec amount price w s e old refused = ground arith

  reconcile_fill_id :
      (guarded : Bool) (o : Order) (p : Portfolio) {updated : Order} {notices : List Notice}
      {p' : Portfolio}
      → reconcile_fill guarded o p ≡ (ok (updated, notices), p')
      → updated.id ≡ o.id
  unfolding reconcile_fill
  reconcile_fill_id guarded o p h = ground arith

  build_order_id :
      (now : R) (rec : OrderRecord) (status : OrderStatus) (amount price : R) {built : Order}
      → build_order_from_record now rec status amount price ≡ ok built
      → built.id ≡ rec.exchange_order_id
  unfolding build_order_from_record make_order
  build_order_id now rec status amount price h = ground arith

  -- An order that the exchange reports as filled, whose row and reported amount pass the validation of
  -- the models and whose fill can be booked, has its fill reconciled, counts as filled in the result, and is FILLED in the table with the fill's
  -- amount, price and fee.
  pub full_fill_row :
      (rec : OrderRecord) (amount price : R) (w : World) (built updated : Order)
      (notices : List Notice) (p : Portfolio)
      → build_order_from_record settings.now rec filled amount price ≡ ok built
      → reconcile_fill settings.anti_averaging_down_enabled built w.portfolio
        ≡ (ok (updated, notices), p)
      → find_order rec.exchange_order_id w.db.orders ≡ some rec
      → let (outcome, after) = apply_report settings rec filled amount price w in
        (outcome ≡ ok tt)
        × (after.portfolio ≡ p)
        × (after.result.filled ≡ w.result.filled ++ (updated ∷ []))
        × (find_order rec.exchange_order_id after.db.orders
            ≡ some (set_status settings.now filled (refresh updated rec)))
  unfolding apply_report
  full_fill_row rec amount price w built updated notices p valid booked known =
      let same : updated.id ≡ rec.exchange_order_id =
        reconcile_fill_id _ built w.portfolio booked
        ∙ build_order_id settings.now rec filled amount price valid in
      let found : find_order updated.id w.db.orders ≡ some rec = rw same known in
      let saved : find_order rec.exchange_order_id (save_order updated w.db).orders
          ≡ some (refresh updated rec) =
        subst (λ id. find_order id (save_order updated w.db).orders ≡ some (refresh updated rec))
          same (find_order-save_order_old updated rec w.db found) in
      ground (
        arith,
        find_order-update_order_status settings.now rec.exchange_order_id filled
            (refresh updated rec) (save_order updated w.db) saved,
      )
