-- ===== src/Database.antt =====
-- src/trading_crew/services/database_service.py, the tables that the execution service uses, and
-- src/trading_crew/db/models.py for the rows. The table of orders is a list of rows in the order of their
-- primary keys. Each method is one transaction, which the database either commits or refuses.
pub mod Lookup
use trading_crew.Prelude.{
  take, Bool, true, false, ◌||◌, ◌&&◌, not, if◌then◌else◌, Option, none, some, is_some, List, [],
  ◌∷◌, ◌++◌, String, str_eq, Dict, insert, Result, ok, err, key_error, ℕ, zero, suc,
}
use trading_crew.Num.{Num, R}
use trading_crew.Models.Order.{
  OrderSide, OrderStatus, filled, OrderRequest, Order, total_fee, is_active, status_eq,
}
use trading_crew.Models.Portfolio.{Portfolio}
use trading_crew.Execution.Types.{OrderRecord, FailureReason}

module _ ⦃num : Num⦄ where
  pub record FailedRow : Type 0 where
    pub request : OrderRequest
    pub error_reason : FailureReason

  pub record Database : Type 0 where
    pub orders : List OrderRecord
    pub failed_orders : List FailedRow
    -- The newest first.
    pub portfolios : List Portfolio

  -- The row that `save_order` adds.
  abbrev pub row_of : Order → OrderRecord
  row_of o = record {
    exchange_order_id = o.id;
    symbol = o.request.symbol;
    exchange = o.request.exchange;
    side = o.request.side;
    order_type = o.request.order_type;
    status = o.status;
    requested_amount = o.request.amount;
    filled_amount = o.filled_amount;
    requested_price = o.request.price;
    average_fill_price = o.average_fill_price;
    stop_loss_price = o.request.stop_loss_price;
    take_profit_price = o.request.take_profit_price;
    total_fee = total_fee o;
    break_even_price = o.break_even_price;
    strategy_name = o.request.strategy_name;
    signal_confidence = o.request.signal_confidence;
    created_at = o.created_at;
    updated_at = o.updated_at;
  }

  -- The columns of an old row that `save_order` writes.
  abbrev pub refresh : Order → OrderRecord → OrderRecord
  refresh o r = record r {
    status = o.status;
    filled_amount = o.filled_amount;
    average_fill_price = o.average_fill_price;
    total_fee = total_fee o;
    break_even_price = o.break_even_price;
    updated_at = o.updated_at;
  }

  -- The columns that `finalize_pending_order` writes.
  abbrev pub promote : Order → OrderRecord → OrderRecord
  promote o r = record r {
    exchange_order_id = o.id;
    status = o.status;
    filled_amount = o.filled_amount;
    average_fill_price = o.average_fill_price;
    total_fee = total_fee o;
    updated_at = o.updated_at;
  }

  abbrev pub has_id : String → OrderRecord → Bool
  has_id id r = str_eq r.exchange_order_id id

  -- `_find_order_record`
  unfoldable pub find_order : String → List OrderRecord → Option OrderRecord
  find_order id [] = none
  find_order id (r ∷ rows) = if has_id id r then some r else find_order id rows

  -- A write to the row with this id.
  unfoldable pub update_row :
      String → (OrderRecord → OrderRecord) → List OrderRecord → List OrderRecord
  update_row id f [] = []
  update_row id f (r ∷ rows) = if has_id id r then f r ∷ rows else r ∷ update_row id f rows

  save_row : Order → Option OrderRecord → List OrderRecord → List OrderRecord
  save_row o none rows = rows ++ (row_of o ∷ [])
  save_row o (some old) rows = update_row o.id (refresh o) rows

  unfoldable pub save_order : Order → Database → Database
  unfolding save_row
  save_order o db = record db { orders = save_row o (find_order o.id db.orders) db.orders }

  keep_open : List OrderRecord → List OrderRecord
  keep_open [] = []
  keep_open (r ∷ rows) = if is_active r.status then r ∷ keep_open rows else keep_open rows

  unfoldable pub get_open_orders : Database → List OrderRecord
  unfolding keep_open
  get_open_orders db = keep_open db.orders

  count_open : List OrderRecord → ℕ
  count_open [] = zero
  count_open (r ∷ rows) = if is_active r.status then suc (count_open rows) else count_open rows

  unfoldable pub count_open_orders : Database → ℕ
  unfolding count_open
  count_open_orders db = count_open db.orders

  -- The row with a new status. `onupdate` writes the time where the status is another, since a row
  -- that is as it was is not written.
  abbrev pub set_status : R → OrderStatus → OrderRecord → OrderRecord
  set_status now status r = record r {
    status = status;
    updated_at = if status_eq r.status status then r.updated_at else now;
  }

  -- `update_order_status_by_exchange_id`, at the time `now` of the database.
  unfoldable pub update_order_status : R → String → OrderStatus → Database → Bool × Database
  update_order_status now id status db =
      if is_some (find_order id db.orders)
      then (true, record db { orders = update_row id (set_status now status) db.orders })
      else (false, db)

  -- The column of the exchange's id is unique: a promotion to an id that another row has is refused.
  unfoldable pub finalize_pending_order : String → Order → Database → Result Bool × Database
  finalize_pending_order pending_id o db =
      if is_some (find_order pending_id db.orders)
      then if is_some (find_order o.id db.orders) && not (str_eq o.id pending_id)
        then (err key_error, db)
        else (ok true, record db { orders = update_row pending_id (promote o) db.orders })
      else (ok false, db)

  is_filled_buy : OrderSide → OrderStatus → Bool
  is_filled_buy OrderSide.buy filled = true
  is_filled_buy _ _ = false

  -- The break-even price of the last filled BUY of a symbol.
  last_break_even : String → Option R → List OrderRecord → Option R
  last_break_even symbol found [] = found
  last_break_even symbol found (r ∷ rows) =
      last_break_even symbol
        (if str_eq r.symbol symbol && is_filled_buy r.side r.status
          then r.break_even_price
          else found)
        rows

  unfoldable pub get_break_even_prices : List String → Database → Dict (Option R)
  unfolding last_break_even is_filled_buy
  get_break_even_prices [] db = []
  get_break_even_prices (s ∷ symbols) db =
      insert s (last_break_even s none db.orders) (get_break_even_prices symbols db)

  unfoldable pub save_failed_order : OrderRequest → FailureReason → Database → Database
  save_failed_order req reason db = record db {
    failed_orders = db.failed_orders ++ (record { request = req; error_reason = reason } ∷ []);
  }

  abbrev max_portfolio_snapshots : ℕ
  max_portfolio_snapshots = 10

  -- The new row goes in, and only the newest ten stay.
  unfoldable pub save_portfolio : Portfolio → Database → Database
  save_portfolio p db = record db { portfolios = take max_portfolio_snapshots (p ∷ db.portfolios) }
