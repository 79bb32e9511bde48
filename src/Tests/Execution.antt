-- ===== src/Tests/Execution.antt =====
-- Requests and polls against an exchange whose answers are given, over the integers.
use Prim.Native.Nat.{ℕ}
use trading_crew.Prelude.{
  ◌≡◌, ◌≢◌, refl, true, some, none, [], ◌∷◌, List, String, ok, err, Result, Bool, exchange_error,
  lookup, str_eq, str_eq_iff, if◌then◌else◌, arith,
}
use trading_crew.Num.{Num, opt_or, opt_or_opt, sum, ◌≤◌}
use trading_crew.Num.Int.{ℤ, pos, ◌+ℤ◌, ◌-ℤ◌, ◌*ℤ◌, div_scaled}
use trading_crew.Num.Instances.{integers, integers-IsOrdered}
use trading_crew.Models.Order.{
  make_order, Order, OrderRequest, OrderSide, OrderType, filled, make_request, open_status,
  partially_filled, rejected, total_fee,
}
use trading_crew.Models.Portfolio.{Position, Portfolio}
use trading_crew.Database.{set_status, row_of, find_order, refresh, promote}
use trading_crew.Num.{div_checked}
use trading_crew.Execution.Types.{OrderRecord, placement_error, quote_currency}
use trading_crew.Execution.Exchange.{Exchange}
use trading_crew.Execution.Validate.{
  check_balance, check_inventory, check_limits, normalize_precision, validate_order,
  validation_price,
}
use trading_crew.Execution.Validate.Sound.{validate_buy_covered, validate_sell_held}
use trading_crew.Execution.World.{Settings, World, empty_result}
use trading_crew.Execution.Place.{
  prepare_request, send_request, process_single_request, make_pending_order,
}
use trading_crew.Execution.Place.Outcome.{process_raised, process_open}
use trading_crew.Execution.Poll.{apply_report, age_minutes, build_order_from_record}
use trading_crew.Execution.Poll.Effects.{partial_fill_twice, full_fill_row}
use trading_crew.Execution.Reconcile.{
  compute_break_even, fill_price_of, reconcile_fill, tentative_price_of, undo_buy,
}

instance abbrev int_num : Num
int_num = integers

-- An exchange that refuses the symbol "BAD" and leaves every other order open as "x1". It knows no
-- status, and cancels all but "BAD".
abbrev is_bad : String → Bool
is_bad s = str_eq s "BAD"

abbrev refusal : {A : Type 0} → Result A
refusal = err (exchange_error "refused")

abbrev placed : OrderRequest → Order
placed req = record {
  id = "x1";
  request = req;
  status = open_status;
  filled_amount = pos 0;
  average_fill_price = none;
  break_even_price = none;
  fills = [];
  created_at = pos 0;
  updated_at = pos 0;
}

instance abbrev exchange : Exchange
exchange = record {
  State = ℕ;
  exchange_id = "binance";
  is_paper = true;
  fetch_ticker = λ symbol s. (refusal, s);
  create_order = λ req s. (if is_bad req.symbol then refusal else ok (placed req), s);
  fetch_order_status = λ id symbol s. (refusal, s);
  cancel_order = λ id symbol s. (if is_bad symbol then refusal else ok tt, s);
  normalize_order_precision = λ symbol amount price s. (ok (amount, price), s);
  get_market_limits = λ symbol s. (refusal, s);
}

abbrev request : String → OrderSide → ℤ → OrderRequest
request symbol side amount = record {
  symbol = symbol;
  exchange = "binance";
  side = side;
  order_type = OrderType.limit;
  amount = amount;
  price = some (pos 100);
  stop_loss_price = none;
  take_profit_price = none;
  strategy_name = "ema";
  signal_confidence = pos 1;
}

abbrev position : Position
position = record {
  symbol = "BTC";
  exchange = "binance";
  is_long = true;
  entry_price = pos 80;
  amount = pos 5;
  current_price = pos 80;
  stop_loss_price = none;
  take_profit_price = none;
  strategy_name = "ema";
}

abbrev portfolio : Portfolio
portfolio = record {
  positions = ("BTC", position) ∷ [];
  balance_quote = pos 1000;
  quote_currency = "USDT";
  realized_pnl = pos 0;
  total_fees = pos 0;
  peak_balance = pos 1000;
}

-- The clock stands at two hours.
abbrev settings : Settings
settings = record {
  stale_minutes = pos 60;
  stale_partial_minutes = pos 360;
  anti_averaging_down_enabled = true;
  now = pos 7200;
  fresh_id = λ n. "pending";
  lower = λ s. s;
}

abbrev world : List OrderRecord → World
world rows = record {
  portfolio = portfolio;
  db = record { orders = rows; failed_orders = []; portfolios = [] };
  exchange = 0;
  notices = [];
  result = empty_result;
  ids_drawn = 0;
}

-- The row of a BUY of 3 at 100, of the time zero.
abbrev row : String → OrderRecord
row symbol = row_of (placed (request symbol OrderSide.buy (pos 3)))

abbrev btc_row : OrderRecord
btc_row = row "BTC"

pending_ne : ◌≢◌ {A = String} "x1" "pending"
pending_ne e = ground (arith, str_eq_iff "x1" "pending")

validate_buy_covered_example : pos 300 ≤ pos 1000
unfolding validate_order validation_price ◌*ℤ◌ check_balance opt_or check_inventory check_limits
validate_buy_covered_example =
    validate_buy_covered integers-IsOrdered (request "BTC" OrderSide.buy (pos 3)) portfolio
      portfolio 0 (pos 100) refl refl refl refl

validate_sell_held_example :
    (pos' : Position) × (lookup "BTC" portfolio.positions ≡ some pos') × (pos 3 ≤ pos'.amount)
unfolding validate_order validation_price check_balance check_inventory check_limits
validate_sell_held_example =
    validate_sell_held integers-IsOrdered (request "BTC" OrderSide.sell (pos 3)) portfolio portfolio
      0 refl refl

process_raised_example :
    let req = request "BAD" OrderSide.buy (pos 3) in
    let pending_order = make_pending_order (pos 7200) "pending" req in
    let saved = (prepare_request settings req (world [])).1 in
    let (outcome, after) = process_single_request settings req none (world []) in
    (find_order "pending" saved.db.orders ≡ some (row_of pending_order))
    × ((outcome, after) ≡ send_request settings pending_order saved)
    × (outcome ≡ ok tt)
    × (find_order "pending" after.db.orders
        ≡ some
            (row_of (record (make_pending_order (pos 7200) "pending" req) { status = rejected })))
    × (after.portfolio ≡ portfolio)
    × (after.result.placed ≡ [])
    × (after.result.filled ≡ [])
    × (after.result.failed
        ≡ record {
          order_request = req;
          error_reason = placement_error "refused";
          timestamp = pos 7200;
        }
          ∷ [])
unfolding validate_order normalize_precision validation_price check_balance opt_or ◌*ℤ◌
    check_inventory check_limits find_order
process_raised_example =
    process_raised settings (request "BAD" OrderSide.buy (pos 3))
      (request "BAD" OrderSide.buy (pos 3)) none (world []) refl refl refl refl

process_open_example :
    let req = request "BTC" OrderSide.buy (pos 3) in
    let (outcome, after) = process_single_request settings req none (world []) in
    (outcome ≡ ok tt)
    × (find_order "x1" after.db.orders
        ≡ some (promote (placed req) (row_of (make_pending_order (pos 7200) "pending" req))))
    × (after.portfolio ≡ portfolio)
    × (after.result.placed ≡ placed req ∷ [])
    × (after.result.failed ≡ [])
unfolding validate_order normalize_precision validation_price check_balance opt_or ◌*ℤ◌
    check_inventory check_limits find_order
process_open_example =
    process_open settings (request "BTC" OrderSide.buy (pos 3))
      (request "BTC" OrderSide.buy (pos 3)) none (world [])
      (placed (request "BTC" OrderSide.buy (pos 3))) refl refl refl refl refl refl pending_ne

-- 2 filled at 90 instead of 100: each poll gives back 20.
partial_fill_twice_example :
    let reread = set_status (pos 7200) partially_filled btc_row in
    let w = world (btc_row ∷ []) in
    let first = (apply_report settings btc_row partially_filled (pos 2) (pos 90) w).1 in
    let second = (apply_report settings reread partially_filled (pos 2) (pos 90) first).1 in
    (find_order "x1" first.db.orders ≡ some reread)
    × (second.portfolio.balance_quote ≡ pos 1040)
    × (second.portfolio.total_fees ≡ pos 0)
unfolding ◌+ℤ◌ ◌-ℤ◌ ◌*ℤ◌ opt_or age_minutes div_scaled find_order
partial_fill_twice_example =
    partial_fill_twice settings btc_row (pos 2) (pos 90) (pos 100) (world (btc_row ∷ [])) refl refl
      refl refl refl refl

-- The order of the row, filled at 90 in full.
abbrev filled_order : Order
filled_order =
    record (placed (record (request "BTC" OrderSide.buy (pos 3)) { signal_confidence = pos 0 })) {
      status = filled;
      filled_amount = pos 3;
      average_fill_price = some (pos 90);
      fills =
          record {
            price = pos 90;
            amount = pos 3;
            fee = pos 0;
            fee_currency = "USDT";
            timestamp = pos 7200;
          }
          ∷ [];
      updated_at = pos 7200;
    }

-- 2 of the 5 at 80 are left by the undo, and 3 at 90 come in.
abbrev booked : Portfolio
booked = record portfolio {
  positions = ("BTC", record position { entry_price = pos 86; current_price = pos 90 }) ∷ [];
  balance_quote = pos 1030;
}

full_fill_row_example :
    let updated = record filled_order { break_even_price = some (pos 90) } in
    let (outcome, after) =
      apply_report settings btc_row filled (pos 3) (pos 90) (world (btc_row ∷ [])) in
    (outcome ≡ ok tt)
    × (after.portfolio ≡ booked)
    × (after.result.filled ≡ updated ∷ [])
    × (find_order "x1" after.db.orders
        ≡ some (set_status (pos 7200) filled (refresh updated btc_row)))
unfolding build_order_from_record make_request make_order ◌*ℤ◌ quote_currency reconcile_fill
    undo_buy ◌-ℤ◌ div_checked ◌+ℤ◌ compute_break_even div_scaled total_fee sum fill_price_of
    opt_or_opt opt_or tentative_price_of find_order
full_fill_row_example =
    full_fill_row settings btc_row (pos 3) (pos 90) (world (btc_row ∷ [])) filled_order
      (record filled_order { break_even_price = some (pos 90) }) [] booked refl refl refl
