-- ===== src/Models/Order.antt =====
-- src/trading_crew/models/order.py. Times are in seconds; the raw exchange response that an order
-- keeps for debugging is left out.
pub mod Fills
use trading_crew.Prelude.{
  Bool, true, false, ◌&&◌, ◌||◌, not, if◌then◌else◌, Option, none, some, is_some, List, [], ◌∷◌,
  ◌++◌, map, String, Result, ok, err, validation,
}
use trading_crew.Num.{Num, R, ◌+◌, ◌-◌, ◌*◌, ◌/◌, ltb, leb, eqb, zero_num, one, hundred, sum}

pub data OrderSide : Type 0 where
  buy sell : OrderSide

pub data OrderType : Type 0 where
  market limit : OrderType

pub data OrderStatus : Type 0 where
  pending open_status partially_filled filled cancelled rejected : OrderStatus

-- Python's `==` of two members.
abbrev pub status_eq : OrderStatus → OrderStatus → Bool
status_eq pending pending = true
status_eq open_status open_status = true
status_eq partially_filled partially_filled = true
status_eq filled filled = true
status_eq cancelled cancelled = true
status_eq rejected rejected = true
status_eq _ _ = false

unfoldable pub is_terminal : OrderStatus → Bool
is_terminal filled = true
is_terminal cancelled = true
is_terminal rejected = true
is_terminal _ = false

unfoldable pub is_active : OrderStatus → Bool
is_active pending = true
is_active open_status = true
is_active partially_filled = true
is_active _ = false

module _ ⦃num : Num⦄ where
  pub record OrderRequest : Type 0 where
    pub symbol : String
    pub exchange : String
    pub side : OrderSide
    pub order_type : OrderType
    pub amount : R
    pub price : Option R
    pub stop_loss_price : Option R
    pub take_profit_price : Option R
    pub strategy_name : String
    pub signal_confidence : R

  abbrev price_missing : OrderType → Option R → Bool
  price_missing limit none = true
  price_missing _ _ = false

  abbrev is_some_nonpos : Option R → Bool
  is_some_nonpos none = false
  is_some_nonpos (some p) = leb p zero_num

  -- The constructor call `OrderRequest(...)`: pydantic checks the field bounds, then the model validator.
  unfoldable pub make_request : OrderRequest → Result OrderRequest
  make_request r =
      if leb r.amount zero_num
        || ltb r.signal_confidence zero_num
        || ltb one r.signal_confidence
        || price_missing r.order_type r.price
        || is_some_nonpos r.price
      then err validation
      else ok r

  pub record OrderFill : Type 0 where
    pub price : R
    pub amount : R
    pub fee : R
    pub fee_currency : String
    pub timestamp : R

  pub record Order : Type 0 where
    pub id : String
    pub request : OrderRequest
    pub status : OrderStatus
    pub filled_amount : R
    pub average_fill_price : Option R
    pub break_even_price : Option R
    pub fills : List OrderFill
    pub created_at : R
    pub updated_at : R

  -- The bound that pydantic enforces on an order that is built.
  unfoldable pub make_order : Order → Result Order
  make_order o = if ltb o.filled_amount zero_num then err validation else ok o

  unfoldable pub remaining_amount : Order → R
  remaining_amount o = o.request.amount - o.filled_amount

  unfoldable pub fill_pct : Order → R
  fill_pct o =
      if eqb o.request.amount zero_num
      then zero_num
      else o.filled_amount / o.request.amount * hundred

  abbrev fill_fee : OrderFill → R
  fill_fee f = f.fee

  abbrev pub fill_amount_of : OrderFill → R
  fill_amount_of f = f.amount

  abbrev fill_cost : OrderFill → R
  fill_cost f = f.price * f.amount

  unfoldable pub total_fee : Order → R
  total_fee o = sum (map fill_fee o.fills)

  -- `Order.add_fill` at the time `now`.
  unfoldable pub add_fill : R → OrderFill → Order → Order
  add_fill now fill o =
      let fills : List OrderFill = o.fills ++ (fill ∷ []) in
      let filled_amount : R = o.filled_amount + fill.amount in
      let total_cost : R = sum (map fill_cost fills) in
      let total_amount : R = sum (map fill_amount_of fills) in
      record o {
        fills = fills;
        filled_amount = filled_amount;
        average_fill_price =
            if ltb zero_num total_amount then some (total_cost / total_amount) else none;
        updated_at = now;
        status =
            if leb o.request.amount filled_amount
            then filled
            else if ltb zero_num filled_amount
            then partially_filled
            else o.status;
      }
