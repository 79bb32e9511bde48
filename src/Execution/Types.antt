-- ===== src/Execution/Types.antt =====
-- What the execution service shares: its constants, the messages that it sends, and the values that it
-- reads and returns.
use Prim.Native.Char.{Char, code}
use trading_crew.Num.Int.{eqb_ℕ}
use trading_crew.Prelude.{
  Bool, if◌then◌else◌, Option, none, some, List, [], ◌∷◌, String, Dict, lookup, get_or,
}
use trading_crew.Num.{Num, R, dec}
use trading_crew.Models.Risk.{TripReason}
use trading_crew.Models.Order.{
  OrderSide, OrderType, OrderStatus, pending, open_status, partially_filled, filled, cancelled,
  rejected, OrderRequest, Order,
}

abbrev status_map : Dict OrderStatus
status_map =
    ("pending", pending)
    ∷ ("open", open_status)
    ∷ ("partial", partially_filled)
    ∷ ("partially_filled", partially_filled)
    ∷ ("closed", filled)
    ∷ ("filled", filled)
    ∷ ("canceled", cancelled)
    ∷ ("cancelled", cancelled)
    ∷ ("expired", cancelled)
    ∷ ("rejected", rejected)
    ∷ []

-- `_normalize_status`, of a text that is in lower case already.
unfoldable pub normalize_status : String → OrderStatus
normalize_status raw = get_or open_status (lookup raw status_map)

abbrev is_slash : Char → Bool
is_slash c = eqb_ℕ (code c) b'/'

until_slash : String → String
until_slash String.[] = String.[]
until_slash (String.◌∷◌ c s) = if is_slash c then String.[] else String.◌∷◌ c (until_slash s)

after_slash : String → Option String
after_slash String.[] = none
after_slash (String.◌∷◌ c s) = if is_slash c then some (until_slash s) else after_slash s

-- `symbol.split("/")[1] if "/" in symbol else "USDT"`
unfoldable pub quote_currency : String → String
unfolding until_slash after_slash
quote_currency symbol = get_or "USDT" (after_slash symbol)

module _ ⦃num : Num⦄ where
  -- `_DEFAULT_FEE_RATE`
  abbrev pub default_fee_rate : R
  default_fee_rate = dec 1 3

  -- The size under which a position counts as closed, `1e-10`.
  abbrev pub dust : R
  dust = dec 1 10

  -- A message to the notification service: its kind, and what the source formats into it.
  pub data Notice : Type 0 where
    order_rejected : OrderRequest → Notice
    placement_failed : OrderRequest → Notice
    order_placed : OrderRequest → Notice
    order_filled : Order → Notice
    rejected_by_exchange : OrderRequest → Notice
    partial_fill : String → R → R → Notice
    stale_cancelled : String → R → Notice
    guard_reset : String → Notice
    poll_filled : String → R → R → Notice
    pipeline_failed : String → Notice
    breaker_tripped : TripReason → Notice
    stop_loss_triggered : String → R → Option R → Notice

  -- Why a request was not placed.
  pub data FailureReason : Type 0 where
    insufficient_balance : R → R → FailureReason
    no_position : String → FailureReason
    exceeds_position : R → R → FailureReason
    below_amount_min : R → R → FailureReason
    below_cost_min : R → R → FailureReason
    placement_error : String → FailureReason
    exchange_rejected : FailureReason

  pub record FailedOrder : Type 0 where
    pub order_request : OrderRequest
    pub error_reason : FailureReason
    pub timestamp : R

  -- An entry of `errors`: the order's id and the text of the exception.
  pub data CallError : Type 0 where
    poll_failed : String → String → CallError
    cancel_failed : String → String → CallError

  pub record ExecutionResult : Type 0 where
    pub placed : List Order
    pub filled : List Order
    pub cancelled : List Order
    pub failed : List FailedOrder
    pub errors : List CallError

  -- What the service reads of a row of the table `orders` (`OrderRecordLike`).
  pub record OrderRecord : Type 0 where
    pub exchange_order_id : String
    pub symbol : String
    pub exchange : String
    pub side : OrderSide
    pub order_type : OrderType
    pub status : OrderStatus
    pub requested_amount : R
    pub filled_amount : R
    pub requested_price : Option R
    pub average_fill_price : Option R
    pub stop_loss_price : Option R
    pub take_profit_price : Option R
    pub total_fee : R
    pub break_even_price : Option R
    pub strategy_name : String
    pub signal_confidence : R
    pub created_at : R
    pub updated_at : R
