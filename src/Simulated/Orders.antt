-- ===== src/Simulated/Orders.antt =====
-- Orders on the simulated exchange: what is placed is what is reported, until it is cancelled.
use trading_crew.Prelude.{
  Bool, true, false, ◌≡◌, ◌≢◌, refl, ap, subst, if◌then◌else◌, Option, none, some, String, str_eq,
  str_eq_iff, insert, lookup-insert, lookup-insert_self, ℕ, suc, Result, ok, err, Error, validation,
  value_error, index_error, ◌||◌, arith,
}
use trading_crew.Num.{Num, leb, ltb, zero_num}
use trading_crew.Models.Order.{OrderRequest, Order, OrderFill}
use trading_crew.Models.Market.{Candle}
use trading_crew.Execution.Exchange.{RawStatus}
use trading_crew.Simulated.{
  SimulatedConfig, SimulatedState, create_order, create_at, fetch_order_status, cancel_order,
  current_candle, fill_of, filled_order, closed_status,
}

module _ ⦃num : Num⦄ (c : SimulatedConfig) where
  -- The state after an order.
  abbrev placed : OrderRequest → OrderFill → SimulatedState → SimulatedState
  placed request fill s = record s {
    orders = insert (c.order_name (suc s.next_order_id)) (closed_status c request fill) s.orders;
    next_order_id = suc s.next_order_id;
  }

  -- An order raises and is not listed, or is filled at the candle's price and listed under a new id.
  data IsPlacement (request : OrderRequest) (s : SimulatedState)
      : Result Order × SimulatedState → Type 0 where
    refused :
        (e : Error) (t : SimulatedState) → t.orders ≡ s.orders → IsPlacement request s (err e, t)
    accepted :
        (candle : Candle) (fill : OrderFill)
        → IsPlacement request s (
          ok (filled_order c (c.order_name (suc s.next_order_id)) request candle fill),
          placed request fill s,
        )

  create_at-IsPlacement :
      (request : OrderRequest) (candle : Option Candle) (s : SimulatedState)
      → IsPlacement request s (create_at c request candle s)
  unfolding create_at
  create_at-IsPlacement request none s = refused index_error s refl
  create_at-IsPlacement request (some candle) s =
      let fill = fill_of c request candle in
      placement (leb fill.price zero_num || leb fill.amount zero_num || ltb fill.fee zero_num) fill
    where
      placement :
          (bad : Bool) (fill : OrderFill)
          → IsPlacement request s (
              if bad then (err validation, record s { next_order_id = suc s.next_order_id }) else (
                ok (filled_order c (c.order_name (suc s.next_order_id)) request candle fill),
                placed request fill s,
              ))
      placement true fill = refused validation _ refl
      placement false fill = accepted candle fill

  for_symbol-IsPlacement :
      (request : OrderRequest) (s : SimulatedState) (known : Bool)
      (r : Result Order × SimulatedState)
      → IsPlacement request s r
      → IsPlacement request s (if known then r else (err value_error, s))
  for_symbol-IsPlacement request s true r h = h
  for_symbol-IsPlacement request s false r h = refused value_error s refl

  create_order-IsPlacement :
      (request : OrderRequest) (s : SimulatedState)
      → IsPlacement request s (create_order c request s)
  unfolding create_order
  create_order-IsPlacement request s =
      for_symbol-IsPlacement request s (str_eq request.symbol c.symbol)
        (create_at c request (current_candle c s) s)
        (create_at-IsPlacement request (current_candle c s) s)

  abbrev pub status_of : Order → RawStatus
  status_of o = record {
    status = some "closed";
    filled = some o.filled_amount;
    average = o.average_fill_price;
    price = none;
  }

  -- What is reported of an order, before and after it is cancelled.
  abbrev IsReported : SimulatedState → Order → Type 0
  IsReported t o =
      ((fetch_order_status c o.id o.request.symbol t).0 ≡ ok (status_of o))
      × ((fetch_order_status c o.id o.request.symbol (cancel_order c o.id o.request.symbol t).1).0
          ≡ ok (record (status_of o) { status = some "canceled" }))

  accepted-IsReported :
      (request : OrderRequest) (s : SimulatedState) (candle : Candle) (fill : OrderFill)
      → IsReported
          (placed request fill s)
          (filled_order c (c.order_name (suc s.next_order_id)) request candle fill)
  unfolding fetch_order_status cancel_order closed_status filled_order
  accepted-IsReported request s candle fill =
      let id = c.order_name (suc s.next_order_id) in
      let raw = closed_status c request fill in
      let cancelled = record raw { status = some "canceled" } in
      rw
        (
          lookup-insert_self id raw s.orders,
          lookup-insert_self id cancelled (insert id raw s.orders),
        )
        (refl, refl)

  report :
      (request : OrderRequest) (s : SimulatedState) (o : Order) (r : Result Order × SimulatedState)
      → IsPlacement request s r
      → r.0 ≡ ok o
      → IsReported r.1 o
  report request s o r (refused e t k) h = cc
  report request s o r (accepted candle fill) h =
      subst (IsReported (placed request fill s)) (ap (λ x. elim x [ ok y ↦ y | err e ↦ o ]) h)
        (accepted-IsReported request s candle fill)

  earlier :
      (request : OrderRequest) (s : SimulatedState) (n : ℕ) (symbol : String)
      (r : Result Order × SimulatedState)
      → IsPlacement request s r
      → c.order_name n ≢ c.order_name (suc s.next_order_id)
      → (fetch_order_status c (c.order_name n) symbol r.1).0
        ≡ (fetch_order_status c (c.order_name n) symbol s).0
  unfolding fetch_order_status
  earlier request s n symbol r (refused e t k) h = rw k refl
  earlier request s n symbol r (accepted candle fill) h = ground (
    arith,
    lookup-insert (c.order_name (suc s.next_order_id)) (c.order_name n)
        (closed_status c request fill) s.orders,
    str_eq_iff (c.order_name (suc s.next_order_id)) (c.order_name n),
  )

  -- An order that was placed is reported under its id as closed, with the amount and the price of the
  -- order that was returned, and once it is cancelled as canceled, with the same fill.
  pub fetch_order_status-create_order :
      (request : OrderRequest) (s : SimulatedState) (o : Order)
      → (create_order c request s).0 ≡ ok o
      → let placed_state = (create_order c request s).1 in
        let symbol = o.request.symbol in
        ((fetch_order_status c o.id symbol placed_state).0 ≡ ok (status_of o))
        × ((fetch_order_status c o.id symbol (cancel_order c o.id symbol placed_state).1).0
            ≡ ok (record (status_of o) { status = some "canceled" }))
  fetch_order_status-create_order request s o h =
      report request s o (create_order c request s) (create_order-IsPlacement request s) h

  -- Where each number is written differently, an order that is placed changes the report of no order
  -- that was placed before it.
  pub fetch_order_status_earlier :
      (request : OrderRequest) (s : SimulatedState) (n : ℕ) (symbol : String)
      → c.order_name n ≢ c.order_name (suc s.next_order_id)
      → (fetch_order_status c (c.order_name n) symbol (create_order c request s).1).0
        ≡ (fetch_order_status c (c.order_name n) symbol s).0
  fetch_order_status_earlier request s n symbol h =
      earlier request s n symbol (create_order c request s) (create_order-IsPlacement request s) h
