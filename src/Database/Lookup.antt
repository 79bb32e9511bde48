-- ===== src/Database/Lookup.antt =====
-- The table of orders under its writes.
use trading_crew.Prelude.{
  ◌≡◌, ◌≢◌, some, none, arith, List, [], ◌∷◌, ◌++◌, String, str_eq_iff, if◌then◌else◌, refl, length,
}
use trading_crew.Num.{Num}
use trading_crew.Models.Order.{Order}
use trading_crew.Execution.Types.{OrderRecord}
use trading_crew.Database.{
  Database, find_order, update_row, has_id, save_order, row_of, refresh, get_open_orders, keep_open,
  count_open_orders, count_open,
}

module _ ⦃num : Num⦄ where
  -- A write finds its row, and keeps it under its id.
  pub find_order-update_row :
      (id : String) (f : OrderRecord → OrderRecord) (r : OrderRecord) (rows : List OrderRecord)
      → ((x : OrderRecord) → (f x).exchange_order_id ≡ x.exchange_order_id)
      → find_order id rows ≡ some r
      → find_order id (update_row id f rows) ≡ some (f r)
  unfolding find_order update_row
  find_order-update_row id f r [] keeps h = cc
  find_order-update_row id f r (x ∷ rows) keeps h =
      ground (arith, keeps x, find_order-update_row id f r rows keeps)

  -- A write that moves the row to a new id.
  pub find_order-update_row_new :
      (id new : String) (f : OrderRecord → OrderRecord) (r : OrderRecord) (rows : List OrderRecord)
      → ((x : OrderRecord) → (f x).exchange_order_id ≡ new)
      → find_order id rows ≡ some r
      → find_order new rows ≡ none
      → find_order new (update_row id f rows) ≡ some (f r)
  unfolding find_order update_row
  find_order-update_row_new id new f r [] moves h fresh = cc
  find_order-update_row_new id new f r (x ∷ rows) moves h fresh =
      ground (arith, moves x, str_eq_iff new new, find_order-update_row_new id new f r rows moves)

  -- The other rows are left alone.
  find_order-update_row_ne :
      (id other : String) (f : OrderRecord → OrderRecord) (rows : List OrderRecord)
      → ((x : OrderRecord) → (f x).exchange_order_id ≡ x.exchange_order_id)
      → id ≢ other
      → find_order other (update_row id f rows) ≡ find_order other rows
  unfolding find_order update_row
  find_order-update_row_ne id other f [] keeps ne = refl
  find_order-update_row_ne id other f (x ∷ rows) keeps ne = ground (
    arith,
    keeps x,
    str_eq_iff x.exchange_order_id id,
    str_eq_iff x.exchange_order_id other,
    find_order-update_row_ne id other f rows keeps,
  )

  find_order-append :
      (id : String) (r : OrderRecord) (rows : List OrderRecord)
      → find_order id rows ≡ none
      → find_order id (rows ++ (r ∷ [])) ≡ (if has_id id r then some r else none)
  unfolding find_order
  find_order-append id r [] h = refl
  find_order-append id r (x ∷ rows) h = ground (arith, find_order-append id r rows)

  -- A new order is found under its id after it is saved, with all its columns.
  pub find_order-save_order_new :
      (o : Order) (db : Database)
      → find_order o.id db.orders ≡ none
      → find_order o.id (save_order o db).orders ≡ some (row_of o)
  unfolding save_order
  find_order-save_order_new o db fresh =
      ground (arith, str_eq_iff o.id o.id, find_order-append o.id (row_of o) db.orders fresh)

  -- Another id finds nothing new.
  pub find_order-save_order_other :
      (o : Order) (other : String) (db : Database)
      → find_order o.id db.orders ≡ none
      → find_order other db.orders ≡ none
      → other ≢ o.id
      → find_order other (save_order o db).orders ≡ none
  unfolding save_order
  find_order-save_order_other o other db fresh unused ne =
      ground (arith, str_eq_iff o.id other, find_order-append other (row_of o) db.orders unused)

  -- Saving a known order writes its status, its fills and its break-even price, and keeps the rest of
  -- the row.
  pub find_order-save_order_old :
      (o : Order) (r : OrderRecord) (db : Database)
      → find_order o.id db.orders ≡ some r
      → find_order o.id (save_order o db).orders ≡ some (refresh o r)
  unfolding save_order
  find_order-save_order_old o r db known =
      ground (arith, find_order-update_row o.id (refresh o) r db.orders (λ x. refl) known)

  -- The open orders that are counted are those that are fetched.
  count_open_orders_lem : (db : Database) → count_open_orders db ≡ length (get_open_orders db)
  unfolding count_open_orders get_open_orders
  count_open_orders_lem db = go db.orders
    where
      go : (rows : List OrderRecord) → count_open rows ≡ length (keep_open rows)
      go [] = refl
      go (r ∷ rows) = ground (arith, go rows)
