-- ===== src/Accounting/Partial.antt =====
-- Partial fills: `_reconcile_incremental_fill` between the reservation and the end of an order.
use trading_crew.Prelude.{
  erase-insert_new, refl, ◌≡◌, Bool, some, none, arith, ok, lookup, insert, String, ap, ◌∙◌,
  lookup-insert_self, insert-insert, sym,
}
use trading_crew.Num.{Num, R, ◌+◌, ◌-◌, ◌*◌, ◌/◌, ◌<◌, zero_num, opt_or}
use trading_crew.Num.Laws.{IsOrdered, IsMonotone, IsExact}
use trading_crew.Num.Order.{not_le_of_lt, eqb_of_lt, le_of_lt, max_self_of_le, lt_irrefl}
use trading_crew.Num.Ring.{sub_self, sub-add-sub, sub_sub, mul-sub, sub-mul, sub_eq, sub-add_comm}
use trading_crew.Models.Order.{OrderSide, Order, total_fee}
use trading_crew.Models.Portfolio.{Position, Portfolio, make_position}
use trading_crew.Num.{div_checked}
use trading_crew.Execution.Types.{dust}
use trading_crew.Execution.Reconcile.{reconcile_fill, fill_price_of, undo_buy, tentative_price_of}
use trading_crew.Execution.Incremental.{reconcile_incremental_fill, delta_fee}
use trading_crew.Execution.Release.{release_reservation}
use trading_crew.Database.{row_of}
use trading_crew.Cycle.Reserve.{reserve}
use trading_crew.Accounting.Buy.{IsAffordableBuy, reserve_new, opened}

module _ ⦃num : Num⦄ (order : IsOrdered) where
  -- Over ordered numbers, a partial BUY without a requested price into a position that is held,
  -- with a positive total, adds the amount at the average price, but takes only the fee from the
  -- cash: the added amount is not paid for.
  pub incremental_buy_held :
      (exchange_id symbol : String) (delta price : R) (pos : Position) (p : Portfolio)
      → lookup symbol p.positions ≡ some pos
      → zero_num < pos.amount + delta
      → let fee = delta_fee price delta in
        reconcile_incremental_fill exchange_id symbol OrderSide.buy delta price zero_num p ≡ (
          ok tt,
          record p {
            balance_quote = p.balance_quote - fee;
            total_fees = p.total_fees + fee;
            positions =
                insert symbol
                  (record pos {
                    amount = pos.amount + delta;
                    entry_price =
                        (pos.entry_price * pos.amount + price * delta) / (pos.amount + delta);
                    current_price = price;
                  })
                  p.positions;
          },
        )
  unfolding reconcile_incremental_fill div_checked
  incremental_buy_held exchange_id symbol delta price pos p held total_pos =
      ground
        (arith, lt_irrefl order zero_num, eqb_of_lt order zero_num (pos.amount + delta) total_pos)

  -- Without a reservation, a partial BUY that opens a position pays for it and for the fee.
  incremental_buy_new :
      (exchange_id symbol : String) (delta price : R) (p : Portfolio)
      → lookup symbol p.positions ≡ none
      → zero_num < delta
      → zero_num < price
      → let fee = delta_fee price delta in
        (reconcile_incremental_fill exchange_id symbol OrderSide.buy delta price zero_num
          p).1.balance_quote
        ≡ p.balance_quote - price * delta - fee
  unfolding reconcile_incremental_fill make_position
  incremental_buy_new exchange_id symbol delta price p fresh some_amount positive = ground (
    arith,
    lt_irrefl order zero_num,
    not_le_of_lt order zero_num delta some_amount,
    not_le_of_lt order zero_num price positive,
  )

  -- With a reservation a partial BUY touches the cash and the fees alone.
  incremental_buy_reserved :
      (exchange_id symbol : String) (delta price requested : R) (p : Portfolio)
      → zero_num < requested
      → let fee = delta_fee price delta in
        reconcile_incremental_fill exchange_id symbol OrderSide.buy delta price requested p ≡ (
          ok tt,
          record p {
            balance_quote = p.balance_quote + (delta * (requested - price) - fee);
            total_fees = p.total_fees + fee;
          },
        )
  unfolding reconcile_incremental_fill
  incremental_buy_reserved exchange_id symbol delta price requested p positive = ground arith

  module _ (mono : IsMonotone) (exact : IsExact) where
    open mono use {dec_nonneg, sub_pos}
    open exact use {sub-add, add_assoc, add_comm}

    undo_buy_booked :
        (placed : Order) (price : R) (p s : Portfolio)
        → s.positions
          ≡ insert placed.request.symbol
              (opened placed.request price placed.request.amount)
              p.positions
        → lookup placed.request.symbol p.positions ≡ none
        → undo_buy placed.request price s ≡ record s {
          balance_quote = s.balance_quote + placed.request.amount * price;
          positions = p.positions;
        }
    unfolding undo_buy
    undo_buy_booked placed price p s booked fresh =
        let req = placed.request in
        let pos = opened req price req.amount in
        ground (
          arith,
          lookup-insert_self req.symbol pos p.positions,
          erase-insert_new req.symbol pos p.positions fresh,
          sub_self exact req.amount,
          dec_nonneg 1 10,
        )

    -- (b - x + w) + x - c = b - c + w
    late_refund : (b x w c : R) → b - x + w + x - c ≡ b - c + w
    late_refund b x w c =
        ap (λ t. t + x - c) (sub-add_comm exact b x w)
        ∙ ap (λ t. t - c) (sub-add (b + w) x)
        ∙ sym (sub-add_comm exact b c w)

    -- Over exact numbers, an affordable BUY that is reserved in a symbol without a position,
    -- partly filled, and then filled for a positive amount at a positive price, is not charged the
    -- fill alone: the price correction and the fee of the partial fill stay in the cash, and the
    -- fee of the partial fill is counted on top of the whole fee.
    pub reconcile_fill_partial :
        (guarded : Bool) (placed : Order) (exchange_id : String) (price delta partial_price : R)
        (p : Portfolio)
        → IsAffordableBuy placed.request price p
        → lookup placed.request.symbol p.positions ≡ none
        → zero_num < fill_price_of placed
        → zero_num < placed.filled_amount
        → let req = placed.request in
          let cost = placed.filled_amount * fill_price_of placed + total_fee placed in
          let partial_fee = delta_fee partial_price delta in
          let reserved = (reserve req p).1 in
          let partly =
            (reconcile_incremental_fill exchange_id req.symbol OrderSide.buy delta partial_price
              price reserved).1 in
          (reconcile_fill guarded placed partly).1 ≡ record p {
            balance_quote =
                p.balance_quote - cost + (delta * (price - partial_price) - partial_fee);
            positions =
                insert req.symbol
                  (opened req (fill_price_of placed) placed.filled_amount)
                  p.positions;
            total_fees = p.total_fees + partial_fee + total_fee placed;
          }
    unfolding reconcile_fill make_position tentative_price_of opt_or
    reconcile_fill_partial guarded placed exchange_id price delta partial_price p h fresh price_pos
          filled_pos =
        let req = placed.request in
        let cost = placed.filled_amount * fill_price_of placed + total_fee placed in
        let change = delta * (price - partial_price) - delta_fee partial_price delta in
        let partly = record p {
          balance_quote = p.balance_quote - req.amount * price + change;
          positions = insert req.symbol (opened req price req.amount) p.positions;
          total_fees = p.total_fees + delta_fee partial_price delta;
        } in
        let tentative : tentative_price_of placed ≡ price =
          ground (arith, h.priced, eqb_of_lt order zero_num price h.price_pos) in
        rw
          (
            reserve_new order exact req price p h fresh,
            incremental_buy_reserved exchange_id req.symbol delta partial_price price _ h.price_pos,
          )
          (ground (
            arith,
            h.buys,
            tentative,
            undo_buy_booked placed price p partly refl fresh,
            not_le_of_lt order zero_num (fill_price_of placed) price_pos,
            not_le_of_lt order zero_num placed.filled_amount filled_pos,
            fresh,
            late_refund p.balance_quote (req.amount * price) change cost,
          ))

    -- (b - x + (y - z - f)) + (x - y) = b - (f + z)
    settled : (b x y z f : R) → b - x + (y - z - f) + (x - y) ≡ b - (f + z)
    settled b x y z f =
        add_assoc (b - x) (y - z - f) (x - y)
        ∙ ap (λ t. b - x + t) (add_comm (y - z - f) (x - y))
        ∙ sym (add_assoc (b - x) (x - y) (y - z - f))
        ∙ ap (λ t. t + (y - z - f)) (sub-add-sub exact b x y)
        ∙ ap (λ t. b - y + t) (sub_sub exact y z f)
        ∙ sub-add-sub exact b y (f + z)

    -- Over exact numbers, an affordable BUY that is reserved in a symbol without a position,
    -- partly filled for more than dust, and then cancelled, is charged the partial fill and its
    -- fee, and the position has the filled amount.
    pub release_reservation_partial :
        (placed : Order) (exchange_id : String) (price delta partial_price : R) (p : Portfolio)
        → IsAffordableBuy placed.request price p
        → lookup placed.request.symbol p.positions ≡ none
        → dust < delta
        → delta < placed.request.amount
        → let req = placed.request in
          let fee = delta_fee partial_price delta in
          let reserved = (reserve req p).1 in
          let partly =
            (reconcile_incremental_fill exchange_id req.symbol OrderSide.buy delta partial_price
              price reserved).1 in
          release_reservation (row_of placed) delta partly ≡ record p {
            balance_quote = p.balance_quote - (fee + delta * partial_price);
            positions = insert req.symbol (opened req price delta) p.positions;
            total_fees = p.total_fees + fee;
          }
    unfolding release_reservation opt_or
    release_reservation_partial placed exchange_id price delta partial_price p h fresh sizable
          part =
        let req = placed.request in
        let fee = delta_fee partial_price delta in
        let left = req.amount - delta in
        let left_pos : zero_num < left = sub_pos req.amount delta part in
        rw
          (
            reserve_new order exact req price p h fresh,
            incremental_buy_reserved exchange_id req.symbol delta partial_price price _ h.price_pos,
          )
          (ground (
            arith,
            h.buys,
            h.priced,
            eqb_of_lt order zero_num price h.price_pos,
            max_self_of_le order zero_num left (le_of_lt order zero_num left left_pos),
            not_le_of_lt order zero_num left left_pos,
            lookup-insert_self req.symbol (opened req price req.amount) p.positions,
            insert-insert req.symbol (opened req price delta) (opened req price req.amount)
                p.positions,
            sub_eq exact req.amount left delta
                (sym (add_comm delta left ∙ sub-add req.amount delta)),
            not_le_of_lt order dust delta sizable,
            mul-sub exact delta price partial_price,
            sub-mul exact req.amount delta price,
            settled p.balance_quote (req.amount * price) (delta * price) (delta * partial_price)
                fee,
          ))
