-- ===== src/Accounting/Cancel.antt =====
-- An order that is reserved and then cancelled before any fill: `_release_reservation`.
use trading_crew.Prelude.{
  ◌≡◌, none, arith, lookup, erase, lookup-insert_self, insert-insert, insert_self,
  lookup-erase_self, HasUniqueKeys, erase-insert_new,
}
use trading_crew.Num.{Num, R, ◌-◌, ◌*◌, ◌≤◌, ◌<◌, zero_num, opt_or}
use trading_crew.Num.Laws.{IsOrdered, IsMonotone, IsExact}
use trading_crew.Num.Order.{not_le_of_lt, eqb_of_lt, max_self_of_le, le_of_lt}
use trading_crew.Num.Ring.{sub_self, add-sub, sub_zero}
use trading_crew.Models.Order.{Order}
use trading_crew.Models.Portfolio.{Position, Portfolio}
use trading_crew.Execution.Release.{release_reservation}
use trading_crew.Database.{row_of}
use trading_crew.Cycle.Reserve.{reserve}
use trading_crew.Accounting.Buy.{IsAffordableBuy, reserve_new, opened}
use trading_crew.Accounting.Sell.{IsSaleOf, reserve_part, reserve_whole}

module _ ⦃num : Num⦄ (order : IsOrdered) (mono : IsMonotone) (exact : IsExact) where
  open mono use {dec_nonneg}
  open exact use {sub-add}

  -- Over exact numbers, cancelling an unfilled affordable BUY that was reserved in a symbol
  -- without a position gives the portfolio back as it was.
  pub release_reservation-reserve_new :
      (placed : Order) (price : R) (p : Portfolio)
      → IsAffordableBuy placed.request price p
      → lookup placed.request.symbol p.positions ≡ none
      → release_reservation (row_of placed) zero_num (reserve placed.request p).1 ≡ p
  unfolding release_reservation opt_or
  release_reservation-reserve_new placed price p h fresh =
      let req = placed.request in
      let pos = opened req price req.amount in
      rw (reserve_new order exact req price p h fresh) (
        ground (
          arith,
          h.buys,
          h.priced,
          sub_zero exact req.amount,
          max_self_of_le order zero_num req.amount
              (le_of_lt order zero_num req.amount h.amount_pos),
          not_le_of_lt order zero_num req.amount h.amount_pos,
          eqb_of_lt order zero_num price h.price_pos,
          lookup-insert_self req.symbol pos p.positions,
          erase-insert_new req.symbol pos p.positions fresh,
          sub_self exact req.amount,
          dec_nonneg 1 10,
          sub-add p.balance_quote (req.amount * price),
        ))

  -- Over exact numbers, cancelling an unfilled SELL of a positive amount below the position gives
  -- the portfolio back as it was, if its balance was not negative.
  pub release_reservation-reserve_part :
      (placed : Order) (price : R) (pos : Position) (p : Portfolio)
      → IsSaleOf placed.request price pos p
      → zero_num < placed.request.amount
      → placed.request.amount < pos.amount
      → zero_num ≤ p.balance_quote
      → release_reservation (row_of placed) zero_num (reserve placed.request p).1 ≡ p
  unfolding release_reservation opt_or
  release_reservation-reserve_part placed price pos p h positive part solvent =
      let req = placed.request in
      let less = record pos { amount = pos.amount - req.amount } in
      rw (reserve_part order mono exact req price pos p h part) (
        ground (
          arith,
          sub_zero exact req.amount,
          max_self_of_le order zero_num req.amount (le_of_lt order zero_num req.amount positive),
          not_le_of_lt order zero_num req.amount positive,
          eqb_of_lt order zero_num price h.price_pos,
          lookup-insert_self req.symbol less p.positions,
          insert-insert req.symbol pos less p.positions,
          insert_self req.symbol pos p.positions h.held,
          sub-add pos.amount req.amount,
          add-sub exact p.balance_quote (req.amount * price),
          max_self_of_le order zero_num p.balance_quote solvent,
        ))

  -- Over exact numbers, cancelling an unfilled SELL of a whole positive position, with a balance
  -- that was not negative, takes the cash of the reservation back, but the position is not
  -- restored: the portfolio has lost it.
  pub release_reservation-reserve_whole :
      (placed : Order) (price : R) (pos : Position) (p : Portfolio)
      → IsSaleOf placed.request price pos p
      → HasUniqueKeys p.positions
      → zero_num < pos.amount
      → placed.request.amount ≡ pos.amount
      → zero_num ≤ p.balance_quote
      → release_reservation (row_of placed) zero_num (reserve placed.request p).1
        ≡ record p { positions = erase placed.request.symbol p.positions }
  unfolding release_reservation opt_or
  release_reservation-reserve_whole placed price pos p h unique positive whole solvent =
      let req = placed.request in
      rw (reserve_whole order mono exact req price pos p h whole) (
        ground (
          arith,
          sub_zero exact pos.amount,
          max_self_of_le order zero_num pos.amount (le_of_lt order zero_num pos.amount positive),
          not_le_of_lt order zero_num pos.amount positive,
          eqb_of_lt order zero_num price h.price_pos,
          lookup-erase_self req.symbol p.positions unique,
          add-sub exact p.balance_quote (pos.amount * price),
          max_self_of_le order zero_num p.balance_quote solvent,
        ))
