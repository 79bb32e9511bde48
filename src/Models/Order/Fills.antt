-- ===== src/Models/Order/Fills.antt =====
-- The fills of an order: the filled amount is what the fills add up to.
use trading_crew.Prelude.{if◌then◌else◌, ◌≡◌, refl, List, [], ◌∷◌, ◌++◌, map, sym, ap, ◌∙◌}
use trading_crew.Num.{Num, R, ◌+◌, leb, ltb, zero_num, sum, sum_from}
use trading_crew.Models.Order.{Order, OrderFill, filled, partially_filled, add_fill, fill_amount_of}

module _ ⦃num : Num⦄ where
  -- The filled amount of an order is the sum of its fills.
  abbrev pub IsTallied : Order → Type 0
  IsTallied o = o.filled_amount ≡ sum (map fill_amount_of o.fills)

  sum_from-snoc :
      (acc : R) (xs : List OrderFill) (f : OrderFill)
      → sum_from acc (map fill_amount_of (xs ++ (f ∷ [])))
        ≡ sum_from acc (map fill_amount_of xs) + f.amount
  unfolding sum_from
  sum_from-snoc acc [] f = refl
  sum_from-snoc acc (x ∷ xs) f = sum_from-snoc (acc + x.amount) xs f

  -- `add_fill` keeps the filled amount equal to the sum of the fills. The order is FILLED if that
  -- reaches the requested amount, else PARTIALLY_FILLED if it is positive, else as it was.
  pub add_fill-IsTallied :
      (now : R) (f : OrderFill) (o : Order)
      → IsTallied o
      → let r = add_fill now f o in
        IsTallied r
        × (r.status ≡ (
            if leb r.request.amount r.filled_amount
            then filled
            else if ltb zero_num r.filled_amount
            then partially_filled
            else o.status))
  unfolding add_fill sum
  add_fill-IsTallied now f o h =
      (sym (sum_from-snoc zero_num o.fills f ∙ ap (λ x. x + f.amount) (sym h)), refl)
