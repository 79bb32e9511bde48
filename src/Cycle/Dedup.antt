-- ===== src/Cycle/Dedup.antt =====
-- `_dedup_sell_orders` of src/trading_crew/flows/trading_flow.py, which merges the SELL requests of a cycle
-- before the capital is reserved.
pub mod OneSell
pub mod Sides
use trading_crew.Prelude.{
  Bool, if◌then◌else◌, Option, none, some, List, [], ◌∷◌, ◌++◌, Dict, lookup, insert,
}
use trading_crew.Num.{Num, ltb, min}
use trading_crew.Models.Order.{OrderSide, OrderRequest}
use trading_crew.Models.Portfolio.{Position, Portfolio}

module _ ⦃num : Num⦄ where
  -- The larger of a request and the one that is kept; on a tie the kept one stays.
  abbrev pub larger : OrderRequest → Option OrderRequest → OrderRequest
  larger req none = req
  larger req (some kept) = if ltb kept.amount req.amount then req else kept

  -- The loop over the requests: the BUYs in order, and the largest SELL of each symbol.
  unfoldable pub split_orders :
      List OrderRequest
      → List OrderRequest
      → Dict OrderRequest
      → List OrderRequest × Dict OrderRequest
  split_orders [] buys best = (buys, best)
  split_orders (req ∷ more) buys best = elim req.side [
    | OrderSide.buy ↦ split_orders more (buys ++ (req ∷ [])) best
    | OrderSide.sell ↦
        split_orders more buys (insert req.symbol (larger req (lookup req.symbol best)) best)
  ]

  abbrev pub capped_at : OrderRequest → Option Position → OrderRequest
  capped_at req none = req
  capped_at req (some pos) = record req { amount = min req.amount pos.amount }

  -- Each SELL that is kept, for at most what is held.
  unfoldable pub cap_sells : Portfolio → Dict OrderRequest → List OrderRequest
  cap_sells p [] = []
  cap_sells p ((symbol, req) ∷ best) = capped_at req (lookup symbol p.positions) ∷ cap_sells p best

  -- `_dedup_sell_orders`
  unfoldable pub dedup_sell_orders : List OrderRequest → Portfolio → List OrderRequest
  dedup_sell_orders requests p =
      let (buys, best) = split_orders requests [] [] in buys ++ cap_sells p best
