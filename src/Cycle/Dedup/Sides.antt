-- ===== src/Cycle/Dedup/Sides.antt =====
-- What the merged requests of a cycle buy and sell.
use trading_crew.Prelude.{
  ◌≡◌, refl, sym, Bool, true, ◌&&◌, none, some, List, [], ◌∷◌, ◌++◌, Dict, lookup, insert, arith,
  Option-cases, inl, inr,
}
use mathlib.Core.List.{append-nil, append_assoc}
use trading_crew.Num.{Num, leb}
use trading_crew.Num.Laws.{IsOrdered}
use trading_crew.Num.Order.{min-le_right}
use trading_crew.Models.Order.{OrderSide, OrderRequest}
use trading_crew.Models.Portfolio.{Portfolio}
use trading_crew.Cycle.Dedup.{larger, split_orders, capped_at, cap_sells, dedup_sell_orders}
use trading_crew.Cycle.Dedup.OneSell.{IsBest, split-IsBest}

module _ ⦃num : Num⦄ where
  -- The BUYs, in order.
  unfoldable pub buys_of : List OrderRequest → List OrderRequest
  buys_of [] = []
  buys_of (r ∷ rs) = elim r.side [ OrderSide.buy ↦ r ∷ buys_of rs | OrderSide.sell ↦ buys_of rs ]

  buys_of-append : (rs ts : List OrderRequest) → buys_of (rs ++ ts) ≡ buys_of rs ++ buys_of ts
  unfolding buys_of
  buys_of-append [] ts = refl
  buys_of-append (r ∷ rs) ts = ground (arith, buys_of-append rs ts)

  buys_of-split :
      (requests buys : List OrderRequest) (best : Dict OrderRequest)
      → buys_of (split_orders requests buys best).0 ≡ buys_of buys ++ buys_of requests
  unfolding split_orders buys_of
  buys_of-split [] buys best = sym (append-nil (buys_of buys))
  buys_of-split (r ∷ more) buys best = ground (
    arith,
    buys_of-split more (buys ++ (r ∷ [])) best,
    buys_of-split more buys (insert r.symbol (larger r (lookup r.symbol best)) best),
    buys_of-append buys (r ∷ []),
    append_assoc (buys_of buys) (r ∷ []) (buys_of more),
  )

  buys_of-cap_sells :
      (p : Portfolio) (d : Dict OrderRequest) → IsBest d → buys_of (cap_sells p d) ≡ []
  unfolding buys_of cap_sells IsBest
  buys_of-cap_sells p [] best = refl
  buys_of-cap_sells p ((k, r) ∷ d) best = ground (arith, best.1, buys_of-cap_sells p d best.3)

  -- The merged requests have the BUYs of the requests, in their order and as they were.
  pub buys_of-dedup_sell_orders :
      (requests : List OrderRequest) (p : Portfolio)
      → buys_of (dedup_sell_orders requests p) ≡ buys_of requests
  unfolding dedup_sell_orders IsBest buys_of
  buys_of-dedup_sell_orders requests p =
      let best = (split_orders requests [] []).1 in
      let buys = (split_orders requests [] []).0 in
      ground (
        arith,
        buys_of-append buys (cap_sells p best),
        buys_of-split requests [] [],
        buys_of-cap_sells p best (split-IsBest requests [] [] tt),
        append-nil (buys_of requests),
      )

  -- A SELL is for no more than the position in its symbol, if there is one.
  abbrev is_covered : Portfolio → OrderRequest → Bool
  is_covered p r = elim r.side [
    | OrderSide.buy ↦ true
    | OrderSide.sell ↦ elim (lookup r.symbol p.positions) [
      | none ↦ true
      | some pos ↦ leb r.amount pos.amount
    ]
  ]

  unfoldable pub all_covered : Portfolio → List OrderRequest → Bool
  all_covered p [] = true
  all_covered p (r ∷ rs) = is_covered p r && all_covered p rs

  all_covered-append :
      (p : Portfolio) (rs ts : List OrderRequest)
      → all_covered p (rs ++ ts) ≡ (all_covered p rs && all_covered p ts)
  unfolding all_covered
  all_covered-append p [] ts = refl
  all_covered-append p (r ∷ rs) ts = ground (arith, all_covered-append p rs ts)

  all_covered-split :
      (p : Portfolio) (requests buys : List OrderRequest) (best : Dict OrderRequest)
      → all_covered p (split_orders requests buys best).0 ≡ all_covered p buys
  unfolding split_orders all_covered
  all_covered-split p [] buys best = refl
  all_covered-split p (r ∷ more) buys best = ground (
    arith,
    all_covered-split p more (buys ++ (r ∷ [])) best,
    all_covered-split p more buys (insert r.symbol (larger r (lookup r.symbol best)) best),
    all_covered-append p buys (r ∷ []),
  )

  capped_at-covered :
      (order : IsOrdered) (p : Portfolio) (r : OrderRequest)
      → is_covered p (capped_at r (lookup r.symbol p.positions)) ≡ true
  capped_at-covered order p r = elim (Option-cases (lookup r.symbol p.positions)) [
    | inl e ↦ ground arith
    | inr (pos, e) ↦ ground (arith, min-le_right order r.amount pos.amount)
  ]

  all_covered-cap_sells :
      (order : IsOrdered) (p : Portfolio) (d : Dict OrderRequest)
      → IsBest d
      → all_covered p (cap_sells p d) ≡ true
  unfolding all_covered cap_sells IsBest
  all_covered-cap_sells order p [] best = refl
  all_covered-cap_sells order p ((k, r) ∷ d) best =
      ground (arith, best.0, capped_at-covered order p r, all_covered-cap_sells order p d best.3)

  -- Over ordered numbers, no SELL of the merged requests is for more than the position in its
  -- symbol, where there is one.
  pub all_covered-dedup_sell_orders :
      (order : IsOrdered) (requests : List OrderRequest) (p : Portfolio)
      → all_covered p (dedup_sell_orders requests p) ≡ true
  unfolding dedup_sell_orders all_covered IsBest
  all_covered-dedup_sell_orders order requests p =
      let best = (split_orders requests [] []).1 in
      ground (
        arith,
        all_covered-append p (split_orders requests [] []).0 (cap_sells p best),
        all_covered-split p requests [] [],
        all_covered-cap_sells order p best (split-IsBest requests [] [] tt),
      )
