-- ===== src/Cycle/Dedup/OneSell.antt =====
-- How many SELLs the merged requests of a cycle have.
use Prim.Native.Nat.{◌+◌}
use trading_crew.Prelude.{
  ◌≡◌, subst, refl, sym, ◌∙◌, Bool, false, ◌||◌, if◌then◌else◌, none, some, is_some, List, [], ◌∷◌,
  ◌++◌, Dict, lookup, insert, lookup-insert, String, str_eq, str_eq_iff, ℕ, zero, suc, arith,
  Option-cases, Bool-cases, ◌⊎◌, inl, inr,
}
use trading_crew.Num.{Num}
use trading_crew.Models.Order.{OrderSide, OrderRequest}
use trading_crew.Models.Portfolio.{Portfolio}
use trading_crew.Cycle.Dedup.{larger, split_orders, cap_sells, dedup_sell_orders}

module _ ⦃num : Num⦄ where
  abbrev is_sell_of : String → OrderRequest → Bool
  is_sell_of s r = elim r.side [ OrderSide.buy ↦ false | OrderSide.sell ↦ str_eq r.symbol s ]

  -- How many SELLs of a symbol there are.
  unfoldable pub count_sells : String → List OrderRequest → ℕ
  count_sells s [] = zero
  count_sells s (r ∷ rs) = if is_sell_of s r then suc (count_sells s rs) else count_sells s rs

  unfoldable pub has_sell : String → List OrderRequest → Bool
  has_sell s [] = false
  has_sell s (r ∷ rs) = is_sell_of s r || has_sell s rs

  -- The kept SELLs are under their own symbols, each symbol once.
  unfoldable pub IsBest : Dict OrderRequest → Type 0
  IsBest [] = Unit {0}
  IsBest ((k, r) ∷ d) = (r.symbol ≡ k) × (r.side ≡ OrderSide.sell) × (lookup k d ≡ none) × IsBest d

  insert-IsBest :
      (k : String) (r : OrderRequest) (d : Dict OrderRequest)
      → r.symbol ≡ k
      → r.side ≡ OrderSide.sell
      → IsBest d
      → IsBest (insert k r d)
  unfolding IsBest
  insert-IsBest k r [] h sells best = (h, sells, refl, tt)
  insert-IsBest k r ((j, q) ∷ d) h sells best = elim (Bool-cases (str_eq j k)) [
    | inl e ↦ rw e (h ∙ sym ((str_eq_iff j k).0 e), sells, best.2, best.3)
    | inr e ↦ rw e (
      best.0,
      best.1,
      ground (arith, lookup-insert k j r d, str_eq_iff k j, str_eq_iff j k, best.2),
      insert-IsBest k r d h sells best.3,
    )
  ]

  count-cap_sells :
      (s : String) (p : Portfolio) (d : Dict OrderRequest)
      → IsBest d
      → count_sells s (cap_sells p d) ≡ (if is_some (lookup s d) then 1 else 0)
  unfolding count_sells cap_sells IsBest
  count-cap_sells s p [] best = refl
  count-cap_sells s p ((k, r) ∷ d) best =
      ground (arith, count-cap_sells s p d, str_eq_iff k s, best.0, best.1, best.2, best.3)

  count-append :
      (s : String) (rs ts : List OrderRequest)
      → count_sells s (rs ++ ts) ≡ count_sells s rs + count_sells s ts
  unfolding count_sells
  count-append s [] ts = ground arith
  count-append s (r ∷ rs) ts = ground (arith, count-append s rs ts)

  side_cases : (side : OrderSide) → (side ≡ OrderSide.buy) ⊎ (side ≡ OrderSide.sell)
  side_cases OrderSide.buy = inl refl
  side_cases OrderSide.sell = inr refl

  lookup-IsBest :
      (k : String) (q : OrderRequest) (d : Dict OrderRequest)
      → IsBest d
      → lookup k d ≡ some q
      → (q.symbol ≡ k) × (q.side ≡ OrderSide.sell)
  unfolding IsBest
  lookup-IsBest k q [] best h = absurd (ground arith)
  lookup-IsBest k q ((j, r) ∷ d) best h =
      ground (arith, str_eq_iff j k, best.0, best.1, lookup-IsBest k q d best.3)

  larger-sell :
      (r : OrderRequest) (d : Dict OrderRequest)
      → IsBest d
      → r.side ≡ OrderSide.sell
      → let kept = larger r (lookup r.symbol d) in
        (kept.symbol ≡ r.symbol) × (kept.side ≡ OrderSide.sell)
  larger-sell r d best sells = elim (Option-cases (lookup r.symbol d)) [
    | inl e ↦ ground arith
    | inr (q, e) ↦ ground (arith, lookup-IsBest r.symbol q d best e)
  ]

  split_buy :
      (r : OrderRequest) (more buys : List OrderRequest) (best : Dict OrderRequest)
      → r.side ≡ OrderSide.buy
      → split_orders (r ∷ more) buys best ≡ split_orders more (buys ++ (r ∷ [])) best
  unfolding split_orders
  split_buy r more buys best e = ground arith

  split_sell :
      (r : OrderRequest) (more buys : List OrderRequest) (best : Dict OrderRequest)
      → r.side ≡ OrderSide.sell
      → split_orders (r ∷ more) buys best
        ≡ split_orders more buys (insert r.symbol (larger r (lookup r.symbol best)) best)
  unfolding split_orders
  split_sell r more buys best e = ground arith

  pub split-IsBest :
      (requests buys : List OrderRequest) (best : Dict OrderRequest)
      → IsBest best
      → IsBest (split_orders requests buys best).1
  unfolding split_orders
  split-IsBest [] buys best h = h
  split-IsBest (r ∷ more) buys best h = elim (side_cases r.side) [
    | inl e ↦
        subst (λ x. IsBest x.1) (sym (split_buy r more buys best e))
          (split-IsBest more (buys ++ (r ∷ [])) best h)
    | inr e ↦
        let (same, sells) = larger-sell r best h e in
        let kept = larger r (lookup r.symbol best) in
        subst (λ x. IsBest x.1) (sym (split_sell r more buys best e))
          (split-IsBest more buys (insert r.symbol kept best)
            (insert-IsBest r.symbol kept best same sells h))
  ]

  count-split :
      (s : String) (requests buys : List OrderRequest) (best : Dict OrderRequest)
      → count_sells s (split_orders requests buys best).0 ≡ count_sells s buys
  unfolding split_orders count_sells
  count-split s [] buys best = refl
  count-split s (r ∷ more) buys best = ground (
    arith,
    count-split s more (buys ++ (r ∷ [])) best,
    count-split s more buys (insert r.symbol (larger r (lookup r.symbol best)) best),
    count-append s buys (r ∷ []),
  )

  lookup-split :
      (s : String) (requests buys : List OrderRequest) (best : Dict OrderRequest)
      → is_some (lookup s (split_orders requests buys best).1)
        ≡ (is_some (lookup s best) || has_sell s requests)
  unfolding split_orders has_sell
  lookup-split s [] buys best = ground arith
  lookup-split s (r ∷ more) buys best =
      let kept = larger r (lookup r.symbol best) in
      ground (
        arith,
        lookup-split s more (buys ++ (r ∷ [])) best,
        lookup-split s more buys (insert r.symbol kept best),
        lookup-insert r.symbol s kept best,
      )

  -- Of each symbol the merged requests have one SELL if the requests have any, and none otherwise.
  pub count-dedup_sell_orders :
      (s : String) (requests : List OrderRequest) (p : Portfolio)
      → count_sells s (dedup_sell_orders requests p) ≡ (if has_sell s requests then 1 else 0)
  unfolding dedup_sell_orders IsBest count_sells
  count-dedup_sell_orders s requests p =
      let best = (split_orders requests [] []).1 in
      ground (
        arith,
        count-append s (split_orders requests [] []).0 (cap_sells p best),
        count-split s requests [] [],
        count-cap_sells s p best (split-IsBest requests [] [] tt),
        lookup-split s requests [] [],
      )
