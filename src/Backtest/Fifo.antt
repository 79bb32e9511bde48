-- ===== src/Backtest/Fifo.antt =====
-- What the matching of a sell with the open lots takes, and that it ends.
use Prim.Native.Nat.{◌≤◌ as ◌≤ℕ◌}
use trading_crew.Prelude.{
  Bool, true, false, if◌then◌else◌, List, [], ◌∷◌, ◌++◌, ℕ, zero, suc, length, ◌≡◌, refl, sym, ◌∙◌,
  ap, subst, ◌⊎◌, inl, inr, arith, map, Bool-cases,
}
use trading_crew.Num.{Num, R, ◌+◌, ◌-◌, ◌≤◌, ltb, leb, zero_num, min, sum, sum_from}
use trading_crew.Num.Laws.{IsOrdered, IsMonotone, IsExact}
use trading_crew.Num.Order.{min-le_right, not_lt_of_le}
use trading_crew.Num.Ring.{sub_self}
use trading_crew.Execution.Types.{dust, OrderRecord}
use trading_crew.Backtest.{BacktestTrade}
use trading_crew.Backtest.Lots.{
  BuyLot, Matching, matched_trade, use_lot, match_lot, match_lots, match_sell,
}

module _ ⦃num : Num⦄ where
  abbrev pub trade_amount : BacktestTrade → R
  trade_amount t = t.amount

  abbrev pub matched_amount : List BacktestTrade → R
  matched_amount ts = sum (map trade_amount ts)

  -- The loop is over: what remains is dust, or there is no lot.
  abbrev pub IsUsedUp : Matching → Type 0
  IsUsedUp m = (m.lots ≡ []) ⊎ (ltb dust m.remaining ≡ false)

  sum_from-snoc :
      (acc : R) (ts : List BacktestTrade) (t : BacktestTrade)
      → sum_from acc (map trade_amount (ts ++ t ∷ []))
        ≡ sum_from acc (map trade_amount ts) + t.amount
  unfolding sum_from
  sum_from-snoc acc [] t = refl
  sum_from-snoc acc (u ∷ ts) t = sum_from-snoc (acc + u.amount) ts t

  either :
      (P : Matching → Type 0) (b : Bool) (x y : Matching)
      → (b ≡ true → P x)
      → (b ≡ false → P y)
      → P (if b then x else y)
  either P true x y h k = h refl
  either P false x y h k = k refl

  module _ (order : IsOrdered) (mono : IsMonotone) (exact : IsExact) (bars : List (R × ℕ))
      (rec : OrderRecord) where
    min_right : (a b c : R) → leb c (min a b) ≡ false → c ≤ a → min a b ≡ b
    unfolding min
    min_right a b c h k = ground arith

    -- A lot that is not used up takes all that remains.
    remaining-match_lot :
        (lot : BuyLot) (lots : List BuyLot) (m : Matching)
        → leb (lot.amount - dust) (min lot.amount m.remaining) ≡ false
        → (match_lot bars rec lot lots m).remaining ≡ zero_num
    unfolding match_lot
    remaining-match_lot lot lots m h =
        ap (λ x. m.remaining - x)
          (min_right lot.amount m.remaining (lot.amount - dust) h
            (mono.sub-le lot.amount dust (mono.dec_nonneg 1 10)))
        ∙ sub_self exact m.remaining

    dust_left : (m : Matching) → m.remaining ≡ zero_num → ltb dust m.remaining ≡ false
    dust_left m h =
        subst (λ x. ltb dust x ≡ false) (sym h)
          (not_lt_of_le order dust zero_num (mono.dec_nonneg 1 10))

    -- A pass uses up the lot or leaves nothing to match.
    match_lot-cases :
        (lot : BuyLot) (lots : List BuyLot) (m : Matching)
        → let after = match_lot bars rec lot lots m in
          (after.lots ≡ lots) ⊎ (ltb dust after.remaining ≡ false)
    unfolding match_lot use_lot
    match_lot-cases lot lots m =
        elim (Bool-cases (leb (lot.amount - dust) (min lot.amount m.remaining))) [
          | inl h ↦ inl (rw h refl)
          | inr h ↦
              inr (dust_left (match_lot bars rec lot lots m) (remaining-match_lot lot lots m h))
        ]

    -- A pass keeps the sum of what is matched and what remains.
    total-match_lot :
        (lot : BuyLot) (lots : List BuyLot) (m : Matching)
        → let after = match_lot bars rec lot lots m in
          matched_amount after.trades + after.remaining ≡ matched_amount m.trades + m.remaining
    unfolding match_lot sum
    total-match_lot lot lots m =
        let amount = min lot.amount m.remaining in
        ap (λ x. x + (m.remaining - amount))
          (sum_from-snoc zero_num m.trades (matched_trade bars rec lot amount))
        ∙ exact.add_assoc (matched_amount m.trades) amount (m.remaining - amount)
        ∙ ap (λ x. matched_amount m.trades + x)
            (exact.add_comm amount (m.remaining - amount) ∙ exact.sub-add m.remaining amount)

    -- What is matched and what remains make up a total, and what remains is not negative.
    abbrev pub IsSplit : R → Matching → Type 0
    IsSplit total m = (matched_amount m.trades + m.remaining ≡ total) × (zero_num ≤ m.remaining)

    match_lot-IsSplit :
        (total : R) (lot : BuyLot) (lots : List BuyLot) (m : Matching)
        → IsSplit total m
        → IsSplit total (match_lot bars rec lot lots m)
    unfolding match_lot
    match_lot-IsSplit total lot lots m (h, k) = (
      total-match_lot lot lots m ∙ h,
      mono.sub_nonneg m.remaining (min lot.amount m.remaining)
          (min-le_right order lot.amount m.remaining),
    )

    match_lots-IsSplit :
        (total : R) (fuel : ℕ) (r : R) (lots : List BuyLot) (ts : List BacktestTrade)
        → let m : Matching = record { remaining = r; lots = lots; trades = ts } in
          IsSplit total m → IsSplit total (match_lots bars rec fuel m)
    unfolding match_lots
    match_lots-IsSplit total zero r lots ts h = h
    match_lots-IsSplit total (suc fuel) r [] ts h = h
    match_lots-IsSplit total (suc fuel) r (lot ∷ lots) ts h =
        let m : Matching = record { remaining = r; lots = lot ∷ lots; trades = ts } in
        let after = match_lot bars rec lot lots m in
        either (IsSplit total) (ltb dust r) (match_lots bars rec fuel after) m
          (λ _.
            match_lots-IsSplit total fuel after.remaining after.lots after.trades
              (match_lot-IsSplit total lot lots m h))
          (λ _. h)

    match_lots-IsUsedUp :
        (fuel : ℕ) (r : R) (lots : List BuyLot) (ts : List BacktestTrade)
        → (suc (length lots) ≤ℕ fuel) ⊎ (ltb dust r ≡ false)
        → IsUsedUp (match_lots bars rec fuel (record { remaining = r; lots = lots; trades = ts }))
    unfolding match_lots
    match_lots-IsUsedUp zero r lots ts (inl h) = absurd (omega arith)
    match_lots-IsUsedUp zero r lots ts (inr h) = inr h
    match_lots-IsUsedUp (suc fuel) r [] ts h = inl refl
    match_lots-IsUsedUp (suc fuel) r (lot ∷ lots) ts h =
        let m : Matching = record { remaining = r; lots = lot ∷ lots; trades = ts } in
        let after = match_lot bars rec lot lots m in
        either IsUsedUp (ltb dust r) (match_lots bars rec fuel after) m
          (λ more. match_lots-IsUsedUp fuel after.remaining after.lots after.trades (elim h [
            | inr k ↦ absurd (ground (arith, more, k))
            | inl k ↦ elim (match_lot-cases lot lots m) [
              | inl e ↦ inl (subst (λ xs. suc (length xs) ≤ℕ fuel) (sym e) (omega arith))
              | inr d ↦ inr d
            ]
          ]))
          (λ done. inr done)

    -- A sell is matched to the end: what it takes from the lots and what remains of it make up its
    -- filled amount, what remains is not negative, and it is dust unless the lots are used up. So the
    -- trades never sell more than was filled. The arithmetic is exact.
    pub match_sell-IsSplit :
        (lots : List BuyLot) (ts : List BacktestTrade)
        → zero_num ≤ rec.filled_amount
        → let m = match_sell bars rec lots ts in
          IsSplit (matched_amount ts + rec.filled_amount) m × IsUsedUp m
    unfolding match_sell
    match_sell-IsSplit lots ts h = (
      match_lots-IsSplit (matched_amount ts + rec.filled_amount) (suc (length lots))
          rec.filled_amount lots ts (refl, h),
      match_lots-IsUsedUp (suc (length lots)) rec.filled_amount lots ts (inl (omega arith)),
    )
