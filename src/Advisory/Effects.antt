-- ===== src/Advisory/Effects.antt =====
-- What the directives do to the signals of a cycle.
use trading_crew.Prelude.{
  true, false, ◌≡◌, Option, none, some, List, [], ◌∷◌, String, Dict, lookup, insert, arith,
  Option-cases, inl, inr,
}
use trading_crew.Num.{Num, R, ◌≤◌, ◌*◌, dec, zero_num, one, min, max}
use trading_crew.Num.Laws.{IsOrdered, IsMonotone}
use trading_crew.Num.Order.{le-max_left, max-le, min-le_left}
use trading_crew.Models.Signal.{TradeSignal}
use trading_crew.Advisory.{
  AdjustmentAction, adjust_confidence, reduce_position_size, confidence_step, size_step,
  AdvisoryAdjustment, AdvisoryResult, is_vetoed, adjust, adjust_all, adjusted_confidence, set_param,
  clamp, confidence_overrides, size_multipliers, apply_advisory_directives,
}

module _ ⦃num : Num⦄ where
  -- The second list comes from the first by leaving out the vetoed signals and changing the
  -- confidence and the stop of others.
  pub data IsDerived (ds : List AdvisoryAdjustment)
      : List TradeSignal → List TradeSignal → Type 0 where
    done : IsDerived ds [] []
    vetoed :
        {s : TradeSignal} {ss ts : List TradeSignal}
        → is_vetoed ds s.symbol ≡ true
        → IsDerived ds ss ts
        → IsDerived ds (s ∷ ss) ts
    passed :
        {s : TradeSignal} {ss ts : List TradeSignal} (c : R) (stop : Option R)
        → is_vetoed ds s.symbol ≡ false
        → IsDerived ds ss ts
        → IsDerived ds (s ∷ ss) (record s { confidence = c; stop_loss_price = stop } ∷ ts)

module _ ⦃num : Num⦄ (order : IsOrdered) (mono : IsMonotone) where
  abbrev pub AllUnit : List TradeSignal → Type 0
  AllUnit [] = Unit
  AllUnit (s ∷ ss) = (zero_num ≤ s.confidence) × (s.confidence ≤ one) × AllUnit ss

  abbrev AllBetween : Dict R → Type 0
  AllBetween [] = Unit
  AllBetween ((k, x) ∷ d) = (zero_num ≤ x) × (x ≤ one) × AllBetween d

  AllBetween-insert :
      (k : String) (x : R) (d : Dict R)
      → zero_num ≤ x
      → x ≤ one
      → AllBetween d
      → AllBetween (insert k x d)
  AllBetween-insert k x [] h l hs = (h, l, tt)
  AllBetween-insert k x ((j, y) ∷ d) h l hs = ground (arith, AllBetween-insert k x d h l)

  AllBetween-lookup :
      (k : String) (d : Dict R) (x : R)
      → AllBetween d
      → lookup k d ≡ some x
      → (zero_num ≤ x) × (x ≤ one)
  AllBetween-lookup k [] x hs e = cc
  AllBetween-lookup k ((j, y) ∷ d) x hs e = ground (arith, AllBetween-lookup k d x)

  clamp-bounds :
      (low x : R)
      → zero_num ≤ low
      → low ≤ one
      → (zero_num ≤ max low (min one x)) × (max low (min one x) ≤ one)
  clamp-bounds low x h l = (
    order.le_trans zero_num low (max low (min one x)) h (le-max_left order low (min one x)),
    max-le order low (min one x) one l (min-le_left order one x),
  )

  set_param-AllBetween :
      (symbol : Option String) (value : Option R) (low : R) (d : Dict R)
      → zero_num ≤ low
      → low ≤ one
      → AllBetween d
      → AllBetween (set_param symbol value (clamp low one) d)
  set_param-AllBetween none value low d h l hs = hs
  set_param-AllBetween (some s) none low d h l hs = hs
  set_param-AllBetween (some s) (some x) low d h l hs =
      let (above, below) = clamp-bounds low x h l in AllBetween-insert s _ d above below hs

  confidence_step-AllBetween :
      (action : AdjustmentAction) (symbol : Option String) (params d : Dict R)
      → AllBetween d
      → AllBetween (confidence_step action symbol params d)
  confidence_step-AllBetween adjust_confidence symbol params d hs =
      set_param-AllBetween symbol _ zero_num d (order.le_refl zero_num) (mono.dec_nonneg 1 0) hs
  confidence_step-AllBetween _ symbol params d hs = hs

  confidence_overrides-AllBetween :
      (ds : List AdvisoryAdjustment) (d : Dict R)
      → AllBetween d
      → AllBetween (confidence_overrides ds d)
  unfolding confidence_overrides
  confidence_overrides-AllBetween [] d hs = hs
  confidence_overrides-AllBetween (a ∷ ds) d hs =
      confidence_overrides-AllBetween ds _
        (confidence_step-AllBetween a.action a.symbol a.params d hs)

  -- The law `1 / 100 ≤ 1` of the literals.
  module _ (small : dec 1 2 ≤ one) where
    size_step-AllBetween :
        (action : AdjustmentAction) (symbol : Option String) (params d : Dict R)
        → AllBetween d
        → AllBetween (size_step action symbol params d)
    size_step-AllBetween reduce_position_size symbol params d hs =
        set_param-AllBetween symbol _ (dec 1 2) d (mono.dec_nonneg 1 2) small hs
    size_step-AllBetween _ symbol params d hs = hs

    size_multipliers-AllBetween :
        (ds : List AdvisoryAdjustment) (d : Dict R)
        → AllBetween d
        → AllBetween (size_multipliers ds d)
    unfolding size_multipliers
    size_multipliers-AllBetween [] d hs = hs
    size_multipliers-AllBetween (a ∷ ds) d hs =
        size_multipliers-AllBetween ds _ (size_step-AllBetween a.action a.symbol a.params d hs)

    scaled-bounds :
        (c m : R)
        → zero_num ≤ c
        → c ≤ one
        → zero_num ≤ m
        → m ≤ one
        → (zero_num ≤ c * m) × (c * m ≤ one)
    scaled-bounds c m h k l n =
        (mono.mul_nonneg c m h l, order.le_trans (c * m) m one (mono.mul-le c m l k) n)

    adjust-bounds :
        (ds : List AdvisoryAdjustment) (s : TradeSignal)
        → zero_num ≤ s.confidence
        → s.confidence ≤ one
        → (zero_num ≤ (adjust ds s).confidence) × ((adjust ds s).confidence ≤ one)
    unfolding adjust adjusted_confidence
    adjust-bounds ds s h k =
        let overrides = confidence_overrides ds [] in
        let multipliers = size_multipliers ds [] in
        elim (Option-cases (lookup s.symbol multipliers)) [
          | inr (m, e) ↦
              let (above, below) =
                AllBetween-lookup s.symbol multipliers m (size_multipliers-AllBetween ds [] tt) e in
              rw e (scaled-bounds s.confidence m h k above below)
          | inl e ↦ elim (Option-cases (lookup s.symbol overrides)) [
            | inr (c, f) ↦
                rw (e, f)
                  (AllBetween-lookup s.symbol overrides c (confidence_overrides-AllBetween ds [] tt)
                    f)
            | inl f ↦ rw (e, f) (h, k)
          ]
        ]

    -- Whatever the advisory crew returns, if the confidence of each signal lies between 0 and 1, so
    -- does that of each adjusted signal, whose fields are not checked again. The numbers are ordered,
    -- with monotone rounding, and the literal 0.01 is at most 1.
    pub apply_advisory_directives-AllUnit :
        (signals : List TradeSignal) (result : AdvisoryResult)
        → AllUnit signals
        → AllUnit (apply_advisory_directives signals result)
    unfolding apply_advisory_directives adjust_all
    apply_advisory_directives-AllUnit [] result hs = ground arith
    apply_advisory_directives-AllUnit (s ∷ signals) result hs = ground (
      arith,
      adjust-bounds result.adjustments s hs.0 hs.1,
      apply_advisory_directives-AllUnit signals result hs.2,
    )
