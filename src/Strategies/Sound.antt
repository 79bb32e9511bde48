-- ===== src/Strategies/Sound.antt =====
-- The signals of the four strategies: what they say of the analysis they were made from.
use trading_crew.Prelude.{
  ◌≡◌, refl, true, false, Bool, if◌then◌else◌, Option, none, some, String, Result, ok, err, Error,
  validation, zero_division, ◌||◌, lookup, arith, Bool-cases, inl, inr,
}
use trading_crew.Num.{Num, R, ◌≤◌, ◌<◌, ltb, leb, eqb, dec, zero_num, one, min}
use trading_crew.Num.Laws.{IsOrdered}
use trading_crew.Num.Order.{min-le_right, le_of_not_lt, lt_of_not_le}
use trading_crew.Models.Signal.{SignalType, SignalStrength, TradeSignal, is_actionable}
use trading_crew.Models.Market.{MarketAnalysis, get_indicator}
use trading_crew.Num.{div_checked}
use trading_crew.Execution.Types.{}
use trading_crew.Strategies.{Runtime, give, make_signal, signal_of}
use trading_crew.Strategies.Single.{
  RsiLevels, ema_crossover, ema_signal, ema_emit, ema_confidence, bollinger_bands, band_signal,
  band_confidence, band_emit, rsi_range, rsi_signal, rsi_emit, macd_crossover, macd_signal,
  macd_confidence,
}

module _ ⦃num : Num⦄ (order : IsOrdered) where
  -- A signal about the analysis: its symbol, its exchange, its price, a confidence between 0 and the
  -- cap, and a direction.
  abbrev pub IsAbout : MarketAnalysis → R → TradeSignal → Type 0
  IsAbout a cap s =
      (s.symbol ≡ a.symbol)
      × (s.exchange ≡ a.exchange)
      × (s.entry_price ≡ a.current_price)
      × (zero_num < s.entry_price)
      × (zero_num ≤ s.confidence)
      × (s.confidence ≤ cap)
      × (is_actionable s ≡ true)

  -- The same of what `generate_signal` gives: None and an exception say nothing.
  pub data IsOutcome (a : MarketAnalysis) (cap : R) : Result (Option TradeSignal) → Type 0 where
    nothing : IsOutcome a cap (ok none)
    raised : (e : Error) → IsOutcome a cap (err e)
    given : (s : TradeSignal) → IsAbout a cap s → IsOutcome a cap (ok (some s))

  give-IsOutcome :
      (rt : Runtime) (a : MarketAnalysis) (cap : R) (name : String) (direction : SignalType)
      (strength : SignalStrength) (c : R) (reason : String)
      → c ≤ cap
      → is_actionable (signal_of rt a name direction strength c reason) ≡ true
      → IsOutcome a cap (give (signal_of rt a name direction strength c reason))
  unfolding give make_signal signal_of
  give-IsOutcome rt a cap name direction strength c reason h k =
      let low = ltb c zero_num in
      let high = ltb one c in
      let free = leb a.current_price zero_num in
      elim (Bool-cases (low || high || free)) [
        | inl e ↦ rw (give, make_signal, signal_of, e) (raised validation)
        | inr e ↦
            rw (give, make_signal, signal_of, e)
              (given (signal_of rt a name direction strength c reason) (
                refl,
                refl,
                refl,
                lt_of_not_le order zero_num a.current_price (ground (arith, e)),
                le_of_not_lt order c zero_num (ground (arith, e)),
                h,
                k,
              ))
      ]

  if-IsOutcome :
      (a : MarketAnalysis) (cap : R) (b : Bool) (r q : Result (Option TradeSignal))
      → IsOutcome a cap r
      → IsOutcome a cap q
      → IsOutcome a cap (if b then r else q)
  if-IsOutcome a cap true r q h k = h
  if-IsOutcome a cap false r q h k = k

  abbrev HasDirection : SignalType → Type 0
  HasDirection direction = elim direction [ SignalType.hold ↦ ⊥ | _ ↦ Unit ]

  direction-is_actionable :
      (rt : Runtime) (a : MarketAnalysis) (name : String) (direction : SignalType)
      (strength : SignalStrength) (c : R) (reason : String)
      → HasDirection direction
      → is_actionable (signal_of rt a name direction strength c reason) ≡ true
  unfolding is_actionable signal_of
  direction-is_actionable rt a name SignalType.buy strength c reason h = refl
  direction-is_actionable rt a name SignalType.sell strength c reason h = refl
  direction-is_actionable rt a name SignalType.hold strength c reason h = elim h [ ]

  ema_emit-IsOutcome :
      (rt : Runtime) (a : MarketAnalysis) (direction : SignalType) (reason : String) (x y : R)
      → HasDirection direction
      → IsOutcome a (dec 95 2) (ema_emit rt a direction reason (ema_confidence x y))
  unfolding ema_emit ema_confidence div_checked
  ema_emit-IsOutcome rt a direction reason x y h = elim (Bool-cases (eqb y zero_num)) [
    | inl e ↦ rw (ema_emit, ema_confidence, div_checked, e) (raised zero_division)
    | inr e ↦
        rw (ema_emit, ema_confidence, div_checked, e)
          (give-IsOutcome rt a (dec 95 2) "ema_crossover" direction _ _ reason
            (min-le_right order _ (dec 95 2))
            (direction-is_actionable rt a _ direction _ _ reason h))
  ]

  ema_signal-IsOutcome :
      (rt : Runtime) (a : MarketAnalysis) (fast slow : R)
      → IsOutcome a (dec 95 2) (ema_signal rt a fast slow)
  unfolding ema_signal
  ema_signal-IsOutcome rt a fast slow = search (if-IsOutcome, ema_emit-IsOutcome, nothing)

  -- A signal with a capped confidence.
  emit-IsOutcome :
      (rt : Runtime) (a : MarketAnalysis) (x cap : R) (name : String) (direction : SignalType)
      (strength : SignalStrength) (reason : String)
      → HasDirection direction
      → IsOutcome a cap (give (signal_of rt a name direction strength (min x cap) reason))
  emit-IsOutcome rt a x cap name direction strength reason h =
      give-IsOutcome rt a cap name direction strength (min x cap) reason (min-le_right order x cap)
        (direction-is_actionable rt a name direction strength _ reason h)

  band_signal-IsOutcome :
      (rt : Runtime) (proximity : R) (a : MarketAnalysis) (upper middle lower : R)
      → IsOutcome a (dec 95 2) (band_signal rt proximity a upper middle lower)
  unfolding band_signal band_emit band_confidence
  band_signal-IsOutcome rt proximity a upper middle lower =
      search (if-IsOutcome, emit-IsOutcome, nothing)

  rsi_signal-IsOutcome :
      (rt : Runtime) (levels : RsiLevels) (a : MarketAnalysis) (rsi low high : R)
      → IsOutcome a (dec 95 2) (rsi_signal rt levels a rsi low high)
  unfolding rsi_signal rsi_emit
  rsi_signal-IsOutcome rt levels a rsi low high = search (if-IsOutcome, emit-IsOutcome, nothing)

  macd_signal-IsOutcome :
      (rt : Runtime) (min_histogram : R) (a : MarketAnalysis) (line signal histogram : R)
      → IsOutcome a (dec 85 2) (macd_signal rt min_histogram a line signal histogram)
  unfolding macd_signal macd_confidence
  macd_signal-IsOutcome rt min_histogram a line signal histogram =
      search (if-IsOutcome, emit-IsOutcome, nothing)

  -- With an indicator that may be missing.
  opt-IsOutcome :
      (a : MarketAnalysis) (cap : R) (o : Option R) (f : R → Result (Option TradeSignal))
      → ((x : R) → IsOutcome a cap (f x))
      → IsOutcome a cap (elim o [ none ↦ ok none | some x ↦ f x ])
  opt-IsOutcome a cap none f h = nothing
  opt-IsOutcome a cap (some x) f h = h x

  -- What each strategy gives of an analysis, if it gives a signal, is a BUY or a SELL of the
  -- analysis' symbol on its exchange, at its current price, which is positive, with a confidence
  -- that is not negative and at most 0.95, and at most 0.85 for the MACD. The numbers are ordered.
  pub generate_signal-IsOutcome :
      (rt : Runtime) (a : MarketAnalysis) (fast_key slow_key : String) (proximity_pct : R)
      (levels : RsiLevels) (min_histogram : R)
      → IsOutcome a (dec 95 2) ((ema_crossover rt fast_key slow_key).generate_signal a)
        × IsOutcome a (dec 95 2) ((bollinger_bands rt proximity_pct).generate_signal a)
        × IsOutcome a (dec 95 2) ((rsi_range rt levels).generate_signal a)
        × IsOutcome a (dec 85 2) ((macd_crossover rt min_histogram).generate_signal a)
  unfolding ema_crossover bollinger_bands rsi_range macd_crossover get_indicator
  generate_signal-IsOutcome rt a fast_key slow_key proximity_pct levels min_histogram = (
    opt-IsOutcome a (dec 95 2) (lookup fast_key a.indicators) _ (λ x.
        opt-IsOutcome a (dec 95 2) (lookup slow_key a.indicators) _
          (λ y. ema_signal-IsOutcome rt a x y)),
    opt-IsOutcome a (dec 95 2) (lookup "bb_upper" a.indicators) _ (λ x.
        opt-IsOutcome a (dec 95 2) (lookup "bb_middle" a.indicators) _ (λ y.
          opt-IsOutcome a (dec 95 2) (lookup "bb_lower" a.indicators) _
            (λ z. band_signal-IsOutcome rt _ a x y z))),
    opt-IsOutcome a (dec 95 2) (lookup "rsi_14" a.indicators) _ (λ x.
        opt-IsOutcome a (dec 95 2) (lookup "range_low" a.indicators) _ (λ y.
          opt-IsOutcome a (dec 95 2) (lookup "range_high" a.indicators) _
            (λ z. rsi_signal-IsOutcome rt levels a x y z))),
    opt-IsOutcome a (dec 85 2) (lookup "macd_line" a.indicators) _ (λ x.
        opt-IsOutcome a (dec 85 2) (lookup "macd_signal" a.indicators) _ (λ y.
          opt-IsOutcome a (dec 85 2) (lookup "macd_histogram" a.indicators) _
            (λ z. macd_signal-IsOutcome rt _ a x y z))),
  )
