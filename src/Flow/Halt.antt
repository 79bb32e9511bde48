-- ===== src/Flow/Halt.antt =====
-- A cycle whose circuit breaker is tripped.
use trading_crew.Prelude.{true, Result, ok, err, ◌≡◌, refl, subst, arith}
use trading_crew.Num.{Num}
use trading_crew.Execution.Exchange.{Exchange}
use trading_crew.Execution.World.{Settings}
use trading_crew.Flow.{Services, Flow}
use trading_crew.Flow.StopLoss.{on_circuit_breaker_activated}
use trading_crew.Flow.Phases.{market_phase, market_body, circuit_breaker_halt}
use trading_crew.Flow.Route.{
  Phase, market, halt, finished, Step, step, Reach, here, then_step, perform, next_phase, kickoff,
  route_after_market,
}

module _ ⦃num : Num⦄ ⦃ex : Exchange⦄ where
  -- The phases of a halted cycle.
  abbrev pub IsHaltPhase : Phase → Type 0
  IsHaltPhase market = Unit
  IsHaltPhase halt = Unit
  IsHaltPhase finished = Unit
  IsHaltPhase _ = ⊥

  -- The breaker is tripped, and the exchange is as it was.
  abbrev pub IsUntraded : Flow → Flow → Type 0
  IsUntraded f g = (g.breaker.is_tripped ≡ true) × (g.world.exchange ≡ f.world.exchange)

  module _ (settings : Settings) (services : Services) where
    market_phase-IsUntraded :
        (start f : Flow)
        → IsUntraded start f
        → IsUntraded start (market_phase settings services f).1
    unfolding market_phase market_body
    market_phase-IsUntraded start f h = ground arith

    halt-IsUntraded :
        (start f : Flow)
        → IsUntraded start f
        → IsUntraded start (circuit_breaker_halt settings services f).1
    unfolding circuit_breaker_halt on_circuit_breaker_activated
    halt-IsUntraded start f h = h

    route-IsHaltPhase : (f : Flow) → f.breaker.is_tripped ≡ true → route_after_market f ≡ halt
    unfolding route_after_market
    route-IsHaltPhase f h = rw h refl

    perform-IsUntraded :
        (p : Phase) (start f : Flow)
        → IsHaltPhase p
        → IsUntraded start f
        → IsUntraded start (perform settings services p f).1
    unfolding perform
    perform-IsUntraded market start f p h = market_phase-IsUntraded start f h
    perform-IsUntraded halt start f p h = halt-IsUntraded start f h
    perform-IsUntraded finished start f p h = h
    perform-IsUntraded _ start f p h = elim p [ ]

    next_phase-IsHaltPhase :
        (p : Phase) (f : Flow)
        → IsHaltPhase p
        → f.breaker.is_tripped ≡ true
        → IsHaltPhase (next_phase services p f)
    unfolding next_phase
    next_phase-IsHaltPhase market f p h = rw (route-IsHaltPhase f h) tt
    next_phase-IsHaltPhase halt f p h = tt
    next_phase-IsHaltPhase finished f p h = tt
    next_phase-IsHaltPhase _ f p h = elim p [ ]

    Step-IsUntraded :
        {f g : Flow} {p q : Phase} (start : Flow)
        → Step settings services p f q g
        → IsHaltPhase p × (IsUntraded start f)
        → IsHaltPhase q × (IsUntraded start g)
    Step-IsUntraded start (step p f g e) h =
        let after = subst (λ o. IsUntraded start o.1) e (perform-IsUntraded p start f h.0 h.1) in
        (next_phase-IsHaltPhase p g h.0 after.0, after)

    Reach-IsUntraded :
        {f g : Flow} {p : Phase}
        → Reach settings services market f p g
        → f.breaker.is_tripped ≡ true
        → IsHaltPhase p × (IsUntraded f g)
    Reach-IsUntraded here h = (tt, (h, refl))
    Reach-IsUntraded {f = f} (then_step r st) h = Step-IsUntraded f st (Reach-IsUntraded r h)

    -- The phases of a halted cycle in their order: the market phase, the halt and the end.
    abbrev pub halted_cycle : Flow → Result Phase × Flow
    halted_cycle f =
        let (outcome, g) = market_phase settings services f in
        elim outcome [
          | err e ↦ (err e, g)
          | ok done ↦
              let (last, h) = circuit_breaker_halt settings services g in
              elim last [ err e ↦ (err e, h) | ok over ↦ (ok finished, h) ]
        ]

    kickoff-halted_cycle :
        (f : Flow)
        → f.breaker.is_tripped ≡ true
        → kickoff settings services 7 market f ≡ halted_cycle f
    unfolding kickoff perform next_phase
    kickoff-halted_cycle f h =
        let still = (market_phase-IsUntraded f f (h, refl)).0 in
        let routed = route-IsHaltPhase (market_phase settings services f).1 still in
        ground (arith, routed)

    -- A cycle that starts with a tripped breaker runs the market phase and then the halt, and ends
    -- there, or where one of them raises. Wherever it stands, the breaker is still tripped and nothing
    -- has changed the exchange: no order is placed, cancelled or polled, and no other phase runs, so
    -- that no stop-loss is checked.
    pub tripped-IsUntraded :
        (f g : Flow) (p : Phase)
        → f.breaker.is_tripped ≡ true
        → Reach settings services market f p g
        → (kickoff settings services 7 market f ≡ halted_cycle f) × IsHaltPhase p × IsUntraded f g
    tripped-IsUntraded f g p h r =
        let (q, u) = Reach-IsUntraded r h in (kickoff-halted_cycle f h, q, u)
