-- ===== src/Flow/Route.antt =====
-- The routers of src/trading_crew/flows/trading_flow.py, `route_after_market`, `route_after_uncertainty`,
-- `route_after_reserve` and `route_after_execution`, and the cycle that they make of the phases.
use trading_crew.Prelude.{
  Bool, false, ◌&&◌, if◌then◌else◌, is_some, Option, none, some, ℕ, zero, suc, Result, ok, err,
  Error, pure, Action, ◌≡◌, arith,
}
use Prim.Native.Nat.{◌≤◌ as ◌≤ℕ◌}
use trading_crew.Num.{Num}
use trading_crew.Execution.Exchange.{Exchange}
use trading_crew.Execution.World.{Settings}
use trading_crew.Uncertainty.{UncertaintyResult}
use trading_crew.Budget.{is_normal}
use trading_crew.Flow.{Services, Flow}
use trading_crew.Flow.Phases.{
  market_phase, strategy_phase, compute_uncertainty, advisory_phase, reserve_phase, execution_phase,
  execution_only_phase, post_cycle_hooks, circuit_breaker_halt,
}

-- The methods that the flow listens with, and the end of a cycle.
pub data Phase : Type 0 where
  market strategy uncertainty advisory reserve execution execution_only post_cycle halt finished :
      Phase

module _ ⦃num : Num⦄ ⦃ex : Exchange⦄ where
  unfoldable pub route_after_market : Flow → Phase
  route_after_market f =
      if f.breaker.is_tripped
      then halt
      else if f.plan.run_strategy
      then strategy
      else if f.plan.run_execution
      then execution_only
      else post_cycle

  abbrev recommended : Option UncertaintyResult → Bool
  recommended none = false
  recommended (some r) = r.recommend_advisory

  unfoldable pub route_after_uncertainty : Services → Flow → Phase
  route_after_uncertainty services f =
      if recommended f.uncertainty_result
        && (services.advisory_enabled
            && (is_some services.advise && is_normal services.degrade_level))
      then advisory
      else reserve

  unfoldable pub route_after_reserve : Flow → Phase
  route_after_reserve f = if f.plan.run_execution then execution else post_cycle

  -- What listens to the end of a phase.
  unfoldable pub next_phase : Services → Phase → Flow → Phase
  unfolding route_after_market route_after_uncertainty route_after_reserve
  next_phase services market f = route_after_market f
  next_phase services strategy f = uncertainty
  next_phase services uncertainty f = route_after_uncertainty services f
  next_phase services advisory f = reserve
  next_phase services reserve f = route_after_reserve f
  next_phase services execution f = post_cycle
  next_phase services execution_only f = post_cycle
  next_phase services post_cycle f = finished
  next_phase services halt f = finished
  next_phase services finished f = finished

  module _ (settings : Settings) (services : Services) where
    unfoldable pub perform : Phase → Action Flow (Unit {0})
    perform market = market_phase settings services
    perform strategy = strategy_phase settings services
    perform uncertainty = compute_uncertainty settings services
    perform advisory = advisory_phase settings services
    perform reserve = reserve_phase settings services
    perform execution = execution_phase settings services
    perform execution_only = execution_only_phase settings services
    perform post_cycle = post_cycle_hooks settings services
    perform halt = circuit_breaker_halt settings services
    perform finished = pure tt

    -- A phase that returns, and the phase that listens to it.
    pub data Step : Phase → Flow → Phase → Flow → Type 0 where
      step :
          (p : Phase) (f g : Flow) → perform p f ≡ (ok tt, g) → Step p f (next_phase services p g) g

    pub data Reach (p : Phase) (f : Flow) : Phase → Flow → Type 0 where
      here : Reach p f p f
      then_step : {q r : Phase} {g h : Flow} → Reach p f q g → Step q g r h → Reach p f r h

    -- `kickoff`, with a bound on the number of phases: where the cycle stands, and the exception, if
    -- a phase raised one.
    unfoldable pub kickoff : ℕ → Phase → Flow → Result Phase × Flow
    unfolding perform next_phase
    kickoff zero p f = (ok p, f)
    kickoff (suc fuel) p f =
        let (outcome, g) = perform p f in
        elim outcome [ err e ↦ (err e, g) | ok done ↦ kickoff fuel (next_phase services p g) g ]

    -- How many phases there are before the end, at most.
    abbrev rank : Phase → ℕ
    rank finished = 0
    rank halt = 1
    rank post_cycle = 1
    rank execution_only = 2
    rank execution = 2
    rank reserve = 3
    rank advisory = 4
    rank uncertainty = 5
    rank strategy = 6
    rank market = 7

    -- A cycle that is over: it has come to its end, or a phase has raised.
    pub data IsOver : Result Phase → Type 0 where
      came_to_end : IsOver (ok finished)
      raised : (e : Error) → IsOver (err e)

    next_phase-rank :
        (p : Phase) (f : Flow) (n : ℕ) → rank p ≤ℕ suc n → rank (next_phase services p f) ≤ℕ n
    unfolding next_phase route_after_market route_after_uncertainty route_after_reserve
    next_phase-rank market f n h = ground arith
    next_phase-rank uncertainty f n h = ground arith
    next_phase-rank reserve f n h = ground arith
    next_phase-rank _ f n h = omega arith

    kickoff-IsOver :
        (fuel : ℕ) (p : Phase) (f : Flow) → rank p ≤ℕ fuel → IsOver (kickoff fuel p f).0
    unfolding kickoff
    kickoff-IsOver zero finished f h = came_to_end
    kickoff-IsOver zero _ f h = absurd (omega arith)
    kickoff-IsOver (suc fuel) p f h = continued (kickoff-IsOver fuel) (perform p f)
      where
        continued :
            ((q : Phase) (g : Flow) → rank q ≤ℕ fuel → IsOver (kickoff fuel q g).0)
            → (o : Result (Unit {0}) × Flow)
            → IsOver
                (elim o.0 as (λ x. Result Phase × Flow) [
                  | err e ↦ (err e, o.1)
                  | ok done ↦ kickoff fuel (next_phase services p o.1) o.1
                ]).0
        continued later (err e, g) = raised e
        continued later (ok done, g) =
            later (next_phase services p g) g (next_phase-rank p g fuel h)

    -- A cycle ends: within seven phases from the market phase it comes to its end, or a phase raises.
    pub market-IsOver : (f : Flow) → IsOver (kickoff 7 market f).0
    market-IsOver f = kickoff-IsOver 7 market f (omega arith)
