-- ===== src/Risk/CircuitBreaker/Latch.antt =====
-- The circuit breaker over a run of checks.
use trading_crew.Prelude.{◌≡◌, refl, true, false, Bool, List, [], ◌∷◌, arith, ◌||◌}
use trading_crew.Num.{Num, R, leb}
use trading_crew.Models.Portfolio.{Portfolio, drawdown_pct}
use trading_crew.Risk.CircuitBreaker.{CircuitBreaker, check, trip, reset}

module _ ⦃num : Num⦄ where
  -- A check at a time, of a portfolio.
  pub record Sample : Type 0 where
    pub now : R
    pub portfolio : Portfolio

  -- The answers of a run of checks, and the breaker that it leaves.
  pub run_checks : List Sample → CircuitBreaker → List Bool × CircuitBreaker
  run_checks [] c = ([], c)
  run_checks (s ∷ more) c =
      let (halt, c') = check s.now s.portfolio c in
      let (halts, final) = run_checks more c' in (halt ∷ halts, final)

  -- Whether some sample reaches the limit.
  unfoldable pub any_breach : R → List Sample → Bool
  any_breach limit [] = false
  any_breach limit (s ∷ more) = leb limit (drawdown_pct s.portfolio) || any_breach limit more

  abbrev halts_from : Bool → R → List Sample → List Bool
  halts_from tripped limit [] = []
  halts_from tripped limit (s ∷ more) =
      let now_tripped : Bool = tripped || leb limit (drawdown_pct s.portfolio) in
      now_tripped ∷ halts_from now_tripped limit more

  -- A tripped breaker answers "halt" and does not change.
  check_tripped :
      (now : R) (portfolio : Portfolio) (c : CircuitBreaker)
      → c.is_tripped ≡ true
      → check now portfolio c ≡ (true, c)
  unfolding check
  check_tripped now portfolio c h = rw h

  -- A run of checks trips the breaker exactly if it was tripped before or some sample reaches the
  -- limit, its answers are "halt" from the first such sample on, and the limit never changes.
  pub run_checks_latch :
      (samples : List Sample) (c : CircuitBreaker)
      → let (halts, final) = run_checks samples c in
        (final.is_tripped ≡ (c.is_tripped || any_breach c.max_drawdown_pct samples))
        × (halts ≡ halts_from c.is_tripped c.max_drawdown_pct samples)
        × (final.max_drawdown_pct ≡ c.max_drawdown_pct)
  unfolding run_checks any_breach check
  run_checks_latch [] c = ground arith
  run_checks_latch (s ∷ more) c = ground (
    arith,
    run_checks_latch more c,
    run_checks_latch more (trip s.now (drawdown_pct s.portfolio) c),
  )

  -- A breaker that is tripped keeps its time and its reason through any run of checks, until a reset
  -- clears them.
  pub run_checks_keeps :
      (samples : List Sample) (c : CircuitBreaker)
      → c.is_tripped ≡ true
      → ((run_checks samples c).1 ≡ c) × ((reset (run_checks samples c).1).is_tripped ≡ false)
  unfolding run_checks reset
  run_checks_keeps [] c h = (refl, refl)
  run_checks_keeps (s ∷ more) c h =
      rw (check_tripped s.now s.portfolio c h) (run_checks_keeps more c h)
