-- ===== src/Client/Breaker.antt =====
-- When the breaker of the exchange client is open.
use Prim.Native.Nat.{◌<◌ as ◌<ℕ◌}
use trading_crew.Prelude.{
  true, ◌≡◌, refl, ◌⊎◌, inl, inr, some, is_some, arith, ℕ, List, [], ◌∷◌, Bool-cases,
}
use trading_crew.Num.{Num, R, ◌<◌}
use trading_crew.Client.{
  Outcome, returned, failed, breaker_open, Venue, CallBreaker, Call, check_breaker,
  increment_breaker, after_retry, retry, dispatch, new_breaker,
}

module _ ⦃num : Num⦄ ⦃venue : Venue⦄ where
  -- While the cooldown runs, a call raises at once: nothing is sent, and nothing changes.
  pub dispatch_open :
      {A : Type 0} (call : Call A) (s : venue.State) (b : CallBreaker) (until : R)
      → b.cooldown_until ≡ some until
      → venue.monotonic s < until
      → dispatch call s b ≡ (failed breaker_open, s, b)
  unfolding dispatch check_breaker
  dispatch_open call s b until h k = rw (h, k) refl

  -- The breaker is in its cooldown, or short of its threshold.
  abbrev pub IsArmed : CallBreaker → Type 0
  IsArmed b = (is_some b.cooldown_until ≡ true) ⊎ (b.consecutive_failures <ℕ b.threshold)

  check_breaker-IsArmed :
      (now : R) (b : CallBreaker)
      → 0 <ℕ b.threshold
      → IsArmed b
      → IsArmed (check_breaker now b).1 × ((check_breaker now b).1.threshold ≡ b.threshold)
  unfolding check_breaker
  check_breaker-IsArmed now b h k = ground arith

  after_retry-IsArmed :
      {A : Type 0} (now : R) (outcome : Outcome A) (b : CallBreaker)
      → 0 <ℕ b.threshold
      → IsArmed b
      → IsArmed (after_retry now outcome b)
  unfolding after_retry increment_breaker
  after_retry-IsArmed now (returned a) b h k = inr h
  after_retry-IsArmed now (failed f) b h k = ground arith

  -- A call keeps the breaker armed, and its threshold.
  dispatch-IsArmed :
      {A : Type 0} (call : Call A) (s : venue.State) (b : CallBreaker)
      → 0 <ℕ b.threshold
      → IsArmed b
      → IsArmed (dispatch call s b).2
  unfolding dispatch
  dispatch-IsArmed call s b h k =
      let (armed, same) = check_breaker-IsArmed (venue.monotonic s) b h k in
      elim (Bool-cases (check_breaker (venue.monotonic s) b).0) [
        | inl e ↦ rw (dispatch, e) armed
        | inr e ↦
            rw (dispatch, e)
              (after_retry-IsArmed _ (retry call s).0 (check_breaker (venue.monotonic s) b).1
                (rw same h) armed)
      ]

  dispatch-threshold :
      {A : Type 0} (call : Call A) (s : venue.State) (b : CallBreaker)
      → (dispatch call s b).2.threshold ≡ b.threshold
  unfolding dispatch check_breaker after_retry increment_breaker
  dispatch-threshold call s b = ground arith

  -- The breaker after calls one after the other, each from a state of the library of its own.
  abbrev pub after_calls : {A : Type 0} → List (Call A × venue.State) → CallBreaker → CallBreaker
  after_calls [] b = b
  after_calls ((call, s) ∷ calls) b = after_calls calls (dispatch call s b).2

  after_calls-IsArmed :
      {A : Type 0} (calls : List (Call A × venue.State)) (b : CallBreaker)
      → 0 <ℕ b.threshold
      → IsArmed b
      → IsArmed (after_calls calls b)
  after_calls-IsArmed [] b h k = k
  after_calls-IsArmed ((call, s) ∷ calls) b h k =
      after_calls-IsArmed calls (dispatch call s b).2 (rw (dispatch-threshold call s b) h)
        (dispatch-IsArmed call s b h k)

  -- With a positive threshold, after any sequence of calls of a new client the breaker is in its
  -- cooldown or has fewer failures in a row than the threshold: the call that reaches the threshold
  -- opens the breaker.
  pub new_breaker-IsArmed :
      {A : Type 0} (threshold : ℕ) (cooldown_seconds : R) (calls : List (Call A × venue.State))
      → 0 <ℕ threshold
      → IsArmed (after_calls calls (new_breaker threshold cooldown_seconds))
  new_breaker-IsArmed threshold cooldown_seconds calls h =
      after_calls-IsArmed calls (new_breaker threshold cooldown_seconds) h (inr h)
