-- ===== src/Client.antt =====
-- The circuit breaker and the retries of src/trading_crew/services/exchange_service.py. The exchange's library
-- and the clock are parameters: a call is a function of the library's state, which the clock and the
-- waits read and change too.
pub mod Attempts
pub mod Breaker
pub mod Paper
pub mod Range
use Prim.Native.Nat.{◌^◌}
use trading_crew.Prelude.{Bool, if◌then◌else◌, Option, none, some, ℕ, zero, suc, String}
use trading_crew.Num.{Num, R, ◌+◌, ltb}
use trading_crew.Num.Int.{leb_ℕ}
use trading_crew.Uncertainty.{of_count}

-- What a call raises: the three errors that are tried again, any other, and the service's own
-- `ExchangeCircuitBreakerError` and `ValueError`.
pub data Failure : Type 0 where
  rate_limited network_error timed_out : Failure
  other_error : String → Failure
  breaker_open : Failure
  bad_value : Failure

pub data Outcome {ℓ} (A : Type ℓ) : Type ℓ where
  returned : A → Outcome A
  failed : Failure → Outcome A

abbrev pub is_transient : Failure → Bool
is_transient rate_limited = Bool.true
is_transient network_error = Bool.true
is_transient timed_out = Bool.true
is_transient _ = Bool.false

abbrev pub is_rate_limit : Failure → Bool
is_rate_limit rate_limited = Bool.true
is_rate_limit _ = Bool.false

-- `MAX_RETRIES`
abbrev pub max_retries : ℕ
max_retries = 3

module _ ⦃num : Num⦄ where
  -- The library's state with the clock: `time.monotonic()` and `asyncio.sleep`.
  pub record Venue : Type 1 where
    pub State : Type 0
    pub monotonic : State → R
    pub sleep : R → State → State

  -- The breaker's part of the service.
  pub record CallBreaker : Type 0 where
    pub threshold : ℕ
    pub cooldown_seconds : R
    pub consecutive_failures : ℕ
    pub cooldown_until : Option R

  -- `__init__`: no failures yet, and no cooldown.
  abbrev pub new_breaker : ℕ → R → CallBreaker
  new_breaker threshold cooldown_seconds = record {
    threshold = threshold;
    cooldown_seconds = cooldown_seconds;
    consecutive_failures = 0;
    cooldown_until = none;
  }

  module _ ⦃venue : Venue⦄ where
    abbrev pub Call : Type 0 → Type 0
    Call A = venue.State → Outcome A × venue.State

    module _ {A : Type 0} where
      -- What follows an attempt: a transient failure waits and goes on.
      unfoldable pub settle :
          (Failure → Call A) → ℕ → Outcome A × venue.State → Outcome A × venue.State
      settle again attempt (returned a, s) = (returned a, s)
      settle again attempt (failed f, s) =
          if is_transient f then again f (venue.sleep (of_count (2 ^ attempt)) s) else (failed f, s)

      -- `_retry`, from the attempt that is next, with the number of attempts left after it: the last
      -- failure is raised when none is left, and the wait before that is made all the same.
      unfoldable pub retry_from : ℕ → ℕ → Call A → Call A
      unfolding settle
      retry_from zero attempt call s = settle (λ f t. (failed f, t)) attempt (call s)
      retry_from (suc left) attempt call s =
          settle (λ f t. retry_from left (suc attempt) call t) attempt (call s)

      unfoldable pub retry : Call A → Call A
      unfolding retry_from
      retry call = retry_from 2 0 call

    -- `_check_cb`: true if the breaker is open, and the breaker, which is reset when the cooldown is
    -- over.
    unfoldable pub check_breaker : R → CallBreaker → Bool × CallBreaker
    check_breaker now b = elim b.cooldown_until [
      | none ↦ (Bool.false, b)
      | some until ↦
          if ltb now until
          then (Bool.true, b)
          else (Bool.false, record b { cooldown_until = none; consecutive_failures = 0 })
    ]

    -- `_increment_cb`
    unfoldable pub increment_breaker : R → CallBreaker → CallBreaker
    increment_breaker now b =
        let failures = suc b.consecutive_failures in
        record b {
          consecutive_failures = failures;
          cooldown_until =
              if leb_ℕ b.threshold failures
              then some (now + b.cooldown_seconds)
              else b.cooldown_until;
        }

    -- The breaker after the retries.
    unfoldable pub after_retry : {A : Type 0} → R → Outcome A → CallBreaker → CallBreaker
    unfolding increment_breaker
    after_retry now (returned a) b = record b { consecutive_failures = 0 }
    after_retry now (failed f) b = if is_rate_limit f then increment_breaker now b else b

    -- `_call`: the outcome, the library's state and the breaker.
    unfoldable pub dispatch :
        {A : Type 0} → Call A → venue.State → CallBreaker → Outcome A × venue.State × CallBreaker
    unfolding check_breaker retry after_retry
    dispatch call s b =
        let (is_open, b') = check_breaker (venue.monotonic s) b in
        let (outcome, s') = retry call s in
        if is_open
        then (failed breaker_open, s, b')
        else (outcome, s', after_retry (venue.monotonic s') outcome b')
