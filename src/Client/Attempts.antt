-- ===== src/Client/Attempts.antt =====
-- How often the exchange client tries.
use Prim.Native.Nat.{◌^◌, ◌+◌ as ◌+ℕ◌, ◌≤◌ as ◌≤ℕ◌}
use trading_crew.Prelude.{◌≡◌, ℕ, zero, suc, arith, Bool-cases, inl, inr}
use trading_crew.Num.{Num, R}
use trading_crew.Uncertainty.{of_count}
use trading_crew.Client.{
  Outcome, returned, failed, Failure, is_transient, max_retries, Venue, Call, retry, retry_from,
  settle,
}

module _ ⦃num : Num⦄ ⦃venue : Venue⦄ where
  -- A library that counts the calls.
  module _ {A : Type 0} (calls : venue.State → ℕ) (call : Call A)
      (counted : (s : venue.State) → calls (call s).1 ≡ suc (calls s))
      (slept : (d : R) (s : venue.State) → calls (venue.sleep d s) ≡ calls s) where
    calls-settle :
        (again : Failure → Call A) (attempt : ℕ) (o : Outcome A × venue.State) (n : ℕ)
        → calls o.1 ≤ℕ n
        → ((f : Failure) (t : venue.State) → calls t ≡ calls o.1 → calls (again f t).1 ≤ℕ n)
        → calls (settle again attempt o).1 ≤ℕ n
    unfolding settle
    calls-settle again attempt (returned a, s) n h k = h
    calls-settle again attempt (failed f, s) n h k =
        let wait = of_count (2 ^ attempt) in
        elim (Bool-cases (is_transient f)) [
          | inl e ↦ rw e (k f (venue.sleep wait s) (slept wait s))
          | inr e ↦ rw e h
        ]

    calls-retry_from :
        (left attempt : ℕ) (s : venue.State)
        → calls (retry_from left attempt call s).1 ≤ℕ (calls s +ℕ suc left)
    unfolding retry_from
    calls-retry_from zero attempt s =
        let once = counted s in
        calls-settle (λ f t. (failed f, t)) attempt (call s) (calls s +ℕ 1) (omega arith)
          (λ f t e. omega arith)
    calls-retry_from (suc left) attempt s =
        let once = counted s in
        calls-settle (λ f t. retry_from left (suc attempt) call t) attempt (call s)
          (calls s +ℕ suc (suc left)) (omega arith)
          (λ f t e. let rest = calls-retry_from left (suc attempt) t in omega arith)

    -- A service call sends at most three requests, where each request counts as one and a wait as none.
    pub calls-retry : (s : venue.State) → calls (retry call s).1 ≤ℕ (calls s +ℕ max_retries)
    unfolding retry
    calls-retry s = calls-retry_from 2 0 s
