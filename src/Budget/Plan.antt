-- ===== src/Budget/Plan.antt =====
-- The tokens of a day stay near the budget, and what the run plan, the market gate and the balance sync
-- decide.
use Prim.Native.Nat.{◌≤◌ as ◌≤ℕ◌, ◌+◌ as ◌+ℕ◌}
use trading_crew.Prelude.{
  Bool, true, false, ◌≡◌, refl, Option, none, some, ℕ, String, Dict, lookup, Result, ok, err, List,
  [], ◌∷◌, arith, ◌⊎◌, Bool-cases, Option-cases, inl, inr,
}
use trading_crew.Num.{Num, R, ltb, leb, dec, abs, ◌-◌}
use trading_crew.Models.Portfolio.{Portfolio}
use trading_crew.Budget.{
  BudgetSettings, Budget, degrade_budget_stop, refresh_budget_day, update_degrade_level,
  accumulate_estimated_tokens, notify_budget_breach_once, budget_cycle, sync_balance_if_due,
  take_over_balance,
}

-- The passes of the loop: the day of each, and whether its cycle wants the advisory crew.
abbrev pub budget_run : BudgetSettings → List (ℕ × Bool) → Budget → Budget
budget_run settings [] b = b
budget_run settings ((today, wanted) ∷ passes) b =
    budget_run settings passes (budget_cycle settings today wanted b)

used-budget_cycle :
    (settings : BudgetSettings) (today : ℕ) (wanted : Bool) (b : Budget)
    → settings.token_budget_degrade_mode ≡ degrade_budget_stop
    → let limit = settings.daily_token_budget_tokens +ℕ settings.advisory_estimated_tokens in
      b.runtime.estimated_tokens_used_today ≤ℕ limit
      → (budget_cycle settings today wanted b).runtime.estimated_tokens_used_today ≤ℕ limit
unfolding budget_cycle refresh_budget_day update_degrade_level accumulate_estimated_tokens
    notify_budget_breach_once
used-budget_cycle settings today wanted b h k = ground arith

-- In the mode BUDGET_STOP, over any sequence of cycles and days, the tokens counted for a day exceed
-- the budget by at most one run of the advisory crew, if they do not to begin with.
pub used-budget_run :
    (settings : BudgetSettings) (passes : List (ℕ × Bool)) (b : Budget)
    → settings.token_budget_degrade_mode ≡ degrade_budget_stop
    → b.runtime.estimated_tokens_used_today
      ≤ℕ (settings.daily_token_budget_tokens +ℕ settings.advisory_estimated_tokens)
    → (budget_run settings passes b).runtime.estimated_tokens_used_today
      ≤ℕ (settings.daily_token_budget_tokens +ℕ settings.advisory_estimated_tokens)
used-budget_run settings [] b h k = k
used-budget_run settings ((today, wanted) ∷ passes) b h k =
    used-budget_run settings passes (budget_cycle settings today wanted b) h
      (used-budget_cycle settings today wanted b h k)

module _ ⦃num : Num⦄ where
  -- The balance that the exchange reports for the currency.
  abbrev pub reported : Result (Dict R) → String → Option R
  reported (err e) currency = none
  reported (ok balances) currency = lookup currency balances

  -- A sync either leaves the portfolio, or it was due and writes the balance that the exchange
  -- reported for the currency, which is a cent or more away, and nothing else.
  pub sync_balance_if_due_cases :
      (fetched : Result (Dict R)) (currency : String) (interval threshold now last : R)
      (p : Portfolio)
      → let after = sync_balance_if_due fetched currency interval threshold now last p in
        (after.portfolio ≡ p)
        ⊎ ((new : R) × (reported fetched currency ≡ some new)
            × (ltb (now - last) interval ≡ false)
            × (leb (dec 1 2) (abs (new - p.balance_quote)) ≡ true)
            × (after.portfolio ≡ record p { balance_quote = new }))
  unfolding sync_balance_if_due take_over_balance
  sync_balance_if_due_cases (err e) currency interval threshold now last p = ground arith
  sync_balance_if_due_cases (ok d) currency interval threshold now last p =
      elim (Option-cases (lookup currency d)) [
        | inl none_reported ↦ inl (ground (arith, none_reported))
        | inr (new, found) ↦ elim (Bool-cases (ltb (now - last) interval)) [
          | inl early ↦ inl (rw early refl)
          | inr due ↦ elim (Bool-cases (leb (dec 1 2) (abs (new - p.balance_quote)))) [
            | inl far ↦ inr (new, found, due, far, rw (due, found, far) refl)
            | inr near ↦ inl (rw (due, found, near) refl)
          ]
        ]
      ]
