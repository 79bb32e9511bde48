-- ===== src/Budget/Day.antt =====
-- The budget over the days: the events of the main loop as a step relation.
use Prim.Native.Nat.{◌≤◌ as ◌≤ℕ◌}
use trading_crew.Prelude.{
  Bool, true, false, ◌≡◌, refl, ◌⊎◌, inr, ap, List, [], ◌∷◌, ◌++◌, length, ℕ, suc, String, arith,
}
use trading_crew.Budget.{
  BudgetSettings, Budget, is_normal, refresh_budget_day, update_degrade_level,
  accumulate_estimated_tokens, notify_budget_breach_once, breach_message,
}

-- What the main loop does to the budget within one day, in any order.
pub data Step (settings : BudgetSettings) (today : ℕ) : Budget → Budget → Type 0 where
  refresh : (b : Budget) → Step settings today b (refresh_budget_day settings today b)
  degrade : (b : Budget) → Step settings today b (update_degrade_level settings b)
  spend :
      (b : Budget) (ran : Bool) → Step settings today b (accumulate_estimated_tokens settings ran b)

pub data Reach (settings : BudgetSettings) (today : ℕ) (b : Budget) : Budget → Type 0 where
  here : Reach settings today b b
  next :
      {c d : Budget} → Reach settings today b c → Step settings today c d → Reach settings today b d

-- The day of the state is today, one more notification at most is due, and it is sent before the
-- flag is set.
abbrev IsWithin : ℕ → ℕ → Budget → Type 0
IsWithin today limit b =
    (b.runtime.token_budget_day ≡ today)
    × (length b.sent ≤ℕ limit)
    × ((b.runtime.budget_breach_notified ≡ true) ⊎ (suc (length b.sent) ≤ℕ limit))

length-append_one : (xs : List String) (x : String) → length (xs ++ x ∷ []) ≡ suc (length xs)
length-append_one [] x = refl
length-append_one (y ∷ xs) x = ap suc (length-append_one xs x)

Step-IsWithin :
    {settings : BudgetSettings} {today limit : ℕ} {b c : Budget}
    → Step settings today b c
    → IsWithin today limit b
    → IsWithin today limit c
unfolding refresh_budget_day update_degrade_level accumulate_estimated_tokens
    notify_budget_breach_once
Step-IsWithin (refresh b) h = ground arith
Step-IsWithin (degrade b) h = ground (arith, length-append_one b.sent breach_message)
Step-IsWithin (spend b ran) h = ground arith

Reach-IsWithin :
    {settings : BudgetSettings} {today limit : ℕ} {b c : Budget}
    → Reach settings today b c
    → IsWithin today limit b
    → IsWithin today limit c
Reach-IsWithin here h = h
Reach-IsWithin (next r st) h = Step-IsWithin st (Reach-IsWithin r h)

-- From a state of today, however often and in whatever order the loop refreshes the day, updates the
-- level and counts tokens within the day, it sends one notification of the budget at most.
pub length-sent-le :
    (settings : BudgetSettings) (today : ℕ) (b c : Budget)
    → b.runtime.token_budget_day ≡ today
    → Reach settings today b c
    → length c.sent ≤ℕ suc (length b.sent)
length-sent-le settings today b c h r =
    (Reach-IsWithin {settings = settings} {today = today} {limit = suc (length b.sent)} r
      (h, omega arith, inr (omega arith))).1

-- The advisory crew is stopped for today.
abbrev IsStopped : ℕ → Budget → Type 0
IsStopped today b =
    (b.runtime.token_budget_day ≡ today) × (is_normal b.runtime.degrade_level ≡ false)

Step-IsStopped :
    {settings : BudgetSettings} {today : ℕ} {b c : Budget}
    → Step settings today b c
    → IsStopped today b
    → IsStopped today c
unfolding refresh_budget_day update_degrade_level accumulate_estimated_tokens
    notify_budget_breach_once
Step-IsStopped (refresh b) h = ground arith
Step-IsStopped (degrade b) h = ground arith
Step-IsStopped (spend b ran) h = ground arith

-- Once the budget has stopped the advisory crew, it stays stopped through every sequence of the
-- loop's steps within the same day.
pub Reach-IsStopped :
    (settings : BudgetSettings) (today : ℕ) (b c : Budget)
    → IsStopped today b
    → Reach settings today b c
    → IsStopped today c
Reach-IsStopped settings today b c h here = h
Reach-IsStopped settings today b c h (next {c = d} r st) =
    Step-IsStopped st (Reach-IsStopped settings today b d h r)
