-- ===== src/Budget.antt =====
-- The run plan of a cycle, the daily token budget and the balance sync of src/trading_crew/main.py. A day
-- is a number, and a token count is a natural number.
pub mod Day
pub mod Plan
use Prim.Native.Nat.{◌+◌ as ◌+ℕ◌}
use trading_crew.Prelude.{
  Bool, true, false, ◌&&◌, not, if◌then◌else◌, Option, none, some, List, [], ◌∷◌, ◌++◌, ℕ, String,
  Dict, lookup, Result, ok, err,
}
use trading_crew.Num.{Num, R, ◌-◌, ◌*◌, ◌/◌, ltb, leb, dec, one, hundred, max, abs}
use trading_crew.Num.Int.{leb_ℕ, eqb_ℕ}
use trading_crew.Models.Portfolio.{Portfolio}
use trading_crew.Database.{Database, count_open_orders}

pub data BudgetDegradeLevel : Type 0 where
  normal budget_stop : BudgetDegradeLevel

-- `TokenBudgetDegradeMode` of src/trading_crew/config/settings.py.
pub data TokenBudgetDegradeMode : Type 0 where
  degrade_normal degrade_budget_stop : TokenBudgetDegradeMode

pub record BudgetRuntimeState : Type 0 where
  pub token_budget_day : ℕ
  pub estimated_tokens_used_today : ℕ
  pub budget_breach_notified : Bool
  pub degrade_level : BudgetDegradeLevel

-- The settings that the budget reads.
pub record BudgetSettings : Type 0 where
  pub daily_token_budget_enabled : Bool
  pub token_budget_degrade_mode : TokenBudgetDegradeMode
  pub daily_token_budget_tokens : ℕ
  pub advisory_estimated_tokens : ℕ

-- The state, and the notifications that were sent.
pub record Budget : Type 0 where
  pub runtime : BudgetRuntimeState
  pub sent : List String

-- `_refresh_budget_day`, on the day `today`.
unfoldable pub refresh_budget_day : BudgetSettings → ℕ → Budget → Budget
refresh_budget_day settings today b =
    if settings.daily_token_budget_enabled && not (eqb_ℕ today b.runtime.token_budget_day)
    then record b {
      runtime = record {
        token_budget_day = today;
        estimated_tokens_used_today = 0;
        budget_breach_notified = false;
        degrade_level = normal;
      };
    }
    else b

unfoldable pub notify_budget_breach_once : String → Budget → Budget
notify_budget_breach_once message b = if b.runtime.budget_breach_notified then b else record {
  runtime = record (b.runtime) { budget_breach_notified = true };
  sent = b.sent ++ message ∷ [];
}

abbrev pub breach_message : String
breach_message = "Daily token budget exhausted. Advisory crew disabled until UTC day reset."

abbrev stops : TokenBudgetDegradeMode → Bool
stops degrade_budget_stop = true
stops degrade_normal = false

abbrev pub is_normal : BudgetDegradeLevel → Bool
is_normal normal = true
is_normal budget_stop = false

-- `_update_degrade_level`
unfoldable pub update_degrade_level : BudgetSettings → Budget → Budget
unfolding notify_budget_breach_once
update_degrade_level settings b =
    if settings.daily_token_budget_enabled
      && (stops settings.token_budget_degrade_mode
          && (is_normal b.runtime.degrade_level
              && leb_ℕ settings.daily_token_budget_tokens b.runtime.estimated_tokens_used_today))
    then notify_budget_breach_once breach_message
        (record b { runtime = record (b.runtime) { degrade_level = budget_stop } })
    else b

-- `_accumulate_estimated_tokens`
unfoldable pub accumulate_estimated_tokens : BudgetSettings → Bool → Budget → Budget
accumulate_estimated_tokens settings advisory_ran b =
    if settings.daily_token_budget_enabled && advisory_ran
    then record b {
      runtime = record (b.runtime) {
        estimated_tokens_used_today =
            ◌+ℕ◌ b.runtime.estimated_tokens_used_today settings.advisory_estimated_tokens;
      };
    }
    else b

-- The calls of one pass of the main loop that touch the budget, in their order; the advisory crew, if
-- the cycle wants it, runs unless the budget has stopped it.
unfoldable pub budget_cycle : BudgetSettings → ℕ → Bool → Budget → Budget
unfolding refresh_budget_day update_degrade_level accumulate_estimated_tokens
budget_cycle settings today wanted b =
    let ready = update_degrade_level settings (refresh_budget_day settings today b) in
    accumulate_estimated_tokens settings (wanted && is_normal ready.runtime.degrade_level) ready

pub record RunPlan : Type 0 where
  pub run_market : Bool
  pub run_strategy : Bool
  pub run_execution : Bool
  pub open_orders_count : Option ℕ

module _ ⦃num : Num⦄ where
  -- `_is_due`
  unfoldable pub is_due : R → Option R → R → Bool
  is_due now none interval = true
  is_due now (some last) interval = leb interval (now - last)

  -- `_build_run_plan`
  unfoldable pub build_run_plan : R → Database → R → Option R → RunPlan
  unfolding is_due
  build_run_plan poll_interval db now last_poll =
      if is_due now last_poll poll_interval
      then record {
        run_market = true;
        run_strategy = true;
        run_execution = true;
        open_orders_count = some (count_open_orders db);
      }
      else record {
        run_market = true;
        run_strategy = true;
        run_execution = false;
        open_orders_count = none;
      }

  abbrev pub no_open_orders : Option ℕ → Bool
  no_open_orders none = true
  no_open_orders (some n) = leb_ℕ n 0

  -- `_apply_market_data_gate`, given whether there are analyses.
  unfoldable pub apply_market_data_gate : Bool → RunPlan → RunPlan
  apply_market_data_gate has_analyses plan = if has_analyses then plan else record plan {
    run_strategy = false;
    run_execution = if no_open_orders plan.open_orders_count then false else plan.run_execution;
  }

  -- What `_sync_balance_if_due` leaves: the portfolio, the time of the last sync, and the
  -- notification, if one is sent: the old balance, the new one and the drift.
  pub record BalanceSync : Type 0 where
    pub portfolio : Portfolio
    pub last_sync : R
    pub alert : Option (R × R × R)

  -- The branch of a balance that was found.
  unfoldable pub take_over_balance : R → R → R → Portfolio → BalanceSync
  take_over_balance threshold now new p =
      let old : R = p.balance_quote in
      let signed_pct : R = (new - old) / max old one * hundred in
      if leb (dec 1 2) (abs (new - old))
      then record {
        portfolio = record p { balance_quote = new };
        last_sync = now;
        alert = if leb threshold (abs signed_pct) then some (old, new, signed_pct) else none;
      }
      else record { portfolio = p; last_sync = now; alert = none }

  abbrev unchanged : R → Portfolio → BalanceSync
  unchanged time p = record { portfolio = p; last_sync = time; alert = none }

  -- `_sync_balance_if_due`, from what `fetch_balance` returns or raises, at the time `now`.
  unfoldable pub sync_balance_if_due :
      Result (Dict R) → String → R → R → R → R → Portfolio → BalanceSync
  unfolding take_over_balance
  sync_balance_if_due fetched currency interval threshold now last p =
      if ltb (now - last) interval then unchanged last p else elim fetched [
        | err e ↦ unchanged now p
        | ok balances ↦ elim (lookup currency balances) [
          | none ↦ unchanged now p
          | some new ↦ take_over_balance threshold now new p
        ]
      ]
