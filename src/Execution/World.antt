-- ===== src/Execution/World.antt =====
-- The state of the execution service's methods: the portfolio, the database, the exchange, the messages
-- sent, the result that a call gathers, and the number of ids drawn. The service's settings, the clock,
-- which stands still during a call, and the source of random ids are a record of their own.
use trading_crew.Prelude.{Bool, List, [], ◌∷◌, ◌++◌, String, ℕ, Action, zoom, modify}
use trading_crew.Num.{Num, R}
use trading_crew.Models.Order.{OrderRequest, Order}
use trading_crew.Models.Portfolio.{Portfolio}
use trading_crew.Database.{Database, save_failed_order}
use trading_crew.Execution.Types.{CallError, Notice, FailureReason, ExecutionResult}
use trading_crew.Execution.Exchange.{Exchange}

module _ ⦃num : Num⦄ where
  -- `str.lower` is Python's, and `fresh_id n` is the n-th id that `uuid4` gives.
  pub record Settings : Type 0 where
    pub stale_minutes : R
    pub stale_partial_minutes : R
    pub anti_averaging_down_enabled : Bool
    pub now : R
    pub fresh_id : ℕ → String
    pub lower : String → String

  abbrev pub empty_result : ExecutionResult
  empty_result = record { placed = []; filled = []; cancelled = []; failed = []; errors = [] }

  module _ ⦃ex : Exchange⦄ where
    pub record World : Type 0 where
      pub portfolio : Portfolio
      pub db : Database
      pub exchange : ex.State
      pub notices : List Notice
      pub result : ExecutionResult
      pub ids_drawn : ℕ

    abbrev pub on_portfolio : {A : Type 0} → Action Portfolio A → Action World A
    on_portfolio = zoom (λ w. w.portfolio) (λ p w. record w { portfolio = p })

    abbrev pub on_exchange : {A : Type 0} → Action ex.State A → Action World A
    on_exchange = zoom (λ w. w.exchange) (λ s w. record w { exchange = s })

    abbrev pub on_db : {A : Type 0} → Action Database A → Action World A
    on_db = zoom (λ w. w.db) (λ d w. record w { db = d })

    abbrev pub notify_all : List Notice → Action World (Unit {0})
    notify_all ns = modify (λ w. record w { notices = w.notices ++ ns })

    abbrev pub notify : Notice → Action World (Unit {0})
    notify n = notify_all (n ∷ [])

    abbrev pub add_placed : Order → Action World (Unit {0})
    add_placed o =
        modify
          (λ w. record w { result = record (w.result) { placed = w.result.placed ++ (o ∷ []) } })

    abbrev replace_last : Order → List Order → List Order
    replace_last o [] = []
    replace_last o (x ∷ []) = o ∷ []
    replace_last o (x ∷ (y ∷ rest)) = x ∷ replace_last o (y ∷ rest)

    -- The order that was placed last is the same object as the one that was changed now.
    abbrev pub amend_placed : Order → Action World (Unit {0})
    amend_placed o =
        modify
          (λ w. record w { result = record (w.result) { placed = replace_last o w.result.placed } })

    abbrev pub add_filled : Order → Action World (Unit {0})
    add_filled o =
        modify
          (λ w. record w { result = record (w.result) { filled = w.result.filled ++ (o ∷ []) } })

    abbrev pub add_cancelled : Order → Action World (Unit {0})
    add_cancelled o = modify (λ w. record w {
      result = record (w.result) { cancelled = w.result.cancelled ++ (o ∷ []) };
    })

    abbrev pub add_error : CallError → Action World (Unit {0})
    add_error e =
        modify
          (λ w. record w { result = record (w.result) { errors = w.result.errors ++ (e ∷ []) } })

    -- A dead-letter entry: in the result and in the database.
    abbrev pub add_failed : R → OrderRequest → FailureReason → Action World (Unit {0})
    add_failed now req reason = modify (λ w. record w {
      result = record (w.result) {
        failed =
            w.result.failed
            ++ (record { order_request = req; error_reason = reason; timestamp = now } ∷ []);
      };
      db = save_failed_order req reason w.db;
    })
