-- ===== src/Flow/Restore.antt =====
-- What the reservations of a cycle leave, if they are not executed.
use trading_crew.Prelude.{◌≡◌, refl, ◌∙◌, ap, some, List, [], ◌∷◌, String, bind-keeps, arith}
use trading_crew.Num.{Num, R}
use trading_crew.Models.Order.{OrderRequest}
use trading_crew.Models.Portfolio.{Portfolio, update_peak}
use trading_crew.Execution.Exchange.{Exchange}
use trading_crew.Execution.World.{Settings, on_portfolio}
use trading_crew.Cycle.Reserve.{reserve, rollback}
use trading_crew.Flow.{Services, Flow, on_world, set_portfolio}
use trading_crew.Flow.Phases.{reserve_phase, reserve_all, reserve_requests, give_back}

module _ ⦃num : Num⦄ where
  -- What no reservation touches.
  abbrev Untouched : Type 0
  Untouched = String × R × R

  abbrev untouched : Portfolio → Untouched
  untouched p = (p.quote_currency, p.realized_pnl, p.total_fees)

  untouched-reserve :
      (req : OrderRequest) (p : Portfolio) → untouched (reserve req p).1 ≡ untouched p
  unfolding reserve
  untouched-reserve req p = ground arith

  untouched-update_peak : (p : Portfolio) → untouched (update_peak p) ≡ untouched p
  unfolding update_peak
  untouched-update_peak p = ground arith

  -- A portfolio that differs from the saved one only where a reservation writes.
  rollback-untouched :
      (saved p : Portfolio) (req : OrderRequest) (more : List OrderRequest)
      → untouched p ≡ untouched saved
      → rollback (some saved) (req ∷ more) p ≡ saved
  unfolding rollback
  rollback-untouched saved p req more h =
      ap
        (λ (u : Untouched). record saved {
          quote_currency = u.0;
          realized_pnl = u.1;
          total_fees = u.2;
        })
        h

module _ ⦃num : Num⦄ ⦃ex : Exchange⦄ (settings : Settings) (services : Services) where
  -- The state in which the reservations of a cycle started, but for the portfolio's balance,
  -- positions and peak.
  abbrev IsReserved : Portfolio → List OrderRequest → Flow → Type 0
  IsReserved saved requests g =
      (g.portfolio_snapshot ≡ some saved)
      × (g.state.order_requests ≡ requests)
      × (untouched g.world.portfolio ≡ untouched saved)

  reserve_all-IsReserved :
      (saved : Portfolio) (all requests : List OrderRequest) (f : Flow)
      → IsReserved saved all f
      → IsReserved saved all (reserve_all settings services requests f).1
  unfolding reserve_all
  reserve_all-IsReserved saved all [] f h = h
  reserve_all-IsReserved saved all (req ∷ requests) f h =
      bind-keeps (IsReserved saved all) (on_world (on_portfolio (reserve req)))
        (λ done. reserve_all settings services requests) f
        (h.0, h.1, untouched-reserve req f.world.portfolio ∙ h.2)
        (λ done g k. reserve_all-IsReserved saved all requests g k)

  reserve_requests-IsReserved :
      (f : Flow) (req : OrderRequest) (more : List OrderRequest)
      → IsReserved f.world.portfolio
          (req ∷ more)
          (reserve_requests settings services (req ∷ more) f).1
  unfolding reserve_requests
  reserve_requests-IsReserved f req more =
      let saved = f.world.portfolio in
      let start = record f {
        state = record (f.state) { order_requests = req ∷ more };
        portfolio_snapshot = some saved;
      } in
      bind-keeps (IsReserved saved (req ∷ more)) (reserve_all settings services (req ∷ more))
        (λ done. set_portfolio update_peak) start
        (reserve_all-IsReserved saved (req ∷ more) (req ∷ more) start (refl, refl, refl))
        (λ done g k. (k.0, k.1, untouched-update_peak g.world.portfolio ∙ k.2))

  give_back-IsReserved :
      (saved : Portfolio) (req : OrderRequest) (more : List OrderRequest) (g : Flow)
      → IsReserved saved (req ∷ more) g
      → (give_back settings services g).1.world.portfolio ≡ saved
  unfolding give_back
  give_back-IsReserved saved req more g h =
      rw (h.0, h.1) (rollback-untouched saved g.world.portfolio req more h.2)

  give_back-reserve_requests :
      (requests : List OrderRequest) (f : Flow)
      → (give_back settings services
          (reserve_requests settings services requests f).1).1.world.portfolio
        ≡ f.world.portfolio
  unfolding give_back reserve_requests reserve_all rollback
  give_back-reserve_requests [] f = refl
  give_back-reserve_requests (req ∷ more) f =
      give_back-IsReserved f.world.portfolio req more _ (reserve_requests-IsReserved f req more)

  -- A cycle that reserves and does not execute gives everything back: after the reservations and the
  -- rollback, the portfolio is the one before them.
  pub give_back-reserve_phase :
      (f : Flow)
      → (give_back settings services (reserve_phase settings services f).1).1.world.portfolio
        ≡ f.world.portfolio
  unfolding reserve_phase
  give_back-reserve_phase f = give_back-reserve_requests _ f
