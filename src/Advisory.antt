-- ===== src/Advisory.antt =====
-- src/trading_crew/models/advisory.py
pub mod Effects
use trading_crew.Prelude.{
  Bool, true, false, if◌then◌else◌, Option, none, some, List, [], ◌∷◌, String, str_eq, Dict, lookup,
  insert,
}
use trading_crew.Num.{Num, R, ◌+◌, ◌-◌, ◌*◌, dec, zero_num, one, min, max}
use trading_crew.Models.Signal.{SignalType, TradeSignal}

pub data AdjustmentAction : Type 0 where
  veto_signal adjust_confidence tighten_stop_loss reduce_position_size sit_out : AdjustmentAction

module _ ⦃num : Num⦄ where
  pub record AdvisoryAdjustment : Type 0 where
    pub action : AdjustmentAction
    pub symbol : Option String
    pub reason : String
    pub params : Dict R

  pub record AdvisoryResult : Type 0 where
    pub adjustments : List AdvisoryAdjustment
    pub summary : String
    pub uncertainty_score : R

  abbrev pub is_sit_out : AdjustmentAction → Bool
  is_sit_out sit_out = true
  is_sit_out _ = false

  -- `any(a.action == AdjustmentAction.SIT_OUT for a in ...)`
  unfoldable pub sits_out : List AdvisoryAdjustment → Bool
  sits_out [] = false
  sits_out (a ∷ ds) = if is_sit_out a.action then true else sits_out ds

  -- The symbol that a veto names.
  abbrev pub vetoed_symbol : AdvisoryAdjustment → Option String
  vetoed_symbol a = elim a.action [ veto_signal ↦ a.symbol | _ ↦ none ]

  abbrev names : Option String → String → Bool
  names none s = false
  names (some t) s = str_eq t s

  -- `symbol in veto_symbols`
  unfoldable pub is_vetoed : List AdvisoryAdjustment → String → Bool
  is_vetoed [] s = false
  is_vetoed (a ∷ ds) s = if names (vetoed_symbol a) s then true else is_vetoed ds s

  -- `d[symbol] = f(value)`, where there are a symbol and a value.
  abbrev pub set_param : Option String → Option R → (R → R) → Dict R → Dict R
  set_param none value f d = d
  set_param (some s) none f d = d
  set_param (some s) (some x) f d = insert s (f x) d

  abbrev pub clamp : R → R → R → R
  clamp low high x = max low (min high x)

  abbrev pub confidence_step : AdjustmentAction → Option String → Dict R → Dict R → Dict R
  confidence_step adjust_confidence symbol params d =
      set_param symbol (lookup "new_confidence" params) (clamp zero_num one) d
  confidence_step _ symbol params d = d

  -- `confidence_overrides`, `stop_loss_overrides` and `size_multipliers`: a later directive replaces
  -- an earlier one.
  unfoldable pub confidence_overrides : List AdvisoryAdjustment → Dict R → Dict R
  confidence_overrides [] d = d
  confidence_overrides (a ∷ ds) d =
      confidence_overrides ds (confidence_step a.action a.symbol a.params d)

  abbrev stop_step : AdjustmentAction → Option String → Dict R → Dict R → Dict R
  stop_step tighten_stop_loss symbol params d =
      set_param symbol (lookup "stop_loss_pct" params) (λ x. x) d
  stop_step _ symbol params d = d

  unfoldable pub stop_loss_overrides : List AdvisoryAdjustment → Dict R → Dict R
  stop_loss_overrides [] d = d
  stop_loss_overrides (a ∷ ds) d = stop_loss_overrides ds (stop_step a.action a.symbol a.params d)

  abbrev pub size_step : AdjustmentAction → Option String → Dict R → Dict R → Dict R
  size_step reduce_position_size symbol params d =
      set_param symbol (lookup "size_factor" params) (clamp (dec 1 2) one) d
  size_step _ symbol params d = d

  unfoldable pub size_multipliers : List AdvisoryAdjustment → Dict R → Dict R
  size_multipliers [] d = d
  size_multipliers (a ∷ ds) d = size_multipliers ds (size_step a.action a.symbol a.params d)

  -- `updates["stop_loss_price"]`
  unfoldable pub adjusted_stop : TradeSignal → R → R
  adjusted_stop s override =
      let pct : R = clamp (dec 1 3) (dec 5 1) override in
      elim s.signal_type [
        | SignalType.sell ↦ s.entry_price * (one + pct)
        | _ ↦ s.entry_price * (one - pct)
      ]

  -- `updates["confidence"]`, which the multiplier writes after the override.
  unfoldable pub adjusted_confidence : TradeSignal → Option R → Option R → R
  adjusted_confidence s override none = elim override [ none ↦ s.confidence | some c ↦ c ]
  adjusted_confidence s override (some multiplier) = s.confidence * multiplier

  abbrev stop_of : TradeSignal → Option R → Option R
  stop_of s none = s.stop_loss_price
  stop_of s (some override) = some (adjusted_stop s override)

  -- `sig.model_copy(update=updates)`, which does not check the fields again.
  unfoldable pub adjust : List AdvisoryAdjustment → TradeSignal → TradeSignal
  unfolding adjusted_stop adjusted_confidence confidence_overrides stop_loss_overrides
      size_multipliers
  adjust ds s = record s {
    confidence =
        adjusted_confidence s (lookup s.symbol (confidence_overrides ds []))
          (lookup s.symbol (size_multipliers ds []));
    stop_loss_price = stop_of s (lookup s.symbol (stop_loss_overrides ds []));
  }

  unfoldable pub adjust_all : List AdvisoryAdjustment → List TradeSignal → List TradeSignal
  unfolding adjust is_vetoed
  adjust_all ds [] = []
  adjust_all ds (s ∷ ss) =
      let rest = adjust_all ds ss in if is_vetoed ds s.symbol then rest else adjust ds s ∷ rest

  -- `apply_advisory_directives`
  unfoldable pub apply_advisory_directives : List TradeSignal → AdvisoryResult → List TradeSignal
  unfolding sits_out adjust_all
  apply_advisory_directives signals result =
      if sits_out result.adjustments then [] else adjust_all result.adjustments signals
