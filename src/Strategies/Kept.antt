-- ===== src/Strategies/Kept.antt =====
-- What the individual mode of the strategy runner keeps, and why.
use trading_crew.Prelude.{
  ◌≡◌, refl, sym, subst, true, false, Option, none, some, is_some, List, [], ◌∷◌, ◌++◌, String,
  Dict, lookup, insert, lookup-insert, HasUniqueKeys, Result, ok, err, arith, str_eq_iff,
}
use mathlib.Core.List.{append-nil, append_assoc}
use trading_crew.Num.{Num, R, ltb, leb, zero_num}
use trading_crew.Models.Signal.{SignalType, TradeSignal, StrategyVote, is_actionable}
use trading_crew.Models.Market.{MarketAnalysis}
use trading_crew.Models.Portfolio.{Portfolio}
use trading_crew.Strategies.{Strategy}
use trading_crew.Strategies.Runner.{
  StrategyRunner, evaluate_individual, individual_from, judge, judge_all, judge_signal,
  judge_outcome, filter_reason, preflight, cons_opt, append_opt,
}

module _ ⦃num : Num⦄ where
  -- The signals of the votes that were not filtered.
  abbrev pub kept_signals : List StrategyVote → List TradeSignal
  kept_signals [] = []
  kept_signals (v ∷ vs) = elim v.filtered_reason [
    | some reason ↦ kept_signals vs
    | none ↦ elim v.signal [ none ↦ kept_signals vs | some s ↦ s ∷ kept_signals vs ]
  ]

  abbrev pub votes_on :
      R → Option Portfolio → String → MarketAnalysis → List Strategy → List StrategyVote
  votes_on c p symbol a [] = []
  votes_on c p symbol a (st ∷ sts) = (judge c p symbol a st).0 ∷ votes_on c p symbol a sts

  abbrev pub vote_table :
      StrategyRunner → Option Portfolio → Dict MarketAnalysis → Dict (List StrategyVote)
  vote_table r p [] = []
  vote_table r p ((symbol, a) ∷ analyses) =
      (symbol, votes_on r.min_confidence p symbol a r.strategies) ∷ vote_table r p analyses

  abbrev pub all_kept : Dict (List StrategyVote) → List TradeSignal
  all_kept [] = []
  all_kept ((symbol, votes) ∷ d) = kept_signals votes ++ all_kept d

  judge-kept_signals :
      (c : R) (p : Option Portfolio) (symbol : String) (a : MarketAnalysis) (st : Strategy)
      (vs : List StrategyVote)
      → let (v, kept) = judge c p symbol a st in
        kept_signals (v ∷ vs) ≡ cons_opt kept (kept_signals vs)
  unfolding judge judge_outcome judge_signal
  judge-kept_signals c p symbol a st vs = ground arith

  append-cons_opt :
      (xs : List TradeSignal) (o : Option TradeSignal) (ys : List TradeSignal)
      → append_opt xs o ++ ys ≡ xs ++ cons_opt o ys
  append-cons_opt xs none ys = refl
  append-cons_opt xs (some x) ys = append_assoc xs (x ∷ []) ys

  judge_all-votes_on :
      (c : R) (p : Option Portfolio) (symbol : String) (a : MarketAnalysis) (sts : List Strategy)
      (votes : List StrategyVote) (signals : List TradeSignal)
      → let new = votes_on c p symbol a sts in
        judge_all c p symbol a sts (votes, signals) ≡ (votes ++ new, signals ++ kept_signals new)
  unfolding judge_all
  judge_all-votes_on c p symbol a [] votes signals =
      ground (arith, append-nil votes, append-nil signals)
  judge_all-votes_on c p symbol a (st ∷ sts) votes signals =
      let (v, kept) = judge c p symbol a st in
      let rest = votes_on c p symbol a sts in
      rw
        (
          judge_all-votes_on c p symbol a sts (votes ++ v ∷ []) (append_opt signals kept),
          append-cons_opt signals kept (kept_signals rest),
          judge-kept_signals c p symbol a st rest,
          append_assoc votes (v ∷ []) rest,
        )
        refl

  -- No symbol of the first dict is a key of the second.
  abbrev IsFresh : Dict MarketAnalysis → Dict (List StrategyVote) → Type 0
  IsFresh [] acc = Unit
  IsFresh ((k, a) ∷ d) acc = (lookup k acc ≡ none) × IsFresh d acc

  IsFresh-nil : (d : Dict MarketAnalysis) → IsFresh d []
  IsFresh-nil [] = tt
  IsFresh-nil ((k, a) ∷ d) = (refl, IsFresh-nil d)

  IsFresh-insert :
      (k : String) (vs : List StrategyVote) (d : Dict MarketAnalysis)
      (acc : Dict (List StrategyVote))
      → lookup k d ≡ none
      → IsFresh d acc
      → IsFresh d (insert k vs acc)
  IsFresh-insert k vs [] acc h fresh = tt
  IsFresh-insert k vs ((j, a) ∷ d) acc h fresh = (
    ground (arith, lookup-insert k j vs acc, str_eq_iff k j, str_eq_iff j k),
    IsFresh-insert k vs d acc (ground (arith, h)) fresh.1,
  )

  insert_new :
      (k : String) (vs : List StrategyVote) (acc : Dict (List StrategyVote))
      → lookup k acc ≡ none
      → insert k vs acc ≡ acc ++ (k, vs) ∷ []
  insert_new k vs [] h = refl
  insert_new k vs ((j, w) ∷ acc) h = ground (arith, insert_new k vs acc)

  individual_from-vote_table :
      (r : StrategyRunner) (p : Option Portfolio) (d : Dict MarketAnalysis)
      (signals : List TradeSignal) (votes : Dict (List StrategyVote))
      → HasUniqueKeys d
      → IsFresh d votes
      → let table = vote_table r p d in
        individual_from r p d (record { signals = signals; votes = votes })
        ≡ record { signals = signals ++ all_kept table; votes = votes ++ table }
  unfolding individual_from
  individual_from-vote_table r p [] signals votes unique fresh =
      rw (append-nil signals, append-nil votes) refl
  individual_from-vote_table r p ((k, a) ∷ d) signals votes unique fresh =
      let new = votes_on r.min_confidence p k a r.strategies in
      let table = vote_table r p d in
      rw
        (
          judge_all-votes_on r.min_confidence p k a r.strategies [] signals,
          individual_from-vote_table r p d (signals ++ kept_signals new) (insert k new votes)
              unique.1 (IsFresh-insert k new d votes unique.0 fresh.1),
          insert_new k new votes fresh.0,
          append_assoc signals (kept_signals new) (all_kept table),
          append_assoc votes ((k, new) ∷ []) table,
        )
        refl

  -- The individual mode is the table of the votes: each strategy votes once on each symbol, in the
  -- order of the analyses and of the strategies, and the signals are those of the votes that were
  -- not filtered, in that order. The analyses have each symbol once.
  pub evaluate_individual-vote_table :
      (r : StrategyRunner) (p : Option Portfolio) (analyses : Dict MarketAnalysis)
      → HasUniqueKeys analyses
      → let table = vote_table r p analyses in
        evaluate_individual r analyses p ≡ record { signals = all_kept table; votes = table }
  unfolding evaluate_individual
  evaluate_individual-vote_table r p analyses unique =
      individual_from-vote_table r p analyses [] [] unique (IsFresh-nil analyses)

  -- What the portfolio asks of a signal on a symbol: a SELL is of a symbol that is held, and a BUY
  -- finds a balance above zero.
  abbrev IsCovered : Option Portfolio → String → TradeSignal → Type 0
  IsCovered none symbol s = Unit
  IsCovered (some p) symbol s = elim s.signal_type [
    | SignalType.sell ↦ is_some (lookup symbol p.positions) ≡ true
    | SignalType.buy ↦ leb p.balance_quote zero_num ≡ false
    | SignalType.hold ↦ ⊥
  ]

  -- A vote on the symbol that was not filtered carries a signal that is covered and not below the
  -- smallest confidence.
  abbrev pub IsJustified : R → Option Portfolio → String → StrategyVote → Type 0
  IsJustified c p symbol v = (v.symbol ≡ symbol) × elim v.filtered_reason [
    | some reason ↦ Unit
    | none ↦ elim v.signal [
      | none ↦ ⊥
      | some s ↦ (is_actionable s ≡ true) × (ltb s.confidence c ≡ false) × IsCovered p symbol s
    ]
  ]

  judge_signal-IsJustified :
      (c : R) (p : Option Portfolio) (symbol : String) (st : Strategy) (s : TradeSignal)
      → IsJustified c p symbol (judge_signal c p symbol st s).0
  unfolding judge_signal filter_reason preflight is_actionable
  judge_signal-IsJustified c p symbol st s = ground arith

  judge_outcome-IsJustified :
      (c : R) (p : Option Portfolio) (symbol : String) (st : Strategy)
      (r : Result (Option TradeSignal))
      → IsJustified c p symbol (judge_outcome c p symbol st r).0
  unfolding judge_outcome
  judge_outcome-IsJustified c p symbol st (err e) = (refl, tt)
  judge_outcome-IsJustified c p symbol st (ok none) = (refl, tt)
  judge_outcome-IsJustified c p symbol st (ok (some s)) = judge_signal-IsJustified c p symbol st s

  abbrev pub AllJustified : R → Option Portfolio → Dict (List StrategyVote) → Type 0
  AllJustified c p [] = Unit
  AllJustified c p ((symbol, []) ∷ d) = AllJustified c p d
  AllJustified c p ((symbol, v ∷ vs) ∷ d) =
      IsJustified c p symbol v × AllJustified c p ((symbol, vs) ∷ d)

  votes_on-AllJustified :
      (c : R) (p : Option Portfolio) (symbol : String) (a : MarketAnalysis) (sts : List Strategy)
      (d : Dict (List StrategyVote))
      → AllJustified c p d
      → AllJustified c p ((symbol, votes_on c p symbol a sts) ∷ d)
  unfolding judge
  votes_on-AllJustified c p symbol a [] d h = h
  votes_on-AllJustified c p symbol a (st ∷ sts) d h = (
    judge_outcome-IsJustified c p symbol st (st.generate_signal a),
    votes_on-AllJustified c p symbol a sts d h,
  )

  vote_table-AllJustified :
      (r : StrategyRunner) (p : Option Portfolio) (analyses : Dict MarketAnalysis)
      → AllJustified r.min_confidence p (vote_table r p analyses)
  vote_table-AllJustified r p [] = tt
  vote_table-AllJustified r p ((symbol, a) ∷ d) =
      votes_on-AllJustified r.min_confidence p symbol a r.strategies (vote_table r p d)
        (vote_table-AllJustified r p d)

  -- In the individual mode each vote that was not filtered is for the symbol it is listed under,
  -- carries a BUY or a SELL whose confidence is not below the smallest, and, where there is a
  -- portfolio, a SELL is of a symbol that it holds and a BUY finds its balance above zero. The
  -- analyses have each symbol once.
  pub evaluate_individual-AllJustified :
      (r : StrategyRunner) (p : Option Portfolio) (analyses : Dict MarketAnalysis)
      → HasUniqueKeys analyses
      → AllJustified r.min_confidence p (evaluate_individual r analyses p).votes
  evaluate_individual-AllJustified r p analyses unique =
      subst (λ e. AllJustified r.min_confidence p e.votes)
        (sym (evaluate_individual-vote_table r p analyses unique))
        (vote_table-AllJustified r p analyses)
