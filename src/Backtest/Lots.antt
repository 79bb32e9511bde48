-- ===== src/Backtest/Lots.antt =====
-- `_build_trades` of src/trading_crew/services/simulation_runner.py: the sells of a simulation matched
-- with its buys, first in, first out. The rows are those that the query gives, the filled orders in the
-- order of their creation. The opening time of a trade is left out.
use trading_crew.Prelude.{
  Bool, true, if◌then◌else◌, Option, none, some, get_or, List, [], ◌∷◌, ◌++◌, String, Dict, lookup,
  insert, ℕ, zero, suc, length, str_eq,
}
use trading_crew.Num.{Num, R, ◌+◌, ◌-◌, ◌*◌, ◌/◌, ltb, leb, eqb, zero_num, one, min, abs}
use trading_crew.Models.Order.{OrderSide}
use trading_crew.Models.Market.{Candle}
use trading_crew.Execution.Types.{dust, OrderRecord}
use trading_crew.Backtest.{BacktestTrade, sell_signal, end_of_data}

module _ ⦃num : Num⦄ where
  -- `_BuyLot`
  pub record BuyLot : Type 0 where
    pub amount : R
    pub price : R
    pub fee : R
    pub strategy_name : String
    pub created_at : R

  abbrev lot_of : OrderRecord → BuyLot
  lot_of rec = record {
    amount = rec.filled_amount;
    price = get_or zero_num rec.average_fill_price;
    fee = rec.total_fee;
    strategy_name = rec.strategy_name;
    created_at = rec.created_at;
  }

  -- `ts_to_bar`: a time that comes again keeps its place and takes the later bar.
  unfoldable pub set_bar : R → ℕ → List (R × ℕ) → List (R × ℕ)
  set_bar t bar [] = (t, bar) ∷ []
  set_bar t bar ((u, b) ∷ bars) = if eqb u t then (u, bar) ∷ bars else (u, b) ∷ set_bar t bar bars

  unfoldable pub bars_from : ℕ → List (R × ℕ) → List Candle → List (R × ℕ)
  unfolding set_bar
  bars_from i bars [] = bars
  bars_from i bars (c ∷ cs) = bars_from (suc i) (set_bar c.timestamp i bars) cs

  abbrev is_nearer : R → Option R → Bool
  is_nearer dist none = true
  is_nearer dist (some best) = ltb dist best

  -- The loop of `_nearest_bar`: the best bar so far and its distance, None for infinity.
  unfoldable pub nearest_from : R → ℕ → Option R → List (R × ℕ) → ℕ
  nearest_from target best best_dist [] = best
  nearest_from target best best_dist ((t, bar) ∷ bars) =
      let dist : R = abs (t - target) in
      let nearer = nearest_from target bar (some dist) bars in
      let same = nearest_from target best best_dist bars in
      if is_nearer dist best_dist then nearer else same

  abbrev nearest_bar : List (R × ℕ) → R → ℕ
  nearest_bar bars target = nearest_from target 0 none bars

  -- What the matching of one sell changes.
  pub record Matching : Type 0 where
    pub remaining : R
    pub lots : List BuyLot
    pub trades : List BacktestTrade

  module _ (bars : List (R × ℕ)) (rec : OrderRecord) where
    unfoldable pub entry_fee_share : BuyLot → R → R
    entry_fee_share lot matched =
        if ltb zero_num lot.amount then lot.fee * (matched / lot.amount) else zero_num

    unfoldable pub matched_trade : BuyLot → R → BacktestTrade
    unfolding entry_fee_share nearest_from
    matched_trade lot matched =
        let filled : R = if eqb rec.filled_amount zero_num then one else rec.filled_amount in
        let exit_fee : R = rec.total_fee * (matched / filled) in
        let entry_fee : R = entry_fee_share lot matched in
        let exit_price : R = get_or zero_num rec.average_fill_price in
        record {
          symbol = rec.symbol;
          side = OrderSide.buy;
          strategy_name = lot.strategy_name;
          entry_bar = nearest_bar bars lot.created_at;
          exit_bar = nearest_bar bars rec.created_at;
          entry_price = lot.price;
          exit_price = exit_price;
          amount = matched;
          pnl = (exit_price - lot.price) * matched - entry_fee - exit_fee;
          fee = entry_fee + exit_fee;
          exit_reason = if str_eq rec.strategy_name "end_of_data" then end_of_data else sell_signal;
          closed_at = rec.created_at;
        }

    -- What is left of the first lot, if it is not used up.
    unfoldable pub use_lot : BuyLot → List BuyLot → R → List BuyLot
    unfolding entry_fee_share
    use_lot lot lots matched =
        if leb (lot.amount - dust) matched
        then lots
        else record lot {
          amount = lot.amount - matched;
          fee = lot.fee - entry_fee_share lot matched;
        }
          ∷ lots

    -- One pass of the loop, at the first lot.
    unfoldable pub match_lot : BuyLot → List BuyLot → Matching → Matching
    unfolding matched_trade use_lot
    match_lot lot lots m =
        let matched : R = min lot.amount m.remaining in
        record {
          remaining = m.remaining - matched;
          lots = use_lot lot lots matched;
          trades = m.trades ++ matched_trade lot matched ∷ [];
        }

    -- The loop, with a bound on its passes.
    unfoldable pub match_lots : ℕ → Matching → Matching
    unfolding match_lot
    match_lots zero m = m
    match_lots (suc fuel) m = elim m.lots [
      | [] ↦ m
      | lot ∷ lots ↦
          let rest = match_lots fuel (match_lot lot lots m) in
          if ltb dust m.remaining then rest else m
    ]

    -- A SELL consumes the lots from the front.
    unfoldable pub match_sell : List BuyLot → List BacktestTrade → Matching
    unfolding match_lots
    match_sell lots trades =
        match_lots (suc (length lots))
          (record { remaining = rec.filled_amount; lots = lots; trades = trades })

  -- The lots by symbol, and the trades.
  pub record Books : Type 0 where
    pub buy_lots : Dict (List BuyLot)
    pub trades : List BacktestTrade

  unfoldable pub book_order : List (R × ℕ) → OrderRecord → Books → Books
  unfolding match_sell
  book_order bars rec b = elim rec.side [
    | OrderSide.buy ↦ record b {
      buy_lots =
          insert rec.symbol (get_or [] (lookup rec.symbol b.buy_lots) ++ lot_of rec ∷ [])
            b.buy_lots;
    }
    | OrderSide.sell ↦ elim (get_or [] (lookup rec.symbol b.buy_lots)) [
      | [] ↦ b
      | lot ∷ lots ↦
          let m = match_sell bars rec (lot ∷ lots) b.trades in
          record { buy_lots = insert rec.symbol m.lots b.buy_lots; trades = m.trades }
    ]
  ]

  unfoldable pub book_all : List (R × ℕ) → List OrderRecord → Books → Books
  unfolding book_order
  book_all bars [] b = b
  book_all bars (rec ∷ recs) b = book_all bars recs (book_order bars rec b)

  unfoldable pub build_trades : List OrderRecord → List Candle → List BacktestTrade
  unfolding book_all bars_from
  build_trades recs candles =
      (book_all (bars_from 0 [] candles) recs record { buy_lots = []; trades = [] }).trades
