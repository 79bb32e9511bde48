-- ===== src/Models/Portfolio.antt =====
-- src/trading_crew/models/portfolio.py. The side of a position is true for "long"; the list of
-- order ids and the equity history, which no service writes, are left out.
pub mod Drawdown
use trading_crew.Prelude.{
  Bool, true, false, if◌then◌else◌, Option, none, some, List, [], ◌∷◌, map, String, Dict, ◌||◌,
  Result, ok, err, validation, ℕ, suc,
}
use trading_crew.Num.{Num, R, ◌+◌, ◌-◌, ◌*◌, ◌/◌, ltb, leb, eqb, zero_num, hundred, sum}

module _ ⦃num : Num⦄ where
  pub record Position : Type 0 where
    pub symbol : String
    pub exchange : String
    pub is_long : Bool
    pub entry_price : R
    pub amount : R
    pub current_price : R
    pub stop_loss_price : Option R
    pub take_profit_price : Option R
    pub strategy_name : String

  -- The constructor call `Position(...)`, with its field bounds.
  unfoldable pub make_position : Position → Result Position
  make_position p =
      if leb p.entry_price zero_num || leb p.amount zero_num || leb p.current_price zero_num
      then err validation
      else ok p

  unfoldable pub unrealized_pnl : Position → R
  unrealized_pnl p =
      if p.is_long
      then (p.current_price - p.entry_price) * p.amount
      else (p.entry_price - p.current_price) * p.amount

  unfoldable pub unrealized_pnl_pct : Position → R
  unfolding unrealized_pnl
  unrealized_pnl_pct p =
      let entry_cost : R = p.entry_price * p.amount in
      if eqb entry_cost zero_num then zero_num else unrealized_pnl p / entry_cost * hundred

  unfoldable pub market_value : Position → R
  market_value p = p.current_price * p.amount

  abbrev breached : Bool → R → Option R → Bool
  breached is_long price none = false
  breached is_long price (some stop) = if is_long then leb price stop else leb stop price

  unfoldable pub should_stop_loss : Position → Bool
  should_stop_loss p = breached p.is_long p.current_price p.stop_loss_price

  pub record Portfolio : Type 0 where
    pub positions : Dict Position
    pub balance_quote : R
    pub quote_currency : String
    pub realized_pnl : R
    pub total_fees : R
    pub peak_balance : R

  pub record PnlSnapshot : Type 0 where
    pub timestamp : R
    total_balance_quote : R
    unrealized_pnl : R
    pub realized_pnl : R
    pub total_fees : R
    num_open_positions : ℕ
    pub drawdown_pct : R

  abbrev pub values : Dict Position → List Position
  values [] = []
  values ((k, p) ∷ d) = p ∷ values d

  abbrev count_entries : Dict Position → ℕ
  count_entries [] = 0
  count_entries (e ∷ d) = suc (count_entries d)

  unfoldable pub total_market_value : Portfolio → R
  unfolding market_value
  total_market_value p = sum (map market_value (values p.positions))

  unfoldable pub total_balance : Portfolio → R
  total_balance p = total_market_value p + p.balance_quote

  unfoldable pub total_unrealized_pnl : Portfolio → R
  unfolding unrealized_pnl
  total_unrealized_pnl p = sum (map unrealized_pnl (values p.positions))

  unfoldable pub drawdown_pct : Portfolio → R
  drawdown_pct p =
      if eqb p.peak_balance zero_num
      then zero_num
      else (p.peak_balance - total_balance p) / p.peak_balance * hundred

  unfoldable pub exposure_pct : Portfolio → R
  exposure_pct p =
      if eqb (total_balance p) zero_num
      then zero_num
      else total_market_value p / total_balance p * hundred

  unfoldable pub update_peak : Portfolio → Portfolio
  update_peak p =
      if ltb p.peak_balance (total_balance p)
      then record p { peak_balance = total_balance p }
      else p

  -- `Portfolio.snapshot` at the time `now`.
  unfoldable pub snapshot : R → Portfolio → PnlSnapshot
  snapshot now p = record {
    timestamp = now;
    total_balance_quote = total_balance p;
    unrealized_pnl = total_unrealized_pnl p;
    realized_pnl = p.realized_pnl;
    total_fees = p.total_fees;
    num_open_positions = count_entries p.positions;
    drawdown_pct = drawdown_pct p;
  }
