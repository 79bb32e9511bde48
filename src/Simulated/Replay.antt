-- ===== src/Simulated/Replay.antt =====
-- The replay shows the past: what is fetched at a bar does not depend on later candles.
use Prim.Native.Nat.{◌≤◌ as ◌≤ℕ◌, ◌-◌ as ◌-ℕ◌}
use trading_crew.Prelude.{
  ◌≡◌, refl, List, [], ◌∷◌, String, ℕ, zero, suc, length, take, drop, get_elem?, arith,
}
use trading_crew.Num.{Num}
use trading_crew.Models.Market.{Candle}
use trading_crew.Simulated.{
  SimulatedConfig, SimulatedState, fetch_ohlcv, fetch_ticker, window, current_candle, ticker_of,
}

module _ ⦃num : Num⦄ where
  get_elem?-take :
      (n : ℕ) (xs ys : List Candle)
      → take (suc n) xs ≡ take (suc n) ys
      → get_elem? xs n ≡ get_elem? ys n
  get_elem?-take n [] [] h = refl
  get_elem?-take n [] (y ∷ ys) h = cc
  get_elem?-take n (x ∷ xs) [] h = cc
  get_elem?-take zero (x ∷ xs) (y ∷ ys) h = ground arith
  get_elem?-take (suc n) (x ∷ xs) (y ∷ ys) h = ground (arith, get_elem?-take n xs ys)

  length-drop : (n : ℕ) (xs : List Candle) → length (drop n xs) ≡ (length xs) -ℕ n
  length-drop zero xs = omega arith
  length-drop (suc n) [] = omega arith
  length-drop (suc n) (x ∷ xs) = ground (arith, length-drop n xs)

  length-take : (n : ℕ) (xs : List Candle) → length (take n xs) ≤ℕ n
  length-take zero xs = omega arith
  length-take (suc n) [] = omega arith
  length-take (suc n) (x ∷ xs) = ground (arith, length-take n xs)

  -- Two histories that agree up to the current bar give the same candles and the same ticker, whatever
  -- comes after it: the replay does not look ahead.
  pub fetch_past :
      (c : SimulatedConfig) (candles : List Candle) (s : SimulatedState) (symbol : String)
      (limit : ℕ)
      → take (suc s.bar_index) c.candles ≡ take (suc s.bar_index) candles
      → let d = record c { candles = candles } in
        (fetch_ohlcv c symbol limit s ≡ fetch_ohlcv d symbol limit s)
        × (fetch_ticker c symbol s ≡ fetch_ticker d symbol s)
  unfolding fetch_ohlcv fetch_ticker window current_candle ticker_of
  fetch_past c candles s symbol limit h =
      (rw h refl, rw (get_elem?-take s.bar_index c.candles candles h) refl)

  -- No more candles than asked for, and none past the bar.
  pub length-window : (c : SimulatedConfig) (bar limit : ℕ) → length (window c bar limit) ≤ℕ limit
  unfolding window
  length-window c bar limit = ground (
    arith,
    length-drop (◌-ℕ◌ (suc bar) limit) (take (suc bar) c.candles),
    length-take (suc bar) c.candles,
  )
