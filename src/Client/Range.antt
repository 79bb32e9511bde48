-- ===== src/Client/Range.antt =====
-- `fetch_ohlcv_range` of src/trading_crew/services/exchange_service.py: the pages of a range of candles, as the
-- rows that the library gives. Times are in milliseconds.
use Prim.Native.Nat.{◌+◌ as ◌+ℕ◌, ◌-◌ as ◌-ℕ◌, ◌≤◌ as ◌≤ℕ◌}
use trading_crew.Prelude.{
  Bool, true, false, if◌then◌else◌, ◌||◌, List, [], ◌∷◌, ◌++◌, ℕ, zero, suc, length, arith,
  Bool-cases, inl, inr, Option, none, some, ◌≡◌, ◌⊎◌, refl,
}
use trading_crew.Num.{Num, R, ◌<◌, ltb, zero_num}
use trading_crew.Num.Int.{ltb_ℕ, leb_ℕ}
use trading_crew.Client.{Outcome, returned, failed, Failure}

module _ ⦃num : Num⦄ where
  -- The entries of a row after its time.
  pub record RawCandle : Type 0 where
    pub open_price : R
    pub high : R
    pub low : R
    pub close : R
    pub volume : R

  abbrev add_row :
      ℕ × RawCandle → Option (List (ℕ × RawCandle) × ℕ) → Option (List (ℕ × RawCandle) × ℕ)
  add_row row none = none
  add_row row (some (batch, end)) = some (row ∷ batch, end)

  -- The candles of a page up to `until`, and the time of the last of them; None where the validation of
  -- OHLCV refuses one, whose volume is negative.
  unfoldable pub page_until : ℕ → ℕ → List (ℕ × RawCandle) → Option (List (ℕ × RawCandle) × ℕ)
  page_until until last [] = some ([], last)
  page_until until last ((time, candle) ∷ raw) =
      let rest = page_until until time raw in
      if ltb_ℕ until time
      then some ([], last)
      else if ltb candle.volume zero_num
      then none
      else add_row (time, candle) rest

  abbrev is_empty : List (ℕ × RawCandle) → Bool
  is_empty [] = true
  is_empty (x ∷ xs) = false

  -- How the loop ends: it returns, a request raises, a row is refused by a ValidationError, or the
  -- bound on the passes is too small.
  pub data Ended : Type 0 where
    all_candles : List (ℕ × RawCandle) → Ended
    raised : Failure → Ended
    row_refused : Ended
    out_of_fuel : Ended

  -- A page that was fetched from the cursor: the candles so far, and where to go on, if anywhere.
  abbrev is_last_page : ℕ → ℕ → ℕ → List (ℕ × RawCandle) → Bool
  is_last_page batch_size cursor last raw =
      is_empty raw || (ltb_ℕ (length raw) batch_size || leb_ℕ last cursor)

  -- What follows a page.
  unfoldable pub after_page :
      ℕ
      → ℕ
      → ℕ
      → List (ℕ × RawCandle)
      → List (ℕ × RawCandle)
      → (ℕ → List (ℕ × RawCandle) → Ended)
      → Ended
  unfolding page_until
  after_page batch_size until cursor acc raw again = elim (page_until until cursor raw) [
    | none ↦ row_refused
    | some (batch, last) ↦
        if is_last_page batch_size cursor last raw
        then all_candles (acc ++ batch)
        else again (suc last) (acc ++ batch)
  ]

  -- The loop from the cursor, with a bound on its passes. `fetch` is the request for the page at a
  -- cursor.
  unfoldable pub fetch_range_from :
      (ℕ → Outcome (List (ℕ × RawCandle))) → ℕ → ℕ → ℕ → ℕ → List (ℕ × RawCandle) → Ended
  unfolding after_page
  fetch_range_from fetch batch_size until zero cursor acc =
      if ltb_ℕ until cursor then all_candles acc else out_of_fuel
  fetch_range_from fetch batch_size until (suc fuel) cursor acc =
      if ltb_ℕ until cursor then all_candles acc else elim (fetch cursor) [
        | failed f ↦ raised f
        | returned raw ↦
            after_page batch_size until cursor acc raw
              (λ next more. fetch_range_from fetch batch_size until fuel next more)
      ]

  -- Enough passes for every exchange: one for each millisecond of the range.
  unfoldable pub fetch_ohlcv_range : (ℕ → Outcome (List (ℕ × RawCandle))) → ℕ → ℕ → ℕ → Ended
  unfolding fetch_range_from
  fetch_ohlcv_range fetch batch_size since until =
      fetch_range_from fetch batch_size until (◌-ℕ◌ (suc until) since) since []

  -- The loop has ended, and what it returns is not later than `until`.
  abbrev pub AllUntil : ℕ → List (ℕ × RawCandle) → Type 0
  AllUntil until [] = Unit
  AllUntil until ((time, c) ∷ xs) = (time ≤ℕ until) × AllUntil until xs

  -- A page has a row not later than `until` with a negative volume.
  abbrev pub HasBadRow : ℕ → List (ℕ × RawCandle) → Type 0
  HasBadRow until [] = ⊥
  HasBadRow until ((time, c) ∷ raw) =
      ((time ≤ℕ until) × (c.volume < zero_num)) ⊎ HasBadRow until raw

  pub data IsEnded (fetch : ℕ → Outcome (List (ℕ × RawCandle))) (until : ℕ) : Ended → Type 0 where
    by_return :
        {xs : List (ℕ × RawCandle)} → AllUntil until xs → IsEnded fetch until (all_candles xs)
    by_raise : (cursor : ℕ) (f : Failure) → fetch cursor ≡ failed f → IsEnded fetch until (raised f)
    by_refusal :
        (cursor : ℕ) (raw : List (ℕ × RawCandle))
        → fetch cursor ≡ returned raw
        → HasBadRow until raw
        → IsEnded fetch until row_refused

  AllUntil-append :
      (until : ℕ) (xs ys : List (ℕ × RawCandle))
      → AllUntil until xs
      → AllUntil until ys
      → AllUntil until (xs ++ ys)
  AllUntil-append until [] ys h k = k
  AllUntil-append until (x ∷ xs) ys h k = (h.0, AllUntil-append until xs ys h.1 k)

  -- A page gives candles up to `until`, or has a bad row.
  abbrev IsPage : ℕ → List (ℕ × RawCandle) → Option (List (ℕ × RawCandle) × ℕ) → Type 0
  IsPage until raw none = HasBadRow until raw
  IsPage until raw (some (batch, last)) = AllUntil until batch

  add_row-IsPage :
      (until time : ℕ) (c : RawCandle) (raw : List (ℕ × RawCandle))
      (o : Option (List (ℕ × RawCandle) × ℕ))
      → time ≤ℕ until
      → IsPage until raw o
      → IsPage until ((time, c) ∷ raw) (add_row (time, c) o)
  add_row-IsPage until time c raw none h k = inr k
  add_row-IsPage until time c raw (some (batch, last)) h k = (h, k)

  page_until-IsPage :
      (until last : ℕ) (raw : List (ℕ × RawCandle)) → IsPage until raw (page_until until last raw)
  unfolding page_until
  page_until-IsPage until last [] = tt
  page_until-IsPage until last ((time, c) ∷ raw) = elim (Bool-cases (ltb_ℕ until time)) [
    | inl late ↦ rw late tt
    | inr early ↦
        let within : time ≤ℕ until = ground (arith, early) in
        elim (Bool-cases (ltb c.volume zero_num)) [
          | inl bad ↦ rw (early, bad) (inl (within, bad))
          | inr good ↦
              rw (early, good)
                (add_row-IsPage until time c raw (page_until until time raw) within
                  (page_until-IsPage until time raw))
        ]
  ]

  after_page-IsEnded :
      (fetch : ℕ → Outcome (List (ℕ × RawCandle))) (batch_size until cursor : ℕ)
      (acc raw : List (ℕ × RawCandle)) (again : ℕ → List (ℕ × RawCandle) → Ended)
      → fetch cursor ≡ returned raw
      → AllUntil until acc
      → ((next : ℕ) (more : List (ℕ × RawCandle))
          → suc cursor ≤ℕ next
          → AllUntil until more
          → IsEnded fetch until (again next more))
      → IsEnded fetch until (after_page batch_size until cursor acc raw again)
  unfolding after_page
  after_page-IsEnded fetch batch_size until cursor acc raw again e h again_ends =
      page_ends (page_until until cursor raw) (page_until-IsPage until cursor raw)
    where
      page_ends :
          (o : Option (List (ℕ × RawCandle) × ℕ))
          → IsPage until raw o
          → IsEnded fetch until (elim o as (λ x. Ended) [
            | none ↦ row_refused
            | some (batch, last) ↦
                if is_last_page batch_size cursor last raw
                then all_candles (acc ++ batch)
                else again (suc last) (acc ++ batch)
          ])
      page_ends none bad = by_refusal cursor raw e bad
      page_ends (some (batch, last)) k =
          let all = AllUntil-append until acc batch h k in
          elim (Bool-cases (is_last_page batch_size cursor last raw)) [
            | inl end ↦ rw end (by_return all)
            | inr more ↦ rw more (again_ends (suc last) (acc ++ batch) (ground (arith, more)) all)
          ]

  outcome-IsEnded :
      (fetch : ℕ → Outcome (List (ℕ × RawCandle))) (until cursor : ℕ)
      (o : Outcome (List (ℕ × RawCandle))) (go : List (ℕ × RawCandle) → Ended)
      → fetch cursor ≡ o
      → ((raw : List (ℕ × RawCandle)) → fetch cursor ≡ returned raw → IsEnded fetch until (go raw))
      → IsEnded fetch until (elim o as (λ x. Ended) [ failed f ↦ raised f | returned raw ↦ go raw ])
  outcome-IsEnded fetch until cursor (failed f) go e h = by_raise cursor f e
  outcome-IsEnded fetch until cursor (returned raw) go e h = h raw e

  fetch_range_from-IsEnded :
      (fetch : ℕ → Outcome (List (ℕ × RawCandle))) (batch_size until fuel cursor : ℕ)
      (acc : List (ℕ × RawCandle))
      → suc until ≤ℕ (fuel +ℕ cursor)
      → AllUntil until acc
      → IsEnded fetch until (fetch_range_from fetch batch_size until fuel cursor acc)
  unfolding fetch_range_from
  fetch_range_from-IsEnded fetch batch_size until zero cursor acc h k =
      elim (Bool-cases (ltb_ℕ until cursor)) [
        | inl e ↦ rw e (by_return k)
        | inr e ↦ absurd (ground (arith, e, h))
      ]
  fetch_range_from-IsEnded fetch batch_size until (suc fuel) cursor acc h k =
      elim (Bool-cases (ltb_ℕ until cursor)) [
        | inl e ↦ rw e (by_return k)
        | inr e ↦ rw e (
            outcome-IsEnded fetch until cursor (fetch cursor) _ refl (λ raw got.
              after_page-IsEnded fetch batch_size until cursor acc raw _ got k
                (λ next more later all.
                  fetch_range_from-IsEnded fetch batch_size until fuel next more (omega arith)
                    all)))
      ]

  -- Whatever the pages are, the loop over them ends: the cursor moves on in each pass, so one pass for
  -- each millisecond of the range is enough. It returns candles none of which is later than `until`,
  -- or raises what the request at one of the cursors raises, or refuses a page with a row not later
  -- than `until` whose volume is negative.
  pub fetch_ohlcv_range-IsEnded :
      (fetch : ℕ → Outcome (List (ℕ × RawCandle))) (batch_size since until : ℕ)
      → IsEnded fetch until (fetch_ohlcv_range fetch batch_size since until)
  unfolding fetch_ohlcv_range
  fetch_ohlcv_range-IsEnded fetch batch_size since until =
      fetch_range_from-IsEnded fetch batch_size until (◌-ℕ◌ (suc until) since) since []
        (omega arith) tt
