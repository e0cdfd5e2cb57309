-- ===== src/Prices/Series/Served.antt =====
-- What `PriceSeriesService.get_series` serves, and what it leaves in the table.
use project_stock.Base.{ℕ, ◌≤◌, String, Bool, Option, none, some, List, ◌≡◌, ◌⊎◌, length}
use project_stock.Base.Exec.{Result, ok, err, Ensures}
use project_stock.Errors.{AppException}
use project_stock.Decimal.{Decimals}
use project_stock.Prices.{PriceBar}
use project_stock.Prices.Repository.{Bars}
use project_stock.Prices.Repository.Latest.{map_of, put_bars}
use project_stock.Prices.Series.{Wire, WireBar, PriceSeriesResponse}

abbrev pub count_of : Option ℕ → ℕ
count_of none = 0
count_of (some count) = count

module _ (d : Decimals) where
  -- After a provider's answer a lookup finds the last of its bars with the key, and else what was there before.
  abbrev pub HasAnswer : Option (List (PriceBar d)) → Bars d → Bars d → Type 0
  HasAnswer none t t' = t' ≡ t
  HasAnswer (some bars) t t' =
      (key : PriceBar d) → map_of d t' key ≡ put_bars d bars (map_of d t) key

module _ (d : Decimals) (w : Wire d) where
  -- a rendering of `n` bars, if there is one
  abbrev Renders : ℕ → Option (List WireBar) → Type 0
  Renders n none = Unit {0}
  Renders n (some bars) = length bars ≡ n

  -- a response with one to `limit` bars, if there is one
  abbrev IsWithin : ℕ → Result AppException PriceSeriesResponse → Type 0
  IsWithin limit (err e) = Unit {0}
  IsWithin limit (ok r) = (1 ≤ length r.bars) × (length r.bars ≤ limit)

  module _ (get_daily_bars : String → String → String → Bool → Option (List (PriceBar d)))
      (refuses : List (PriceBar d) → Bool) (updated_at : ℕ → Option ℕ) where
    -- A call either returns one to `limit` bars and has stored the provider's answer, or raises and has
    -- stored either nothing or that answer.
    abbrev pub Serves :
        ℕ
        → Option (List (PriceBar d))
        → Bars d
        → Result AppException PriceSeriesResponse × Bars d
        → Type 0
    Serves limit answer t =
        Ensures (λ r t'. (1 ≤ length r.bars) × (length r.bars ≤ limit) × HasAnswer d answer t t')
          (λ t'. (t' ≡ t) ⊎ HasAnswer d answer t t')
