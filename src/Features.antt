-- ===== src/Features.antt =====
-- app/domains/features: `PriceFeatureBuilder` (price_builder.py) with its result (schema.py).
use project_stock.Base.{
  ℕ, ◌+◌, ◌-◌, Option, none, some, List, [], ◌∷◌, ltb, leb, length, drop, head?, if◌then◌else◌,
}
use project_stock.Store.Order.{order_by}
use project_stock.Decimal.{Decimals}

-- the last `n` elements, `xs[-n:]`
last_n : {A : Type 0} → ℕ → List A → List A
last_n n xs = drop (length xs - n) xs

module _ (d : Decimals) where
  open d use {D, of_ℕ, add, sub, div, less, equal}

  -- the columns of a `StockPriceBar` that are read; none of them is null
  pub record StockPriceBar : Type 0 where
    pub timestamp : ℕ
    pub high_price : D
    pub close_price : D
    pub volume : ℕ

  pub record PriceFeatureSet : Type 0 where
    pub return_1d : Option D
    pub return_5d : Option D
    pub return_20d : Option D
    pub volume_vs_20d_avg : Option D
    pub drawdown_from_52w_high : Option D

  -- `bars[-n]`
  from_end : ℕ → List StockPriceBar → Option StockPriceBar
  unfolding last_n
  from_end n bars = if ltb (length bars) n then none else head? (last_n n bars)

  change : D → D → Option D
  change latest baseline =
      if equal baseline (of_ℕ 0) then none else some (div (sub latest baseline) baseline)

  return_between : Option StockPriceBar → Option StockPriceBar → Option D
  unfolding change
  return_between (some latest) (some baseline) = change latest.close_price baseline.close_price
  return_between none baseline = none
  return_between (some latest) none = none

  -- `_calculate_return`
  unfoldable pub calculate_return : List StockPriceBar → ℕ → Option D
  unfolding return_between from_end last_n
  calculate_return bars lookback_window =
      if ltb (length bars) (lookback_window + 1)
      then none
      else return_between (from_end 1 bars) (from_end (lookback_window + 1) bars)

  total_volume : D → List StockPriceBar → D
  total_volume total [] = total
  total_volume total (bar ∷ bars) = total_volume (add total (of_ℕ bar.volume)) bars

  volume_ratio : D → Option StockPriceBar → Option D
  volume_ratio average none = none
  volume_ratio average (some bar) =
      if equal average (of_ℕ 0) then none else some (div (of_ℕ bar.volume) average)

  -- `_calculate_volume_vs_average`
  unfoldable pub calculate_volume_vs_average : List StockPriceBar → Option D
  unfolding volume_ratio total_volume from_end last_n
  calculate_volume_vs_average bars =
      if ltb (length bars) 20
      then none
      else volume_ratio (div (total_volume (of_ℕ 0) (last_n 20 bars)) (of_ℕ 20)) (from_end 1 bars)

  -- `max` of the highs from the second on
  highest : D → List StockPriceBar → D
  highest high [] = high
  highest high (bar ∷ bars) =
      highest (if less high bar.high_price then bar.high_price else high) bars

  highest_of : List StockPriceBar → Option D
  unfolding highest
  highest_of [] = none
  highest_of (bar ∷ bars) = some (highest bar.high_price bars)

  drawdown : Option StockPriceBar → Option D → Option D
  unfolding change
  drawdown (some latest) (some high) = change latest.close_price high
  drawdown none high = none
  drawdown (some latest) none = none

  -- `_calculate_drawdown_from_high`
  unfoldable pub calculate_drawdown_from_high : List StockPriceBar → Option D
  unfolding drawdown highest_of from_end last_n
  calculate_drawdown_from_high bars = drawdown (from_end 1 bars) (highest_of (last_n 252 bars))

  -- `PriceFeatureBuilder.build`
  unfoldable pub build : List StockPriceBar → PriceFeatureSet
  build bars =
      let sorted_bars = order_by (λ a b. leb a.timestamp b.timestamp) bars in
      record {
        return_1d = calculate_return sorted_bars 1;
        return_5d = calculate_return sorted_bars 5;
        return_20d = calculate_return sorted_bars 20;
        volume_vs_20d_avg = calculate_volume_vs_average sorted_bars;
        drawdown_from_52w_high = calculate_drawdown_from_high sorted_bars;
      }
