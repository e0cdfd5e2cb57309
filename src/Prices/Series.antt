-- ===== src/Prices/Series.antt =====
-- app/domains/prices/service.py: `PriceSeriesService` with the types of schema.py. The methods of `str`, the
-- printing of a decimal and of a date, and what the database wrote as `updated_at` are parameters.
pub mod Served
use project_stock.Base.{
  ℕ, String, Bool, true, false, Option, none, some, List, [], ◌∷◌, ◌==◌, str_eq, ltb, is_some,
  if◌then◌else◌,
}
use project_stock.Base.Exec.{Result, ok, err, Exec}
use project_stock.Errors.{
  AppException, not_found, bad_request, invalid_price_range, invalid_price_interval,
  price_series_not_found, market_data_provider_error, internal_error,
}
use project_stock.Decimal.{Decimals}
use project_stock.Prices.{PriceBar}
use project_stock.Prices.Repository.{Bars, upsert_bars, list_recent}

-- `_RANGE_COUNTS`
abbrev pub range_count : String → Option ℕ
range_count range_value =
    if str_eq range_value "1M"
    then some 22
    else if str_eq range_value "3M"
    then some 66
    else if str_eq range_value "6M"
    then some 132
    else if str_eq range_value "1Y"
    then some 252
    else none

-- `_SUPPORTED_INTERVAL`
abbrev pub supported_interval : String
supported_interval = "1d"

-- `PriceBar` of schema.py
pub record WireBar : Type 0 where
  pub date : String
  pub open_price : String
  pub high_price : String
  pub low_price : String
  pub close_price : String
  pub adjusted_close : String
  pub volume : ℕ

pub record PriceSeriesResponse : Type 0 where
  pub symbol : String
  pub market : String
  pub currency : String
  pub interval : String
  pub range_value : String
  pub source : String
  pub last_updated_at : ℕ
  pub bars : List WireBar

-- `format(value, "f")`, `"." in text`, `text.rstrip`, `upper` and the ISO text of a timestamp's date
pub record Wire (d : Decimals) : Type 0 where
  pub format_f : d.D → String
  pub has_dot : String → Bool
  pub rstrip : String → String → String
  pub upper : String → String
  pub iso_date : ℕ → String

abbrev pub provider_error : AppException
provider_error = record { status_code = 502; error_code = market_data_provider_error }

-- a `TypeError` that no handler but the last one takes
abbrev pub unhandled : AppException
unhandled = record { status_code = 500; error_code = internal_error }

module _ {A B : Type 0} where
  infixl 5 ◌>>=◌
  abbrev ◌>>=◌ : Option A → (A → Option B) → Option B
  ◌>>=◌ none f = none
  ◌>>=◌ (some a) f = f a

module _ (d : Decimals) (w : Wire d) where
  -- `_decimal_to_wire`
  unfoldable pub decimal_to_wire : d.D → String
  decimal_to_wire value =
      let text = w.format_f value in
      if w.has_dot text then w.rstrip "." (w.rstrip "0" text) else text

  -- `_to_bar`; a price that is null is not formatted
  unfoldable pub to_bar : PriceBar d → Option WireBar
  to_bar bar = do
    o ← bar.open_price
    h ← bar.high_price
    l ← bar.low_price
    c ← bar.close_price
    a ← bar.adjusted_close_price
    some (record {
      date = w.iso_date bar.timestamp;
      open_price = decimal_to_wire o;
      high_price = decimal_to_wire h;
      low_price = decimal_to_wire l;
      close_price = decimal_to_wire c;
      adjusted_close = decimal_to_wire a;
      volume = bar.volume;
    })

  abbrev pub prepend : Option WireBar → Option (List WireBar) → Option (List WireBar)
  prepend none bars = none
  prepend (some bar) none = none
  prepend (some bar) (some bars) = some (bar ∷ bars)

  -- `[self._to_bar(bar) for bar in bars]`
  unfoldable pub to_bars : List (ℕ × PriceBar d) → Option (List WireBar)
  to_bars [] = some []
  to_bars ((i, bar) ∷ rows) = prepend (to_bar bar) (to_bars rows)

  or_timestamp : PriceBar d → Option ℕ → ℕ
  or_timestamp bar none = bar.timestamp
  or_timestamp bar (some time) = time

  -- `max(bar.updated_at or bar.timestamp for bar in bars)`, where `best` is the maximum so far
  unfoldable pub latest : (ℕ → Option ℕ) → ℕ → List (ℕ × PriceBar d) → ℕ
  unfolding or_timestamp
  latest updated_at best [] = best
  latest updated_at best ((i, bar) ∷ rows) =
      let time = or_timestamp bar (updated_at i) in
      latest updated_at (if ltb best time then time else best) rows

  -- `bars[-1]`
  abbrev pub last : PriceBar d → List (ℕ × PriceBar d) → PriceBar d
  last bar [] = bar
  last bar ((i, next) ∷ rows) = last next rows

  -- `_to_response`, for the bars `(i, bar) ∷ rows` and their texts
  unfoldable pub to_response :
      (ℕ → Option ℕ)
      → String
      → String
      → String
      → String
      → ℕ × PriceBar d
      → List (ℕ × PriceBar d)
      → Option (List WireBar)
      → Result AppException PriceSeriesResponse
  unfolding or_timestamp
  to_response updated_at symbol market range_value interval row rows none = err unhandled
  to_response updated_at symbol market range_value interval (i, bar) rows (some wired) =
      ok (record {
        symbol = symbol;
        market = market;
        currency = (last bar rows).currency;
        interval = interval;
        range_value = range_value;
        source = (last bar rows).source;
        last_updated_at = latest updated_at (or_timestamp bar (updated_at i)) rows;
        bars = wired;
      })

  -- the response, or the 404 of a series without bars
  unfoldable pub respond :
      (ℕ → Option ℕ)
      → String
      → String
      → String
      → String
      → List (ℕ × PriceBar d)
      → Result AppException PriceSeriesResponse
  respond updated_at symbol market range_value interval [] = err (not_found price_series_not_found)
  respond updated_at symbol market range_value interval (row ∷ rows) =
      to_response updated_at symbol market range_value interval row rows (to_bars (row ∷ rows))

  -- The provider (`none` where it raises), what the database refuses to write beside repeated keys (an `SQLAlchemyError`, after
  -- which the session is closed without a commit), and `updated_at` of the rows.
  module _ (get_daily_bars : String → String → String → Bool → Option (List (PriceBar d)))
      (refuses : List (PriceBar d) → Bool) (updated_at : ℕ → Option ℕ) where
    -- after the upsert, whose commit may be refused
    unfoldable pub read :
        String
        → String
        → String
        → String
        → ℕ
        → Bars d
        → Option (ℕ × Bars d)
        → Result AppException PriceSeriesResponse × Bars d
    read symbol market range_value interval count t none = (err provider_error, t)
    read symbol market range_value interval count t (some (saved, t')) = (
      respond updated_at symbol market range_value interval
          (list_recent d symbol market interval count t'),
      t',
    )

    -- from the provider's answer on
    unfoldable pub store_and_read :
        String
        → String
        → String
        → String
        → ℕ
        → Option (List (PriceBar d))
        → Exec AppException (Bars d) PriceSeriesResponse
    store_and_read symbol market range_value interval count none t = (err provider_error, t)
    store_and_read symbol market range_value interval count (some []) t =
        (err (not_found price_series_not_found), t)
    store_and_read symbol market range_value interval count (some (bar ∷ bars)) t =
        if refuses (bar ∷ bars)
        then (err provider_error, t)
        else read symbol market range_value interval count t (upsert_bars d (bar ∷ bars) t)

    unfoldable pub get_range :
        String
        → String
        → String
        → String
        → Bool
        → Option ℕ
        → Exec AppException (Bars d) PriceSeriesResponse
    unfolding store_and_read
    get_range symbol market range_value interval adjusted none t =
        (err (bad_request invalid_price_range), t)
    get_range symbol market range_value interval adjusted (some count) t =
        if str_eq interval supported_interval
        then store_and_read symbol market range_value interval count
            (get_daily_bars symbol market range_value adjusted) t
        else (err (bad_request invalid_price_interval), t)

    -- `PriceSeriesService.get_series`
    unfoldable pub get_series :
        String → String → String → String → Bool → Exec AppException (Bars d) PriceSeriesResponse
    unfolding get_range
    get_series symbol market range_value interval adjusted =
        get_range (w.upper symbol) (w.upper market) range_value interval adjusted
          (range_count range_value)
