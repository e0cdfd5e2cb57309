-- ===== src/Prices/Validator.antt =====
-- app/domains/prices/validator.py: `PriceValidator.validate_bars`.
pub mod Report
use project_stock.Base.{
  ℕ, ◌+◌, ◌/◌, String, Bool, true, false, ◌&&◌, ◌||◌, Option, none, some, List, [], ◌∷◌, ◌++◌,
  str_eq, ltb, leb, not, if◌then◌else◌,
}
use project_stock.Store.Order.{order_by}
use project_stock.Decimal.{Decimals}
use project_stock.Prices.{
  DataQualityStatus, valid, invalid, low_trust, ValidationErrorReason, missing_required_field,
  future_timestamp, currency_mismatch, outlier_return, PriceBar,
}

abbrev pub seconds_per_day : ℕ
seconds_per_day = 86400

-- `_EXPECTED_CURRENCY_BY_MARKET.get(market)`
unfoldable pub expected_currency : String → Option String
expected_currency market =
    if str_eq market "KOSPI"
    then some "KRW"
    else if str_eq market "KOSDAQ"
    then some "KRW"
    else if str_eq market "NASDAQ"
    then some "USD"
    else if str_eq market "NYSE"
    then some "USD"
    else none

-- `_status_for_counts`
unfoldable pub status_for_counts : ℕ → ℕ → DataQualityStatus
status_for_counts dropped warnings =
    if ltb 0 dropped then invalid else if ltb 0 warnings then low_trust else valid

-- `bar.currency.upper() != expected_currency`, where a currency is expected
currency_differs : (String → String) → Option String → String → Bool
currency_differs upper none currency = false
currency_differs upper (some expected) currency = not (str_eq (upper currency) expected)

-- `upper` is Python's `str.upper`
module _ (d : Decimals) (upper : String → String) where
  open d use {D, sub, div, abs, less, equal, scaled, of_ℕ}

  -- `_has_missing_required_price`
  unfoldable pub has_missing_required_price : PriceBar d → Bool
  has_missing_required_price bar =
      missing bar.open_price
      || (missing bar.high_price
          || (missing bar.low_price
              || (missing bar.close_price || missing bar.adjusted_close_price)))
    where
      missing : Option D → Bool
      missing none = true
      missing (some p) = false

  -- the variables of the loop
  pub record Scan : Type 0 where
    pub valid_bars : List (PriceBar d)
    pub dropped_count : ℕ
    pub warning_count : ℕ
    pub previous_close : Option D
    pub reasons : List ValidationErrorReason

  abbrev start : Scan
  start = record {
    valid_bars = [];
    dropped_count = 0;
    warning_count = 0;
    previous_close = none;
    reasons = [];
  }

  abbrev pub drop_bar : ValidationErrorReason → Scan → Scan
  drop_bar reason s = record s {
    dropped_count = s.dropped_count + 1;
    reasons = s.reasons ++ reason ∷ [];
  }

  abbrev pub warn_if : Bool → ValidationErrorReason → Scan → Scan
  warn_if b reason s =
      if b
      then record s { warning_count = s.warning_count + 1; reasons = s.reasons ++ reason ∷ [] }
      else s

  -- `abs((close - previous) / previous) > 0.5`, unless there is no earlier close or it is zero
  is_outlier : Option D → Option D → Bool
  is_outlier (some previous) (some close) =
      not (equal previous (of_ℕ 0)) && less (scaled 5 1) (abs (div (sub close previous) previous))
  is_outlier _ _ = false

  abbrev keep_bar : PriceBar d → Scan → Scan
  keep_bar bar s = record s {
    valid_bars = s.valid_bars ++ bar ∷ [];
    previous_close = bar.close_price;
  }

  -- `timestamp.date() > today`
  unfoldable pub is_future : ℕ → PriceBar d → Bool
  is_future today bar = ltb today (bar.timestamp / seconds_per_day)

  -- one round of the loop: a bar is dropped for a reason, or kept with its two possible warnings
  unfoldable pub scan_bar : String → ℕ → PriceBar d → Scan → Scan
  unfolding currency_differs is_outlier has_missing_required_price is_future
  scan_bar market today bar s =
      if has_missing_required_price bar
      then drop_bar missing_required_field s
      else if is_future today bar
      then drop_bar future_timestamp s
      else keep_bar bar (
          warn_if (is_outlier s.previous_close bar.close_price) outlier_return (
            warn_if (currency_differs upper (expected_currency market) bar.currency)
              currency_mismatch s))

  unfoldable pub scan_bars : String → ℕ → List (PriceBar d) → Scan → Scan
  scan_bars market today [] s = s
  scan_bars market today (bar ∷ bars) s = scan_bars market today bars (scan_bar market today bar s)

  -- `PriceValidationResult`
  pub record PriceValidationResult : Type 0 where
    pub valid_bars : List (PriceBar d)
    pub dropped_count : ℕ
    pub warning_count : ℕ
    pub status : DataQualityStatus
    pub reasons : List ValidationErrorReason

  -- `sorted(bars, key=lambda item: item.timestamp)`, which is stable
  abbrev pub by_timestamp : PriceBar d → PriceBar d → Bool
  by_timestamp a b = leb a.timestamp b.timestamp

  result_of : Scan → PriceValidationResult
  result_of s = record {
    valid_bars = s.valid_bars;
    dropped_count = s.dropped_count;
    warning_count = s.warning_count;
    status = status_for_counts s.dropped_count s.warning_count;
    reasons = s.reasons;
  }

  -- `PriceValidator.validate_bars`; `today` is the number of the current day
  unfoldable pub validate_bars : ℕ → List (PriceBar d) → String → PriceValidationResult
  unfolding result_of
  validate_bars today bars market =
      result_of (scan_bars market today (order_by by_timestamp bars) start)
