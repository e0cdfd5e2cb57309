-- ===== src/Tests/Series.antt =====
-- A price series at concrete bars.
use project_stock.Base.{
  ℕ, String, Bool, true, false, Option, none, some, List, [], ◌∷◌, str_eq, if◌then◌else◌,
}
use project_stock.Prices.{PriceBar}
use project_stock.Prices.Series.{Wire}
use project_stock.Tests.Markets.{cents, same_text, bar}

abbrev wire : Wire cents
wire = record {
  format_f = λ v. "100.00";
  has_dot = λ s. true;
  rstrip = λ c s. s;
  upper = same_text;
  iso_date = λ t. "2026-01-01";
}

abbrev two_bars : List (PriceBar cents)
two_bars = bar 0 (some 10000) ∷ bar 86400 (some 20000) ∷ []

abbrev provider : String → String → String → Bool → Option (List (PriceBar cents))
provider symbol market range_value adjusted = if str_eq symbol "AAPL" then some two_bars else none

abbrev accepts : List (PriceBar cents) → Bool
accepts bars = false

abbrev no_update : ℕ → Option ℕ
no_update id = none
