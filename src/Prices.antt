-- ===== src/Prices.antt =====
-- app/domains/prices with app/adapters/market/base.py: a price bar as a provider returns it, and the
-- outcome types of app/domains/ingestion/schema.py.
pub mod Validator
pub mod Repository
pub mod Ingestion
pub mod Series
use project_stock.Base.{ℕ, String, Option}
use project_stock.Decimal.{Decimals}

-- `DataQualityStatus`
pub data DataQualityStatus : Type 0 where
  valid invalid stale duplicate low_trust : DataQualityStatus

-- `ValidationErrorReason`
pub data ValidationErrorReason : Type 0 where
  missing_required_field future_timestamp too_stale negative_price : ValidationErrorReason
  high_low_inverted currency_mismatch outlier_return : ValidationErrorReason

-- `PriceBarResult`. A price that a provider left out is `none`. The timestamp is the UTC time in seconds,
-- as `normalize_timestamp` gives it.
pub record PriceBar (d : Decimals) : Type 0 where
  pub symbol : String
  pub market : String
  pub interval : String
  pub timestamp : ℕ
  pub open_price : Option d.D
  pub high_price : Option d.D
  pub low_price : Option d.D
  pub close_price : Option d.D
  pub adjusted_close_price : Option d.D
  pub volume : ℕ
  pub currency : String
  pub source : String
