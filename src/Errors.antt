-- ===== src/Errors.antt =====
-- app/core/error_codes.py, and the `AppException` of app/core/exceptions.py that the services raise.
use project_stock.Base.{ℕ}

pub data ErrorCode : Type 0 where
  validation_error auth_invalid_token auth_user_not_found auth_invalid_credentials : ErrorCode
  user_email_duplicate asset_duplicate asset_not_found invalid_price_range : ErrorCode
  invalid_price_interval price_series_not_found market_data_provider_error : ErrorCode
  watchlist_not_found watchlist_item_duplicate watchlist_item_not_found watchlist_forbidden :
      ErrorCode
  decision_log_not_found decision_log_forbidden thesis_not_found thesis_forbidden : ErrorCode
  portfolio_not_found portfolio_forbidden position_not_found position_duplicate : ErrorCode
  alert_candidate_not_found alert_not_found report_not_found signal_not_found : ErrorCode
  internal_error : ErrorCode

-- The status code and the error code; the detail is a fixed text for each code.
pub record AppException : Type 0 where
  pub status_code : ℕ
  pub error_code : ErrorCode

abbrev pub not_found : ErrorCode → AppException
not_found c = record { status_code = 404; error_code = c }

abbrev pub forbidden : ErrorCode → AppException
forbidden c = record { status_code = 403; error_code = c }

abbrev pub bad_request : ErrorCode → AppException
bad_request c = record { status_code = 400; error_code = c }
