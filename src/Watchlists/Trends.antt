-- ===== src/Watchlists/Trends.antt =====
-- app/domains/watchlists/trend_service.py: `WatchlistSummaryTrendService`, with the dates of
-- app/domains/dashboard/trend_service.py, and the signals of app/domains/signals/repository.py it counts.
pub mod Ascending
use project_stock.Base.{
  ℕ, suc, ◌+◌, String, Bool, ◌&&◌, List, [], ◌∷◌, Option, none, map, length, filter, any, str_eq,
  leb, ◌==◌, if◌then◌else◌,
}
use project_stock.Base.Exec.{Result, ok, err}
use project_stock.Store.{where_rows}
use project_stock.Errors.{AppException}
use project_stock.Signals.{Signals, value, risk_alert, not_expired}
use project_stock.Portfolios.Weights.{distinct}
use project_stock.Watchlists.{
  Watchlist, Watchlists, WatchlistItem, Items, get_owned_watchlist, list_by_watchlist,
}
use project_stock.Briefings.Trends.{day_of, midnight, dates_from, start_date}

pub record WatchlistSummaryTrendDataPoint : Type 0 where
  pub date : ℕ
  pub count : ℕ

pub record WatchlistSummaryTrendSeries : Type 0 where
  pub key : String
  pub points : List WatchlistSummaryTrendDataPoint

pub record WatchlistSummaryTrendResponse : Type 0 where
  pub days : ℕ
  pub series : List WatchlistSummaryTrendSeries

-- `_as_of_at`
abbrev pub as_of_at : ℕ → ℕ → ℕ → ℕ
as_of_at day today now = if day == today then now else midnight (day + 1)

-- `SignalRepository.count_assets_with_active_signal_as_of`
unfoldable pub count_assets_with_active_signal_as_of : List ℕ → String → ℕ → Signals → ℕ
count_assets_with_active_signal_as_of asset_ids signal_type as_of t = length (
    distinct (λ a b. a == b)
      (map (λ e. e.1.asset_id)
        (where_rows
          (λ e.
            any (λ id. id == e.1.asset_id) asset_ids
            && (str_eq e.1.signal_type signal_type
                && (leb e.1.created_at as_of && not_expired e.1.expires_at as_of)))
          t)))

-- `_build_series`, of a dict that the loop over the dates filled by `count_on`
abbrev pub build_series : String → (ℕ → ℕ) → List ℕ → WatchlistSummaryTrendSeries
build_series key count_on dates = record {
  key = key;
  points = map (λ day. record { date = day; count = count_on day }) dates;
}

-- `sum(1 for _, created_at in item_snapshots if created_at <= as_of)`
abbrev pub created_until : ℕ → List (ℕ × WatchlistItem) → ℕ
created_until as_of items = length (filter (λ e. leb e.1.created_at as_of) items)

unfoldable pub trends_of :
    ℕ
    → Items
    → Signals
    → ℕ
    → Result AppException (ℕ × Watchlist)
    → Result AppException WatchlistSummaryTrendResponse
trends_of now items signals days (err e) = err e
trends_of now items signals days (ok w) =
    let today = day_of now in
    let dates = dates_from (start_date today days) days in
    let listed = list_by_watchlist w.0 0 none "priority" items in
    let asset_ids = map (λ e. e.1.asset_id) listed in
    ok (record {
      days = days;
      series =
          build_series "watchlist_total" (λ day. created_until (as_of_at day today now) listed)
            dates
          ∷ build_series "risk_increasing"
              (λ day.
                count_assets_with_active_signal_as_of asset_ids (value risk_alert)
                  (as_of_at day today now) signals)
              dates
          ∷ [];
    })

-- `WatchlistSummaryTrendService.get_trends`
unfoldable pub get_trends :
    ℕ → Watchlists → Items → Signals → ℕ → ℕ → ℕ → Result AppException WatchlistSummaryTrendResponse
get_trends now watchlists items signals watchlist_id user_id days =
    trends_of now items signals days (get_owned_watchlist watchlist_id user_id watchlists)
