-- ===== src/Briefings/Trends.antt =====
-- app/domains/dashboard/trend_service.py: `DashboardTrendService`. A time is in seconds UTC, a date is the
-- number of its day, and a key of a dict of counts is the date that its ISO text names.
pub mod Totals
use project_stock.Base.{
  ℕ, zero, suc, ◌+◌, ◌-◌, ◌*◌, ◌/◌, String, Bool, ◌&&◌, ◌||◌, List, [], ◌∷◌, map, str_eq, ltb, leb,
  ◌==◌, if◌then◌else◌,
}
use project_stock.Store.{get, where_rows}
use project_stock.Signals.{Signals, SignalType, risk_alert, thesis_broken, sell_review, overheated}
use project_stock.Alerts.{Alert, Alerts}
use project_stock.Candidates.{AlertCandidate, Candidates}
use project_stock.Briefings.Dashboard.{signal_passes, has_type}

pub record TrendDataPoint : Type 0 where
  pub date : ℕ
  pub count : ℕ

pub record TrendSeries : Type 0 where
  pub key : String
  pub points : List TrendDataPoint

pub record DashboardTrendSeriesResponse : Type 0 where
  pub days : ℕ
  pub series : List TrendSeries

-- the day of a time, `func.date`
abbrev pub day_of : ℕ → ℕ
day_of time = time / 86400

-- midnight of a day, `datetime.combine(day, time.min)`
abbrev pub midnight : ℕ → ℕ
midnight day = day * 86400

-- `[start_date + timedelta(days=offset) for offset in range(days)]`
abbrev pub dates_from : ℕ → ℕ → List ℕ
dates_from start zero = []
dates_from start (suc days) = start ∷ dates_from (suc start) days

-- `today - timedelta(days=days - 1)`
abbrev pub start_date : ℕ → ℕ → ℕ
start_date today days = today + 1 - days

-- a count of a day more
abbrev pub bump : ℕ → List (ℕ × ℕ) → List (ℕ × ℕ)
bump day [] = (day, 1) ∷ []
bump day ((d, n) ∷ counts) = if d == day then (d, n + 1) ∷ counts else (d, n) ∷ bump day counts

-- `select(day, count()).group_by(day)`, as the dict of `_rows_to_counts`
abbrev pub count_days : List ℕ → List (ℕ × ℕ)
count_days [] = []
count_days (day ∷ days) = bump day (count_days days)

-- `counts_by_date.get(day, 0)`
abbrev pub count_at : ℕ → List (ℕ × ℕ) → ℕ
count_at day [] = 0
count_at day ((d, n) ∷ counts) = if d == day then n else count_at day counts

-- `_build_series`
abbrev pub build_series : String → List (ℕ × ℕ) → List ℕ → TrendSeries
build_series key counts dates = record {
  key = key;
  points = map (λ day. record { date = day; count = count_at day counts }) dates;
}

-- the bounds on the time that both queries have
abbrev pub in_window : ℕ → ℕ → ℕ → Bool
in_window start_at end_at time = leb start_at time && ltb time end_at

-- the `where` clauses of `_count_alerts_by_day`
unfoldable pub is_trend_alert : ℕ → SignalType → SignalType → ℕ → ℕ → Signals → ℕ × Alert → Bool
unfolding signal_passes has_type
is_trend_alert user_id a b start_at end_at signals (i, alert) =
    alert.user_id == user_id
    && (signal_passes (has_type a b) (get alert.signal_id signals)
        && in_window start_at end_at alert.created_at)

-- `_count_alerts_by_day`
unfoldable pub count_alerts_by_day :
    ℕ → SignalType → SignalType → ℕ → ℕ → Signals → Alerts → List (ℕ × ℕ)
count_alerts_by_day user_id a b start_at end_at signals alerts = count_days (
    map (λ e. day_of e.1.created_at)
      (where_rows (is_trend_alert user_id a b start_at end_at signals) alerts))

-- the `where` clauses of `_count_important_news_by_day`
unfoldable pub is_important_news : ℕ → ℕ → ℕ → ℕ × AlertCandidate → Bool
is_important_news user_id start_at end_at (i, c) =
    c.user_id == user_id
    && ((str_eq c.candidate_type "NEWS_SURGE" || str_eq c.candidate_type "DISCLOSURE")
        && (str_eq c.importance "HIGH" && in_window start_at end_at c.created_at))

-- `_count_important_news_by_day`
unfoldable pub count_important_news_by_day : ℕ → ℕ → ℕ → Candidates → List (ℕ × ℕ)
count_important_news_by_day user_id start_at end_at candidates = count_days (
    map (λ e. day_of e.1.created_at)
      (where_rows (is_important_news user_id start_at end_at) candidates))

-- `DashboardTrendService.get_trends`
unfoldable pub get_trends : ℕ → Signals → Alerts → Candidates → ℕ → ℕ → DashboardTrendSeriesResponse
get_trends now signals alerts candidates user_id days =
    let today = day_of now in
    let start = start_date today days in
    let dates = dates_from start days in
    let start_at = midnight start in
    let end_at = midnight (today + 1) in
    let risk_alerts =
      count_alerts_by_day user_id risk_alert thesis_broken start_at end_at signals alerts in
    let review_signals =
      count_alerts_by_day user_id sell_review overheated start_at end_at signals alerts in
    let important_news = count_important_news_by_day user_id start_at end_at candidates in
    record {
      days = days;
      series =
          build_series "risk_alerts" risk_alerts dates
          ∷ build_series "review_signals" review_signals dates
          ∷ build_series "important_news" important_news dates
          ∷ [];
    }
