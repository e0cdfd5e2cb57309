-- ===== src/Watchlists/Trends/Ascending.antt =====
-- The size of a watchlist over the days of its trends.
use project_stock.Base.{ℕ, zero, suc, ◌+◌, ◌≤◌, List, [], ◌∷◌, String, none, arith}
use project_stock.Base.Exec.{Result, ok, err}
use project_stock.Errors.{AppException}
use project_stock.Signals.{Signals}
use project_stock.Watchlists.{
  Watchlist, Watchlists, WatchlistItem, Items, get_owned_watchlist, list_by_watchlist,
}
use project_stock.Briefings.Trends.{day_of, dates_from, start_date}
use project_stock.Watchlists.Trends.{
  WatchlistSummaryTrendDataPoint, as_of_at, created_until, build_series,
  WatchlistSummaryTrendSeries, WatchlistSummaryTrendResponse, trends_of, get_trends,
}

-- each count is at most the next, and the first is at least `lower`
abbrev pub IsAscending : ℕ → List WatchlistSummaryTrendDataPoint → Type 0
IsAscending lower [] = Unit {0}
IsAscending lower (p ∷ points) = (lower ≤ p.count) × IsAscending p.count points

created_until_mono :
    (a b : ℕ) (items : List (ℕ × WatchlistItem))
    → a ≤ b
    → created_until a items ≤ created_until b items
created_until_mono a b [] h = omega arith
created_until_mono a b (e ∷ items) h = ground (arith, h, created_until_mono a b items h)

as_of_at_mono :
    (day now : ℕ)
    → suc day ≤ day_of now
    → as_of_at day (day_of now) now ≤ as_of_at (suc day) (day_of now) now
as_of_at_mono day now h = ground (arith, h)

module _ (items : List (ℕ × WatchlistItem)) (now : ℕ) where
  abbrev total_on : ℕ → ℕ
  total_on day = created_until (as_of_at day (day_of now) now) items

  total_on_mono : (day : ℕ) → suc day ≤ day_of now → total_on day ≤ total_on (suc day)
  total_on_mono day h =
      created_until_mono (as_of_at day (day_of now) now) (as_of_at (suc day) (day_of now) now) items
        (as_of_at_mono day now h)

  total_on-IsAscending :
      (key : String) (start n lower : ℕ)
      → start + n ≤ day_of now + 1
      → lower ≤ total_on start
      → IsAscending lower (build_series key total_on (dates_from start n)).points
  total_on-IsAscending key start zero lower h k = tt
  total_on-IsAscending key start (suc zero) lower h k = (k, tt)
  total_on-IsAscending key start (suc (suc n)) lower h k = (
    k,
    total_on-IsAscending key (suc start) (suc n) (total_on start) (omega (arith, h))
        (total_on_mono start (omega (arith, h))),
  )

first_points : List WatchlistSummaryTrendSeries → List WatchlistSummaryTrendDataPoint
first_points [] = []
first_points (s ∷ series) = s.points

-- the points of the first series, which counts the items
unfoldable pub watchlist_total :
    Result AppException WatchlistSummaryTrendResponse → List WatchlistSummaryTrendDataPoint
unfolding first_points
watchlist_total (err e) = []
watchlist_total (ok r) = first_points r.series

trends_of-IsAscending :
    (now : ℕ) (items : Items) (signals : Signals) (days : ℕ)
    (w : Result AppException (ℕ × Watchlist))
    → days ≤ day_of now + 1
    → IsAscending 0 (watchlist_total (trends_of now items signals days w))
unfolding trends_of watchlist_total first_points
trends_of-IsAscending now items signals days (err e) h = tt
trends_of-IsAscending now items signals days (ok w) h =
    total_on-IsAscending (list_by_watchlist w.0 0 none "priority" items) now "watchlist_total"
      (start_date (day_of now) days) days 0 (omega (arith, h)) (omega arith)

-- When the window of a watchlist's trends starts no earlier than day 0, the first series never falls from
-- one day to the next.
pub get_trends-IsAscending :
    (now : ℕ) (watchlists : Watchlists) (items : Items) (signals : Signals)
    (watchlist_id user_id days : ℕ)
    → days ≤ day_of now + 1
    → IsAscending 0
        (watchlist_total (get_trends now watchlists items signals watchlist_id user_id days))
unfolding get_trends
get_trends-IsAscending now watchlists items signals watchlist_id user_id days h =
    trends_of-IsAscending now items signals days
      (get_owned_watchlist watchlist_id user_id watchlists) h
