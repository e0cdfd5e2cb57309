-- ===== src/Briefings/Trends/Totals.antt =====
-- The points of a trend series add up to the rows of its window.
use project_stock.Base.{
  ℕ, zero, suc, ◌+◌, ◌≤◌, ◌≡◌, refl, sym, ◌∙◌, Bool, true, ◌&&◌, List, [], ◌∷◌, map, filter, length,
  String, ltb, leb, ◌==◌, arith, inl, inr, Bool-cases, if◌then◌else◌,
}
use project_stock.Store.{count_rows}
use project_stock.Signals.{Signals, SignalType, risk_alert, thesis_broken, sell_review, overheated}
use project_stock.Alerts.{Alert, Alerts}
use project_stock.Candidates.{AlertCandidate, Candidates}
use project_stock.Briefings.Trends.{
  TrendDataPoint, TrendSeries, day_of, midnight, dates_from, start_date, bump, count_days, count_at,
  build_series, in_window, is_trend_alert, is_important_news, count_alerts_by_day,
  count_important_news_by_day, get_trends,
}

abbrev pub total : List TrendDataPoint → ℕ
total [] = 0
total (p ∷ points) = p.count + total points

count_at-bump :
    (k day : ℕ) (counts : List (ℕ × ℕ))
    → count_at k (bump day counts) ≡ (if day == k then 1 else 0) + count_at k counts
count_at-bump k day [] = ground arith
count_at-bump k day ((d, n) ∷ counts) = ground (arith, count_at-bump k day counts)

count_of : ℕ → List ℕ → ℕ
count_of k [] = 0
count_of k (day ∷ days) = (if day == k then 1 else 0) + count_of k days

count_at-count_days : (k : ℕ) (days : List ℕ) → count_at k (count_days days) ≡ count_of k days
unfolding count_of
count_at-count_days k [] = refl
count_at-count_days k (day ∷ days) =
    omega (arith, count_at-bump k day (count_days days), count_at-count_days k days)

-- the days of a list in a range of `n` days
count_in : ℕ → ℕ → List ℕ → ℕ
count_in start n [] = 0
count_in start n (day ∷ days) =
    (if leb start day && ltb day (start + n) then 1 else 0) + count_in start n days

count_in-suc :
    (start n : ℕ) (days : List ℕ)
    → count_in start (suc n) days ≡ count_of start days + count_in (suc start) n days
unfolding count_in count_of
count_in-suc start n [] = refl
count_in-suc start n (day ∷ days) = ground (arith, count_in-suc start n days)

count_in-zero : (start : ℕ) (days : List ℕ) → count_in start 0 days ≡ 0
unfolding count_in
count_in-zero start [] = refl
count_in-zero start (day ∷ days) = ground (arith, count_in-zero start days)

total-count_in :
    (key : String) (days : List ℕ) (start n : ℕ)
    → total (build_series key (count_days days) (dates_from start n)).points ≡ count_in start n days
total-count_in key days start zero = sym (count_in-zero start days)
total-count_in key days start (suc n) = omega (
  arith,
  count_in-suc start n days,
  count_at-count_days start days,
  total-count_in key days (suc start) n,
)

-- a time between midnights is on a day between them
day_in_window :
    (start end time : ℕ)
    → in_window (midnight start) (midnight end) time ≡ true
    → (leb start (day_of time) && ltb (day_of time) end) ≡ true
day_in_window start end time h = ground arith

module _ {R : Type 0} (time : R → ℕ) (p : R → Bool) (start n end : ℕ) (ends : start + n ≡ end)
    (within : (e : R)
      → p e ≡ true
      → in_window (midnight start) (midnight end) (time e) ≡ true) where
  count_in-filter :
      (rows : List R)
      → count_in start n (map (λ e. day_of (time e)) (filter p rows)) ≡ length (filter p rows)
  unfolding count_in
  count_in-filter [] = refl
  count_in-filter (e ∷ rows) = elim (Bool-cases (p e)) [
    | inl h ↦
        rw (h, ends, day_in_window start end (time e) (within e h))
          (omega (arith, count_in-filter rows))
    | inr h ↦ rw h (count_in-filter rows)
  ]

  -- the sum of the series of the rows that pass
  total-filter :
      (key : String) (rows : List R)
      → total
          (build_series key
            (count_days (map (λ e. day_of (time e)) (filter p rows)))
            (dates_from start n)).points
        ≡ length (filter p rows)
  total-filter key rows =
      total-count_in key (map (λ e. day_of (time e)) (filter p rows)) start n ∙ count_in-filter rows

module _ (user_id start n end : ℕ) (ends : start + n ≡ end) where
  abbrev start_at : ℕ
  start_at = midnight start

  abbrev end_at : ℕ
  end_at = midnight end

  alerts_total :
      (key : String) (a b : SignalType) (signals : Signals) (alerts : Alerts)
      → total
          (build_series key
            (count_alerts_by_day user_id a b start_at end_at signals alerts)
            (dates_from start n)).points
        ≡ count_rows (is_trend_alert user_id a b start_at end_at signals) alerts
  unfolding count_alerts_by_day is_trend_alert
  alerts_total key a b signals alerts =
      total-filter (λ (e : ℕ × Alert). e.1.created_at)
        (is_trend_alert user_id a b start_at end_at signals) start n end ends within key alerts.rows
    where
      within :
          (e : ℕ × Alert)
          → is_trend_alert user_id a b start_at end_at signals e ≡ true
          → in_window start_at end_at e.1.created_at ≡ true
      within (i, alert) h = ground (arith, h)

  important_news_total :
      (key : String) (candidates : Candidates)
      → total
          (build_series key
            (count_important_news_by_day user_id start_at end_at candidates)
            (dates_from start n)).points
        ≡ count_rows (is_important_news user_id start_at end_at) candidates
  unfolding count_important_news_by_day is_important_news
  important_news_total key candidates =
      total-filter (λ (e : ℕ × AlertCandidate). e.1.created_at)
        (is_important_news user_id start_at end_at) start n end ends within key candidates.rows
    where
      within :
          (e : ℕ × AlertCandidate)
          → is_important_news user_id start_at end_at e ≡ true
          → in_window start_at end_at e.1.created_at ≡ true
      within (i, c) h = ground (arith, h)

-- the sum of each series of a response
abbrev pub totals : List TrendSeries → List ℕ
totals [] = []
totals (s ∷ series) = total s.points ∷ totals series

start_plus_days : (today days : ℕ) → days ≤ today + 1 → start_date today days + days ≡ today + 1
start_plus_days today days h = omega (arith, h)

-- When the window of the dashboard's trends starts no earlier than day 0, each of its three series adds up
-- to the number of rows in the window, from the midnight that starts the first day to the one that ends
-- today: the user's alerts whose signal is a risk alert or a broken thesis, those whose signal is a review
-- or an overheated price, and the user's candidates of high importance about news or disclosures.
pub totals-get_trends :
    (now user_id days : ℕ) (signals : Signals) (alerts : Alerts) (candidates : Candidates)
    → days ≤ day_of now + 1
    → totals (get_trends now signals alerts candidates user_id days).series
      ≡ count_rows
          (is_trend_alert user_id risk_alert thesis_broken
            (midnight (start_date (day_of now) days))
            (midnight (day_of now + 1))
            signals)
          alerts
        ∷ count_rows
            (is_trend_alert user_id sell_review overheated
              (midnight (start_date (day_of now) days))
              (midnight (day_of now + 1))
              signals)
            alerts
        ∷ count_rows
            (is_important_news user_id
              (midnight (start_date (day_of now) days))
              (midnight (day_of now + 1)))
            candidates
        ∷ []
unfolding get_trends
totals-get_trends now user_id days signals alerts candidates h =
    let start = start_date (day_of now) days in
    let end = day_of now + 1 in
    let ends = start_plus_days (day_of now) days h in
    rw
      (
        alerts_total user_id start days end ends "risk_alerts" risk_alert thesis_broken signals
            alerts,
        alerts_total user_id start days end ends "review_signals" sell_review overheated signals
            alerts,
        important_news_total user_id start days end ends "important_news" candidates,
      )
      refl
