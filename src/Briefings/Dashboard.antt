-- ===== src/Briefings/Dashboard.antt =====
-- app/domains/dashboard/service.py: `DashboardService.get_summary`. The sum of a database is a decimal, and the
-- cash weight is the decimal that its text stands for.
use project_stock.Base.{
  ℕ, String, Bool, false, ◌&&◌, ◌||◌, Option, none, some, List, [], ◌∷◌, ◌≡◌, refl, ap,
  filter-append, length, append-nil, head?, str_eq, ◌==◌, if◌then◌else◌,
}
use project_stock.Store.{Table, get, add, where_rows, count_rows}
use project_stock.Decimal.{Decimals}
use project_stock.Signals.{
  Signal, Signals, SignalType, value, risk_alert, thesis_broken, sell_review, overheated, is_active,
}
use project_stock.Alerts.{Alert, Alerts, unread, status_value}
use project_stock.Candidates.{AlertCandidate, Candidates}
use project_stock.Candidates.{unread as candidate_unread, status_value as candidate_status}
use project_stock.Portfolios.{Portfolio, Position, Portfolios, Positions, list_by_user}
use project_stock.Briefings.Snapshots.{DashboardSummary}

-- whether the joined signal is there and passes
unfoldable pub signal_passes : (Signal → Bool) → Option (ℕ × Signal) → Bool
signal_passes p none = false
signal_passes p (some (i, s)) = p s

unfoldable pub has_type : SignalType → SignalType → Signal → Bool
has_type a b s = str_eq s.signal_type (value a) || str_eq s.signal_type (value b)

-- the `where` clauses of `_count_risk_alerts`
unfoldable pub is_risk_alert : ℕ → Signals → ℕ × Alert → Bool
unfolding signal_passes has_type
is_risk_alert user_id signals (i, a) =
    a.user_id == user_id
    && (str_eq a.status (status_value unread)
        && signal_passes (has_type risk_alert thesis_broken) (get a.signal_id signals))

-- `_count_risk_alerts`
unfoldable pub count_risk_alerts : ℕ → Signals → Alerts → ℕ
count_risk_alerts user_id signals t = count_rows (is_risk_alert user_id signals) t

-- the `where` clauses of `_count_important_news`
unfoldable pub is_important_news : ℕ → ℕ × AlertCandidate → Bool
is_important_news user_id (i, c) =
    c.user_id == user_id
    && ((str_eq c.candidate_type "NEWS_SURGE" || str_eq c.candidate_type "DISCLOSURE")
        && (str_eq c.importance "HIGH" && str_eq c.status (candidate_status candidate_unread)))

-- `_count_important_news`
unfoldable pub count_important_news : ℕ → Candidates → ℕ
count_important_news user_id t = count_rows (is_important_news user_id) t

-- the `where` clauses of `_count_review_signals`
unfoldable pub is_review_signal : ℕ → ℕ → Signals → ℕ × Alert → Bool
unfolding signal_passes has_type
is_review_signal now user_id signals (i, a) =
    a.user_id == user_id
    && signal_passes (λ s. has_type sell_review overheated s && is_active now s)
        (get a.signal_id signals)

-- `_count_review_signals`
unfoldable pub count_review_signals : ℕ → ℕ → Signals → Alerts → ℕ
count_review_signals now user_id signals t = count_rows (is_review_signal now user_id signals) t

module _ (d : Decimals) (upper : String → String) (quantize : d.D → d.D) where
  open d use {D, of_ℕ, add as plus, mul, div, equal}

  -- The tables that are read.
  pub record Board : Type 0 where
    pub alerts : Alerts
    pub candidates : Candidates
    pub signals : Signals
    pub portfolios : Portfolios d
    pub positions : Positions d

  cost_sum : D → List (ℕ × Position d) → D
  cost_sum sum [] = sum
  cost_sum sum ((i, p) ∷ ps) = cost_sum (plus sum (mul p.quantity p.avg_buy_price)) ps

  weight_of : Positions d → Option (ℕ × Portfolio d) → Option D
  unfolding cost_sum
  weight_of positions none = none
  weight_of positions (some (id, p)) =
      let cost = cost_sum (of_ℕ 0) (where_rows (λ e. e.1.portfolio_id == id) positions) in
      let total = plus cost p.cash_balance in
      if equal total (of_ℕ 0) then some (of_ℕ 0) else some (quantize (div p.cash_balance total))

  -- `_get_cash_weight`
  unfoldable pub get_cash_weight : ℕ → Board → Option D
  unfolding weight_of
  get_cash_weight user_id b =
      weight_of b.positions (head? (list_by_user d user_id 0 (some 1) b.portfolios))

  -- `DashboardService.get_summary`
  unfoldable pub get_summary : ℕ → ℕ → Board → DashboardSummary d upper
  get_summary now user_id b = record {
    risk_alert_count = count_risk_alerts user_id b.signals b.alerts;
    important_news_count = count_important_news user_id b.candidates;
    review_signal_count = count_review_signals now user_id b.signals b.alerts;
    cash_weight = get_cash_weight user_id b;
  }

  count_rows-add :
      {R : Type 0} (p : ℕ × R → Bool) (r : R) (t : Table R)
      → p (t.next_id, r) ≡ false
      → count_rows p (add r t).1 ≡ count_rows p t
  unfolding add
  count_rows-add p r t h = rw filter-append (rw h (ap length (append-nil _)))

  -- A user's dashboard shows nothing of other users: a further alert and a further candidate of somebody else
  -- change no figure of it.
  pub get_summary_isolated :
      (now user_id : ℕ) (a : Alert) (c : AlertCandidate) (b : Board)
      → (a.user_id == user_id) ≡ false
      → (c.user_id == user_id) ≡ false
      → get_summary now user_id
          (record b { alerts = (add a b.alerts).1; candidates = (add c b.candidates).1 })
        ≡ get_summary now user_id b
  unfolding get_summary count_risk_alerts count_important_news count_review_signals is_risk_alert
      is_important_news is_review_signal get_cash_weight
  get_summary_isolated now user_id a c b other_a other_c =
      rw
        (
          count_rows-add (is_risk_alert user_id b.signals) a b.alerts (rw other_a refl),
          count_rows-add (is_important_news user_id) c b.candidates (rw other_c refl),
          count_rows-add (is_review_signal now user_id b.signals) a b.alerts (rw other_a refl),
        )
        refl
