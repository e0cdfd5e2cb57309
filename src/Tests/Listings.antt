-- ===== src/Tests/Listings.antt =====
-- The rendered listings at concrete rows.
use project_stock.Base.{ℕ, ◌≡◌, String, true, false, none, some, List, [], ◌∷◌, map}
use project_stock.Assets.{Assets}
use project_stock.Signals.{Signal, Signals}
use project_stock.Signals as S
use project_stock.Alerts.{Alerts}
use project_stock.Alerts as L
use project_stock.Alerts.Responses.{list_alert_responses}
use project_stock.Alerts.Responses.Each.{respond_alone, list_alert_responses-each}
use project_stock.Candidates.{AlertCandidate, Candidates, Filters}
use project_stock.Candidates as C
use project_stock.Watchlists.Expanded.{Quote, list_signals_expanded, list_candidates_expanded}
use project_stock.Watchlists.Expanded.Joins.{expand_each, listings-expand_each}
use project_stock.Tests.Markets.{cents}

abbrev assets : Assets
assets = record {
  rows =
      (
        7,
        record {
          symbol = "AAPL";
          name = "Apple";
          market = "NASDAQ";
          sector = none;
          industry = none;
          description = none;
          is_active = true;
        },
      )
      ∷ [];
  next_id = 8;
}

abbrev signals : Signals
signals = record {
  rows =
      (
        9,
        record {
          asset_id = 7;
          thesis_id = none;
          news_item_id = none;
          signal_type = "RISK_ALERT";
          score = 80;
          risk_level = none;
          reason = "Recall";
          evidence = none;
          expires_at = none;
          created_at = 100;
        },
      )
      ∷ [];
  next_id = 10;
}

abbrev alerts : Alerts
alerts = record {
  rows =
      (
        1,
        record {
          user_id = 5;
          signal_id = 9;
          status = "UNREAD";
          dedup_key = "RISK_ALERT:signal:9";
          created_at = 100;
        },
      )
      ∷ [];
  next_id = 2;
}

abbrev candidates : Candidates
candidates = record {
  rows =
      (
        1,
        record {
          user_id = 5;
          candidate_type = "RISK";
          importance = "HIGH";
          status = "UNREAD";
          title = "Recall";
          message = none;
          asset_id = some 7;
          evidence = none;
          created_at = 50;
        },
      )
      ∷ [];
  next_id = 2;
}

abbrev unread_only : Filters
unread_only = record { candidate_type = none; importance = none; status = some "UNREAD" }

abbrev get_quote : List String → List (Quote cents)
get_quote symbols = map (λ s. record { symbol = s; price = 10000; change_percent = 150 }) symbols

abbrev str : ℕ → String
str price = "100.00"

list_alert_responses-each_example :
    list_alert_responses 5 none 0 (some 10) signals assets alerts
    ≡ map (respond_alone signals assets) (L.list_by_user 5 none 0 (some 10) alerts)
list_alert_responses-each_example =
    list_alert_responses-each 5 none 0 (some 10) signals assets alerts

listings-expand_each_example :
    (list_signals_expanded cents get_quote str 200 7 false 0 (some 10) signals assets
      ≡ expand_each cents get_quote str
          (λ (s : Signal). some s.asset_id)
          assets
          (S.list_by_asset 200 7 false 0 (some 10) signals))
    × (list_candidates_expanded cents get_quote str 5 unread_only 0
          (some 10)
          "-created_at"
          candidates
          assets
        ≡ expand_each cents get_quote str
            (λ (c : AlertCandidate). c.asset_id)
            assets
            (C.list_by_user 5 unread_only 0 (some 10) "-created_at" candidates))
listings-expand_each_example =
    listings-expand_each cents get_quote str 200 7 5 0 false (some 10) unread_only "-created_at"
      signals candidates assets
