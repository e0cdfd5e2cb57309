-- ===== src/Tests/Signals.antt =====
-- Signals, alerts and alert candidates at concrete rows.
use project_stock.Base.{
  ℕ, ◌≡◌, refl, String, true, false, not, none, some, List, [], ◌∷◌, All, is_some, arith,
}
use project_stock.Store.{empty_table, count_rows}
use project_stock.Signals.{risk_alert, thesis_broken, sell_review, overheated}
use project_stock.Briefings.Trends.{is_trend_alert, is_important_news, get_trends}
use project_stock.Briefings.Trends.Totals.{totals, totals-get_trends}
use project_stock.News.{NewsItem}
use project_stock.Theses.{ThesisConflictResult}
use project_stock.Signals.{Signal, SignalCreate, Signals}
use project_stock.Signals.Rules.{RuleContext, default_rules, candidates, run}
use project_stock.Signals.Rules.Laws.{IsFor, default_rules-IsFor}
use project_stock.Signals.Active.{NoActiveDuplicate, run-NoActiveDuplicate, Live, run-run}
use project_stock.Alerts.{Alerts, create_alert, dedup_key}
use project_stock.Alerts.Dedup.{has_alert, create_alert_exact, same_news_once}

abbrev critical_news : NewsItem
critical_news = record {
  raw_news_event_id = none;
  asset_id = 7;
  title = "Recall";
  url = "https://example.com/1";
  source = "wire";
  published_at = some 90;
  summary = none;
  sentiment = some "NEGATIVE";
  impact_level = some "CRITICAL";
  trust_level = none;
  positive_factors = none;
  negative_factors = none;
  created_at = 100;
}

abbrev conflict : ThesisConflictResult
conflict = record { status = "CONFLICTS"; reason = "margin"; invalidation_triggered = false }

abbrev context : RuleContext
context = record {
  asset_id = 7;
  news_item = (3, critical_news);
  thesis = none;
  conflict_result = some conflict;
}

abbrev signals : Signals
signals = empty_table

run-NoActiveDuplicate_example : NoActiveDuplicate 100 (run 100 default_rules context signals).1
run-NoActiveDuplicate_example = run-NoActiveDuplicate 100 default_rules context signals tt

lasting : (cs : List SignalCreate) → All (IsFor context) cs → Live 100 cs
lasting [] h = tt
lasting (c ∷ cs) h = (rw h.0.lasting refl, lasting cs h.1)

live : Live 100 (candidates default_rules context)
live = lasting (candidates default_rules context) (default_rules-IsFor context)

run-run_example :
    run 100 default_rules context (run 100 default_rules context signals).1
    ≡ ([], (run 100 default_rules context signals).1)
run-run_example = run-run 100 default_rules context signals live

abbrev risk_signal : Signal
risk_signal = record {
  asset_id = 7;
  thesis_id = none;
  news_item_id = some 3;
  signal_type = "RISK_ALERT";
  score = 80;
  risk_level = some "CRITICAL";
  reason = "Recall";
  evidence = none;
  expires_at = none;
  created_at = 100;
}

abbrev one_alert : Alerts
one_alert = record {
  rows =
      (
        1,
        record {
          user_id = 5;
          signal_id = 9;
          status = "UNREAD";
          dedup_key = "WATCH:1";
          created_at = 50;
        },
      )
      ∷ [];
  next_id = 2;
}

create_alert_exact_example :
    (is_some (create_alert 100 5 (4, risk_signal) one_alert).0
      ≡ not (has_alert 5 (dedup_key (4, risk_signal)) one_alert))
    × (has_alert 5 (dedup_key (4, risk_signal)) (create_alert 100 5 (4, risk_signal) one_alert).1
        ≡ true)
    × ((user : ℕ) (key : String)
        → has_alert user key one_alert ≡ true
        → has_alert user key (create_alert 100 5 (4, risk_signal) one_alert).1 ≡ true)
create_alert_exact_example = create_alert_exact 100 5 (4, risk_signal) one_alert

same_news_once_example :
    create_alert 200 5 (6, risk_signal) (create_alert 100 5 (4, risk_signal) one_alert).1
    ≡ (none, (create_alert 100 5 (4, risk_signal) one_alert).1)
same_news_once_example =
    same_news_once 100 200 5 3 (4, risk_signal) (6, risk_signal) one_alert refl refl refl

abbrev one_signal : Signals
one_signal = record { rows = (9, risk_signal) ∷ []; next_id = 10 }

totals-get_trends_example :
    totals (get_trends 86500 one_signal one_alert empty_table 5 2).series
    ≡ count_rows (is_trend_alert 5 risk_alert thesis_broken 0 172800 one_signal) one_alert
      ∷ count_rows (is_trend_alert 5 sell_review overheated 0 172800 one_signal) one_alert
      ∷ count_rows (is_important_news 5 0 172800) empty_table
      ∷ []
totals-get_trends_example =
    totals-get_trends 86500 5 2 one_signal one_alert empty_table (omega arith)
