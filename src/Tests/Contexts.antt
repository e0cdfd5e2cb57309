-- ===== src/Tests/Contexts.antt =====
-- Snapshots, contexts, news, decisions, theses and dashboards at concrete values.
use project_stock.Base.{
  ℕ, ◌≤◌, ◌*◌, ◌≡◌, refl, String, true, false, none, some, List, [], ◌∷◌, arith, filter, length,
  take,
}
use project_stock.Base.Exec.{Result, ok, Ensures}
use project_stock.Int.{pos}
use project_stock.Store.{add, where_rows, empty_table}
use project_stock.Store.Guarded.{Changes}
use project_stock.Errors.{not_found, forbidden, thesis_not_found, thesis_forbidden}
use project_stock.Llm.{watchlist_note}
use project_stock.Assets.{Assets}
use project_stock.RawNews.{NewsAdapterResult}
use project_stock.RawNews.Ingestion.{collect_and_save}
use project_stock.RawNews.Ingestion.Accounts.{NewsAddsUp, collect_and_save-NewsAddsUp}
use project_stock.News.Normalization.{Texts, NewsStore, normalize_event}
use project_stock.News.Normalization.Urls.{UrlsUnique, made, normalize_event_once}
use project_stock.RawNews.{RawNewsEvent}
use project_stock.Theses.{Theses, ThesisUpdate, apply_update, deactivated, update, deactivate}
use project_stock.Theses.Ownership.{owner, update_and_deactivate_exact}
use project_stock.DecisionLogs.{
  DecisionLog, DecisionLogs, DecisionLogUpdate, Notes, reviewed, changed, decided,
}
use project_stock.DecisionLogs.Lifecycle.{changed_stamps}
use project_stock.DecisionLogs.Stats.{
  count_of, has_type, is_of, get_stats, count_decision_logs, get_stats_exact,
}
use project_stock.Watchlists.{WatchlistItem}
use project_stock.Briefings.{dedupe_top}
use project_stock.Briefings.Top.{first_of_each, HasNoRepeats, dedupe_top_exact}
use project_stock.Briefings.Snapshots.{
  to_briefing_snapshot, reprice_summary, briefing_snapshot-reprice,
}
use project_stock.Briefings.Dashboard.{Board, get_summary, get_summary_isolated}
use project_stock.Portfolios.Weights.{Summary}
use project_stock.Alerts.{Alert}
use project_stock.Candidates.{AlertCandidate}
use project_stock.LlmContext.Builder.{Sources, build_context_bundle}
use project_stock.LlmContext.Builder.Quality.{IsTrueTo, build_context_bundle-IsTrueTo}
use project_stock.Tests.Markets.{cents, same_text, no_bars}

-- texts that need no change
abbrev plain : Texts
plain = record {
  strip = λ s. s;
  upper = λ s. s;
  lower = λ s. s;
  contains = λ c s. false;
  after_last_colon = λ s. s;
  before_first_dot = λ s. s;
  rstrip_slash = λ s. s;
  urlsplit = λ s. some (record { scheme = "https"; netloc = "example.com"; path = s; query = "" });
  fits = λ s n. true;
  urlunsplit = λ p. p.path;
}

abbrev apple : Assets
apple = record {
  rows =
      (
        7,
        record {
          symbol = "AAPL";
          name = "Apple";
          market = "NASDAQ";
          sector = none;
          industry = none;
          description = none;
          is_active = true;
        },
      )
      ∷ [];
  next_id = 8;
}

abbrev recall : NewsAdapterResult
recall = record {
  title = "Recall";
  url = "https://example.com/1";
  body = none;
  source = "wire";
  published_at = some 90;
  payload = none;
}

abbrev fetch : String → String → Result String (List NewsAdapterResult)
fetch name market = ok (recall ∷ recall ∷ [])

abbrev no_news : NewsStore
no_news = record { raw = empty_table; news = empty_table }

collect_and_save-NewsAddsUp_example :
    Ensures
      (λ r s. NewsAddsUp 1 r × UrlsUnique s)
      UrlsUnique
      (collect_and_save plain 100 apple fetch (("AAPL", ("NASDAQ", "Apple")) ∷ []) no_news)
collect_and_save-NewsAddsUp_example =
    collect_and_save-NewsAddsUp plain 100 apple fetch (("AAPL", ("NASDAQ", "Apple")) ∷ []) no_news
      (((tt, tt), tt), ((tt, tt), tt))

abbrev event : RawNewsEvent
event = record {
  title = "Recall";
  url = "https://example.com/1";
  symbol = some "AAPL";
  market = some "NASDAQ";
  body = none;
  source = "wire";
  published_at = some 90;
  collected_at = 95;
  processing_status = "fetched";
  payload = none;
}

abbrev one_event : NewsStore
one_event = record { raw = record { rows = (1, event) ∷ []; next_id = 2 }; news = empty_table }

normalize_event_once_example :
    UrlsUnique (normalize_event plain 100 apple (1, event) one_event).1
    × (made plain
          (normalize_event plain 100 apple
            (1, event)
            (normalize_event plain 100 apple (1, event) one_event).1).0
        ≡ none)
    × ((normalize_event plain 100 apple
          (1, event)
          (normalize_event plain 100 apple (1, event) one_event).1).1.news
        ≡ (normalize_event plain 100 apple (1, event) one_event).1.news)
normalize_event_once_example =
    normalize_event_once plain 100 apple (1, event) one_event
      ((((omega arith, tt), (refl, tt)), (refl, tt)), ((tt, tt), tt))

abbrev theses : Theses
theses = record {
  rows =
      (
        3,
        record {
          user_id = 5;
          asset_id = 7;
          summary = "margins grow";
          risk_factors = none;
          invalidation_conditions = none;
          is_active = true;
          created_at = 10;
        },
      )
      ∷ [];
  next_id = 4;
}

abbrev new_risk : ThesisUpdate
new_risk = record {
  summary = none;
  risk_factors = some (some "debt");
  invalidation_conditions = none;
}

update_and_deactivate_exact_example :
    Changes owner
      (not_found thesis_not_found)
      (forbidden thesis_forbidden)
      3
      5
      (apply_update new_risk)
      theses
      (update 3 5 new_risk theses)
    × Changes owner
        (not_found thesis_not_found)
        (forbidden thesis_forbidden)
        3
        5
        deactivated
        theses
        (deactivate 3 5 theses)
update_and_deactivate_exact_example = update_and_deactivate_exact 3 5 new_risk theses

abbrev notes : Notes
notes = record {
  ticker = "AAPL";
  company_name = none;
  summary = none;
  reason = some "margin";
  risk_note = none;
  action_plan = none;
  confidence_score = some 70;
  target_price = none;
  stop_loss_price = none;
  valuation_snapshot = none;
  news_snapshot = none;
  portfolio_snapshot = none;
  ai_analysis_snapshot = none;
  cognitive_risks = [];
}

abbrev decision : DecisionLog
decision = record {
  user_id = 5;
  notes = notes;
  decision_type = "BUY";
  decision_status = "OPEN";
  created_by = "USER";
  decided_at = 10;
  reviewed_at = none;
  closed_at = none;
  created_at = 10;
}

abbrev review : DecisionLogUpdate
review = record {
  notes = λ n. n;
  decision_type = none;
  decision_status = some reviewed;
  created_by = none;
  decided_at = none;
  reviewed_at = none;
  closed_at = none;
}

changed_stamps_example :
    ((changed 20 review decision).reviewed_at ≡ some (decided 20 none))
    × ((changed 20 review decision).closed_at ≡ none)
changed_stamps_example = changed_stamps 20 review decision refl refl

abbrev decisions : DecisionLogs
decisions = record { rows = (1, decision) ∷ (2, decision) ∷ []; next_id = 3 }

get_stats_exact_example :
    ((s : String)
      → count_of s (get_stats 5 decisions).decision_type_counts
        ≡ length (filter (has_type s) (where_rows (is_of 5) decisions)))
    × ((get_stats 5 decisions).total ≡ count_decision_logs 5 decisions)
    × (length (get_stats 5 decisions).recent_reviewed ≤ 5)
get_stats_exact_example = get_stats_exact 5 decisions

abbrev entry : ℕ → WatchlistItem
entry asset_id = record {
  watchlist_id = 1;
  asset_id = asset_id;
  priority = pos 0;
  reason = none;
  tags = [];
  memo = none;
  created_at = 10;
}

abbrev entries : List (ℕ × WatchlistItem)
entries = (1, entry 7) ∷ (2, entry 7) ∷ (3, entry 9) ∷ (4, entry 8) ∷ []

dedupe_top_exact_example :
    (dedupe_top 2 [] entries ≡ take 2 (first_of_each [] entries))
    × HasNoRepeats [] (dedupe_top 2 [] entries)
    × (length (dedupe_top 2 [] entries) ≤ 2)
dedupe_top_exact_example = dedupe_top_exact 1 entries

abbrev summary : Summary cents same_text
summary = record {
  portfolio_id = 1;
  concentration_threshold = 40;
  total_cost_value = 900;
  total_value = 1000;
  cash_balance = 100;
  cash_weight = 10;
  has_sector_concentration = false;
  positions =
      record {
        asset_id = 7;
        quantity = 300;
        avg_buy_price = 300;
        cost_value = 900;
        market_value = 900;
        cost_weight = 100;
        weight = 90;
        exceeds_threshold = true;
      }
      ∷ [];
  sector_weights =
      record { sector = "Tech"; market_value = 900; weight = 90; exceeds_threshold = true } ∷ [];
  day_change_value = 5;
  day_change_percent = 1;
  risk_exposures = [];
}

abbrev no_text : ℕ → String
no_text id = "AAPL"

abbrev no_change : ℕ → ℕ
no_change id = 0

briefing_snapshot-reprice_example :
    to_briefing_snapshot cents same_text no_text no_text no_change
      (reprice_summary cents same_text no_text no_text no_change (λ n. n * 2) summary)
    ≡ to_briefing_snapshot cents same_text no_text no_text no_change summary
briefing_snapshot-reprice_example =
    briefing_snapshot-reprice cents same_text no_text no_text no_change (λ n. n * 2) summary

abbrev board : Board cents same_text no_change
board = record {
  alerts = empty_table;
  candidates = empty_table;
  signals = empty_table;
  portfolios = empty_table;
  positions = empty_table;
}

abbrev other_alert : Alert
other_alert = record {
  user_id = 6;
  signal_id = 1;
  status = "UNREAD";
  dedup_key = "RISK_ALERT:1";
  created_at = 10;
}

abbrev other_candidate : AlertCandidate
other_candidate = record {
  user_id = 6;
  candidate_type = "DISCLOSURE";
  importance = "HIGH";
  status = "UNREAD";
  title = "Filing";
  message = none;
  asset_id = none;
  evidence = none;
  created_at = 10;
}

get_summary_isolated_example :
    get_summary cents same_text no_change 100 5 (record board {
      alerts = (add other_alert board.alerts).1;
      candidates = (add other_candidate board.candidates).1;
    })
    ≡ get_summary cents same_text no_change 100 5 board
get_summary_isolated_example =
    get_summary_isolated cents same_text no_change 100 5 other_alert other_candidate board
      (ground arith) (ground arith)

abbrev sources : Sources cents same_text ℕ no_change
sources = record {
  assets = apple;
  bars = no_bars;
  portfolios = empty_table;
  positions = empty_table;
  decisions = decisions;
  news = empty_table;
  signals = empty_table;
  quotes = λ fetch. some (λ symbols. []);
}

abbrev symbols : List (String × String)
symbols = ("AAPL", "NASDAQ") ∷ []

build_context_bundle-IsTrueTo_example :
    IsTrueTo cents same_text ℕ no_change symbols
      (build_context_bundle cents same_text ℕ no_change 100 watchlist_note 5 symbols sources)
build_context_bundle-IsTrueTo_example =
    build_context_bundle-IsTrueTo cents same_text ℕ no_change 100 watchlist_note 5 symbols sources
      refl
