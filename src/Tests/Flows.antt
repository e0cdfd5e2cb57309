-- ===== src/Tests/Flows.antt =====
-- The analysis of a watchlist and the runs of the analysis at concrete tables.
use project_stock.Base.{ℕ, refl, String, true, none, some, [], ◌∷◌}
use project_stock.Base.Exec.{ok}
use project_stock.Int.{pos}
use project_stock.Store.{get, empty_table}
use project_stock.Llm.{watchlist_note, aggregated}
use project_stock.Llm.Privacy.{cloud_safe}
use project_stock.Llm.Gateway.Tests.{redis, empty_world, two_calls_a_day, nothing_sent}
use project_stock.Assets.{Assets}
use project_stock.RawNews.{NewsAdapterResult}
use project_stock.Theses.{Theses}
use project_stock.Watchlists.{Watchlists, WatchlistItem, Items}
use project_stock.Analysis as A
use project_stock.Analysis.{Flow}
use project_stock.Analysis.Run.{run}
use project_stock.Analysis.Run.Keeps.{Sound, run-Sound}
use project_stock.Analysis.Run.Accounts.{Answers, run-Answers}
use project_stock.LlmAnalysis as L
use project_stock.LlmAnalysis.{Analyses, run_analysis}
use project_stock.LlmAnalysis.Settled.{AllSettled, run_analysis_settled}
use project_stock.LlmAnalysis.Settled as S

abbrev story : NewsAdapterResult
story = record {
  title = "Recall";
  url = "https://example.com/1";
  body = some "text";
  source = "wire";
  published_at = some 90;
  payload = none;
}

abbrev calls : A.Calls redis
calls = record {
  summary_json = λ s. s.title;
  conflict_json = λ s. s.thesis_summary;
  summary_schema = "{}";
  conflict_schema = "{}";
  parse_summary = λ fields. some (record {
    summary = "recall";
    positive_factors = [];
    negative_factors = "cost" ∷ [];
    impact_level = "CRITICAL";
    sentiment = "NEGATIVE";
  });
  parse_conflict = λ fields.
      some (record { status = "CONFLICTS"; reason = "margin"; invalidation_triggered = true });
  summary_prompt = "summarize";
  conflict_prompt = "compare";
  fetch = λ symbol. ok (story ∷ story ∷ []);
  fits = λ s n. true;
}

abbrev assets : Assets
assets = record {
  rows =
      (
        7,
        record {
          symbol = "AAPL";
          name = "Apple";
          market = "NASDAQ";
          sector = none;
          industry = none;
          description = none;
          is_active = true;
        },
      )
      ∷ [];
  next_id = 8;
}

abbrev theses : Theses
theses = record {
  rows =
      (
        3,
        record {
          user_id = 5;
          asset_id = 7;
          summary = "margins grow";
          risk_factors = none;
          invalidation_conditions = none;
          is_active = true;
          created_at = 10;
        },
      )
      ∷ [];
  next_id = 4;
}

abbrev watchlists : Watchlists
watchlists = record { rows = (1, record { user_id = 5; name = "Tech" }) ∷ []; next_id = 2 }

abbrev entry : ℕ → WatchlistItem
entry asset_id = record {
  watchlist_id = 1;
  asset_id = asset_id;
  priority = pos 0;
  reason = none;
  tags = [];
  memo = none;
  created_at = 10;
}

abbrev items : Items
items = record { rows = (1, entry 7) ∷ (2, entry 9) ∷ []; next_id = 3 }

abbrev nothing_yet : Flow redis
nothing_yet = record {
  world = empty_world;
  store = record { raw = empty_table; news = empty_table };
  conflicts = empty_table;
  reports = empty_table;
  signals = empty_table;
  alerts = empty_table;
}

nothing_yet-Sound : Sound redis calls two_calls_a_day 100 "20260101" 2 refl nothing_yet
nothing_yet-Sound = record {
  in_budget = nothing_sent;
  urls = (((tt, tt), tt), ((tt, tt), tt));
  signals = tt;
  alerts = tt;
}

run-Sound_example :
    Sound redis calls two_calls_a_day 100 "20260101" 2 refl
      (run redis calls two_calls_a_day 100 "20260101" assets theses watchlists items 1
        nothing_yet).1
run-Sound_example =
    run-Sound redis calls two_calls_a_day 100 "20260101" 2 refl assets theses watchlists items 1
      nothing_yet nothing_yet-Sound

run-Answers_example :
    Answers redis calls two_calls_a_day 100 "20260101" assets theses 1
      (get 1 watchlists)
      items
      nothing_yet
      (run redis calls two_calls_a_day 100 "20260101" assets theses watchlists items 1 nothing_yet)
run-Answers_example =
    run-Answers redis calls two_calls_a_day 100 "20260101" assets theses watchlists items 1
      nothing_yet

abbrev analysis_calls : L.Calls redis
analysis_calls = record {
  Bundle = String;
  build_context_bundle = λ task user_id symbols. ok "bundle";
  bundle_json = λ b. b;
  to_snapshot = λ b. cloud_safe aggregated b;
  result_schema = "{}";
  result_json = λ fields. some "{}";
  error_text = λ e. "failed";
  validation_text = "invalid";
  system_prompt = "analyse";
  prompt_version = "v1";
}

abbrev no_runs : Analyses redis
no_runs = record { world = empty_world; runs = empty_table }

run_analysis_settled_example :
    AllSettled
      (run_analysis redis analysis_calls two_calls_a_day 100 "20260101" watchlist_note 5
        (("AAPL", "NASDAQ") ∷ [])
        no_runs).1.runs
    × S.Answers redis analysis_calls two_calls_a_day 100 "20260101"
        (ok "bundle")
        (run_analysis redis analysis_calls two_calls_a_day 100 "20260101" watchlist_note 5
          (("AAPL", "NASDAQ") ∷ [])
          no_runs).0
run_analysis_settled_example =
    run_analysis_settled redis analysis_calls two_calls_a_day 100 "20260101" watchlist_note 5
      (("AAPL", "NASDAQ") ∷ []) no_runs ((tt, tt), refl)
