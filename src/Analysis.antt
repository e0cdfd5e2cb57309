-- ===== src/Analysis.antt =====
-- app/domains/analysis/service.py: what the watchlist analysis works on, with the two services that ask the
-- language model for it (app/domains/news/service.py, app/domains/theses/conflict_service.py).
pub mod Run
use project_stock.Base.{ℕ, String, Bool, Option, none, some, List, [], str_eq, if◌then◌else◌}
use project_stock.Base.Exec.{Result, ok, err, Exec, pure, lift, gets, or_err, modify, ◌>>=◌, ◌>>◌}
use project_stock.Store.{Table, get}
use project_stock.Llm.{TaskType, news_summary, thesis_conflict, LlmError, aggregated, public}
use project_stock.Llm.Externals.{Fields, Externals}
use project_stock.Llm.Privacy.{Payload, cloud_safe}
use project_stock.Llm.World.{World}
use project_stock.Llm.Gateway.{Gateway, Request, Completion, complete_json}
use project_stock.RawNews.{RawNewsEvent, RawNewsEvents, NewsAdapterResult}
use project_stock.News.{NewsItem, NewsSummaryResult, update_summary}
use project_stock.News.Normalization.{NewsStore}
use project_stock.Theses.{InvestmentThesis, Theses, ThesisConflictResult}
use project_stock.Theses.Conflicts.{Conflicts, create as create_conflict}
use project_stock.Reports.{Reports}
use project_stock.Signals.{Signals}
use project_stock.Alerts.{Alerts}

-- `NewsSummarySnapshot`
pub record NewsSummarySnapshot : Type 0 where
  pub title : String
  pub body : String

-- `ThesisConflictSnapshot`
pub record ThesisConflictSnapshot : Type 0 where
  pub thesis_summary : String
  pub invalidation_conditions : String
  pub news_summary : String
  pub news_positive_factors : List String
  pub news_negative_factors : List String

-- What the services call: the JSON text of a snapshot, the schemas and `model_validate` of the answers, the
-- prompts that hold those schemas, the test `len(s) <= n` of a text, and the news adapter, which may raise.
pub record Calls (x : Externals) : Type 0 where
  pub summary_json : NewsSummarySnapshot → String
  pub conflict_json : ThesisConflictSnapshot → String
  pub summary_schema : x.Schema
  pub conflict_schema : x.Schema
  pub parse_summary : Fields x.Number → Option NewsSummaryResult
  pub parse_conflict : Fields x.Number → Option ThesisConflictResult
  pub summary_prompt : String
  pub conflict_prompt : String
  pub fetch : String → Result String (List NewsAdapterResult)
  pub fits : String → ℕ → Bool

-- the exceptions that the analysis of an asset can end with
pub data FlowError : Type 0 where
  value_error adapter_error : String → FlowError
  llm_error : LlmError → FlowError
  validation_error : FlowError

-- The tables that an analysis changes, with the gateway's world.
pub record Flow (x : Externals) : Type 0 where
  pub world : World x
  pub store : NewsStore
  pub conflicts : Conflicts
  pub reports : Reports
  pub signals : Signals
  pub alerts : Alerts

or_empty : Option String → String
or_empty none = ""
or_empty (some s) = s

-- `_parse_json_list`, of a column that holds a list
parse_list : Option (List String) → List String
parse_list none = []
parse_list (some xs) = xs

-- `NewsAnalysisService._body_for`
unfoldable pub body_for : NewsItem → RawNewsEvents → String
unfolding or_empty
body_for item raw = from_event item.raw_news_event_id
  where
    of_row : Option (ℕ × RawNewsEvent) → String
    of_row none = or_empty item.summary
    of_row (some (i, e)) = or_empty e.body

    from_event : Option ℕ → String
    from_event none = or_empty item.summary
    from_event (some id) = of_row (get id raw)

-- `if not news_item.summary`
unfoldable pub summary_of : NewsItem → Result FlowError String
summary_of item = elim item.summary [
  | none ↦ err (value_error "뉴스 요약 없음")
  | some s ↦ if str_eq s "" then err (value_error "뉴스 요약 없음") else ok s
]

module _ (x : Externals) (c : Calls x) (g : Gateway x) (now : ℕ) (today : String) where
  wrapped : {A : Type 0} → Result LlmError A → Result FlowError A
  wrapped (ok a) = ok a
  wrapped (err e) = err (llm_error e)

  -- a call of the gateway
  pub in_world : {A : Type 0} → Exec LlmError (World x) A → Exec FlowError (Flow x) A
  unfolding wrapped
  in_world m s = let (r, w) = m s.world in (wrapped r, record s { world = w })

  pub find_item : ℕ → Flow x → Result FlowError (ℕ × NewsItem)
  find_item id s = or_err (get id s.store.news) (value_error "news item not found")

  pub summary_request : NewsItem → String → Request x
  summary_request item body = record {
    today = today;
    task = news_summary;
    payload = cloud_safe public (c.summary_json (record { title = item.title; body = body }));
    schema = c.summary_schema;
    system_prompt = c.summary_prompt;
    signal = none;
  }

  pub save_summary : ℕ → NewsSummaryResult → Flow x → Flow x
  save_summary id r s = record s {
    store = record s.store { news = update_summary id r s.store.news };
  }

  -- `NewsAnalysisService.summarize`
  pub summarize : ℕ → Exec FlowError (Flow x) NewsSummaryResult
  summarize id = do
    item ← λ s. (find_item id s, s)
    body ← gets (λ s. body_for item.1 s.store.raw)
    completion ← in_world (complete_json x g (summary_request item.1 body))
    result ← lift (or_err (c.parse_summary completion.output) validation_error)
    modify (save_summary id result)
    pure result

  pub conflict_request : InvestmentThesis → NewsItem → String → Request x
  unfolding or_empty parse_list
  conflict_request thesis item summary = record {
    today = today;
    task = thesis_conflict;
    payload = cloud_safe aggregated (
        c.conflict_json (record {
          thesis_summary = thesis.summary;
          invalidation_conditions = or_empty thesis.invalidation_conditions;
          news_summary = summary;
          news_positive_factors = parse_list item.positive_factors;
          news_negative_factors = parse_list item.negative_factors;
        }));
    schema = c.conflict_schema;
    system_prompt = c.conflict_prompt;
    signal = none;
  }

  pub save_conflict : ℕ → ℕ → ThesisConflictResult → Flow x → Flow x
  save_conflict id thesis_id r s = record s {
    conflicts = (create_conflict now id thesis_id r s.conflicts).1;
  }

  -- `ThesisAnalysisService.analyze_conflict`
  pub analyze_conflict : Theses → ℕ → ℕ → Exec FlowError (Flow x) ThesisConflictResult
  analyze_conflict theses id thesis_id = do
    item ← λ s. (find_item id s, s)
    summary ← lift (summary_of item.1)
    thesis ← lift (or_err (get thesis_id theses) (value_error "investment thesis not found"))
    completion ← in_world (complete_json x g (conflict_request thesis.1 item.1 summary))
    result ← lift (or_err (c.parse_conflict completion.output) validation_error)
    modify (save_conflict id thesis_id result)
    pure result
