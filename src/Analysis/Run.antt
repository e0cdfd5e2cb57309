-- ===== src/Analysis/Run.antt =====
-- `WatchlistAnalysisService.run` of app/domains/analysis/service.py. The whole run has one time.
pub mod Keeps
pub mod Accounts
use project_stock.Base.{
  ℕ, ◌+◌, ◌||◌, String, Bool, true, false, Option, none, some, List, [], ◌∷◌, ◌++◌, str_eq, any,
  length, is_some, if◌then◌else◌,
}
use project_stock.Base.Exec.{Result, ok, err, Exec, pure, lift, gets, or_err, modify, ◌>>=◌, ◌>>◌}
use project_stock.Store.{get}
use project_stock.Errors.{AppException, not_found, watchlist_not_found}
use project_stock.Llm.Externals.{Externals}
use project_stock.Llm.Gateway.{Gateway}
use project_stock.Assets.{Asset, Assets}
use project_stock.RawNews.{
  RawNewsEvent, RawNewsEvents, NewsAdapterResult, NewsError, collect_and_save, get_by_url,
}
use project_stock.News.{NewsItem, NewsItemCreate, NewsSummaryResult, create, exists_by_url}
use project_stock.News.Normalization.{NewsStore}
use project_stock.Theses.{InvestmentThesis, Theses, ThesisConflictResult, get_latest_by_asset}
use project_stock.Reports.{ResearchReportCreate, create_report}
use project_stock.Signals.{Signal}
use project_stock.Signals.Rules.{RuleContext, default_rules, thesis_id_of}
use project_stock.Signals.Rules.{run as run_rules}
use project_stock.Alerts.{Alerts, create_alert}
use project_stock.Watchlists.{Watchlist, Watchlists, WatchlistItem, Items, list_by_watchlist}
use project_stock.Analysis.{
  Calls, Flow, FlowError, value_error, adapter_error, validation_error, summarize, analyze_conflict,
  find_item,
}

-- `_AssetAnalysisResult`
pub record AssetAnalysisResult : Type 0 where
  pub created_news_items : ℕ
  pub created_reports : ℕ
  pub created_signals : ℕ
  pub created_alerts : ℕ

-- An entry of `failures` beside its `asset_id`.
pub data Failure : Type 0 where
  asset_missing : Failure
  raised : FlowError → Failure

-- `AnalysisFlowResult`
pub record AnalysisFlowResult : Type 0 where
  pub watchlist_id : ℕ
  pub processed_assets : ℕ
  pub created_news_items : ℕ
  pub created_reports : ℕ
  pub created_signals : ℕ
  pub created_alerts : ℕ
  pub failures : List (ℕ × Failure)

raw_id : Option (ℕ × RawNewsEvent) → Option ℕ
raw_id none = none
raw_id (some (i, e)) = some i

-- the item of a result
new_item : ℕ → NewsAdapterResult → RawNewsEvents → NewsItemCreate
unfolding raw_id
new_item asset_id r raw = record {
  raw_news_event_id = raw_id (get_by_url r.url raw);
  asset_id = asset_id;
  title = r.title;
  url = r.url;
  source = r.source;
  published_at = r.published_at;
}

-- one round of the loop in `_create_new_items`, for a result that is not skipped
create_item : ℕ → ℕ → NewsAdapterResult → NewsStore → (ℕ × NewsItem) × NewsStore
unfolding new_item
create_item now asset_id r s =
    let (item, news') = create now (new_item asset_id r s.raw) s.news in
    (item, record s { news = news' })

is_known : NewsAdapterResult → List String → NewsStore → Bool
is_known r seen s = any (λ url. str_eq url r.url) seen || exists_by_url r.url s.news

-- `_create_new_items`; `seen` is `seen_urls`
create_new_items :
    ℕ → ℕ → List String → List NewsAdapterResult → NewsStore → List (ℕ × NewsItem) × NewsStore
unfolding create_item is_known
create_new_items now asset_id seen [] s = ([], s)
create_new_items now asset_id seen (r ∷ rs) s = elim (is_known r seen s) [
  | true ↦ create_new_items now asset_id seen rs s
  | false ↦
      let (item, s') = create_item now asset_id r s in
      let (items, s'') = create_new_items now asset_id (r.url ∷ seen) rs s' in (item ∷ items, s'')
]

conflict_status : Option ThesisConflictResult → Option String
conflict_status none = none
conflict_status (some r) = some r.status

conflict_reason : Option ThesisConflictResult → Option String
conflict_reason none = none
conflict_reason (some r) = some r.reason

-- the report that `_create_report` asks for
report_of :
    ℕ
    → ℕ
    → NewsSummaryResult
    → Option (ℕ × InvestmentThesis)
    → Option ThesisConflictResult
    → ResearchReportCreate
unfolding conflict_status conflict_reason
report_of asset_id news_item_id summary thesis conflict = record {
  asset_id = asset_id;
  thesis_id = thesis_id_of thesis;
  summary = summary.summary;
  positive_factors = some summary.positive_factors;
  negative_factors = some summary.negative_factors;
  risk_level = some summary.impact_level;
  thesis_conflict_status = conflict_status conflict;
  conflict_reason = conflict_reason conflict;
  news_item_ids = some (news_item_id ∷ []);
}

-- the loop over the signals: how many alerts were created, and the table
create_alerts : ℕ → ℕ → List (ℕ × Signal) → Alerts → ℕ × Alerts
create_alerts now user_id [] t = (0, t)
create_alerts now user_id (signal ∷ signals) t =
    let (alert, t') = create_alert now user_id signal t in
    let (count, t'') = create_alerts now user_id signals t' in
    ((if is_some alert then 1 else 0) + count, t'')

no_result : ℕ → AssetAnalysisResult
no_result n = record {
  created_news_items = n;
  created_reports = 0;
  created_signals = 0;
  created_alerts = 0;
}

-- the counters after one news item
count_item : ℕ → ℕ → AssetAnalysisResult → AssetAnalysisResult
count_item signals alerts r = record r {
  created_reports = r.created_reports + 1;
  created_signals = r.created_signals + signals;
  created_alerts = r.created_alerts + alerts;
}

module _ (x : Externals) (c : Calls x) (g : Gateway x) (now : ℕ) (today : String) (assets : Assets)
    (theses : Theses) where
  -- `_analyze_conflict`
  analyze_with :
      ℕ → Option (ℕ × InvestmentThesis) → Exec FlowError (Flow x) (Option ThesisConflictResult)
  analyze_with id none = pure none
  analyze_with id (some thesis) = do
    result ← analyze_conflict x c g now today theses id thesis.0
    pure (some result)

  save_report : ResearchReportCreate → Flow x → Flow x
  save_report d s = record s { reports = (create_report now d s.reports).1 }

  run_engine : RuleContext → Exec FlowError (Flow x) (List (ℕ × Signal))
  run_engine ctx s =
      let (signals, table) = run_rules now default_rules ctx s.signals in
      (ok signals, record s { signals = table })

  alert_user : ℕ → List (ℕ × Signal) → Exec FlowError (Flow x) ℕ
  unfolding create_alerts
  alert_user user_id signals s =
      let (count, table) = create_alerts now user_id signals s.alerts in
      (ok count, record s { alerts = table })

  -- what the loop over the news items does with an item that was analysed
  report_and_alert :
      ℕ
      → ℕ
      → Option (ℕ × InvestmentThesis)
      → AssetAnalysisResult
      → NewsSummaryResult
      → ℕ × NewsItem
      → Option ThesisConflictResult
      → Exec FlowError (Flow x) AssetAnalysisResult
  report_and_alert asset_id user_id thesis result summary item conflict = do
    modify (save_report (report_of asset_id item.0 summary thesis conflict))
    signals ← run_engine (record {
      asset_id = asset_id;
      news_item = item;
      thesis = thesis;
      conflict_result = conflict;
    })
    alerts ← alert_user user_id signals
    pure (count_item (length signals) alerts result)

  -- the body of the loop over the news items
  analyze_item :
      ℕ
      → ℕ
      → Option (ℕ × InvestmentThesis)
      → AssetAnalysisResult
      → ℕ × NewsItem
      → Exec FlowError (Flow x) AssetAnalysisResult
  analyze_item asset_id user_id thesis result (id, _) = do
    summary ← summarize x c g now today id
    item ← λ s. (find_item x c g now today id s, s)
    conflict ← analyze_with id thesis
    report_and_alert asset_id user_id thesis result summary item conflict

  analyze_items :
      ℕ
      → ℕ
      → Option (ℕ × InvestmentThesis)
      → List (ℕ × NewsItem)
      → AssetAnalysisResult
      → Exec FlowError (Flow x) AssetAnalysisResult
  analyze_items asset_id user_id thesis [] result = pure result
  analyze_items asset_id user_id thesis (item ∷ items) result = do
    result' ← analyze_item asset_id user_id thesis result item
    analyze_items asset_id user_id thesis items result'

  fetched : Asset → Result FlowError (List NewsAdapterResult)
  fetched asset = elim (c.fetch asset.symbol) [
    | ok results ↦ ok results
    | err e ↦ err (adapter_error e)
  ]

  -- an error of `collect_and_save`, as one of the analysis
  saved_count : Result NewsError ℕ → Result FlowError ℕ
  saved_count (ok n) = ok n
  saved_count (err e) = err validation_error

  -- `raw_service.collect_and_save`; the rows before a text that is too long stay
  save_raw : List NewsAdapterResult → Exec FlowError (Flow x) ℕ
  unfolding saved_count
  save_raw results s =
      let (r, raw) = collect_and_save c.fits now results s.store.raw in
      (saved_count r, record s { store = record s.store { raw = raw } })

  make_items : ℕ → List NewsAdapterResult → Exec FlowError (Flow x) (List (ℕ × NewsItem))
  unfolding create_new_items
  make_items asset_id results s =
      let (items, store') = create_new_items now asset_id [] results s.store in
      (ok items, record s { store = store' })

  -- `_process_asset`
  process_asset : ℕ → ℕ × Asset → Exec FlowError (Flow x) AssetAnalysisResult
  process_asset user_id (asset_id, asset) = do
    results ← lift (fetched asset)
    _ ← save_raw results
    items ← make_items asset_id results
    analyze_items asset_id user_id (get_latest_by_asset asset_id user_id theses) items
        (no_result (length items))

  failed : ℕ → Failure → AnalysisFlowResult → AnalysisFlowResult
  failed asset_id f r = record r { failures = r.failures ++ (asset_id, f) ∷ [] }

  count_asset : AssetAnalysisResult → AnalysisFlowResult → AnalysisFlowResult
  count_asset a r = record r {
    processed_assets = r.processed_assets + 1;
    created_news_items = r.created_news_items + a.created_news_items;
    created_reports = r.created_reports + a.created_reports;
    created_signals = r.created_signals + a.created_signals;
    created_alerts = r.created_alerts + a.created_alerts;
  }

  -- What an exception leaves uncommitted is rolled back; every write above is committed when it is made.
  processed :
      ℕ
      → AnalysisFlowResult
      → Result FlowError AssetAnalysisResult × Flow x
      → AnalysisFlowResult × Flow x
  unfolding failed count_asset
  processed asset_id r (ok a, s) = (count_asset a r, s)
  processed asset_id r (err e, s) = (failed asset_id (raised e) r, s)

  process_found :
      ℕ → ℕ → Option (ℕ × Asset) → AnalysisFlowResult × Flow x → AnalysisFlowResult × Flow x
  unfolding processed process_asset failed
  process_found user_id asset_id none (r, s) = (failed asset_id asset_missing r, s)
  process_found user_id asset_id (some asset) (r, s) =
      processed asset_id r (process_asset user_id asset s)

  process_items :
      ℕ → List (ℕ × WatchlistItem) → AnalysisFlowResult × Flow x → AnalysisFlowResult × Flow x
  unfolding process_found
  process_items user_id [] s = s
  process_items user_id ((i, item) ∷ items) s =
      process_items user_id items (process_found user_id item.asset_id (get item.asset_id assets) s)

  initial : ℕ → AnalysisFlowResult
  initial watchlist_id = record {
    watchlist_id = watchlist_id;
    processed_assets = 0;
    created_news_items = 0;
    created_reports = 0;
    created_signals = 0;
    created_alerts = 0;
    failures = [];
  }

  module _ (watchlists : Watchlists) (items : Items) where
    run_found :
        ℕ → Option (ℕ × Watchlist) → Flow x → Result AppException AnalysisFlowResult × Flow x
    unfolding process_items initial
    run_found watchlist_id none s = (err (not_found watchlist_not_found), s)
    run_found watchlist_id (some (i, w)) s =
        let (r, s') =
          process_items w.user_id (list_by_watchlist watchlist_id 0 none "priority" items)
            (initial watchlist_id, s) in
        (ok r, s')

    -- `WatchlistAnalysisService.run`
    unfoldable pub run : ℕ → Flow x → Result AppException AnalysisFlowResult × Flow x
    unfolding run_found fetched save_raw make_items analyze_items analyze_item no_result
        analyze_with report_and_alert save_report report_of run_engine alert_user count_item
    run watchlist_id s = run_found watchlist_id (get watchlist_id watchlists) s
