-- ===== src/Analysis/Run/Keeps.antt =====
-- What a watchlist analysis keeps of the tables and of the gateway's world, however it ends.
use project_stock.Base.{
  ℕ, ◌||◌, String, Bool, false, Option, none, some, List, [], ◌∷◌, ◌≡◌, inl, inr, Bool-cases, arith,
  length,
}
use project_stock.Base.Exec.{Result, ok, err, Exec, or_err, continue, ◌>>=◌}
use project_stock.Store.{get}
use project_stock.Llm.Externals.{Externals}
use project_stock.Llm.Gateway.{Gateway, Request, complete_json}
use project_stock.Llm.Gateway.Budget.{InBudget, complete_json-InBudget}
use project_stock.Assets.{Asset, Assets}
use project_stock.RawNews.{NewsAdapterResult}
use project_stock.RawNews.Urls.{collect_and_save-RawUrlsUnique}
use project_stock.News.{NewsItem, NewsSummaryResult, exists_by_url}
use project_stock.News.Normalization.{NewsStore}
use project_stock.News.Normalization.Urls.{
  UrlsUnique, create-ItemUrlsUnique, update_summary-ItemUrlsUnique,
}
use project_stock.Theses.{InvestmentThesis, Theses, ThesisConflictResult, get_latest_by_asset}
use project_stock.Reports.{ResearchReportCreate}
use project_stock.Signals.{Signal}
use project_stock.Signals.Active.{NoActiveDuplicate, run-NoActiveDuplicate}
use project_stock.Signals.Rules.{RuleContext, default_rules}
use project_stock.Alerts.{Alerts}
use project_stock.Alerts.Dedup.{IsDeduplicated, create_alert-IsDeduplicated}
use project_stock.Watchlists.{Watchlist, WatchlistItem, Watchlists, Items, list_by_watchlist}
use project_stock.Analysis.{
  Calls, Flow, FlowError, value_error, validation_error, summarize, analyze_conflict, in_world,
  find_item, summary_of, summary_request, conflict_request, body_for, save_summary, save_conflict,
}
use project_stock.Analysis.Run.{
  AssetAnalysisResult, AnalysisFlowResult, create_item, create_new_items, is_known, create_alerts,
  new_item, analyze_with, alert_user, run_engine, analyze_item, analyze_items, fetched, make_items,
  save_raw, process_asset, processed, report_and_alert, process_found, process_items, run_found,
  run, no_result, initial, save_report, report_of, count_item,
}

or_false : (a b : Bool) → (a || b) ≡ false → b ≡ false
or_false a b h = ground arith

unknown_url :
    (r : NewsAdapterResult) (seen : List String) (s : NewsStore)
    → is_known r seen s ≡ false
    → exists_by_url r.url s.news ≡ false
unfolding is_known
unknown_url r seen s e = or_false _ (exists_by_url r.url s.news) e

create_new_items-UrlsUnique :
    (now asset_id : ℕ) (seen : List String) (rs : List NewsAdapterResult) (s : NewsStore)
    → UrlsUnique s
    → UrlsUnique (create_new_items now asset_id seen rs s).1
unfolding create_new_items create_item
create_new_items-UrlsUnique now asset_id seen [] s h = h
create_new_items-UrlsUnique now asset_id seen (r ∷ rs) s h = elim (Bool-cases (is_known r seen s)) [
  | inl e ↦ rw (create_new_items, e) (create_new_items-UrlsUnique now asset_id seen rs s h)
  | inr e ↦
      rw (create_new_items, e)
        (create_new_items-UrlsUnique now asset_id (r.url ∷ seen) rs _ (
          h.0,
          create-ItemUrlsUnique now (new_item asset_id r s.raw) s.news (unknown_url r seen s e) h.1,
        ))
]

create_alerts-IsDeduplicated :
    (now user_id : ℕ) (signals : List (ℕ × Signal)) (t : Alerts)
    → IsDeduplicated t
    → IsDeduplicated (create_alerts now user_id signals t).1
unfolding create_alerts
create_alerts-IsDeduplicated now user_id [] t h = h
create_alerts-IsDeduplicated now user_id (signal ∷ signals) t h =
    create_alerts-IsDeduplicated now user_id signals _
      (create_alert-IsDeduplicated now user_id signal t h)

module _ (x : Externals) (c : Calls x) (g : Gateway x) (now : ℕ) (today : String) (limit : ℕ)
    (budget : g.call_budget ≡ some limit) where
  -- The daily limit holds of the calls that left for the cloud, the keys and URLs of the news tables are
  -- distinct, no two active signals share asset, type and news item, and no user has two alerts of one key.
  pub record Sound (s : Flow x) : Type 0 where
    pub in_budget : InBudget x limit s.world
    pub urls : UrlsUnique s.store
    pub signals : NoActiveDuplicate now s.signals
    pub alerts : IsDeduplicated s.alerts

  -- A method keeps this, whether it returns or raises.
  record Keeps {A : Type 0} (m : Exec FlowError (Flow x) A) : Type 0 where
    after : (s : Flow x) → Sound s → Sound (m s).1

  Keeps-lift : {A : Type 0} (f : Flow x → Result FlowError A) → Keeps (λ s. (f s, s))
  Keeps-lift f = record { after = λ s h. h }

  Keeps-modify :
      {A : Type 0} (f : Flow x → Flow x) (a : A)
      → ((s : Flow x) → Sound s → Sound (f s))
      → Keeps (λ s. (ok a, f s))
  Keeps-modify f a h = record { after = h }

  continued :
      {A B : Type 0} (f : A → Exec FlowError (Flow x) B) (r : Result FlowError A × Flow x)
      → ((a : A) → Keeps (f a))
      → Sound r.1
      → Sound (continue f r).1
  continued f (ok a, s) next h = (next a).after s h
  continued f (err e, s) next h = h

  Keeps-bind :
      {A B : Type 0} (m : Exec FlowError (Flow x) A) (f : A → Exec FlowError (Flow x) B)
      → Keeps m
      → ((a : A) → Keeps (f a))
      → Keeps (m >>= f)
  Keeps-bind m f first next = record { after = λ s h. continued f (m s) next (first.after s h) }

  Keeps-call : (r : Request x) → Keeps (in_world x c g now today (complete_json x g r))
  unfolding in_world
  Keeps-call r = record {
    after = λ s h. record {
      in_budget = complete_json-InBudget x g limit r s.world budget h.in_budget;
      urls = h.urls;
      signals = h.signals;
      alerts = h.alerts;
    };
  }

  save_summary-Sound :
      (id : ℕ) (result : NewsSummaryResult) (s : Flow x)
      → Sound s
      → Sound (save_summary x c g now today id result s)
  unfolding save_summary
  save_summary-Sound id result s h = record {
    in_budget = h.in_budget;
    urls = (h.urls.0, update_summary-ItemUrlsUnique id result s.store.news h.urls.1);
    signals = h.signals;
    alerts = h.alerts;
  }

  summarize-Keeps : (id : ℕ) → Keeps (summarize x c g now today id)
  unfolding summarize
  summarize-Keeps id = Keeps-bind _ _ (Keeps-lift (find_item x c g now today id)) λ item.
      Keeps-bind _ _ (Keeps-lift (λ s. ok (body_for item.1 s.store.raw))) λ body.
        Keeps-bind _ _ (Keeps-call (summary_request x c g now today item.1 body)) λ completion.
          Keeps-bind _ _
            (Keeps-lift (λ s. or_err (c.parse_summary completion.output) validation_error))
            λ result.
              Keeps-modify (save_summary x c g now today id result) result
                (save_summary-Sound id result)

  -- a step that changes none of the four
  save_conflict-Sound :
      (id thesis_id : ℕ) (result : ThesisConflictResult) (s : Flow x)
      → Sound s
      → Sound (save_conflict x c g now today id thesis_id result s)
  unfolding save_conflict
  save_conflict-Sound id thesis_id result s h = record {
    in_budget = h.in_budget;
    urls = h.urls;
    signals = h.signals;
    alerts = h.alerts;
  }

  module _ (assets : Assets) (theses : Theses) where
    analyze_conflict-Keeps :
        (id thesis_id : ℕ) → Keeps (analyze_conflict x c g now today theses id thesis_id)
    unfolding analyze_conflict
    analyze_conflict-Keeps id thesis_id =
        Keeps-bind _ _ (Keeps-lift (find_item x c g now today id)) λ item.
          Keeps-bind _ _ (Keeps-lift (λ s. summary_of item.1)) λ summary.
            Keeps-bind _ _
              (Keeps-lift
                (λ s. or_err (get thesis_id theses) (value_error "investment thesis not found")))
              λ thesis.
                Keeps-bind _ _
                  (Keeps-call (conflict_request x c g now today thesis.1 item.1 summary))
                  λ completion.
                    Keeps-bind _ _
                      (Keeps-lift
                        (λ s. or_err (c.parse_conflict completion.output) validation_error))
                      λ result.
                        Keeps-modify (save_conflict x c g now today id thesis_id result) result
                          (save_conflict-Sound id thesis_id result)

    analyze_with-Keeps :
        (id : ℕ) (thesis : Option (ℕ × InvestmentThesis))
        → Keeps (analyze_with x c g now today assets theses id thesis)
    unfolding analyze_with
    analyze_with-Keeps id none = Keeps-lift (λ s. ok none)
    analyze_with-Keeps id (some thesis) =
        Keeps-bind _ _ (analyze_conflict-Keeps id thesis.0)
          λ result. Keeps-lift (λ s. ok (some result))

    save_report-Sound :
        (d : ResearchReportCreate) (s : Flow x)
        → Sound s
        → Sound (save_report x c g now today assets theses d s)
    unfolding save_report
    save_report-Sound d s h = record {
      in_budget = h.in_budget;
      urls = h.urls;
      signals = h.signals;
      alerts = h.alerts;
    }

    run_engine-Keeps : (ctx : RuleContext) → Keeps (run_engine x c g now today assets theses ctx)
    unfolding run_engine
    run_engine-Keeps ctx = record {
      after = λ s h. record {
        in_budget = h.in_budget;
        urls = h.urls;
        signals = run-NoActiveDuplicate now default_rules ctx s.signals h.signals;
        alerts = h.alerts;
      };
    }

    alert_user-Keeps :
        (user_id : ℕ) (signals : List (ℕ × Signal))
        → Keeps (alert_user x c g now today assets theses user_id signals)
    unfolding alert_user
    alert_user-Keeps user_id signals = record {
      after = λ s h. record {
        in_budget = h.in_budget;
        urls = h.urls;
        signals = h.signals;
        alerts = create_alerts-IsDeduplicated now user_id signals s.alerts h.alerts;
      };
    }

    report_and_alert-Keeps :
        (asset_id user_id : ℕ) (thesis : Option (ℕ × InvestmentThesis))
        (result : AssetAnalysisResult) (summary : NewsSummaryResult) (item : ℕ × NewsItem)
        (conflict : Option ThesisConflictResult)
        → Keeps (
            report_and_alert x c g now today assets theses asset_id user_id thesis result summary
              item conflict)
    unfolding report_and_alert
    report_and_alert-Keeps asset_id user_id thesis result summary item conflict =
        Keeps-bind _ _
          (Keeps-modify
            (save_report x c g now today assets theses
              (report_of asset_id item.0 summary thesis conflict))
            tt (save_report-Sound _))
          λ _.
            Keeps-bind _ _
              (run_engine-Keeps (record {
                asset_id = asset_id;
                news_item = item;
                thesis = thesis;
                conflict_result = conflict;
              }))
              λ signals.
                Keeps-bind _ _ (alert_user-Keeps user_id signals)
                  λ alerts. Keeps-lift (λ s. ok (count_item (length signals) alerts result))

    analyze_item-Keeps :
        (asset_id user_id : ℕ) (thesis : Option (ℕ × InvestmentThesis))
        (result : AssetAnalysisResult) (item : ℕ × NewsItem)
        → Keeps (analyze_item x c g now today assets theses asset_id user_id thesis result item)
    unfolding analyze_item
    analyze_item-Keeps asset_id user_id thesis result (id, item) =
        Keeps-bind _ _ (summarize-Keeps id) λ summary.
          Keeps-bind _ _ (Keeps-lift (find_item x c g now today id)) λ item.
            Keeps-bind _ _ (analyze_with-Keeps id thesis)
              (report_and_alert-Keeps asset_id user_id thesis result summary item)

    analyze_items-Keeps :
        (asset_id user_id : ℕ) (thesis : Option (ℕ × InvestmentThesis))
        (items : List (ℕ × NewsItem)) (result : AssetAnalysisResult)
        → Keeps (analyze_items x c g now today assets theses asset_id user_id thesis items result)
    unfolding analyze_items
    analyze_items-Keeps asset_id user_id thesis [] result = Keeps-lift (λ s. ok result)
    analyze_items-Keeps asset_id user_id thesis (item ∷ items) result =
        Keeps-bind _ _ (analyze_item-Keeps asset_id user_id thesis result item)
          (analyze_items-Keeps asset_id user_id thesis items)

    save_raw-Keeps :
        (results : List NewsAdapterResult) → Keeps (save_raw x c g now today assets theses results)
    unfolding save_raw
    save_raw-Keeps results = record {
      after = λ s h. record {
        in_budget = h.in_budget;
        urls = (collect_and_save-RawUrlsUnique c.fits now results s.store.raw h.urls.0, h.urls.1);
        signals = h.signals;
        alerts = h.alerts;
      };
    }

    make_items-Keeps :
        (asset_id : ℕ) (results : List NewsAdapterResult)
        → Keeps (make_items x c g now today assets theses asset_id results)
    unfolding make_items
    make_items-Keeps asset_id results = record {
      after = λ s h. record {
        in_budget = h.in_budget;
        urls = create_new_items-UrlsUnique now asset_id [] results s.store h.urls;
        signals = h.signals;
        alerts = h.alerts;
      };
    }

    process_asset-Keeps :
        (user_id : ℕ) (asset : ℕ × Asset)
        → Keeps (process_asset x c g now today assets theses user_id asset)
    unfolding process_asset
    process_asset-Keeps user_id (asset_id, asset) =
        Keeps-bind _ _ (Keeps-lift (λ s. fetched x c g now today assets theses asset)) λ results.
          Keeps-bind _ _ (save_raw-Keeps results) λ _.
            Keeps-bind _ _ (make_items-Keeps asset_id results) λ items.
              analyze_items-Keeps asset_id user_id (get_latest_by_asset asset_id user_id theses)
                items (no_result (length items))

    processed-Sound :
        (asset_id : ℕ) (r : AnalysisFlowResult) (e : Result FlowError AssetAnalysisResult × Flow x)
        → Sound e.1
        → Sound (processed x c g now today assets theses asset_id r e).1
    unfolding processed
    processed-Sound asset_id r (ok a, s) h = h
    processed-Sound asset_id r (err e, s) h = h

    process_found-Sound :
        (user_id asset_id : ℕ) (asset : Option (ℕ × Asset)) (r : AnalysisFlowResult) (s : Flow x)
        → Sound s
        → Sound (process_found x c g now today assets theses user_id asset_id asset (r, s)).1
    unfolding process_found
    process_found-Sound user_id asset_id none r s h = h
    process_found-Sound user_id asset_id (some asset) r s h =
        processed-Sound asset_id r _ ((process_asset-Keeps user_id asset).after s h)

    process_items-Sound :
        (user_id : ℕ) (items : List (ℕ × WatchlistItem)) (r : AnalysisFlowResult) (s : Flow x)
        → Sound s
        → Sound (process_items x c g now today assets theses user_id items (r, s)).1
    unfolding process_items
    process_items-Sound user_id [] r s h = h
    process_items-Sound user_id ((i, item) ∷ items) r s h =
        process_items-Sound user_id items _ _
          (process_found-Sound user_id item.asset_id (get item.asset_id assets) r s h)

    run_found-Sound :
        (watchlists : Watchlists) (items : Items) (watchlist_id : ℕ)
        (found : Option (ℕ × Watchlist)) (s : Flow x)
        → Sound s
        → Sound (run_found x c g now today assets theses watchlists items watchlist_id found s).1
    unfolding run_found
    run_found-Sound watchlists items watchlist_id none s h = h
    run_found-Sound watchlists items watchlist_id (some (i, w)) s h =
        process_items-Sound w.user_id (list_by_watchlist watchlist_id 0 none "priority" items)
          (initial x c g now today assets theses watchlist_id) s h

    -- A watchlist analysis keeps all of this, also where the model, the adapter or a lookup fails on the way:
    -- the daily limit of cloud calls, distinct keys and URLs of the news tables, signals without active
    -- duplicates, and one alert for each deduplication key.
    pub run-Sound :
        (watchlists : Watchlists) (items : Items) (watchlist_id : ℕ) (s : Flow x)
        → Sound s
        → Sound (run x c g now today assets theses watchlists items watchlist_id s).1
    unfolding run
    run-Sound watchlists items watchlist_id s h =
        run_found-Sound watchlists items watchlist_id (get watchlist_id watchlists) s h
