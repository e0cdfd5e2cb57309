-- ===== src/Analysis/Run/Accounts.antt =====
-- The counters of a watchlist analysis, beside the reports that it stores.
use project_stock.Base.{
  ℕ, suc, ◌+◌, ◌≤◌, String, Bool, true, false, Option, none, some, List, [], ◌∷◌, ◌≡◌, refl, ◌∙◌,
  length, length-append, arith, is_some, if◌then◌else◌,
}
use project_stock.Base.Exec.{
  Result, ok, err, Exec, Ensures, Ensures-bind, continue, or_err, ◌>>=◌, modify, pure, lift,
}
use project_stock.Store.{add, get}
use project_stock.Errors.{AppException, not_found, watchlist_not_found}
use project_stock.Llm.Externals.{Externals}
use project_stock.Llm.Gateway.{Gateway, Request, complete_json}
use project_stock.Reports.{Reports, ResearchReportCreate, create_report}
use project_stock.Assets.{Asset, Assets}
use project_stock.News.{NewsItem, NewsSummaryResult}
use project_stock.Theses.{InvestmentThesis, Theses, ThesisConflictResult, get_latest_by_asset}
use project_stock.Signals.{Signal}
use project_stock.Signals.Rules.{default_rules}
use project_stock.Signals.Rules.{run as run_rules}
use project_stock.Alerts.{Alerts, create_alert}
use project_stock.Watchlists.{Watchlist, WatchlistItem, Watchlists, Items, list_by_watchlist}
use project_stock.Analysis.{
  Calls, Flow, FlowError, value_error, validation_error, summarize, find_item, in_world,
  save_summary, analyze_conflict, save_conflict, body_for, summary_request, conflict_request,
  summary_of,
}
use project_stock.Analysis.Run.{
  AssetAnalysisResult, AnalysisFlowResult, create_alerts, alert_user, report_and_alert,
  analyze_item, analyze_items, process_asset, processed, process_found, process_items, run_found,
  run, no_result, initial, count_item, failed, count_asset, Failure, asset_missing, raised,
  make_items, save_report, report_of, run_engine, analyze_with, fetched, save_raw,
}

at_most_one : (b : Bool) (m n : ℕ) → m ≤ n → (if b then 1 else 0) + m ≤ suc n
at_most_one true m n h = omega (arith, h)
at_most_one false m n h = omega (arith, h)

create_alerts_bound :
    (now user_id : ℕ) (signals : List (ℕ × Signal)) (t : Alerts)
    → (create_alerts now user_id signals t).0 ≤ length signals
unfolding create_alerts
create_alerts_bound now user_id [] t = omega arith
create_alerts_bound now user_id (signal ∷ signals) t =
    at_most_one (is_some (create_alert now user_id signal t).0) _ (length signals)
      (create_alerts_bound now user_id signals (create_alert now user_id signal t).1)

-- What the counters of one asset say after the reports of some of its news items.
abbrev AssetCounts : ℕ → ℕ → AssetAnalysisResult → Type 0
AssetCounts made reported a =
    (a.created_news_items ≡ made)
    × (a.created_reports ≡ reported)
    × (a.created_alerts ≤ a.created_signals)

-- What the counters say after some of the items of a watchlist.
abbrev pub AddsUp : ℕ → AnalysisFlowResult → Type 0
AddsUp done r =
    (r.processed_assets + length r.failures ≡ done)
    × (r.created_reports ≡ r.created_news_items)
    × (r.created_alerts ≤ r.created_signals)

none_more : (m : ℕ) → m + 0 ≡ m
none_more m = omega arith

one_more : (m n : ℕ) → m + suc n ≡ (m + 1) + n
one_more m n = omega arith

none_before : (m : ℕ) → 0 + m ≡ m
none_before m = omega arith

module _ (x : Externals) (c : Calls x) (g : Gateway x) (now : ℕ) (today : String) (assets : Assets)
    (theses : Theses) where
  abbrev pub stored : Flow x → ℕ
  stored s = length s.reports.rows

  -- A method leaves the reports as they are, however it ends.
  record Quiet {A : Type 0} (m : Exec FlowError (Flow x) A) : Type 0 where
    same : (s : Flow x) → (m s).1.reports ≡ s.reports

  continue-Quiet :
      {A B : Type 0} (f : A → Exec FlowError (Flow x) B) (t : Reports)
      (r : Result FlowError A × Flow x)
      → ((a : A) → Quiet (f a))
      → r.1.reports ≡ t
      → (continue f r).1.reports ≡ t
  continue-Quiet f t (ok a, s) next h = (next a).same s ∙ h
  continue-Quiet f t (err e, s) next h = h

  Quiet-bind :
      {A B : Type 0} (m : Exec FlowError (Flow x) A) (f : A → Exec FlowError (Flow x) B)
      → Quiet m
      → ((a : A) → Quiet (f a))
      → Quiet (m >>= f)
  Quiet-bind m f first next = record {
    same = λ s. continue-Quiet f s.reports (m s) next (first.same s);
  }

  Quiet-call : (r : Request x) → Quiet (in_world x c g now today (complete_json x g r))
  unfolding in_world
  Quiet-call r = record { same = λ s. refl }

  Quiet-lift : {A : Type 0} (f : Flow x → Result FlowError A) → Quiet (λ s. (f s, s))
  Quiet-lift f = record { same = λ s. refl }

  Quiet-modify :
      {A : Type 0} (f : Flow x → Flow x) (a : A)
      → ((s : Flow x) → (f s).reports ≡ s.reports)
      → Quiet (λ s. (ok a, f s))
  Quiet-modify f a h = record { same = h }

  summarize-Quiet : (id : ℕ) → Quiet (summarize x c g now today id)
  unfolding summarize save_summary
  summarize-Quiet id = Quiet-bind _ _ (Quiet-lift (find_item x c g now today id)) λ item.
      Quiet-bind _ _ (Quiet-lift (λ s. ok (body_for item.1 s.store.raw))) λ body.
        Quiet-bind _ _ (Quiet-call (summary_request x c g now today item.1 body)) λ completion.
          Quiet-bind _ _
            (Quiet-lift (λ s. or_err (c.parse_summary completion.output) validation_error))
            λ result. Quiet-modify (save_summary x c g now today id result) result (λ s. refl)

  analyze_conflict-Quiet :
      (id thesis_id : ℕ) → Quiet (analyze_conflict x c g now today theses id thesis_id)
  unfolding analyze_conflict save_conflict
  analyze_conflict-Quiet id thesis_id =
      Quiet-bind _ _ (Quiet-lift (find_item x c g now today id)) λ item.
        Quiet-bind _ _ (Quiet-lift (λ s. summary_of item.1)) λ summary.
          Quiet-bind _ _
            (Quiet-lift
              (λ s. or_err (get thesis_id theses) (value_error "investment thesis not found")))
            λ thesis.
              Quiet-bind _ _ (Quiet-call (conflict_request x c g now today thesis.1 item.1 summary))
                λ completion.
                  Quiet-bind _ _
                    (Quiet-lift (λ s. or_err (c.parse_conflict completion.output) validation_error))
                    λ result.
                      Quiet-modify (save_conflict x c g now today id thesis_id result) result
                        (λ s. refl)

  analyze_with-Quiet :
      (id : ℕ) (thesis : Option (ℕ × InvestmentThesis))
      → Quiet (analyze_with x c g now today assets theses id thesis)
  unfolding analyze_with
  analyze_with-Quiet id none = record { same = λ s. refl }
  analyze_with-Quiet id (some thesis) =
      Quiet-bind _ _ (analyze_conflict-Quiet id thesis.0)
        λ result. Quiet-lift (λ s. ok (some result))

  -- From at least `start` stored reports, what a method returns has the property with the reports then stored;
  -- if it raises, at least `low` are stored.
  record Returns {A : Type 0} (low start : ℕ) (P : A → ℕ → Type 0) (m : Exec FlowError (Flow x) A)
      : Type 0 where
    result :
        (s : Flow x)
        → start ≤ stored s
        → Ensures (λ a s'. P a (stored s')) (λ s'. low ≤ stored s') (m s)

  Returns-bind :
      {A B : Type 0} (low start next_start : ℕ) (P : A → Type 0) (Q : B → ℕ → Type 0)
      (m : Exec FlowError (Flow x) A) (f : A → Exec FlowError (Flow x) B)
      → Returns low start (λ a n. P a × (next_start ≤ n)) m
      → ((a : A) → P a → Returns low next_start Q (f a))
      → Returns low start Q (m >>= f)
  Returns-bind low start next_start P Q m f first next = record {
    result = λ s h.
        Ensures-bind (λ a s'. P a × (next_start ≤ stored s')) (λ b s'. Q b (stored s'))
          (λ s'. low ≤ stored s') (m s) f (first.result s h) λ a s' p. (next a p.0).result s' p.1;
  }

  continued :
      {A B : Type 0} (low start : ℕ) (Q : B → ℕ → Type 0) (f : A → Exec FlowError (Flow x) B)
      (r : Result FlowError A × Flow x)
      → low ≤ start
      → ((a : A) → Returns low start Q (f a))
      → start ≤ stored r.1
      → Ensures (λ b s'. Q b (stored s')) (λ s'. low ≤ stored s') (continue f r)
  continued low start Q f (ok a, s) below next h = (next a).result s h
  continued low start Q f (err e, s) below next h = omega (arith, below, h)

  -- a step that leaves the reports as they are
  Quiet-then :
      {A B : Type 0} {low start : ℕ} (Q : B → ℕ → Type 0) (m : Exec FlowError (Flow x) A)
      (f : A → Exec FlowError (Flow x) B)
      → low ≤ start
      → Quiet m
      → ((a : A) → Returns low start Q (f a))
      → Returns low start Q (m >>= f)
  Quiet-then {low = low} {start = start} Q m f below quiet next = record {
    result = λ s h. continued low start Q f (m s) below next (rw (quiet.same s) h);
  }

  -- a step that stores one report
  after_report :
      {B : Type 0} {low start : ℕ} (Q : B → ℕ → Type 0) (d : ResearchReportCreate)
      (f : Unit {0} → Exec FlowError (Flow x) B)
      → Returns low (start + 1) Q (f tt)
      → Returns low start Q (modify (save_report x c g now today assets theses d) >>= f)
  unfolding save_report create_report add
  after_report Q d f next = record {
    result = λ s h. next.result _ (omega (arith, h, length-append s.reports.rows (_ ∷ [])));
  }

  abbrev Reported : ℕ → ℕ → ℕ → AssetAnalysisResult → ℕ → Type 0
  Reported low made done a n = AssetCounts made done a × (low + done ≤ n)

  report_and_alert-Returns :
      (asset_id user_id : ℕ) (thesis : Option (ℕ × InvestmentThesis)) (low made done : ℕ)
      (r : AssetAnalysisResult) (summary : NewsSummaryResult) (item : ℕ × NewsItem)
      (conflict : Option ThesisConflictResult)
      → AssetCounts made done r
      → Returns low (low + done) (Reported low made (done + 1)) (
          report_and_alert x c g now today assets theses asset_id user_id thesis r summary item
            conflict)
  unfolding report_and_alert count_item alert_user run_engine
  report_and_alert-Returns asset_id user_id thesis low made done r summary item conflict h =
      after_report (Reported low made (done + 1))
        (report_of asset_id item.0 summary thesis conflict)
        (λ _.
          run_engine x c g now today assets theses (record {
            asset_id = asset_id;
            news_item = item;
            thesis = thesis;
            conflict_result = conflict;
          })
          >>= λ signals. alert_user x c g now today assets theses user_id signals >>= λ alerts.
              pure (count_item (length signals) alerts r))
        (record {
          result = λ s k. (
            (
              h.0,
              omega (arith, h.1),
              omega (
                arith,
                h.2,
                create_alerts_bound now user_id
                    (run_rules now default_rules
                      (record {
                        asset_id = asset_id;
                        news_item = item;
                        thesis = thesis;
                        conflict_result = conflict;
                      })
                      s.signals).0
                    s.alerts,
              ),
            ),
            omega (arith, k),
          );
        })

  analyze_items-Returns :
      (asset_id user_id : ℕ) (thesis : Option (ℕ × InvestmentThesis)) (items : List (ℕ × NewsItem))
      (low made done : ℕ) (r : AssetAnalysisResult)
      → AssetCounts made done r
      → Returns low
          (low + done)
          (Reported low made (done + length items))
          (analyze_items x c g now today assets theses asset_id user_id thesis items r)
  unfolding analyze_items analyze_item
  analyze_items-Returns asset_id user_id thesis [] low made done r h = record {
    result = λ s k. rw (none_more done) (h, k);
  }
  analyze_items-Returns asset_id user_id thesis ((id, item) ∷ items) low made done r h =
      Returns-bind low (low + done) (low + (done + 1)) (AssetCounts made (done + 1)) _
        (analyze_item x c g now today assets theses asset_id user_id thesis r (id, item))
        (analyze_items x c g now today assets theses asset_id user_id thesis items)
        (Quiet-then _ (summarize x c g now today id) _ (omega arith) (summarize-Quiet id) λ summary.
          Quiet-then _ (λ s. (find_item x c g now today id s, s)) _ (omega arith)
            (record { same = λ s. refl })
            λ item.
              Quiet-then _ (analyze_with x c g now today assets theses id thesis) _ (omega arith)
                (analyze_with-Quiet id thesis)
                λ conflict.
                  report_and_alert-Returns asset_id user_id thesis low made done r summary item
                    conflict h)
        λ r' h'.
          rw (one_more done (length items))
            (analyze_items-Returns asset_id user_id thesis items low made (done + 1) r' h')

  -- as many reports as items are counted, and as many are stored
  abbrev Complete : ℕ → AssetAnalysisResult → ℕ → Type 0
  Complete low a n =
      (a.created_reports ≡ a.created_news_items)
      × (a.created_alerts ≤ a.created_signals)
      × (low + a.created_reports ≤ n)

  Complete-all :
      (low n : ℕ) (r : Result FlowError AssetAnalysisResult × Flow x)
      → Ensures (λ a s. Reported low n (0 + n) a (stored s)) (λ s. low ≤ stored s) r
      → Ensures (λ a s. Complete low a (stored s)) (λ s. low ≤ stored s) r
  Complete-all low n (ok a, s) h = (omega (arith, h.0.0, h.0.1), h.0.2, omega (arith, h.0.1, h.1))
  Complete-all low n (err e, s) h = h

  process_asset-Returns :
      (user_id : ℕ) (asset : ℕ × Asset) (low : ℕ)
      → Returns low low (Complete low) (process_asset x c g now today assets theses user_id asset)
  unfolding process_asset no_result save_raw make_items
  process_asset-Returns user_id (asset_id, asset) low =
      Quiet-then _ (lift (fetched x c g now today assets theses asset)) _ (omega arith)
        (record { same = λ s. refl })
        λ results.
          Quiet-then _ (save_raw x c g now today assets theses results) _ (omega arith)
            (record { same = λ s. refl })
            λ _.
              Quiet-then _ (make_items x c g now today assets theses asset_id results) _
                (omega arith) (record { same = λ s. refl })
                λ items. record {
                  result = λ s h. Complete-all low (length items) _ (
                      (analyze_items-Returns asset_id user_id
                          (get_latest_by_asset asset_id user_id theses) items low (length items) 0
                          (no_result (length items)) (refl, refl, omega arith)).result
                        s (omega (arith, h)));
                }

  one_failure :
      (asset_id : ℕ) (f : Failure) (done : ℕ) (r : AnalysisFlowResult)
      → AddsUp done r
      → AddsUp (done + 1) (failed x c g now today assets theses asset_id f r)
  unfolding failed
  one_failure asset_id f done r h =
      (omega (arith, h.0, length-append r.failures ((asset_id, f) ∷ [])), h.1, h.2)

  -- the counters add up, and the reports that they count were stored beside the `base` earlier ones
  abbrev Accounted : ℕ → ℕ → AnalysisFlowResult × Flow x → Type 0
  Accounted base done (r, s) = AddsUp done r × (base + r.created_reports ≤ stored s)

  processed-Accounted :
      (asset_id base done : ℕ) (r : AnalysisFlowResult)
      (e : Result FlowError AssetAnalysisResult × Flow x)
      → Ensures
          (λ a s. Complete (base + r.created_reports) a (stored s))
          (λ s. base + r.created_reports ≤ stored s)
          e
      → AddsUp done r
      → Accounted base (done + 1) (processed x c g now today assets theses asset_id r e)
  unfolding processed count_asset
  processed-Accounted asset_id base done r (ok a, s) whole h = (
    (omega (arith, h.0), omega (arith, h.1, whole.0), omega (arith, h.2, whole.1)),
    omega (arith, whole.2),
  )
  processed-Accounted asset_id base done r (err e, s) whole h =
      (one_failure asset_id (raised e) done r h, whole)

  process_found-Accounted :
      (user_id asset_id : ℕ) (asset : Option (ℕ × Asset)) (base done : ℕ) (r : AnalysisFlowResult)
      (s : Flow x)
      → Accounted base done (r, s)
      → Accounted base
          (done + 1)
          (process_found x c g now today assets theses user_id asset_id asset (r, s))
  unfolding process_found failed
  process_found-Accounted user_id asset_id none base done r s h =
      (one_failure asset_id asset_missing done r h.0, h.1)
  process_found-Accounted user_id asset_id (some asset) base done r s h =
      processed-Accounted asset_id base done r
        (process_asset x c g now today assets theses user_id asset s)
        ((process_asset-Returns user_id asset (base + r.created_reports)).result s h.1) h.0

  process_items-Accounted :
      (user_id : ℕ) (items : List (ℕ × WatchlistItem)) (base done : ℕ)
      (s : AnalysisFlowResult × Flow x)
      → Accounted base done s
      → Accounted base
          (done + length items)
          (process_items x c g now today assets theses user_id items s)
  unfolding process_items
  process_items-Accounted user_id [] base done s h = rw (none_more done) h
  process_items-Accounted user_id ((i, item) ∷ items) base done (r, s) h =
      rw (one_more done (length items)) (
        process_items-Accounted user_id items base (done + 1) _ (
          process_found-Accounted user_id item.asset_id (get item.asset_id assets) base done r s h))

  -- What an analysis from a state answers: 404 for an unknown watchlist, and else counters that account for
  -- each item, with the reports that they count stored beside the earlier ones.
  abbrev pub Answers :
      ℕ
      → Option (ℕ × Watchlist)
      → Items
      → Flow x
      → Result AppException AnalysisFlowResult × Flow x
      → Type 0
  Answers watchlist_id none items s (r, s') = r ≡ err (not_found watchlist_not_found)
  Answers watchlist_id (some w) items s (err e, s') = ⊥
  Answers watchlist_id (some w) items s (ok r, s') =
      AddsUp (length (list_by_watchlist watchlist_id 0 none "priority" items)) r
      × (stored s + r.created_reports ≤ stored s')

  run_found-Answers :
      (watchlists : Watchlists) (items : Items) (watchlist_id : ℕ) (found : Option (ℕ × Watchlist))
      (s : Flow x)
      → Answers watchlist_id found items s
          (run_found x c g now today assets theses watchlists items watchlist_id found s)
  unfolding run_found initial
  run_found-Answers watchlists items watchlist_id none s = refl
  run_found-Answers watchlists items watchlist_id (some (i, w)) s =
      let listed = list_by_watchlist watchlist_id 0 none "priority" items in
      let h =
        process_items-Accounted w.user_id listed (stored s) 0
          (initial x c g now today assets theses watchlist_id, s)
          ((refl, refl, omega arith), omega arith) in
      ((h.0.0 ∙ none_before (length listed), h.0.1, h.0.2), h.1)

  -- An unknown watchlist is 404. Else an analysis returns, and its counters count each item of the watchlist as
  -- processed or as a failure, as many reports as news items, and at most as many alerts as signals; and at
  -- least as many reports as are counted were added to the table.
  pub run-Answers :
      (watchlists : Watchlists) (items : Items) (watchlist_id : ℕ) (s : Flow x)
      → Answers watchlist_id
          (get watchlist_id watchlists)
          items
          s
          (run x c g now today assets theses watchlists items watchlist_id s)
  unfolding run
  run-Answers watchlists items watchlist_id s =
      run_found-Answers watchlists items watchlist_id (get watchlist_id watchlists) s
