-- ===== src/RawNews/Ingestion.antt =====
-- app/domains/raw_news/ingestion_service.py: `NewsIngestionService.collect_and_save`.
pub mod Accounts
use project_stock.Base.{
  ℕ, ◌+◌, String, Bool, true, false, Option, none, some, List, [], ◌∷◌, length, str_eq,
  if◌then◌else◌,
}
use project_stock.Base.Exec.{Result, ok, err, Exec, pure, ◌>>=◌}
use project_stock.Store.{get}
use project_stock.Assets.{Assets}
use project_stock.RawNews.{
  RawNewsEvent, RawNewsEvents, NewsAdapterResult, NewsError, save_with_symbol, processing_value,
  normalized,
}
use project_stock.News.{NewsItem}
use project_stock.News.Normalization.{Texts, NewsStore, normalize_event}

-- `IngestionResult`
pub record NewsIngestionResult : Type 0 where
  pub target_count : ℕ
  pub success_count : ℕ
  pub failure_count : ℕ
  pub received_count : ℕ
  pub saved_count : ℕ
  pub skipped_count : ℕ
  pub normalized_count : ℕ

-- the counters of the loop over the entries of one target
pub record Counts : Type 0 where
  pub saved : ℕ
  pub skipped : ℕ
  pub normalized : ℕ

is_normalized : Option (ℕ × RawNewsEvent) → Bool
is_normalized none = false
is_normalized (some (i, e)) = str_eq e.processing_status (processing_value normalized)

module _ (x : Texts) (now : ℕ) (assets : Assets)
    (fetch_query : String → String → Result String (List NewsAdapterResult)) where
  after_normalization :
      Counts
      → ℕ
      → Result NewsError (Option (ℕ × NewsItem)) × NewsStore
      → Result NewsError Counts × NewsStore
  unfolding is_normalized
  after_normalization c id (err e, s) = (err e, s)
  after_normalization c id (ok item, s) = (
    ok (record c {
      saved = c.saved + 1;
      normalized = c.normalized + (if is_normalized (get id s.raw) then 1 else 0);
    }),
    s,
  )

  after_save :
      Counts
      → Result NewsError (Option (ℕ × RawNewsEvent))
      → NewsStore
      → Result NewsError Counts × NewsStore
  unfolding after_normalization
  after_save c (err e) s = (err e, s)
  after_save c (ok none) s = (ok (record c { skipped = c.skipped + 1 }), s)
  after_save c (ok (some event)) s =
      after_normalization c event.0 (normalize_event x now assets event s)

  -- One round of the loop over the entries. What it raises, no one catches.
  collect_entry :
      String → String → NewsAdapterResult → Counts → NewsStore → Result NewsError Counts × NewsStore
  unfolding after_save
  collect_entry symbol market entry c s =
      let (event, raw') = save_with_symbol x.fits now entry symbol market s.raw in
      after_save c event (record s { raw = raw' })

  collect_entries :
      String → String → List NewsAdapterResult → Counts → Exec NewsError NewsStore Counts
  unfolding collect_entry
  collect_entries symbol market [] c = pure c
  collect_entries symbol market (entry ∷ entries) c =
      collect_entry symbol market entry c >>= λ c'. collect_entries symbol market entries c'

  abbrev pub no_counts : Counts
  no_counts = record { saved = 0; skipped = 0; normalized = 0 }

  abbrev count_target : ℕ → Counts → NewsIngestionResult → NewsIngestionResult
  count_target received c r = record r {
    success_count = r.success_count + 1;
    received_count = r.received_count + received;
    saved_count = r.saved_count + c.saved;
    skipped_count = r.skipped_count + c.skipped;
    normalized_count = r.normalized_count + c.normalized;
  }

  collected :
      String
      → String
      → Result String (List NewsAdapterResult)
      → NewsIngestionResult
      → Exec NewsError NewsStore NewsIngestionResult
  unfolding collect_entries
  collected symbol market (err e) r = pure (record r { failure_count = r.failure_count + 1 })
  collected symbol market (ok entries) r = collect_entries symbol market entries no_counts >>= λ c.
      pure (count_target (length entries) c r)

  -- `NewsIngestionService._collect_target`
  unfoldable pub collect_target :
      String × (String × String)
      → NewsIngestionResult
      → Exec NewsError NewsStore NewsIngestionResult
  unfolding collected
  collect_target (symbol, (market, name)) r =
      collected (x.upper symbol) (x.upper market) (fetch_query name (x.upper market)) r

  abbrev pub initial : ℕ → NewsIngestionResult
  initial target_count = record {
    target_count = target_count;
    success_count = 0;
    failure_count = 0;
    received_count = 0;
    saved_count = 0;
    skipped_count = 0;
    normalized_count = 0;
  }

  collect_all :
      List (String × (String × String))
      → NewsIngestionResult
      → Exec NewsError NewsStore NewsIngestionResult
  unfolding collect_target
  collect_all [] r = pure r
  collect_all (target ∷ targets) r = collect_target target r >>= λ r'. collect_all targets r'

  -- `NewsIngestionService.collect_and_save`
  unfoldable pub collect_and_save :
      List (String × (String × String)) → Exec NewsError NewsStore NewsIngestionResult
  unfolding collect_all
  collect_and_save targets = collect_all targets (initial (length targets))
