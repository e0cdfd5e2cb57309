-- ===== src/RawNews/Ingestion/Accounts.antt =====
-- The counters of a news collection add up, and its tables keep their URLs distinct.
use project_stock.Base.{
  ℕ, suc, ◌+◌, ◌≤◌, String, Bool, true, false, Option, none, some, List, [], ◌∷◌, ◌≡◌, refl, length,
  arith, if◌then◌else◌,
}
use project_stock.Base.Exec.{Result, ok, err, Ensures, Ensures-bind}
use project_stock.Store.{get}
use project_stock.Assets.{Assets}
use project_stock.RawNews.{RawNewsEvent, NewsAdapterResult, NewsError, save_with_symbol, save}
use project_stock.RawNews.Urls.{save-RawUrlsUnique}
use project_stock.News.{NewsItem}
use project_stock.News.Normalization.{Texts, NewsStore, normalize_event}
use project_stock.News.Normalization.Urls.{UrlsUnique, normalize_event-UrlsUnique}
use project_stock.RawNews.Ingestion.{
  NewsIngestionResult, Counts, is_normalized, after_normalization, after_save, collect_entry,
  collect_entries, no_counts, collected, collect_target, collect_all, collect_and_save, initial,
}

-- What the counters say about the targets that are done.
abbrev pub NewsAddsUp : ℕ → NewsIngestionResult → Type 0
NewsAddsUp done r =
    (r.success_count + r.failure_count ≡ done)
    × (r.saved_count + r.skipped_count ≡ r.received_count)
    × (r.normalized_count ≤ r.saved_count)

one_at_most : (b : Bool) → (if b then 1 else 0) ≤ 1
one_at_most true = omega arith
one_at_most false = omega arith

none_more : (m : ℕ) → m + 0 ≡ m
none_more m = omega arith

one_more : (m n : ℕ) → m + suc n ≡ (m + 1) + n
one_more m n = omega arith

none_before : (m : ℕ) → 0 + m ≡ m
none_before m = omega arith

module _ (x : Texts) (now : ℕ) (assets : Assets)
    (fetch_query : String → String → Result String (List NewsAdapterResult)) where
  -- the same of the loop over the entries of one target
  abbrev Counted : ℕ → Counts → Type 0
  Counted done c = (c.saved + c.skipped ≡ done) × (c.normalized ≤ c.saved)

  -- The counts are right if the loop went on; the URLs are distinct either way.
  abbrev Loops : {A : Type 0} → (A → Type 0) → Result NewsError A × NewsStore → Type 0
  Loops P = Ensures (λ a s. P a × UrlsUnique s) UrlsUnique

  after_normalization-Loops :
      (id done : ℕ) (c : Counts) (r : Result NewsError (Option (ℕ × NewsItem)) × NewsStore)
      → Counted done c
      → UrlsUnique r.1
      → Loops (Counted (done + 1)) (after_normalization x now assets fetch_query c id r)
  unfolding after_normalization
  after_normalization-Loops id done c (err e, s) h k = k
  after_normalization-Loops id done c (ok item, s) h k =
      ((omega (arith, h.0), omega (arith, h.1, one_at_most (is_normalized (get id s.raw)))), k)

  after_save-Loops :
      (event : Result NewsError (Option (ℕ × RawNewsEvent))) (done : ℕ) (c : Counts) (s : NewsStore)
      → Counted done c
      → UrlsUnique s
      → Loops (Counted (done + 1)) (after_save x now assets fetch_query c event s)
  unfolding after_save
  after_save-Loops (err e) done c s h k = k
  after_save-Loops (ok none) done c s h k = ((omega (arith, h.0), h.1), k)
  after_save-Loops (ok (some event)) done c s h k =
      after_normalization-Loops event.0 done c (normalize_event x now assets event s) h
        (normalize_event-UrlsUnique x now assets event s k)

  collect_entries-Loops :
      (symbol market : String) (entries : List NewsAdapterResult) (done : ℕ) (c : Counts)
      (s : NewsStore)
      → Counted done c
      → UrlsUnique s
      → Loops
          (Counted (done + length entries))
          (collect_entries x now assets fetch_query symbol market entries c s)
  unfolding collect_entries collect_entry save_with_symbol
  collect_entries-Loops symbol market [] done c s h k = (rw (none_more done) h, k)
  collect_entries-Loops symbol market (entry ∷ entries) done c s h k =
      let saved = save x.fits now entry (some symbol) (some market) s.raw in
      Ensures-bind (λ a s. Counted (done + 1) a × UrlsUnique s)
        (λ a s. Counted (done + length (entry ∷ entries)) a × UrlsUnique s) UrlsUnique
        (after_save x now assets fetch_query c saved.0 (record s { raw = saved.1 }))
        (collect_entries x now assets fetch_query symbol market entries)
        (after_save-Loops saved.0 done c (record s { raw = saved.1 }) h
          (save-RawUrlsUnique x.fits now entry (some symbol) (some market) s.raw k.0, k.1))
        (λ c' s' p.
          rw (one_more done (length entries))
            (collect_entries-Loops symbol market entries (done + 1) c' s' p.0 p.1))

  collected-Loops :
      (symbol market : String) (fetched : Result String (List NewsAdapterResult)) (done : ℕ)
      (r : NewsIngestionResult) (s : NewsStore)
      → NewsAddsUp done r
      → UrlsUnique s
      → Loops (NewsAddsUp (done + 1)) (collected x now assets fetch_query symbol market fetched r s)
  unfolding collected
  collected-Loops symbol market (err e) done r s h k = ((omega (arith, h.0), h.1, h.2), k)
  collected-Loops symbol market (ok entries) done r s h k =
      Ensures-bind (λ c s. Counted (0 + length entries) c × UrlsUnique s)
        (λ r s. NewsAddsUp (done + 1) r × UrlsUnique s) UrlsUnique
        (collect_entries x now assets fetch_query symbol market entries
          (no_counts x now assets fetch_query) s)
        _
        (collect_entries-Loops symbol market entries 0 (no_counts x now assets fetch_query) s
          (refl, omega arith) k)
        (λ c s' p.
          ((omega (arith, h.0), omega (arith, h.1, p.0.0), omega (arith, h.2, p.0.1)), p.1))

  collect_all-Loops :
      (targets : List (String × (String × String))) (done : ℕ) (r : NewsIngestionResult)
      (s : NewsStore)
      → NewsAddsUp done r
      → UrlsUnique s
      → Loops
          (NewsAddsUp (done + length targets))
          (collect_all x now assets fetch_query targets r s)
  unfolding collect_all collect_target
  collect_all-Loops [] done r s h k = (rw (none_more done) h, k)
  collect_all-Loops ((symbol, (market, name)) ∷ targets) done r s h k =
      Ensures-bind (λ r s. NewsAddsUp (done + 1) r × UrlsUnique s)
        (λ r s. NewsAddsUp (done + suc (length targets)) r × UrlsUnique s) UrlsUnique
        (collected x now assets fetch_query (x.upper symbol) (x.upper market)
          (fetch_query name (x.upper market)) r s)
        (collect_all x now assets fetch_query targets)
        (collected-Loops (x.upper symbol) (x.upper market) (fetch_query name (x.upper market)) done
          r s h k)
        (λ r' s' p.
          rw (one_more done (length targets)) (collect_all-Loops targets (done + 1) r' s' p.0 p.1))

  -- A collection that returns counts each target as a success or a failure, each received entry as saved or
  -- skipped, and at most the saved ones as normalized. Whether it returns or an entry makes it raise, it keeps the
  -- keys and URLs of both news tables distinct.
  pub collect_and_save-NewsAddsUp :
      (targets : List (String × (String × String))) (s : NewsStore)
      → UrlsUnique s
      → Ensures
          (λ r s'. NewsAddsUp (length targets) r × UrlsUnique s')
          UrlsUnique
          (collect_and_save x now assets fetch_query targets s)
  unfolding collect_and_save
  collect_and_save-NewsAddsUp targets s h =
      at_total (0 + length targets) (length targets) (none_before (length targets)) _ (
        collect_all-Loops targets 0 (initial x now assets fetch_query (length targets)) s
          (refl, refl, omega arith) h)
    where
      at_total :
          (m n : ℕ)
          → m ≡ n
          → (r : Result NewsError NewsIngestionResult × NewsStore) → Loops (NewsAddsUp m) r
          → Loops (NewsAddsUp n) r
      at_total m n e r h = rw⁻¹ e h
