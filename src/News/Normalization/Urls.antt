-- ===== src/News/Normalization/Urls.antt =====
-- The tables of the news keep their primary keys and no URL stands twice.
use project_stock.Base.{
  ℕ, String, Bool, true, false, Option, none, some, ◌≡◌, refl, str_eq, any-append, inl, inr,
  Bool-cases, arith, eq_refl,
}
use project_stock.Base.Exec.{Result, ok, err}
use project_stock.Store.{add, update}
use project_stock.Store.Laws.{
  Unique, IsKeyed, add-IsKeyed, add-Unique, update-IsKeyed, update_rows-Unique,
}
use project_stock.Assets.{Asset, Assets}
use project_stock.RawNews.Urls.{RawUrlsUnique, mark-RawUrlsUnique}
use project_stock.RawNews.{RawNewsEvent, NewsError}
use project_stock.News.{
  NewsItem, NewsItemCreate, NewsItems, create, exists_by_url, NewsSummaryResult, with_summary,
  update_summary,
}
use project_stock.News.Validator.{validate}
use project_stock.News.Normalization.{
  Texts, NewsStore, normalize_event, located, resolved, stored, stored_if, marked_failed,
  marked_normalized, is_invalid, to_news_item_create,
}

abbrev pub same_item_url : NewsItem → NewsItem → Bool
same_item_url a b = str_eq a.url b.url

abbrev pub ItemUrlsUnique : NewsItems → Type 0
ItemUrlsUnique t = IsKeyed t × Unique same_item_url t.rows

-- Each table has its keys, and no URL stands twice in it.
abbrev pub UrlsUnique : NewsStore → Type 0
UrlsUnique s = RawUrlsUnique s.raw × ItemUrlsUnique s.news

pub create-ItemUrlsUnique :
    (now : ℕ) (d : NewsItemCreate) (t : NewsItems)
    → exists_by_url d.url t ≡ false
    → ItemUrlsUnique t
    → ItemUrlsUnique (create now d t).1
unfolding create
create-ItemUrlsUnique now d t new h = (add-IsKeyed _ t h.0, add-Unique same_item_url _ t h.1 new)

pub update_summary-ItemUrlsUnique :
    (id : ℕ) (d : NewsSummaryResult) (t : NewsItems)
    → ItemUrlsUnique t
    → ItemUrlsUnique (update_summary id d t)
unfolding update_summary update
update_summary-ItemUrlsUnique id d t h = (
  update-IsKeyed id (with_summary d) t h.0,
  update_rows-Unique same_item_url (with_summary d) id t.rows (λ r s. refl) (λ r s. refl) h.1,
)

module _ (x : Texts) where
  stored-UrlsUnique :
      (now id : ℕ) (item : NewsItemCreate) (s : NewsStore)
      → UrlsUnique s
      → UrlsUnique (stored x now id item s).1
  unfolding stored marked_failed marked_normalized
  stored-UrlsUnique now id item s h =
      elim (Bool-cases (is_invalid (validate x.strip item now).status)) [
        | inl bad ↦ rw bad (mark-RawUrlsUnique _ id s.raw h.0, h.1)
        | inr good ↦ rw good (elim (Bool-cases (exists_by_url item.url s.news)) [
          | inl known ↦ rw known (mark-RawUrlsUnique _ id s.raw h.0, h.1)
          | inr new ↦
              rw new
                (mark-RawUrlsUnique _ id s.raw h.0, create-ItemUrlsUnique now item s.news new h.1)
        ])
      ]

  stored_if-UrlsUnique :
      (now id : ℕ) (item : Result NewsError NewsItemCreate) (s : NewsStore)
      → UrlsUnique s
      → UrlsUnique (stored_if x now id item s).1
  unfolding stored_if
  stored_if-UrlsUnique now id (err e) s h = h
  stored_if-UrlsUnique now id (ok item) s h = stored-UrlsUnique now id item s h

  resolved-UrlsUnique :
      (now : ℕ) (event : ℕ × RawNewsEvent) (asset : Option (ℕ × Asset)) (s : NewsStore)
      → UrlsUnique s
      → UrlsUnique (resolved x now event asset s).1
  unfolding resolved
  resolved-UrlsUnique now (id, event) none s h = h
  resolved-UrlsUnique now (id, event) (some (asset_id, a)) s h =
      stored_if-UrlsUnique now id (to_news_item_create x id event asset_id) s h

  located-UrlsUnique :
      (now : ℕ) (assets : Assets) (event : ℕ × RawNewsEvent) (symbol market : Option String)
      (s : NewsStore)
      → UrlsUnique s
      → UrlsUnique (located x now assets event symbol market s).1
  unfolding located
  located-UrlsUnique now assets event none market s h = h
  located-UrlsUnique now assets event (some symbol) none s h = h
  located-UrlsUnique now assets event (some symbol) (some market) s h =
      resolved-UrlsUnique now event _ s h

  pub normalize_event-UrlsUnique :
      (now : ℕ) (assets : Assets) (event : ℕ × RawNewsEvent) (s : NewsStore)
      → UrlsUnique s
      → UrlsUnique (normalize_event x now assets event s).1
  unfolding normalize_event
  normalize_event-UrlsUnique now assets event s h =
      located-UrlsUnique now assets event event.1.symbol event.1.market s h

  -- the item that a run made
  abbrev pub made : Result NewsError (Option (ℕ × NewsItem)) → Option (ℕ × NewsItem)
  made (err e) = none
  made (ok item) = item

  -- A second run makes no item.
  abbrev pub MakesNone :
      (NewsStore → Result NewsError (Option (ℕ × NewsItem)) × NewsStore) → NewsStore → Type 0
  MakesNone f s = (made (f (f s).1).0 ≡ none) × ((f (f s).1).1.news ≡ (f s).1.news)

  exists-create :
      (now : ℕ) (d : NewsItemCreate) (t : NewsItems) → exists_by_url d.url (create now d t).1 ≡ true
  unfolding create add
  exists-create now d t = rw any-append (ground (arith, eq_refl d.url))

  stored_twice :
      (now id : ℕ) (item : NewsItemCreate) (s : NewsStore) → MakesNone (stored x now id item) s
  unfolding stored marked_failed marked_normalized
  stored_twice now id item s = elim (Bool-cases (is_invalid (validate x.strip item now).status)) [
    | inl bad ↦ rw bad (refl, refl)
    | inr good ↦ rw good (elim (Bool-cases (exists_by_url item.url s.news)) [
      | inl known ↦ rw known (rw known (refl, refl))
      | inr new ↦ rw new (rw (exists-create now item s.news) (refl, refl))
    ])
  ]

  stored_if_twice :
      (now id : ℕ) (item : Result NewsError NewsItemCreate) (s : NewsStore)
      → MakesNone (stored_if x now id item) s
  unfolding stored_if
  stored_if_twice now id (err e) s = (refl, refl)
  stored_if_twice now id (ok item) s = stored_twice now id item s

  resolved_twice :
      (now : ℕ) (event : ℕ × RawNewsEvent) (asset : Option (ℕ × Asset)) (s : NewsStore)
      → MakesNone (resolved x now event asset) s
  unfolding resolved
  resolved_twice now (id, event) none s = (refl, refl)
  resolved_twice now (id, event) (some (asset_id, a)) s =
      stored_if_twice now id (to_news_item_create x id event asset_id) s

  located_twice :
      (now : ℕ) (assets : Assets) (event : ℕ × RawNewsEvent) (symbol market : Option String)
      (s : NewsStore)
      → MakesNone (located x now assets event symbol market) s
  unfolding located
  located_twice now assets event none market s = (refl, refl)
  located_twice now assets event (some symbol) none s = (refl, refl)
  located_twice now assets event (some symbol) (some market) s = resolved_twice now event _ s

  -- Normalizing an event keeps the keys and URLs of both tables distinct, and normalizing it once more at the
  -- same time makes no second news item and leaves the news items as they are.
  pub normalize_event_once :
      (now : ℕ) (assets : Assets) (event : ℕ × RawNewsEvent) (s : NewsStore)
      → UrlsUnique s
      → UrlsUnique (normalize_event x now assets event s).1
        × (made (normalize_event x now assets event (normalize_event x now assets event s).1).0
            ≡ none)
        × ((normalize_event x now assets event (normalize_event x now assets event s).1).1.news
            ≡ (normalize_event x now assets event s).1.news)
  unfolding normalize_event
  normalize_event_once now assets event s h =
      let twice = located_twice now assets event event.1.symbol event.1.market s in
      (normalize_event-UrlsUnique now assets event s h, twice.0, twice.1)
