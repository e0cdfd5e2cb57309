-- ===== src/RawNews.antt =====
-- app/domains/raw_news: the rows of `raw_news_events` with their unique constraint (model.py),
-- `RawNewsEventRepository` (repository.py) and `RawNewsService` (service.py). A payload is kept as JSON text.
pub mod Ingestion
pub mod Urls
use project_stock.Base.{
  ℕ, ◌+◌, String, Bool, true, ◌&&◌, Option, none, some, List, [], ◌∷◌, str_eq, head?, is_some,
  if◌then◌else◌,
}
use project_stock.Base.Exec.{Result, ok, err, Exec, pure, ◌>>=◌}
use project_stock.Store.{Table, get, add_unique, update, where_rows}
use project_stock.Store.Lookup.{map_row}

pub record RawNewsEvent : Type 0 where
  pub title : String
  pub url : String
  pub symbol : Option String
  pub market : Option String
  pub body : Option String
  pub source : String
  pub published_at : Option ℕ
  pub collected_at : ℕ
  pub processing_status : String
  pub payload : Option String

abbrev pub RawNewsEvents : Type 0
RawNewsEvents = Table RawNewsEvent

-- `ProcessingStatus`
pub data ProcessingStatus : Type 0 where
  fetched normalized failed skipped_duplicate : ProcessingStatus

-- `ProcessingStatus.value`
abbrev pub processing_value : ProcessingStatus → String
processing_value fetched = "fetched"
processing_value normalized = "normalized"
processing_value failed = "failed"
processing_value skipped_duplicate = "skipped_duplicate"

-- `NewsAdapterResult` of app/adapters/news/base.py
pub record NewsAdapterResult : Type 0 where
  pub title : String
  pub url : String
  pub body : Option String
  pub source : String
  pub published_at : Option ℕ
  pub payload : Option String

-- `uq_raw_news_events_url`
abbrev pub same_url : RawNewsEvent → RawNewsEvent → Bool
same_url a b = str_eq a.url b.url

-- the row of a result, with the symbol and market that it was collected for
abbrev pub raw_event : ℕ → NewsAdapterResult → Option String → Option String → RawNewsEvent
raw_event now r symbol market = record {
  title = r.title;
  url = r.url;
  symbol = symbol;
  market = market;
  body = r.body;
  source = r.source;
  published_at = r.published_at;
  collected_at = now;
  processing_status = processing_value fetched;
  payload = r.payload;
}

committed :
    RawNewsEvents
    → Option ((ℕ × RawNewsEvent) × RawNewsEvents)
    → Option (ℕ × RawNewsEvent) × RawNewsEvents
committed t none = (none, t)
committed t (some (e, t')) = (some e, t')

-- `RawNewsEventRepository.create_or_skip`
unfoldable pub create_or_skip :
    RawNewsEvent → RawNewsEvents → Option (ℕ × RawNewsEvent) × RawNewsEvents
unfolding committed
create_or_skip e t = committed t (add_unique same_url e t)

-- `RawNewsEventRepository.get_by_url`
unfoldable pub get_by_url : String → RawNewsEvents → Option (ℕ × RawNewsEvent)
get_by_url url t = head? (where_rows (λ e. str_eq e.1.url url) t)

abbrev pub set_status : ProcessingStatus → RawNewsEvent → RawNewsEvent
set_status s e = record e { processing_status = processing_value s }

-- `RawNewsEventRepository.mark_normalized` and `mark_failed`; a missing row is left missing
unfoldable pub mark :
    ProcessingStatus → ℕ → RawNewsEvents → Option (ℕ × RawNewsEvent) × RawNewsEvents
mark s id t = (map_row (set_status s) (get id t), update id (set_status s) t)

-- the errors that creating a row of the news may raise: a text that is too long, and a malformed URL
pub data NewsError : Type 0 where
  validation_error malformed_url : NewsError

abbrev pub fits_if_given : (String → ℕ → Bool) → Option String → ℕ → Bool
fits_if_given fits none n = true
fits_if_given fits (some s) n = fits s n

-- the `max_length` of the fields of `RawNewsEventCreate`; `fits s n` is `len(s) <= n`
abbrev pub is_acceptable :
    (String → ℕ → Bool) → NewsAdapterResult → Option String → Option String → Bool
is_acceptable fits r symbol market =
    fits r.title 500
    && (fits r.url 2048
        && (fits_if_given fits symbol 20 && (fits_if_given fits market 20 && fits r.source 100)))

-- `create_or_skip` of a `RawNewsEventCreate`, which may not validate
unfoldable pub save :
    (String → ℕ → Bool)
    → ℕ
    → NewsAdapterResult
    → Option String
    → Option String
    → Exec NewsError RawNewsEvents (Option (ℕ × RawNewsEvent))
save fits now r symbol market t =
    if is_acceptable fits r symbol market
    then (let (saved, t') = create_or_skip (raw_event now r symbol market) t in (ok saved, t'))
    else (err validation_error, t)

add_saved :
    Option (ℕ × RawNewsEvent) → Exec NewsError RawNewsEvents ℕ → Exec NewsError RawNewsEvents ℕ
add_saved saved rest = rest >>= λ count. pure ((if is_some saved then 1 else 0) + count)

-- `RawNewsService.collect_and_save`, of the results that the adapter fetched
unfoldable pub collect_and_save :
    (String → ℕ → Bool) → ℕ → List NewsAdapterResult → Exec NewsError RawNewsEvents ℕ
unfolding add_saved
collect_and_save fits now [] = pure 0
collect_and_save fits now (r ∷ rs) =
    save fits now r none none >>= λ saved. add_saved saved (collect_and_save fits now rs)

-- `RawNewsService.save_with_symbol`
unfoldable pub save_with_symbol :
    (String → ℕ → Bool)
    → ℕ
    → NewsAdapterResult
    → String
    → String
    → Exec NewsError RawNewsEvents (Option (ℕ × RawNewsEvent))
save_with_symbol fits now r symbol market = save fits now r (some symbol) (some market)
