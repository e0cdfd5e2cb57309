-- ===== src/News/Normalization.antt =====
-- app/domains/news/normalizer.py and normalization_service.py: how a raw event becomes a news item.
pub mod Urls
use project_stock.Base.{ℕ, String, Bool, true, false, ◌&&◌, Option, none, some, if◌then◌else◌}
use project_stock.Base.Exec.{Result, ok, err}
use project_stock.Store.{Table}
use project_stock.Assets.{Asset, Assets, get_by_symbol_market}
use project_stock.Prices.{DataQualityStatus, valid, invalid, stale, duplicate, low_trust}
use project_stock.RawNews.{
  RawNewsEvent, RawNewsEvents, NewsError, validation_error, malformed_url, normalized, failed, mark,
}
use project_stock.News.{NewsItem, NewsItemCreate, NewsItems, create, exists_by_url}
use project_stock.News.Validator.{validate}

-- The parts of `urllib.parse.urlsplit`; the fragment is dropped.
pub record UrlParts : Type 0 where
  pub scheme : String
  pub netloc : String
  pub path : String
  pub query : String

-- The methods of `str` and the functions of `urllib.parse` that the normalizer calls.
pub record Texts : Type 0 where
  pub strip : String → String
  pub upper : String → String
  pub lower : String → String
  pub contains : String → String → Bool
  -- `s.rsplit(":", maxsplit=1)[-1]` and `s.split(".", maxsplit=1)[0]`
  pub after_last_colon : String → String
  pub before_first_dot : String → String
  pub rstrip_slash : String → String
  -- `none` is the `ValueError` of a malformed URL
  pub urlsplit : String → Option UrlParts
  pub urlunsplit : UrlParts → String
  -- `len(s) <= n`
  pub fits : String → ℕ → Bool

-- the two tables that the news services change
pub record NewsStore : Type 0 where
  pub raw : RawNewsEvents
  pub news : NewsItems

is_invalid : DataQualityStatus → Bool
is_invalid invalid = true
is_invalid valid = false
is_invalid stale = false
is_invalid duplicate = false
is_invalid low_trust = false

module _ (x : Texts) where
  without_exchange : String → String
  without_exchange value = if x.contains ":" value then x.after_last_colon value else value

  without_suffix : String → String
  without_suffix value = if x.contains "." value then x.before_first_dot value else value

  -- `NewsNormalizer.canonicalize_symbol`
  unfoldable pub canonicalize_symbol : String → String
  unfolding without_exchange without_suffix
  canonicalize_symbol symbol = x.upper (without_suffix (without_exchange (x.strip symbol)))

  -- `NewsNormalizer.canonicalize_market`
  unfoldable pub canonicalize_market : String → String
  canonicalize_market market = x.upper (x.strip market)

  canonical : Option UrlParts → Option String
  canonical none = none
  canonical (some parts) = some (
      x.urlunsplit
        (record parts { netloc = x.lower parts.netloc; path = x.rstrip_slash parts.path }))

  -- `NewsNormalizer.canonicalize_url`
  unfoldable pub canonicalize_url : String → Option String
  unfolding canonical
  canonicalize_url url = canonical (x.urlsplit (x.strip url))

  -- the `max_length` of the fields of `NewsItemCreate`
  abbrev pub item_fits : NewsItemCreate → Bool
  item_fits item = x.fits item.title 500 && (x.fits item.url 2048 && x.fits item.source 100)

  item_at : ℕ → RawNewsEvent → ℕ → Option String → Result NewsError NewsItemCreate
  item_at id event asset_id none = err malformed_url
  item_at id event asset_id (some url) =
      let item : NewsItemCreate = record {
        raw_news_event_id = some id;
        asset_id = asset_id;
        title = event.title;
        url = url;
        source = x.strip event.source;
        published_at = event.published_at;
      } in
      if item_fits item then ok item else err validation_error

  -- `NewsNormalizer.to_news_item_create`; times are UTC already
  unfoldable pub to_news_item_create : ℕ → RawNewsEvent → ℕ → Result NewsError NewsItemCreate
  unfolding canonicalize_url canonical item_at
  to_news_item_create id event asset_id = item_at id event asset_id (canonicalize_url event.url)

  marked_failed : ℕ → NewsStore → NewsStore
  marked_failed id s = record s { raw = (mark failed id s.raw).1 }

  marked_normalized : ℕ → NewsStore → NewsStore
  marked_normalized id s = record s { raw = (mark normalized id s.raw).1 }

  -- from the validated item on
  stored : ℕ → ℕ → NewsItemCreate → NewsStore → Result NewsError (Option (ℕ × NewsItem)) × NewsStore
  unfolding marked_normalized marked_failed is_invalid
  stored now id item s =
      if is_invalid (validate x.strip item now).status
      then (ok none, marked_failed id s)
      else if exists_by_url item.url s.news
      then (ok none, marked_normalized id s)
      else (let (row, news') = create now item s.news in
          (ok (some row), marked_normalized id (record s { news = news' })))

  stored_if :
      ℕ
      → ℕ
      → Result NewsError NewsItemCreate
      → NewsStore
      → Result NewsError (Option (ℕ × NewsItem)) × NewsStore
  unfolding stored
  stored_if now id (err e) s = (err e, s)
  stored_if now id (ok item) s = stored now id item s

  resolved :
      ℕ
      → ℕ × RawNewsEvent
      → Option (ℕ × Asset)
      → NewsStore
      → Result NewsError (Option (ℕ × NewsItem)) × NewsStore
  unfolding stored_if
  resolved now (id, event) none s = (ok none, s)
  resolved now (id, event) (some (asset_id, a)) s =
      stored_if now id (to_news_item_create id event asset_id) s

  located :
      ℕ
      → Assets
      → ℕ × RawNewsEvent
      → Option String
      → Option String
      → NewsStore
      → Result NewsError (Option (ℕ × NewsItem)) × NewsStore
  unfolding resolved
  located now assets event (some symbol) (some market) s =
      resolved now event
        (get_by_symbol_market (canonicalize_symbol symbol) (canonicalize_market market) assets) s
  located now assets event none market s = (ok none, s)
  located now assets event (some symbol) none s = (ok none, s)

  -- `NewsNormalizationService.normalize_event`
  unfoldable pub normalize_event :
      ℕ
      → Assets
      → ℕ × RawNewsEvent
      → NewsStore
      → Result NewsError (Option (ℕ × NewsItem)) × NewsStore
  unfolding located
  normalize_event now assets event s = located now assets event event.1.symbol event.1.market s
