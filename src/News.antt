-- ===== src/News.antt =====
-- app/domains/news: the rows of `news_items` (model.py), `NewsItemRepository` (repository.py) and the
-- answer that a summary is validated to (schema.py).
pub mod Validator
pub mod Normalization
use project_stock.Base.{ℕ, String, Bool, Option, none, some, List, [], ◌∷◌, str_eq, any}
use project_stock.Store.{Table, get, add, update}

pub record NewsItem : Type 0 where
  pub raw_news_event_id : Option ℕ
  pub asset_id : ℕ
  pub title : String
  pub url : String
  pub source : String
  pub published_at : Option ℕ
  pub summary : Option String
  pub sentiment : Option String
  pub impact_level : Option String
  pub trust_level : Option String
  pub positive_factors : Option (List String)
  pub negative_factors : Option (List String)
  pub created_at : ℕ

abbrev pub NewsItems : Type 0
NewsItems = Table NewsItem

-- The fields of a `NewsItemCreate` that the program sets.
pub record NewsItemCreate : Type 0 where
  pub raw_news_event_id : Option ℕ
  pub asset_id : ℕ
  pub title : String
  pub url : String
  pub source : String
  pub published_at : Option ℕ

-- `NewsSummaryResult`
pub record NewsSummaryResult : Type 0 where
  pub summary : String
  pub positive_factors : List String
  pub negative_factors : List String
  pub impact_level : String
  pub sentiment : String

-- `NewsItemRepository.create`
unfoldable pub create : ℕ → NewsItemCreate → NewsItems → (ℕ × NewsItem) × NewsItems
create now d t =
    add
      (record {
        raw_news_event_id = d.raw_news_event_id;
        asset_id = d.asset_id;
        title = d.title;
        url = d.url;
        source = d.source;
        published_at = d.published_at;
        summary = none;
        sentiment = none;
        impact_level = none;
        trust_level = none;
        positive_factors = none;
        negative_factors = none;
        created_at = now;
      })
      t

-- `NewsItemRepository.exists_by_url`
abbrev pub exists_by_url : String → NewsItems → Bool
exists_by_url url t = any (λ e. str_eq e.1.url url) t.rows

abbrev pub with_summary : NewsSummaryResult → NewsItem → NewsItem
with_summary d item = record item {
  summary = some d.summary;
  sentiment = some d.sentiment;
  impact_level = some d.impact_level;
  positive_factors = some d.positive_factors;
  negative_factors = some d.negative_factors;
}

-- `NewsItemRepository.update_summary` of a row that is there
unfoldable pub update_summary : ℕ → NewsSummaryResult → NewsItems → NewsItems
update_summary id d t = update id (with_summary d) t
