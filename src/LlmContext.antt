-- ===== src/LlmContext.antt =====
-- app/domains/llm_context/schema.py: the context bundle that an analysis is made of. `F` are Python's floats.
pub mod Snapshot
pub mod Builder
use project_stock.Base.{ℕ, String, Bool, Option, List}
use project_stock.Llm.{TaskType}

-- `DataQualityStatus`
pub data DataQualityStatus : Type 0 where
  valid invalid stale partial duplicate low_trust missing : DataQualityStatus

pub record DataQualitySection : Type 0 where
  pub price_data_status : DataQualityStatus
  pub news_data_status : DataQualityStatus
  pub portfolio_data_status : DataQualityStatus
  pub warnings : List String

pub record RecentNewsItem : Type 0 where
  pub title : String
  pub summary : String
  pub source : String
  pub published_at : ℕ
  pub trust_level : String

pub record SignalItem : Type 0 where
  pub signal_type : String
  pub severity : String
  pub reason : String

pub record RecentDecision : Type 0 where
  pub symbol : String
  pub decision_type : String
  pub reason : String
  pub created_at : ℕ

pub record OutputContract : Type 0 where
  pub format : String
  pub required_fields : List String

module _ (F : Type 0) where
  pub record PriceSnapshot : Type 0 where
    pub close : Option F
    pub return_1d : Option F
    pub return_5d : Option F
    pub return_20d : Option F
    pub drawdown_from_52w_high : Option F
    pub volume_vs_20d_avg : Option F

  pub record PortfolioContext : Type 0 where
    pub holding : Bool
    pub weight : Option F
    pub avg_buy_price : Option F
    pub unrealized_return : Option F

  pub record SymbolCard : Type 0 where
    pub symbol : String
    pub market : String
    pub display_name : String
    pub price_snapshot : PriceSnapshot
    pub portfolio_context : Option PortfolioContext
    pub recent_news : List RecentNewsItem
    pub signals : List SignalItem

  pub record PortfolioSummary : Type 0 where
    pub cash_ratio : Option F
    pub top_holding_weight : Option F
    pub concentration_risk : String

  pub record LlmContextBundle : Type 0 where
    pub task_type : TaskType
    pub as_of : ℕ
    pub user_intent : String
    pub symbols : List String
    pub data_quality : DataQualitySection
    pub symbol_cards : List SymbolCard
    pub portfolio_summary : Option PortfolioSummary
    pub user_rules : List String
    pub recent_decisions : List RecentDecision
    pub output_contract : OutputContract
