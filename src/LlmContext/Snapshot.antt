-- ===== src/LlmContext/Snapshot.antt =====
-- `to_context_bundle_snapshot` of app/adapters/llm/privacy.py. The projections of the data quality, the news,
-- the signals, the portfolio's summary, the decisions and the contract have the fields of their sources, so
-- these types stand for them too.
use project_stock.Base.{ℕ, String, Bool, Option, none, some, List, map}
use project_stock.Llm.{TaskType}
use project_stock.LlmContext.{
  DataQualitySection, RecentNewsItem, SignalItem, RecentDecision, OutputContract, PriceSnapshot,
  PortfolioContext, SymbolCard, PortfolioSummary, LlmContextBundle,
}

module _ (F : Type 0) where
  -- `ContextBundlePortfolioContextProjection`
  pub record PortfolioContextProjection : Type 0 where
    pub holding : Bool
    pub weight : Option F
    pub unrealized_return : Option F

  -- `ContextBundleSymbolCardProjection`
  pub record SymbolCardProjection : Type 0 where
    pub symbol : String
    pub market : String
    pub display_name : String
    pub price_snapshot : PriceSnapshot F
    pub portfolio_context : Option PortfolioContextProjection
    pub recent_news : List RecentNewsItem
    pub signals : List SignalItem

  pub record ContextBundleSnapshot : Type 0 where
    pub task_type : TaskType
    pub as_of : ℕ
    pub user_intent : String
    pub symbols : List String
    pub data_quality : DataQualitySection
    pub symbol_cards : List SymbolCardProjection
    pub portfolio_summary : Option (PortfolioSummary F)
    pub user_rules : List String
    pub recent_decisions : List RecentDecision
    pub output_contract : OutputContract

  project_context : Option (PortfolioContext F) → Option PortfolioContextProjection
  project_context none = none
  project_context (some c) =
      some
        (record { holding = c.holding; weight = c.weight; unrealized_return = c.unrealized_return })

  project_card : SymbolCard F → SymbolCardProjection
  unfolding project_context
  project_card card = record {
    symbol = card.symbol;
    market = card.market;
    display_name = card.display_name;
    price_snapshot = card.price_snapshot;
    portfolio_context = project_context card.portfolio_context;
    recent_news = card.recent_news;
    signals = card.signals;
  }

  -- `to_context_bundle_snapshot`
  unfoldable pub to_context_bundle_snapshot : LlmContextBundle F → ContextBundleSnapshot
  unfolding project_card
  to_context_bundle_snapshot bundle = record {
    task_type = bundle.task_type;
    as_of = bundle.as_of;
    user_intent = bundle.user_intent;
    symbols = bundle.symbols;
    data_quality = bundle.data_quality;
    symbol_cards = map project_card bundle.symbol_cards;
    portfolio_summary = bundle.portfolio_summary;
    user_rules = bundle.user_rules;
    recent_decisions = bundle.recent_decisions;
    output_contract = bundle.output_contract;
  }
