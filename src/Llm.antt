-- ===== src/Llm.antt =====
-- app/adapters/llm: the language-model gateway. This file has the types of types.py and the
-- exceptions of exceptions.py.
pub mod Externals
pub mod Privacy
pub mod Router
pub mod Escalation
pub mod World
pub mod Gateway
use project_stock.Base.{String, Bool, true, false}

pub data TaskType : Type 0 where
  news_summary thesis_conflict portfolio_briefing dashboard_briefing watchlist_note : TaskType
  tag_sentiment agent : TaskType

-- `LLMTaskType.value`
unfoldable pub task_value : TaskType → String
task_value news_summary = "NEWS_SUMMARY"
task_value thesis_conflict = "THESIS_CONFLICT"
task_value portfolio_briefing = "PORTFOLIO_BRIEFING"
task_value dashboard_briefing = "DASHBOARD_BRIEFING"
task_value watchlist_note = "WATCHLIST_NOTE"
task_value tag_sentiment = "TAG_SENTIMENT"
task_value agent = "AGENT"

pub data SensitivityLevel : Type 0 where
  raw semi aggregated public : SensitivityLevel

pub data RiskLevel : Type 0 where
  low medium high : RiskLevel

-- The exceptions of the package, and those of Redis, of `as_payload` on an object that has none,
-- and of a provider.
pub data LlmError : Type 0 where
  cloud_boundary_violation timeout routing budget_exceeded : LlmError
  redis_error attribute_error call_error : LlmError

abbrev pub cloud : String
cloud = "cloud"

abbrev pub local : String
local = "local"
