-- ===== src/Llm/Router.antt =====
-- app/adapters/llm/router.py
use project_stock.Base.{String, Option, none, some, List, [], ◌∷◌, str_eq, if◌then◌else◌}
use project_stock.Base.Exec.{Result, ok, err}
use project_stock.Llm.{
  TaskType, news_summary, thesis_conflict, portfolio_briefing, dashboard_briefing, watchlist_note,
  tag_sentiment, agent, task_value, LlmError, routing,
}

pub record TaskRoute : Type 0 where
  pub launch : String
  pub future_primary : String

abbrev pub Routes : Type 0
Routes = List (TaskType × TaskRoute)

abbrev route : String → String → TaskRoute
route l f = record { launch = l; future_primary = f }

-- `LLM_TASK_ROUTES`
abbrev pub llm_task_routes : Routes
llm_task_routes =
    (news_summary, route "cloud" "local")
    ∷ (thesis_conflict, route "cloud" "cloud")
    ∷ (portfolio_briefing, route "cloud" "cloud")
    ∷ (dashboard_briefing, route "cloud" "local")
    ∷ (watchlist_note, route "cloud" "local")
    ∷ (tag_sentiment, route "cloud" "local")
    ∷ (agent, route "cloud" "cloud")
    ∷ []

-- `self.routes.get(task_type)`; the members of the enumeration differ by their values
find_route : TaskType → Routes → Option TaskRoute
unfolding task_value
find_route t [] = none
find_route t ((u, r) ∷ rs) =
    if str_eq (task_value u) (task_value t) then some r else find_route t rs

-- `LLMRouter.resolve`
unfoldable pub resolve : Routes → TaskType → Result LlmError String
unfolding find_route
resolve routes t = elim (find_route t routes) [ none ↦ err routing | some r ↦ ok r.launch ]
