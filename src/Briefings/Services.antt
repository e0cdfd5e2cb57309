-- ===== src/Briefings/Services.antt =====
-- `DashboardBriefingService.generate` (app/domains/dashboard/briefing_service.py),
-- `PortfolioBriefingService.generate` (app/domains/portfolios/briefing_service.py) and
-- `WatchlistObservationsService.generate` (app/domains/watchlists/observations_service.py).
use project_stock.Base.{
  ℕ, String, Option, none, some, List, [], ◌∷◌, ◌++◌, ◌≡◌, refl, map, str_eq, if◌then◌else◌,
}
use project_stock.Base.Text.{str_int}
use project_stock.Base.Exec.{Result, ok, err, Exec}
use project_stock.Store.{get}
use project_stock.Store.Order.{order_by}
use project_stock.Errors.{AppException}
use project_stock.Decimal.{Decimals}
use project_stock.Llm.{
  TaskType, portfolio_briefing, dashboard_briefing, watchlist_note, LlmError, aggregated,
}
use project_stock.Llm.Externals.{Fields, Externals}
use project_stock.Llm.Privacy.{cloud_safe}
use project_stock.Llm.World.{World}
use project_stock.Llm.Gateway.{Gateway, Request, Completion, complete_json}
use project_stock.Llm.Gateway.Budget.{InBudget, complete_json-InBudget}
use project_stock.Assets.{Asset, Assets}
use project_stock.Signals.{Signals}
use project_stock.Watchlists.{Watchlist, Watchlists, Items, list_by_watchlist, get_owned_watchlist}
use project_stock.Portfolios.{
  Portfolio, Position, Portfolios, Positions, get_owned_portfolio, list_by_portfolio,
}
use project_stock.Portfolios.Weights.{Quote, build_summary, text_leb, distinct, last_match}
use project_stock.Briefings.{QuoteView, build_watchlist_highlights, list_by_user}
use project_stock.Briefings.Snapshots.{
  PortfolioBriefingSnapshot, DashboardBriefingSnapshot, WatchlistObservationSnapshot,
  to_briefing_snapshot, to_dashboard_snapshot, to_watchlist_observation_snapshot,
}
use project_stock.Briefings.Dashboard.{Board, get_summary}

-- `BriefingResult`
pub record BriefingResult : Type 0 where
  pub headline : String
  pub body : String
  pub risk_headline : Option String
  pub risk_checks : List String

-- `ObservationsResult`, an item being its symbol and its note
pub record ObservationsResult : Type 0 where
  pub summary : String
  pub items : List (String × String)

-- what a service can raise
pub data BriefingError : Type 0 where
  refused : AppException → BriefingError
  llm_error : LlmError → BriefingError
  validation_error : BriefingError

is_there : Option (ℕ × Asset) → List (ℕ × Asset)
is_there none = []
is_there (some a) = a ∷ []

assets_of : {d : Decimals} → Assets → List (ℕ × Position d) → List (ℕ × Asset)
unfolding is_there
assets_of assets [] = []
assets_of assets ((i, p) ∷ ps) = is_there (get p.asset_id assets) ++ assets_of assets ps

symbol_of : ℕ → Option (ℕ × Asset) → String
symbol_of id none = str_int id
symbol_of id (some (i, a)) = a.symbol

-- `asset.sector or "UNKNOWN"`, and the same for a missing asset
sector_of : Option (ℕ × Asset) → String
sector_of none = "UNKNOWN"
sector_of (some (i, a)) = elim a.sector [
  | none ↦ "UNKNOWN"
  | some s ↦ if str_eq s "" then "UNKNOWN" else s
]

module _ (x : Externals) (g : Gateway x) (today : String) where
  -- the schema, the prompt and `model_validate` of an answer
  pub record Answer (A : Type 0) : Type 0 where
    pub schema : x.Schema
    pub system_prompt : String
    pub parse : Fields x.Number → Option A

  parsed : {A : Type 0} → Answer A → Result LlmError (Completion x) → Result BriefingError A
  parsed a (err e) = err (llm_error e)
  parsed a (ok completion) = elim (a.parse completion.output) [
    | none ↦ err validation_error
    | some result ↦ ok result
  ]

  request_of : {A : Type 0} → Answer A → TaskType → String → Request x
  request_of a task content = record {
    today = today;
    task = task;
    payload = cloud_safe aggregated content;
    schema = a.schema;
    system_prompt = a.system_prompt;
    signal = none;
  }

  -- `complete_json` of a snapshot and the validation of its answer
  ask : {A : Type 0} → Answer A → TaskType → String → Exec BriefingError (World x) A
  unfolding parsed request_of
  ask a task content w =
      let (completion, w') = complete_json x g (request_of a task content) w in
      (parsed a completion, w')

  ask-InBudget :
      {A : Type 0} (a : Answer A) (task : TaskType) (content : String) (limit : ℕ) (w : World x)
      → g.call_budget ≡ some limit
      → InBudget x limit w
      → InBudget x limit (ask a task content w).1
  unfolding ask
  ask-InBudget a task content limit w budget h =
      complete_json-InBudget x g limit (request_of a task content) w budget h

  module _ (d : Decimals) (upper : String → String)
      (get_quote : List String → List (QuoteView d upper)) (now : ℕ) where
    observed :
        Answer ObservationsResult
        → (WatchlistObservationSnapshot d upper → String)
        → Items
        → Assets
        → Signals
        → Result AppException (ℕ × Watchlist)
        → Exec BriefingError (World x) ObservationsResult
    unfolding ask
    observed a json items assets signals (err e) w = (err (refused e), w)
    observed a json items assets signals (ok (id, watchlist)) w =
        ask a watchlist_note
          (json (
            to_watchlist_observation_snapshot d upper id (
              build_watchlist_highlights d upper now 30 assets signals get_quote
                (list_by_watchlist id 0 none "priority" items))))
          w

    -- `WatchlistObservationsService.generate`
    unfoldable pub generate_observations :
        Answer ObservationsResult
        → (WatchlistObservationSnapshot d upper → String)
        → Watchlists
        → Items
        → Assets
        → Signals
        → ℕ
        → ℕ
        → Exec BriefingError (World x) ObservationsResult
    unfolding observed
    generate_observations a json watchlists items assets signals watchlist_id user_id =
        observed a json items assets signals (get_owned_watchlist watchlist_id user_id watchlists)

    -- `DashboardBriefingService.generate`
    unfoldable pub generate_dashboard :
        (quantize : d.D → d.D)
        → Answer BriefingResult
        → (DashboardBriefingSnapshot d upper → String)
        → Watchlists
        → Items
        → Assets
        → Board d upper quantize
        → ℕ
        → Exec BriefingError (World x) BriefingResult
    unfolding ask
    generate_dashboard quantize a json watchlists items assets board user_id w =
        ask a dashboard_briefing
          (json (
            to_dashboard_snapshot d upper (get_summary d upper quantize now user_id board) (
              build_watchlist_highlights d upper now 5 assets board.signals get_quote
                (list_by_user user_id watchlists items))))
          w

    quotes_of : List (ℕ × Asset) → List (QuoteView d upper)
    quotes_of [] = []
    quotes_of (a ∷ assets) =
        get_quote (order_by text_leb (distinct str_eq (map (λ e. e.1.symbol) (a ∷ assets))))

    change_of : List (QuoteView d upper) → Option (ℕ × Asset) → d.D
    change_of quotes none = d.of_ℕ 0
    change_of quotes (some (i, a)) =
        elim (last_match (λ q. str_eq (upper q.symbol) (upper a.symbol)) quotes) [
          | none ↦ d.of_ℕ 0
          | some q ↦ q.change_percent
        ]

    briefed :
        Answer BriefingResult
        → (PortfolioBriefingSnapshot d upper → String)
        → (List String → List (Quote d upper))
        → Positions d
        → Assets
        → Result AppException (ℕ × Portfolio d)
        → Exec BriefingError (World x) BriefingResult
    unfolding ask assets_of is_there symbol_of sector_of quotes_of change_of
    briefed a json get_prices positions assets (err e) w = (err (refused e), w)
    briefed a json get_prices positions assets (ok p) w =
        let quotes = quotes_of (assets_of assets (list_by_portfolio d p.0 positions)) in
        ask a portfolio_briefing
          (json (
            to_briefing_snapshot d upper (λ id. symbol_of id (get id assets))
              (λ id. sector_of (get id assets)) (λ id. change_of quotes (get id assets))
              (build_summary d upper get_prices assets positions p)))
          w

    -- `PortfolioBriefingService.generate`
    unfoldable pub generate_briefing :
        Answer BriefingResult
        → (PortfolioBriefingSnapshot d upper → String)
        → (List String → List (Quote d upper))
        → Portfolios d
        → Positions d
        → Assets
        → ℕ
        → ℕ
        → Exec BriefingError (World x) BriefingResult
    unfolding briefed
    generate_briefing a json get_prices portfolios positions assets portfolio_id user_id =
        briefed a json get_prices positions assets
          (get_owned_portfolio d portfolio_id user_id portfolios)

    -- A refused request leaves the world alone; a granted one keeps the budget.
    abbrev pub IsGuarded :
        {A P : Type 0}
        → ℕ
        → Result AppException P
        → World x
        → Result BriefingError A × World x
        → Type 0
    IsGuarded limit (err e) w (result, w') = (result ≡ err (refused e)) × (w' ≡ w)
    IsGuarded limit (ok p) w (result, w') = InBudget x limit w'

    observed-IsGuarded :
        (a : Answer ObservationsResult) (json : WatchlistObservationSnapshot d upper → String)
        (items : Items) (assets : Assets) (signals : Signals) (limit : ℕ)
        (owned : Result AppException (ℕ × Watchlist)) (w : World x)
        → g.call_budget ≡ some limit
        → InBudget x limit w
        → IsGuarded limit owned w (observed a json items assets signals owned w)
    unfolding observed
    observed-IsGuarded a json items assets signals limit (err e) w budget h = (refl, refl)
    observed-IsGuarded a json items assets signals limit (ok (id, watchlist)) w budget h =
        ask-InBudget a watchlist_note _ limit w budget h

    briefed-IsGuarded :
        (a : Answer BriefingResult) (json : PortfolioBriefingSnapshot d upper → String)
        (get_prices : List String → List (Quote d upper)) (positions : Positions d)
        (assets : Assets) (limit : ℕ) (owned : Result AppException (ℕ × Portfolio d)) (w : World x)
        → g.call_budget ≡ some limit
        → InBudget x limit w
        → IsGuarded limit owned w (briefed a json get_prices positions assets owned w)
    unfolding briefed
    briefed-IsGuarded a json get_prices positions assets limit (err e) w budget h = (refl, refl)
    briefed-IsGuarded a json get_prices positions assets limit (ok p) w budget h =
        ask-InBudget a portfolio_briefing _ limit w budget h

    -- The observations of a watchlist and the briefing of a portfolio that is missing or another user's are
    -- refused with the error of the lookup, and no call is made: the gateway's world stays as it is. For the
    -- owner the daily budget of cloud calls holds afterwards.
    pub generate-IsGuarded :
        (a : Answer ObservationsResult) (b : Answer BriefingResult)
        (json : WatchlistObservationSnapshot d upper → String)
        (json' : PortfolioBriefingSnapshot d upper → String)
        (get_prices : List String → List (Quote d upper)) (watchlists : Watchlists) (items : Items)
        (portfolios : Portfolios d) (positions : Positions d) (assets : Assets) (signals : Signals)
        (id user_id limit : ℕ) (w : World x)
        → g.call_budget ≡ some limit
        → InBudget x limit w
        → IsGuarded limit
            (get_owned_watchlist id user_id watchlists)
            w
            (generate_observations a json watchlists items assets signals id user_id w)
          × IsGuarded limit
              (get_owned_portfolio d id user_id portfolios)
              w
              (generate_briefing b json' get_prices portfolios positions assets id user_id w)
    unfolding generate_observations generate_briefing
    generate-IsGuarded a b json json' get_prices watchlists items portfolios positions assets
          signals id user_id limit w budget h =
        (
          observed-IsGuarded a json items assets signals limit
              (get_owned_watchlist id user_id watchlists) w budget h,
          briefed-IsGuarded b json' get_prices positions assets limit
              (get_owned_portfolio d id user_id portfolios) w budget h,
        )
