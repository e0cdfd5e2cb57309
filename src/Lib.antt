-- ===== src/Lib.antt =====
-- The backend of a stock research assistant (app/): services over relational tables, a rule engine that
-- turns news into signals, price ingestion, and a gateway to language models with a privacy boundary.
--
-- Parts, and the files that model them:
--   Store, Store/*      a table with its primary keys and unique constraints, as the repositories
--                       (app/domains/*/repository.py) use it: lookups, inserts, updates, deletes, ordering;
--                       Store/Owned, Store/Guarded and Store/Children are the ownership checks of the
--                       services, Store/Joined the dicts of rows they read at once.
--   Base, Int, Decimal  shared helpers, Python's integers, and `Decimal` as an interface.
--   Errors              app/core/error_codes.py and the exception of app/core/exceptions.py.
--   Llm, Llm/*          app/adapters/llm: `LLMGateway.complete_json` (Llm/Gateway) over the daily budget
--                       and the cache (Llm/World), the router, the escalation policy and the privacy gate.
--   Signals, Signals/*  app/domains/signals: the rows, the two rules and `RuleEngine.run` (Signals/Rules).
--   Alerts, Candidates  app/domains/alerts, with its responses (Alerts/Responses), and
--                       app/domains/alert_candidates.
--   News, News/*        app/domains/news: the rows, the validator and the normalization of raw events.
--   RawNews, RawNews/*  app/domains/raw_news: events stored once, and the collection over several targets.
--   Theses, Theses/*    app/domains/theses: the service and the analyses of conflicts.
--   Analysis, ...       app/domains/analysis/service.py (Analysis/Run) with the two services that ask the
--                       gateway for it, `NewsAnalysisService` and `ThesisAnalysisService`.
--   LlmAnalysis         app/domains/llm_analysis: runs that end as succeeded or failed.
--   LlmContext, ...     app/domains/llm_context: the bundle, its builder, and its snapshot in
--                       app/adapters/llm/privacy.py.
--   Briefings, ...      the dashboard's summary and trends, the watchlist highlights, the snapshots of
--                       privacy.py, and the services that ask the gateway for briefings and observations.
--   Features            app/domains/features: returns, volume and drawdown of a series.
--   DecisionLogs        app/domains/decision_logs: decisions, their stamps and statistics.
--   Reports             app/domains/reports.
--   Prices, Prices/*    app/domains/prices: the validator, the repository, the ingestion and the series service.
--   RawPrices           app/domains/raw_prices: payloads stored once.
--   Assets, Watchlists  app/domains/assets and app/domains/watchlists, with the trends in Watchlists/Trends
--                       and the expanded listings, of signals and alert candidates too, in
--                       Watchlists/Expanded.
--   Portfolios, ...     app/domains/portfolios: positions, weights and exposures (Portfolios/Weights), and
--                       the concentration check that creates signals (Portfolios/Concentration).
--   Jobs                app/domains/jobs and the frame of the jobs in app/worker/jobs.
--   Scheduler           app/scheduler: the registry and the manual runner.
--   Users, Checklist    app/domains/users and app/domains/decision_checklist.
--
-- A service's method is a function of the tables it reads and changes; a raised exception is an `err`
-- beside the state that was written before it. A call takes the current time as one number, so the
-- several readings of the clock within a call are one. Loops over lists are structural recursion, so no
-- fuel bounds them; `str_int` runs on as many rounds as the number itself, which is enough since each
-- round divides by ten.
--
-- Not modelled: the loaders of the universe files, FastAPI and the schemas' rendering, the pages and sort
-- keys of a request, migrations and the network clients. Of database sessions the model has the commit and
-- rollback of an insert, the pending rows of a price upsert, which a lookup does not see before the commit,
-- and the session that a price job finds waiting for a rollback; concurrent requests interleave only
-- between calls. An analysis makes its `NewsItemCreate` of texts that passed the same limits of
-- `RawNewsEventCreate`, so only the latter are checked there.
-- Redis, pydantic, JSON texts, SHA-256, bcrypt and PyJWT are parameters with the laws they document, and so
-- are `Decimal`, the methods of `str` and floats. A cache entry does not expire in the model, and logging is left out. The evidence of a signal is
-- kept as its entries, not as JSON text.
pub mod Base
pub mod Store
pub mod Int
pub mod Errors
pub mod Llm
pub mod News
pub mod RawNews
pub mod DecisionLogs
pub mod Analysis
pub mod Reports
pub mod LlmAnalysis
pub mod LlmContext
pub mod Features
pub mod Briefings
pub mod Theses
pub mod Signals
pub mod Alerts
pub mod Candidates
pub mod Decimal
pub mod Prices
pub mod Assets
pub mod Watchlists
pub mod Portfolios
pub mod Jobs
pub mod Users
pub mod Checklist
pub mod RawPrices
pub mod Scheduler
mod Tests
