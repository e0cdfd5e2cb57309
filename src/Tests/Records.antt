-- ===== src/Tests/Records.antt =====
-- The registries, watchlists, job runs, users, checklists and news at concrete rows.
use Prim.Native.String.{◌++◌ as str_append}
use project_stock.Base.{
  ℕ, ◌≡◌, not, refl, String, true, false, Option, none, some, List, [], ◌∷◌, str_eq, is_some, arith,
  if◌then◌else◌,
}
use project_stock.Base.Exec.{Result, ok, err}
use project_stock.Int.{pos}
use project_stock.Store.{Table, empty_table}
use project_stock.Store.Children.Laws.{Inserts}
use project_stock.Assets.{Asset, AssetCreate, Assets, register}
use project_stock.Assets.Registry.{IsRegistry, Registered, register_exact}
use project_stock.Watchlists.{
  WatchlistItemCreate, Watchlists, Items, watchlist_errors, list_of, asset_of, new_item, add_item,
}
use project_stock.Signals.{Signals}
use project_stock.Watchlists.Trends.{get_trends}
use project_stock.Watchlists.Trends.Ascending.{IsAscending, watchlist_total, get_trends-IsAscending}
use project_stock.Watchlists.Items.{add_item_exact}
use project_stock.Jobs.{Target, Metadata, JobRuns, new_run, run_job}
use project_stock.Jobs.Runs.{Closes, run_job-Closes}
use project_stock.Users as U
use project_stock.Users.Sessions.{Registers, register_login, Refreshes, refresh-Refreshes}
use project_stock.Checklist.{Notes}
use project_stock.RawPrices.{RawPrice, exists_by_hash, save_raw}
use project_stock.RawPrices.Once.{StoredOnce, save_raw-StoredOnce}
use project_stock.Scheduler.{SchedulerError, ScheduleDefinition, scheduler_registry, run_manually}
use project_stock.Scheduler.Runs.{Runs, run_manually-Runs}

abbrev apple : Asset
apple = record {
  symbol = "AAPL";
  name = "Apple";
  market = "NASDAQ";
  sector = some "Technology";
  industry = none;
  description = none;
  is_active = true;
}

abbrev assets : Assets
assets = record { rows = (1, apple) ∷ []; next_id = 2 }

assets-IsRegistry : IsRegistry assets
assets-IsRegistry = (((omega arith, tt), (refl, tt)), (refl, tt))

abbrev tesla : AssetCreate
tesla = record {
  symbol = "TSLA";
  name = "Tesla";
  market = "NASDAQ";
  sector = none;
  industry = none;
  description = none;
}

register_exact_example : Registered tesla assets (register tesla assets)
register_exact_example = register_exact tesla assets assets-IsRegistry

abbrev watchlists : Watchlists
watchlists = record { rows = (1, record { user_id = 5; name = "Tech" }) ∷ []; next_id = 2 }

abbrev no_items : Items
no_items = empty_table

abbrev apple_item : WatchlistItemCreate
apple_item = record { asset_id = 1; priority = pos 0; reason = none; tags = []; memo = none }

add_item_exact_example :
    Inserts watchlist_errors list_of asset_of true true 1 1
      (new_item 100 apple_item 1)
      no_items
      (add_item 100 watchlists assets 1 5 apple_item no_items)
add_item_exact_example = add_item_exact 100 watchlists assets 1 5 apple_item no_items ((tt, tt), tt)

abbrev one_item : Items
one_item = record { rows = (1, new_item 100 apple_item 1) ∷ []; next_id = 2 }

abbrev no_signals : Signals
no_signals = empty_table

get_trends-IsAscending_example :
    IsAscending 0 (watchlist_total (get_trends 90000 watchlists one_item no_signals 1 5 2))
get_trends-IsAscending_example =
    get_trends-IsAscending 90000 watchlists one_item no_signals 1 5 2 (omega arith)

abbrev no_runs : JobRuns
no_runs = empty_table

abbrev targets : List Target
targets = record { symbol = "AAPL"; market = "NASDAQ"; name = none } ∷ []

abbrev about : List Target → Option Metadata
about ts = some (record { symbols = none; targets = ts })

abbrev resolve_one : ℕ → Result String (List Target)
resolve_one w = ok targets

abbrev unplugged : List Target → ℕ → Result String Unit × ℕ
unplugged ts w = (err "connection refused", w)

abbrev usable : ℕ → Option String
usable w = none

run_job-Closes_example :
    Closes usable 100 1
      (new_run 100 "price_collection" (about targets))
      (unplugged targets 0)
      none
      (run_job usable 100 "price_collection" about resolve_one unplugged (no_runs, 0))
run_job-Closes_example =
    run_job-Closes usable 100 "price_collection" about resolve_one unplugged no_runs 0 targets
      (tt, tt) refl

abbrev plain : U.Security
plain = record {
  hash_password = λ p. str_append "hash:" p;
  verify_password = λ p h. str_eq (str_append "hash:" p) h;
  create_access_token = λ id. "access";
  create_refresh_token = λ id. "refresh";
  decode_token = λ token. some (record { token_type = some token; sub = some "1" });
  parse_int = λ s. if str_eq s "1" then some 1 else none;
  access_token_expire_minutes = 30;
}

abbrev users : U.Users
users = record {
  rows = (1, record { email = "a@example.com"; hashed_password = "hash:a"; is_active = true }) ∷ [];
  next_id = 2;
}

register_login_example :
    Registers plain "b@example.com" "secret" users (U.register plain "b@example.com" "secret" users)
register_login_example = register_login plain "b@example.com" "secret" users refl

refresh-Refreshes_example :
    Refreshes plain users (plain.decode_token "refresh") (U.refresh plain "refresh" users)
refresh-Refreshes_example = refresh-Refreshes plain "refresh" users

abbrev no_notes : Notes
no_notes = empty_table

abbrev unstripped : String → String
unstripped s = s

abbrev no_raw : Table (RawPrice String)
no_raw = empty_table

abbrev first_save : Option (ℕ × RawPrice String) × Table (RawPrice String)
first_save = save_raw unstripped unstripped 100 "AAPL" "NASDAQ" "{}" "1d" "yfinance" no_raw

save_raw-StoredOnce_example :
    (is_some first_save.0 ≡ not (exists_by_hash "{}" no_raw))
    × (is_some first_save.0 ≡ false → first_save.1 ≡ no_raw)
    × (exists_by_hash "{}" first_save.1 ≡ true)
    × StoredOnce unstripped unstripped first_save.1
save_raw-StoredOnce_example =
    save_raw-StoredOnce unstripped unstripped 100 "AAPL" "NASDAQ" "{}" "1d" "yfinance" no_raw
      ((tt, tt), tt)

abbrev nightly : ScheduleDefinition ℕ
nightly = record { name = "price_collection"; func = 1; cron = "10 22 * * 1-5"; enabled = true }

abbrev switched_off : ScheduleDefinition ℕ
switched_off = record { name = "news_collection"; func = 2; cron = "0 * * * *"; enabled = false }

abbrev push : ℕ → List ℕ → Result SchedulerError String × List ℕ
push f q = (ok "job-1", f ∷ q)

run_manually-Runs_example :
    Runs push "price_collection"
      (some nightly)
      []
      (run_manually push "price_collection" (scheduler_registry (nightly ∷ switched_off ∷ [])) [])
run_manually-Runs_example =
    run_manually-Runs push "price_collection" (nightly ∷ switched_off ∷ []) []
