-- ===== src/Watchlists/Expanded.antt =====
-- The expanded listings and the summary: `WatchlistService.list_items_expanded` and `get_summary`
-- (app/domains/watchlists/service.py), `SignalService.list_signals_expanded` (app/domains/signals/service.py) and
-- `AlertCandidateService.list_candidates_expanded` (app/domains/alert_candidates/service.py). They render the
-- asset of a row by the same code; the candidates' keys are a set, whose order only the request to the quote
-- provider shows. The provider answers.
pub mod Joins
use project_stock.Base.{
  ℕ, String, Bool, ◌&&◌, Option, none, some, List, [], ◌∷◌, ◌++◌, any, map, length, str_eq, leb,
  ◌==◌, if◌then◌else◌,
}
use project_stock.Base.Exec.{Result, ok, err}
use project_stock.Store.{get, find_row, where_rows}
use project_stock.Store.Joined.{dict_of}
use project_stock.Errors.{AppException}
use project_stock.Decimal.{Decimals}
use project_stock.Assets.{Asset, Assets}
use project_stock.Signals.{Signal, Signals, value, risk_alert, is_active}
use project_stock.Signals as S
use project_stock.Candidates.{AlertCandidate, Candidates, Filters}
use project_stock.Candidates as C
use project_stock.Portfolios.Weights.{distinct, last_match}
use project_stock.Watchlists.{
  Watchlist, Watchlists, WatchlistItem, Items, get_owned_watchlist, list_by_watchlist,
  count_by_watchlist,
}

pub record AssetBriefResponse : Type 0 where
  pub symbol : String
  pub market : String
  pub name : String
  pub price : String
  pub change_percent : String
  pub sector : Option String

-- a response with the fields of a row and its asset
pub record Expanded (R : Type 0) : Type 0 where
  pub row : ℕ × R
  pub asset : Option AssetBriefResponse

-- the fields of a quote that are read
pub record Quote (d : Decimals) : Type 0 where
  pub symbol : String
  pub price : d.D
  pub change_percent : d.D

module _ {R : Type 0} (asset_key : R → Option ℕ) where
  named : Option ℕ → List ℕ → List ℕ
  named none ks = ks
  named (some k) ks = k ∷ ks

  -- the keys of the assets that rows name
  unfoldable pub keys_of : List (ℕ × R) → List ℕ
  unfolding named
  keys_of [] = []
  keys_of (e ∷ rows) = named (asset_key e.1) (keys_of rows)

-- The provider and `str` of a decimal.
module _ (d : Decimals) (get_quote : List String → List (Quote d)) (str : d.D → String) where
  brief : Asset → Option (Quote d) → AssetBriefResponse
  brief a none = record {
    symbol = a.symbol;
    market = a.market;
    name = a.name;
    price = "0";
    change_percent = "0";
    sector = a.sector;
  }
  brief a (some q) = record {
    symbol = a.symbol;
    market = a.market;
    name = a.name;
    price = str q.price;
    change_percent = str q.change_percent;
    sector = a.sector;
  }

  -- the quotes for the symbols of a dict of assets; without a symbol the provider is not asked
  unfoldable pub quotes_for : List (ℕ × Asset) → List (Quote d)
  quotes_for [] = []
  quotes_for (a ∷ assets) = get_quote (map (λ e. e.1.symbol) (a ∷ assets))

  -- of two quotes for one symbol the dict keeps the later one
  unfoldable pub brief_of : List (Quote d) → Option (ℕ × Asset) → Option AssetBriefResponse
  unfolding brief
  brief_of quotes none = none
  brief_of quotes (some (i, a)) = some (brief a (last_match (λ q. str_eq q.symbol a.symbol) quotes))

  module _ {R : Type 0} (asset_key : R → Option ℕ) where
    at_key : (ℕ → Option (ℕ × Asset)) → Option ℕ → Option (ℕ × Asset)
    at_key asset_at none = none
    at_key asset_at (some k) = asset_at k

    unfoldable pub expand_row : List (Quote d) → (ℕ → Option (ℕ × Asset)) → ℕ × R → Expanded R
    unfolding at_key
    expand_row quotes asset_at e = record {
      row = e;
      asset = brief_of quotes (at_key asset_at (asset_key e.1));
    }

    -- the part that the three listings share
    unfoldable pub expand : Assets → List (ℕ × R) → List (Expanded R)
    expand assets rows =
        let dict = dict_of assets (keys_of asset_key rows) in
        map (expand_row (quotes_for dict) (λ k. find_row k dict)) rows

  expanded_items :
      ℕ
      → Option ℕ
      → String
      → Assets
      → Items
      → Result AppException (ℕ × Watchlist)
      → Result AppException (List (Expanded WatchlistItem))
  expanded_items offset limit sort assets items (err e) = err e
  expanded_items offset limit sort assets items (ok w) =
      ok (expand (λ i. some i.asset_id) assets (list_by_watchlist w.0 offset limit sort items))

  -- `WatchlistService.list_items_expanded`
  unfoldable pub list_items_expanded :
      ℕ
      → ℕ
      → ℕ
      → Option ℕ
      → String
      → Watchlists
      → Items
      → Assets
      → Result AppException (List (Expanded WatchlistItem))
  unfolding expanded_items
  list_items_expanded watchlist_id user_id offset limit sort watchlists items assets =
      expanded_items offset limit sort assets items
        (get_owned_watchlist watchlist_id user_id watchlists)

  -- `SignalService.list_signals_expanded`
  unfoldable pub list_signals_expanded :
      ℕ → ℕ → Bool → ℕ → Option ℕ → Signals → Assets → List (Expanded Signal)
  list_signals_expanded now asset_id include_expired offset limit signals assets =
      expand (λ s. some s.asset_id) assets
        (S.list_by_asset now asset_id include_expired offset limit signals)

  -- `AlertCandidateService.list_candidates_expanded`
  unfoldable pub list_candidates_expanded :
      ℕ → Filters → ℕ → Option ℕ → String → Candidates → Assets → List (Expanded AlertCandidate)
  list_candidates_expanded user_id f offset limit sort candidates assets =
      expand (λ c. c.asset_id) assets (C.list_by_user user_id f offset limit sort candidates)

-- `SignalRepository.count_assets_with_active_signal`
unfoldable pub count_assets_with_active_signal : ℕ → List ℕ → String → Signals → ℕ
count_assets_with_active_signal now asset_ids signal_type t = length (
    distinct (λ a b. a == b)
      (map (λ e. e.1.asset_id)
        (where_rows
          (λ e.
            any (λ id. id == e.1.asset_id) asset_ids
            && (str_eq e.1.signal_type signal_type && is_active now e.1))
          t)))

pub record RecentWatchlistItemResponse : Type 0 where
  pub symbol : String
  pub name : String
  pub created_at : ℕ

pub record WatchlistSummaryResponse : Type 0 where
  pub total_count : ℕ
  pub risk_increasing_count : ℕ
  pub recent_items : List RecentWatchlistItemResponse

-- a recent item is left out if its asset is gone
recent : WatchlistItem → Option (ℕ × Asset) → List RecentWatchlistItemResponse
recent i none = []
recent i (some (k, a)) = record { symbol = a.symbol; name = a.name; created_at = i.created_at } ∷ []

unfoldable pub recent_items :
    (ℕ → Option (ℕ × Asset)) → List (ℕ × WatchlistItem) → List RecentWatchlistItemResponse
unfolding recent
recent_items asset_at [] = []
recent_items asset_at (e ∷ items) =
    recent e.1 (asset_at e.1.asset_id) ++ recent_items asset_at items

unfoldable pub summary_of :
    ℕ
    → ℕ
    → Items
    → Signals
    → Assets
    → Result AppException (ℕ × Watchlist)
    → Result AppException WatchlistSummaryResponse
summary_of now recent_limit items signals assets (err e) = err e
summary_of now recent_limit items signals assets (ok w) =
    let listed = list_by_watchlist w.0 0 none "priority" items in
    let newest = list_by_watchlist w.0 0 (some recent_limit) "-created_at" items in
    let dict = dict_of assets (map (λ e. e.1.asset_id) newest) in
    ok (record {
      total_count = count_by_watchlist w.0 items;
      risk_increasing_count =
          count_assets_with_active_signal now (map (λ e. e.1.asset_id) listed) (value risk_alert)
            signals;
      recent_items = recent_items (λ k. find_row k dict) newest;
    })

-- `WatchlistService.get_summary`
unfoldable pub get_summary :
    ℕ
    → ℕ
    → ℕ
    → ℕ
    → Watchlists
    → Items
    → Signals
    → Assets
    → Result AppException WatchlistSummaryResponse
get_summary now watchlist_id user_id recent_limit watchlists items signals assets =
    summary_of now recent_limit items signals assets
      (get_owned_watchlist watchlist_id user_id watchlists)
