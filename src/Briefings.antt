-- ===== src/Briefings.antt =====
-- The watchlist highlights that the briefings of app/domains/dashboard/briefing_service.py and
-- app/domains/watchlists/observations_service.py are made of. The quote provider answers.
pub mod Top
pub mod Snapshots
pub mod Services
pub mod Dashboard
pub mod Trends
use project_stock.Base.{
  ℕ, ◌-◌, String, Bool, true, false, ◌&&◌, ◌||◌, Option, none, some, List, [], ◌∷◌, map, filter,
  any, str_eq, ◌==◌, ltb, leb, is_some, if◌then◌else◌,
}
use project_stock.Int.{ℤ, int_ltb, int_eq}
use project_stock.Store.{get, where_rows}
use project_stock.Store.Order.{order_by}
use project_stock.Decimal.{Decimals}
use project_stock.Assets.{Asset, Assets, list_by_ids}
use project_stock.Signals.{Signal, Signals, is_active}
use project_stock.Signals.Status.{resolve_watchlist_status}
use project_stock.Watchlists.{Watchlist, Watchlists, WatchlistItem, Items, list_by_watchlist}
use project_stock.Portfolios.Weights.{text_leb, distinct, last_match}

abbrev pub is_seen : List ℕ → ℕ × WatchlistItem → Bool
is_seen seen item = any (λ id. id == item.1.asset_id) seen

-- `_dedupe_top_watchlist_items`, where `left` more items may be selected
unfoldable pub dedupe_top : ℕ → List ℕ → List (ℕ × WatchlistItem) → List (ℕ × WatchlistItem)
dedupe_top left seen [] = []
dedupe_top left seen (item ∷ items) = elim (is_seen seen item) [
  | true ↦ dedupe_top left seen items
  | false ↦ item ∷ (elim (left == 1) [
    | true ↦ []
    | false ↦ dedupe_top (left - 1) (item.1.asset_id ∷ seen) items
  ])
]

-- `WatchlistItemRepository.list_by_user`: the items of the user's lists, by priority and then the newest first
unfoldable pub list_by_user : ℕ → Watchlists → Items → List (ℕ × WatchlistItem)
list_by_user user_id watchlists items =
    order_by before (where_rows (λ e. is_users (get e.1.watchlist_id watchlists)) items)
  where
    is_users : Option (ℕ × Watchlist) → Bool
    is_users none = false
    is_users (some (i, w)) = w.user_id == user_id

    before : ℕ × WatchlistItem → ℕ × WatchlistItem → Bool
    before a b =
        int_ltb a.1.priority b.1.priority
        || (int_eq a.1.priority b.1.priority
            && (ltb b.1.created_at a.1.created_at
                || (a.1.created_at == b.1.created_at && leb b.0 a.0)))

-- the types under an asset in the result of `SignalRepository.active_signal_types_by_asset`
unfoldable pub active_types_of : ℕ → ℕ → Signals → List String
active_types_of now asset_id t =
    map (λ e. e.1.signal_type) (where_rows (λ e. e.1.asset_id == asset_id && is_active now e.1) t)

module _ (d : Decimals) (upper : String → String) where
  -- the fields of `QuoteResult` that a highlight reads
  pub record QuoteView : Type 0 where
    pub symbol : String
    pub change_percent : d.D
    pub per : Option d.D
    pub peg : Option d.D

  -- `WatchlistHighlight`
  pub record WatchlistHighlight : Type 0 where
    pub symbol : String
    pub status : String
    pub per : Option d.D
    pub peg : Option d.D
    pub daily_change_percent : d.D

  quotes_for : (List String → List QuoteView) → List (ℕ × Asset) → List QuoteView
  quotes_for get_quote [] = []
  quotes_for get_quote (a ∷ assets) =
      get_quote (order_by text_leb (distinct str_eq (map (λ e. e.1.symbol) (a ∷ assets))))

  highlight_of : String → String → Option QuoteView → WatchlistHighlight
  highlight_of symbol status none = record {
    symbol = symbol;
    status = status;
    per = none;
    peg = none;
    daily_change_percent = d.of_ℕ 0;
  }
  highlight_of symbol status (some q) = record {
    symbol = symbol;
    status = status;
    per = q.per;
    peg = q.peg;
    daily_change_percent = q.change_percent;
  }

  -- the loop of `_build_watchlist_highlights`; an item without its asset is skipped
  highlights_of :
      ℕ → Assets → Signals → List QuoteView → List (ℕ × WatchlistItem) → List WatchlistHighlight
  unfolding highlight_of
  highlights_of now assets signals quotes [] = []
  highlights_of now assets signals quotes ((i, item) ∷ items) =
      let rest = highlights_of now assets signals quotes items in
      elim (get item.asset_id assets) [
        | none ↦ rest
        | some a ↦
            highlight_of a.1.symbol (resolve_watchlist_status (active_types_of now a.0 signals))
              (last_match (λ q. str_eq (upper q.symbol) (upper a.1.symbol)) quotes)
            ∷ rest
      ]

  -- `_build_watchlist_highlights`, of the items before they are selected
  unfoldable pub build_watchlist_highlights :
      ℕ
      → ℕ
      → Assets
      → Signals
      → (List String → List QuoteView)
      → List (ℕ × WatchlistItem)
      → List WatchlistHighlight
  unfolding highlights_of quotes_for
  build_watchlist_highlights now limit assets signals get_quote items =
      let selected = dedupe_top limit [] items in
      let quotes = quotes_for get_quote (list_by_ids (map (λ e. e.1.asset_id) selected) assets) in
      highlights_of now assets signals quotes selected
