-- ===== src/Watchlists.antt =====
-- app/domains/watchlists: the rows of `watchlists` and `watchlist_items` (model.py), the repositories
-- (repository.py) and `WatchlistService` (service.py).
pub mod Items
pub mod Expanded
pub mod Trends
use project_stock.Base.{
  ℕ, String, Bool, true, false, ◌&&◌, ◌||◌, Option, none, some, List, [], ◌∷◌, str_eq, ltb, leb,
  ◌==◌, any, filter, head?, is_some, if◌then◌else◌,
}
use project_stock.Base.Exec.{Result, ok, err, Exec}
use project_stock.Int.{ℤ, pos, negsuc, int_ltb, int_eq}
use project_stock.Store.{Table, get, add, add_unique, where_rows, count_rows}
use project_stock.Store.Order.{order_by, offset_limit, newest_first, oldest_first, by_id}
use project_stock.Store.Children.{ChildErrors, get_owned, add_child, remove_child}
use project_stock.Errors.{
  AppException, not_found, forbidden, bad_request, watchlist_not_found, watchlist_item_duplicate,
  watchlist_item_not_found, watchlist_forbidden, asset_not_found,
}
use project_stock.Assets.{Assets}

pub record Watchlist : Type 0 where
  pub user_id : ℕ
  pub name : String

pub record WatchlistItem : Type 0 where
  pub watchlist_id : ℕ
  pub asset_id : ℕ
  pub priority : ℤ
  pub reason : Option String
  pub tags : List String
  pub memo : Option String
  pub created_at : ℕ

pub record WatchlistItemCreate : Type 0 where
  pub asset_id : ℕ
  pub priority : ℤ
  pub reason : Option String
  pub tags : List String
  pub memo : Option String

abbrev pub Watchlists : Type 0
Watchlists = Table Watchlist

abbrev pub Items : Type 0
Items = Table WatchlistItem

abbrev pub watchlist_errors : ChildErrors
watchlist_errors = record {
  no_parent = not_found watchlist_not_found;
  not_owner = forbidden watchlist_forbidden;
  no_asset = not_found asset_not_found;
  duplicate = bad_request watchlist_item_duplicate;
  no_child = not_found watchlist_item_not_found;
}

-- `WatchlistRepository.create`
unfoldable pub create : ℕ → String → Watchlists → (ℕ × Watchlist) × Watchlists
create user_id name t = add (record { user_id = user_id; name = name }) t

-- `WatchlistRepository.list_by_user`
unfoldable pub list_by_user : ℕ → ℕ → Option ℕ → Watchlists → List (ℕ × Watchlist)
list_by_user user_id offset limit t =
    offset_limit offset limit (order_by by_id (where_rows (λ e. e.1.user_id == user_id) t))

-- `WatchlistRepository.count_by_user`
unfoldable pub count_by_user : ℕ → Watchlists → ℕ
count_by_user user_id t = count_rows (λ e. e.1.user_id == user_id) t

-- `WatchlistService._get_owned_watchlist`
unfoldable pub get_owned_watchlist : ℕ → ℕ → Watchlists → Result AppException (ℕ × Watchlist)
get_owned_watchlist watchlist_id user_id t =
    get_owned watchlist_errors (λ (w : Watchlist). w.user_id) watchlist_id user_id t

abbrev pub new_item : ℕ → WatchlistItemCreate → ℕ → WatchlistItem
new_item now d watchlist_id = record {
  watchlist_id = watchlist_id;
  asset_id = d.asset_id;
  priority = d.priority;
  reason = d.reason;
  tags = d.tags;
  memo = d.memo;
  created_at = now;
}

abbrev pub list_of : WatchlistItem → ℕ
list_of i = i.watchlist_id

abbrev pub asset_of : WatchlistItem → ℕ
asset_of i = i.asset_id

-- `WatchlistService.add_item`
unfoldable pub add_item :
    ℕ
    → Watchlists
    → Assets
    → ℕ
    → ℕ
    → WatchlistItemCreate
    → Exec AppException Items (ℕ × WatchlistItem)
add_item now watchlists assets watchlist_id user_id d =
    add_child watchlist_errors list_of asset_of (new_item now d) (is_some (get d.asset_id assets))
      (get_owned_watchlist watchlist_id user_id watchlists)

-- `WatchlistService.remove_item`
unfoldable pub remove_item : Watchlists → ℕ → ℕ → ℕ → Exec AppException Items Unit
remove_item watchlists watchlist_id item_id user_id =
    remove_child watchlist_errors list_of asset_of item_id
      (get_owned_watchlist watchlist_id user_id watchlists)

-- `order_by(priority.desc(), id.desc())`
priority_desc : ℕ × WatchlistItem → ℕ × WatchlistItem → Bool
priority_desc a b =
    int_ltb b.1.priority a.1.priority || (int_eq a.1.priority b.1.priority && leb b.0 a.0)

-- `order_by(priority, id)`
priority_asc : ℕ × WatchlistItem → ℕ × WatchlistItem → Bool
priority_asc a b =
    int_ltb a.1.priority b.1.priority || (int_eq a.1.priority b.1.priority && leb a.0 b.0)

-- `WatchlistItemRepository._apply_sort`
unfoldable pub apply_sort : String → ℕ × WatchlistItem → ℕ × WatchlistItem → Bool
unfolding priority_desc priority_asc
apply_sort sort =
    if str_eq sort "-priority"
    then priority_desc
    else if str_eq sort "created_at"
    then oldest_first (λ (i : WatchlistItem). i.created_at)
    else if str_eq sort "-created_at"
    then newest_first (λ (i : WatchlistItem). i.created_at)
    else priority_asc

-- `WatchlistItemRepository.list_by_watchlist`
unfoldable pub list_by_watchlist : ℕ → ℕ → Option ℕ → String → Items → List (ℕ × WatchlistItem)
list_by_watchlist watchlist_id offset limit sort t =
    offset_limit offset limit
      (order_by (apply_sort sort) (where_rows (λ e. e.1.watchlist_id == watchlist_id) t))

-- `WatchlistItemRepository.count_by_watchlist`
unfoldable pub count_by_watchlist : ℕ → Items → ℕ
count_by_watchlist watchlist_id t = count_rows (λ e. e.1.watchlist_id == watchlist_id) t

listed :
    ℕ
    → Option ℕ
    → String
    → Items
    → Result AppException (ℕ × Watchlist)
    → Result AppException (List (ℕ × WatchlistItem))
listed offset limit sort items (err e) = err e
listed offset limit sort items (ok w) = ok (list_by_watchlist w.0 offset limit sort items)

-- `WatchlistService.list_items`
unfoldable pub list_items :
    ℕ
    → ℕ
    → ℕ
    → Option ℕ
    → String
    → Watchlists
    → Items
    → Result AppException (List (ℕ × WatchlistItem))
unfolding listed
list_items watchlist_id user_id offset limit sort watchlists items =
    listed offset limit sort items (get_owned_watchlist watchlist_id user_id watchlists)

counted : Items → Result AppException (ℕ × Watchlist) → Result AppException ℕ
counted items (err e) = err e
counted items (ok w) = ok (count_by_watchlist w.0 items)

-- `WatchlistService.count_items`
unfoldable pub count_items : ℕ → ℕ → Watchlists → Items → Result AppException ℕ
unfolding counted
count_items watchlist_id user_id watchlists items =
    counted items (get_owned_watchlist watchlist_id user_id watchlists)
