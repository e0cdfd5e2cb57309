-- ===== src/Watchlists/Items.antt =====
-- What adding, listing and removing the items of a watchlist does.
use project_stock.Base.{ℕ, String, none, List, ◌≡◌, refl, length, is_some}
use project_stock.Base.Exec.{Result, ok, err}
use project_stock.Store.{get}
use project_stock.Store.Order.{length-order_by}
use project_stock.Store.Children.Laws.{
  IsSound, Inserts, Removes, is_users, add_owned-Inserts, remove_child-Removes,
}
use project_stock.Errors.{AppException}
use project_stock.Assets.{Assets}
use project_stock.Watchlists.{
  Watchlist, WatchlistItem, WatchlistItemCreate, Watchlists, Items, watchlist_errors, list_of,
  asset_of, new_item, get_owned_watchlist, add_item, remove_item, list_items, count_items, listed,
  counted, list_by_watchlist, count_by_watchlist, apply_sort,
}

-- An item is added exactly if the watchlist is there and the user's, the asset is there and no item of the
-- watchlist has it yet. Then the answer is the new item, which the table has under a new key; every other item is
-- as before, and without an addition all of them are. No asset stands twice in a watchlist afterwards, if none did
-- before.
pub add_item_exact :
    (now : ℕ) (watchlists : Watchlists) (assets : Assets) (watchlist_id user_id : ℕ)
    (d : WatchlistItemCreate) (items : Items)
    → IsSound watchlist_errors list_of asset_of items
    → Inserts watchlist_errors list_of asset_of
        (is_users (λ (w : Watchlist). w.user_id) user_id (get watchlist_id watchlists))
        (is_some (get d.asset_id assets))
        watchlist_id
        d.asset_id
        (new_item now d watchlist_id)
        items
        (add_item now watchlists assets watchlist_id user_id d items)
unfolding add_item get_owned_watchlist
add_item_exact now watchlists assets watchlist_id user_id d items =
    add_owned-Inserts watchlist_errors list_of asset_of (λ (w : Watchlist). w.user_id) user_id
      watchlist_id d.asset_id (new_item now d) (is_some (get d.asset_id assets)) watchlists items
      refl refl

-- A removal takes away the named item and no other, and only if it stands in a watchlist of the user; else the
-- answer is the error of the check that failed, and nothing changes.
pub remove_item_exact :
    (watchlists : Watchlists) (watchlist_id item_id user_id : ℕ) (items : Items)
    → Removes watchlist_errors list_of asset_of item_id
        (get_owned_watchlist watchlist_id user_id watchlists)
        items
        (remove_item watchlists watchlist_id item_id user_id items)
unfolding remove_item
remove_item_exact watchlists watchlist_id item_id user_id items =
    remove_child-Removes watchlist_errors list_of asset_of item_id
      (get_owned_watchlist watchlist_id user_id watchlists) items

-- The length of a listing against the count.
abbrev pub Counts : Result AppException (List (ℕ × WatchlistItem)) → Result AppException ℕ → Type 0
Counts (ok xs) (ok n) = length xs ≡ n
Counts (err e) (err e') = e ≡ e'
Counts (ok xs) (err e) = ⊥
Counts (err e) (ok n) = ⊥

listed-counted :
    (sort : String) (items : Items) (w : Result AppException (ℕ × Watchlist))
    → Counts (listed 0 none sort items w) (counted items w)
unfolding listed counted list_by_watchlist count_by_watchlist
listed-counted sort items (err e) = refl
listed-counted sort items (ok w) = length-order_by (apply_sort sort) _

-- The whole listing of a watchlist, in any order, has as many items as the count of it says, and both are
-- refused with the same error.
pub list_items_count :
    (watchlist_id user_id : ℕ) (sort : String) (watchlists : Watchlists) (items : Items)
    → Counts
        (list_items watchlist_id user_id 0 none sort watchlists items)
        (count_items watchlist_id user_id watchlists items)
unfolding list_items count_items
list_items_count watchlist_id user_id sort watchlists items =
    listed-counted sort items (get_owned_watchlist watchlist_id user_id watchlists)
