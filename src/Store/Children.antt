-- ===== src/Store/Children.antt =====
-- What the services of watchlists and portfolios share: `_get_owned_watchlist` and
-- `_get_owned_portfolio`, and the operations on a row that belongs to a user's watchlist or portfolio.
pub mod Laws
use project_stock.Base.{
  ℕ, Bool, true, false, ◌&&◌, Option, none, some, List, ◌==◌, any, is_some, if◌then◌else◌,
}
use project_stock.Base.Exec.{Result, ok, err, Exec}
use project_stock.Store.{Table, get, add_unique, update, delete}
use project_stock.Store.Lookup.{map_row}
use project_stock.Errors.{AppException}

-- the errors of one service
pub record ChildErrors : Type 0 where
  pub no_parent : AppException
  pub not_owner : AppException
  pub no_asset : AppException
  pub duplicate : AppException
  pub no_child : AppException

module _ {P : Type 0} (errors : ChildErrors) (owner : P → ℕ) where
  unfoldable pub owned : ℕ → Option (ℕ × P) → Result AppException (ℕ × P)
  owned user_id none = err errors.no_parent
  owned user_id (some (i, p)) = if owner p == user_id then ok (i, p) else err errors.not_owner

  -- `_get_owned_watchlist`, `_get_owned_portfolio`
  unfoldable pub get_owned : ℕ → ℕ → Table P → Result AppException (ℕ × P)
  unfolding owned
  get_owned id user_id parents = owned user_id (get id parents)

module _ {C : Type 0} (errors : ChildErrors) (parent_of : C → ℕ) (asset_of : C → ℕ) where
  -- the unique constraint on parent and asset
  abbrev pub same_place : C → C → Bool
  same_place a b = parent_of a == parent_of b && asset_of a == asset_of b

  unfoldable pub inserted :
      Table C → Option ((ℕ × C) × Table C) → Result AppException (ℕ × C) × Table C
  inserted t none = (err errors.duplicate, t)
  inserted t (some (row, t')) = (ok row, t')

  -- the row is created unless its parent is refused, its asset is missing or it is there already
  unfoldable pub add_child :
      {P : Type 0}
      → (ℕ → C)
      → Bool
      → Result AppException (ℕ × P)
      → Exec AppException (Table C) (ℕ × C)
  unfolding inserted
  add_child new asset_exists (err e) t = (err e, t)
  add_child new asset_exists (ok (i, p)) t =
      if asset_exists
      then (if any (λ row. same_place row.1 (new i)) t.rows
          then (err errors.duplicate, t)
          else inserted t (add_unique same_place (new i) t))
      else (err errors.no_asset, t)

  -- whether a row that was looked up belongs to the parent
  abbrev pub is_child : ℕ → Option (ℕ × C) → Bool
  is_child i none = false
  is_child i (some (j, c)) = parent_of c == i

  unfoldable pub remove_child :
      {P : Type 0} → ℕ → Result AppException (ℕ × P) → Exec AppException (Table C) Unit
  remove_child id (err e) t = (err e, t)
  remove_child id (ok (i, p)) t =
      if is_child i (get id t) then (ok tt, delete id t) else (err errors.no_child, t)

  returned : Table C → Option (ℕ × C) → Result AppException (ℕ × C) × Table C
  returned t none = (err errors.no_child, t)
  returned t (some row) = (ok row, t)

  unfoldable pub update_child :
      {P : Type 0} → ℕ → (C → C) → Result AppException (ℕ × P) → Exec AppException (Table C) (ℕ × C)
  unfolding returned
  update_child id f (err e) t = (err e, t)
  update_child id f (ok (i, p)) t =
      if is_child i (get id t)
      then returned (update id f t) (map_row f (get id t))
      else (err errors.no_child, t)
