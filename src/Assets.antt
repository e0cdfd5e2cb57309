-- ===== src/Assets.antt =====
-- app/domains/assets: the rows of `assets` with their unique constraint (model.py), `AssetRepository`
-- (repository.py) and the methods of `AssetService` on the table (service.py).
pub mod Registry
use project_stock.Base.{
  ℕ, String, Bool, true, false, ◌&&◌, Option, none, some, List, [], ◌∷◌, str_eq, ◌==◌, any, filter,
  head?, is_some, if◌then◌else◌,
}
use project_stock.Base.Exec.{Result, ok, err, Exec, or_err}
use project_stock.Store.{Table, get, add_unique, where_rows, count_rows}
use project_stock.Store.Order.{order_by, offset_limit, by_id}
use project_stock.Errors.{AppException, not_found, bad_request, asset_not_found, asset_duplicate}

pub record Asset : Type 0 where
  pub symbol : String
  pub name : String
  pub market : String
  pub sector : Option String
  pub industry : Option String
  pub description : Option String
  pub is_active : Bool

-- The fields of `AssetCreate`, which are the arguments of `AssetRepository.create`.
pub record AssetCreate : Type 0 where
  pub symbol : String
  pub name : String
  pub market : String
  pub sector : Option String
  pub industry : Option String
  pub description : Option String

abbrev pub Assets : Type 0
Assets = Table Asset

-- `uq_assets_symbol_market`
abbrev pub same_listing : Asset → Asset → Bool
same_listing a b = str_eq a.symbol b.symbol && str_eq a.market b.market

-- `AssetRepository.get_by_symbol_market`
abbrev pub get_by_symbol_market : String → String → Assets → Option (ℕ × Asset)
get_by_symbol_market symbol market t =
    head? (where_rows (λ e. str_eq e.1.symbol symbol && str_eq e.1.market market) t)

abbrev pub new_asset : AssetCreate → Asset
new_asset d = record {
  symbol = d.symbol;
  name = d.name;
  market = d.market;
  sector = d.sector;
  industry = d.industry;
  description = d.description;
  is_active = true;
}

-- `AssetRepository.create`; `none` is the `IntegrityError`
unfoldable pub create : AssetCreate → Assets → Option ((ℕ × Asset) × Assets)
create d t = add_unique same_listing (new_asset d) t

committed : Assets → Option ((ℕ × Asset) × Assets) → Result AppException (ℕ × Asset) × Assets
committed t none = (err (bad_request asset_duplicate), t)
committed t (some (a, t')) = (ok a, t')

-- `AssetService.register`
unfoldable pub register : AssetCreate → Exec AppException Assets (ℕ × Asset)
unfolding committed create
register d t =
    if is_some (get_by_symbol_market d.symbol d.market t)
    then (err (bad_request asset_duplicate), t)
    else committed t (create d t)

-- `AssetService.get`
unfoldable pub get_asset : ℕ → Assets → Result AppException (ℕ × Asset)
get_asset id t = or_err (get id t) (not_found asset_not_found)

-- `AssetRepository.list_by_ids`
unfoldable pub list_by_ids : List ℕ → Assets → List (ℕ × Asset)
list_by_ids ids t = order_by by_id (where_rows (λ e. any (λ i. e.0 == i) ids) t)

active_is : Option Bool → Bool → Bool
active_is none b = true
active_is (some true) b = b
active_is (some false) true = false
active_is (some false) false = true

symbol_is : Option String → String → Bool
symbol_is none s = true
symbol_is (some symbol) s = str_eq s symbol

-- `AssetRepository.list_all`
unfoldable pub list_all : Option Bool → Option String → ℕ → Option ℕ → Assets → List (ℕ × Asset)
unfolding active_is symbol_is
list_all is_active symbol offset limit t = offset_limit offset limit (
    order_by by_id
      (where_rows (λ e. active_is is_active e.1.is_active && symbol_is symbol e.1.symbol) t))

-- `AssetRepository.count_all`
unfoldable pub count_all : Option Bool → Option String → Assets → ℕ
unfolding active_is symbol_is
count_all is_active symbol t =
    count_rows (λ e. active_is is_active e.1.is_active && symbol_is symbol e.1.symbol) t
