-- ===== src/Portfolios.antt =====
-- app/domains/portfolios: the rows of `portfolios` and `positions` (model.py), the repositories
-- (repository.py), and the methods of `PortfolioService` on positions (service.py).
pub mod Positions
pub mod Weights
pub mod Concentration
use project_stock.Base.{ℕ, String, Option, none, some, List, ◌==◌, is_some}
use project_stock.Base.Exec.{Result, ok, err, Exec}
use project_stock.Store.{Table, get, add, where_rows, count_rows}
use project_stock.Store.Order.{order_by, offset_limit, by_id}
use project_stock.Store.Children.{ChildErrors, get_owned, add_child, remove_child, update_child}
use project_stock.Errors.{
  AppException, not_found, forbidden, bad_request, portfolio_not_found, portfolio_forbidden,
  position_not_found, position_duplicate, asset_not_found,
}
use project_stock.Assets.{Assets}
use project_stock.Decimal.{Decimals}

abbrev pub portfolio_errors : ChildErrors
portfolio_errors = record {
  no_parent = not_found portfolio_not_found;
  not_owner = forbidden portfolio_forbidden;
  no_asset = not_found asset_not_found;
  duplicate = bad_request position_duplicate;
  no_child = not_found position_not_found;
}

module _ (d : Decimals) where
  open d use {D}

  pub record Portfolio : Type 0 where
    pub user_id : ℕ
    pub name : String
    pub concentration_threshold : D
    pub cash_balance : D

  pub record Position : Type 0 where
    pub portfolio_id : ℕ
    pub asset_id : ℕ
    pub quantity : D
    pub avg_buy_price : D

  -- an unset field is `none`
  pub record PositionUpdate : Type 0 where
    pub quantity : Option D
    pub avg_buy_price : Option D

  abbrev pub Portfolios : Type 0
  Portfolios = Table Portfolio

  abbrev pub Positions : Type 0
  Positions = Table Position

  -- `PortfolioRepository.create`, with the fields of `PortfolioCreate`
  unfoldable pub create : ℕ → String → D → D → Portfolios → (ℕ × Portfolio) × Portfolios
  create user_id name threshold cash t =
      add
        (record {
          user_id = user_id;
          name = name;
          concentration_threshold = threshold;
          cash_balance = cash;
        })
        t

  -- `PortfolioRepository.list_by_user`
  unfoldable pub list_by_user : ℕ → ℕ → Option ℕ → Portfolios → List (ℕ × Portfolio)
  list_by_user user_id offset limit t =
      offset_limit offset limit (order_by by_id (where_rows (λ e. e.1.user_id == user_id) t))

  -- `PortfolioRepository.count_by_user`
  unfoldable pub count_by_user : ℕ → Portfolios → ℕ
  count_by_user user_id t = count_rows (λ e. e.1.user_id == user_id) t

  -- `PositionRepository.list_by_portfolio`
  unfoldable pub list_by_portfolio : ℕ → Positions → List (ℕ × Position)
  list_by_portfolio portfolio_id t =
      order_by by_id (where_rows (λ e. e.1.portfolio_id == portfolio_id) t)

  -- `PortfolioService._get_owned_portfolio`
  unfoldable pub get_owned_portfolio : ℕ → ℕ → Portfolios → Result AppException (ℕ × Portfolio)
  get_owned_portfolio portfolio_id user_id t =
      get_owned portfolio_errors (λ (p : Portfolio). p.user_id) portfolio_id user_id t

  abbrev pub portfolio_of : Position → ℕ
  portfolio_of p = p.portfolio_id

  abbrev pub asset_of : Position → ℕ
  asset_of p = p.asset_id

  abbrev pub new_position : ℕ → D → D → ℕ → Position
  new_position asset_id quantity avg_buy_price portfolio_id = record {
    portfolio_id = portfolio_id;
    asset_id = asset_id;
    quantity = quantity;
    avg_buy_price = avg_buy_price;
  }

  -- `PortfolioService.add_position`, with the fields of `PositionCreate`
  unfoldable pub add_position :
      Portfolios → Assets → ℕ → ℕ → ℕ → D → D → Exec AppException Positions (ℕ × Position)
  add_position portfolios assets portfolio_id user_id asset_id quantity avg_buy_price =
      add_child portfolio_errors portfolio_of asset_of
        (new_position asset_id quantity avg_buy_price) (is_some (get asset_id assets))
        (get_owned_portfolio portfolio_id user_id portfolios)

  or_old : Option D → D → D
  or_old none old = old
  or_old (some new) old = new

  -- `PositionRepository.update`
  unfoldable pub apply_update : PositionUpdate → Position → Position
  unfolding or_old
  apply_update u p = record p {
    quantity = or_old u.quantity p.quantity;
    avg_buy_price = or_old u.avg_buy_price p.avg_buy_price;
  }

  -- `PortfolioService.update_position`
  unfoldable pub update_position :
      Portfolios → ℕ → ℕ → ℕ → PositionUpdate → Exec AppException Positions (ℕ × Position)
  update_position portfolios portfolio_id position_id user_id u =
      update_child portfolio_errors portfolio_of asset_of position_id (apply_update u)
        (get_owned_portfolio portfolio_id user_id portfolios)

  -- `PortfolioService.remove_position`
  unfoldable pub remove_position : Portfolios → ℕ → ℕ → ℕ → Exec AppException Positions Unit
  remove_position portfolios portfolio_id position_id user_id =
      remove_child portfolio_errors portfolio_of asset_of position_id
        (get_owned_portfolio portfolio_id user_id portfolios)
