-- ===== src/Theses.antt =====
-- app/domains/theses: the rows of `investment_theses` (model.py), `ThesisRepository` (repository.py) and
-- `ThesisService` (service.py), and the verdict on a conflict (conflict_schema.py).
pub mod Ownership
pub mod Conflicts
use project_stock.Base.{
  ℕ, String, Bool, true, false, ◌&&◌, Option, none, some, List, ◌==◌, head?, if◌then◌else◌,
}
use project_stock.Base.Exec.{Result, ok, err, Exec, or_err}
use project_stock.Store.{Table, get, add, where_rows}
use project_stock.Store.Order.{order_by, newest_first}
use project_stock.Store.Guarded.{change_guarded}
use project_stock.Errors.{
  AppException, not_found, forbidden, asset_not_found, thesis_not_found, thesis_forbidden,
}
use project_stock.Assets.{Asset, Assets}

pub record InvestmentThesis : Type 0 where
  pub user_id : ℕ
  pub asset_id : ℕ
  pub summary : String
  pub risk_factors : Option String
  pub invalidation_conditions : Option String
  pub is_active : Bool
  pub created_at : ℕ

abbrev pub Theses : Type 0
Theses = Table InvestmentThesis

pub record ThesisConflictResult : Type 0 where
  pub status : String
  pub reason : String
  pub invalidation_triggered : Bool

pub record ThesisCreate : Type 0 where
  pub asset_id : ℕ
  pub summary : String
  pub risk_factors : Option String
  pub invalidation_conditions : Option String

-- The fields that were set. A summary that is set is no null; the other two can be set to null.
pub record ThesisUpdate : Type 0 where
  pub summary : Option String
  pub risk_factors : Option (Option String)
  pub invalidation_conditions : Option (Option String)

-- `setattr` of a field that is in the dictionary
abbrev pub set_or_keep {ℓ} : {A : Type ℓ} → Option A → A → A
set_or_keep none old = old
set_or_keep (some new) old = new

-- `ThesisRepository.list_by_asset`
unfoldable pub list_by_asset : ℕ → ℕ → Theses → List (ℕ × InvestmentThesis)
list_by_asset asset_id user_id t =
    order_by (newest_first (λ (r : InvestmentThesis). r.created_at))
      (where_rows (λ e. e.1.asset_id == asset_id && e.1.user_id == user_id) t)

-- `ThesisRepository.get_latest_by_asset`
unfoldable pub get_latest_by_asset : ℕ → ℕ → Theses → Option (ℕ × InvestmentThesis)
get_latest_by_asset asset_id user_id t = head? (
    order_by (newest_first (λ (r : InvestmentThesis). r.created_at))
      (where_rows (λ e. (e.1.asset_id == asset_id && e.1.user_id == user_id) && e.1.is_active) t))

-- `ThesisRepository.create`
unfoldable pub create_row : ℕ → ℕ → ThesisCreate → Theses → (ℕ × InvestmentThesis) × Theses
create_row now user_id d t =
    add
      (record {
        user_id = user_id;
        asset_id = d.asset_id;
        summary = d.summary;
        risk_factors = d.risk_factors;
        invalidation_conditions = d.invalidation_conditions;
        is_active = true;
        created_at = now;
      })
      t

created :
    ℕ → ℕ → ThesisCreate → Option (ℕ × Asset) → Exec AppException Theses (ℕ × InvestmentThesis)
created now user_id d none t = (err (not_found asset_not_found), t)
created now user_id d (some asset) t = let (row, t') = create_row now user_id d t in (ok row, t')

-- `ThesisService.create`
unfoldable pub create :
    ℕ → Assets → ℕ → ThesisCreate → Exec AppException Theses (ℕ × InvestmentThesis)
unfolding created
create now assets user_id d t = created now user_id d (get d.asset_id assets) t

-- `ThesisRepository.update` of a row that is there
abbrev pub apply_update : ThesisUpdate → InvestmentThesis → InvestmentThesis
apply_update u r = record r {
  summary = set_or_keep u.summary r.summary;
  risk_factors = set_or_keep u.risk_factors r.risk_factors;
  invalidation_conditions = set_or_keep u.invalidation_conditions r.invalidation_conditions;
}

-- `ThesisService.update`
unfoldable pub update : ℕ → ℕ → ThesisUpdate → Exec AppException Theses (ℕ × InvestmentThesis)
update thesis_id user_id u =
    change_guarded (λ (r : InvestmentThesis). r.user_id) (not_found thesis_not_found)
      (forbidden thesis_forbidden) thesis_id user_id (apply_update u)

-- `ThesisRepository.deactivate` of a row that is there
abbrev pub deactivated : InvestmentThesis → InvestmentThesis
deactivated r = record r { is_active = false }

-- `ThesisService.deactivate`
unfoldable pub deactivate : ℕ → ℕ → Exec AppException Theses (ℕ × InvestmentThesis)
deactivate thesis_id user_id =
    change_guarded (λ (r : InvestmentThesis). r.user_id) (not_found thesis_not_found)
      (forbidden thesis_forbidden) thesis_id user_id deactivated

-- `ThesisService.get_latest`
unfoldable pub get_latest : ℕ → ℕ → Theses → Result AppException (ℕ × InvestmentThesis)
get_latest asset_id user_id t =
    or_err (get_latest_by_asset asset_id user_id t) (not_found thesis_not_found)
