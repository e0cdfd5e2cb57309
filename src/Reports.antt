-- ===== src/Reports.antt =====
-- app/domains/reports: the rows of `research_reports` (model.py), `ResearchReportRepository` (repository.py)
-- and `ResearchReportService` (service.py). A list column holds its JSON text in the database and is a list
-- here.
use project_stock.Base.{ℕ, String, Option, List, ◌==◌}
use project_stock.Base.Exec.{Result, or_err}
use project_stock.Store.{Table, get, add, where_rows, count_rows}
use project_stock.Store.Order.{order_by, offset_limit, newest_first}
use project_stock.Errors.{AppException, not_found, report_not_found}

-- `ResearchReportCreate`
pub record ResearchReportCreate : Type 0 where
  pub asset_id : ℕ
  pub thesis_id : Option ℕ
  pub summary : String
  pub positive_factors : Option (List String)
  pub negative_factors : Option (List String)
  pub risk_level : Option String
  pub thesis_conflict_status : Option String
  pub conflict_reason : Option String
  pub news_item_ids : Option (List ℕ)

-- `ResearchReport`
pub record ResearchReport : Type 0 where
  pub asset_id : ℕ
  pub thesis_id : Option ℕ
  pub summary : String
  pub positive_factors : Option (List String)
  pub negative_factors : Option (List String)
  pub risk_level : Option String
  pub thesis_conflict_status : Option String
  pub conflict_reason : Option String
  pub news_item_ids : Option (List ℕ)
  pub created_at : ℕ

abbrev pub Reports : Type 0
Reports = Table ResearchReport

-- `ResearchReportService.create_report` with `ResearchReportRepository.create`
unfoldable pub create_report : ℕ → ResearchReportCreate → Reports → (ℕ × ResearchReport) × Reports
create_report now d t =
    add
      (record {
        asset_id = d.asset_id;
        thesis_id = d.thesis_id;
        summary = d.summary;
        positive_factors = d.positive_factors;
        negative_factors = d.negative_factors;
        risk_level = d.risk_level;
        thesis_conflict_status = d.thesis_conflict_status;
        conflict_reason = d.conflict_reason;
        news_item_ids = d.news_item_ids;
        created_at = now;
      })
      t

-- `ResearchReportService.get_report`
unfoldable pub get_report : ℕ → Reports → Result AppException (ℕ × ResearchReport)
get_report report_id t = or_err (get report_id t) (not_found report_not_found)

-- `ResearchReportService.list_reports` with `ResearchReportRepository.list_by_asset`
unfoldable pub list_reports : ℕ → ℕ → Option ℕ → Reports → List (ℕ × ResearchReport)
list_reports asset_id offset limit t = offset_limit offset limit (
    order_by (newest_first (λ (r : ResearchReport). r.created_at))
      (where_rows (λ e. e.1.asset_id == asset_id) t))

-- `ResearchReportService.count_reports` with `ResearchReportRepository.count_by_asset`
unfoldable pub count_reports : ℕ → Reports → ℕ
count_reports asset_id t = count_rows (λ e. e.1.asset_id == asset_id) t
