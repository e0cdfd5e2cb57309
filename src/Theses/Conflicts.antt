-- ===== src/Theses/Conflicts.antt =====
-- app/domains/theses: the rows of `thesis_conflict_analyses` (conflict_model.py) and
-- `ThesisConflictRepository` (conflict_repository.py).
use project_stock.Base.{ℕ, String, Bool, ◌&&◌, List, ◌==◌}
use project_stock.Store.{Table, add, where_rows}
use project_stock.Store.Order.{order_by, newest_first}
use project_stock.Theses.{ThesisConflictResult}

pub record ThesisConflictAnalysis : Type 0 where
  pub news_item_id : ℕ
  pub thesis_id : ℕ
  pub status : String
  pub reason : String
  pub invalidation_triggered : Bool
  pub created_at : ℕ

abbrev pub Conflicts : Type 0
Conflicts = Table ThesisConflictAnalysis

-- `ThesisConflictRepository.create`
unfoldable pub create :
    ℕ → ℕ → ℕ → ThesisConflictResult → Conflicts → (ℕ × ThesisConflictAnalysis) × Conflicts
create now news_item_id thesis_id r t =
    add
      (record {
        news_item_id = news_item_id;
        thesis_id = thesis_id;
        status = r.status;
        reason = r.reason;
        invalidation_triggered = r.invalidation_triggered;
        created_at = now;
      })
      t

-- `ThesisConflictRepository.get_by_news_and_thesis`
unfoldable pub get_by_news_and_thesis : ℕ → ℕ → Conflicts → List (ℕ × ThesisConflictAnalysis)
get_by_news_and_thesis news_item_id thesis_id t =
    order_by (newest_first (λ (r : ThesisConflictAnalysis). r.created_at))
      (where_rows (λ e. e.1.news_item_id == news_item_id && e.1.thesis_id == thesis_id) t)
