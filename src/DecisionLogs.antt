-- ===== src/DecisionLogs.antt =====
-- app/domains/decision_logs: the rows of `decision_logs` (model.py, types.py), `DecisionLogRepository`
-- (repository.py) and `DecisionLogService` (service.py). A price and a JSON snapshot are kept as text; the time
-- of the last update is left out.
pub mod Lifecycle
pub mod Stats
use project_stock.Base.{
  ℕ, ◌+◌, String, Bool, true, false, ◌&&◌, Option, none, some, List, [], ◌∷◌, ◌==◌, str_eq, any,
  map, is_some, if◌then◌else◌,
}
use project_stock.Base.Exec.{Result, ok, err, Exec}
use project_stock.Store.{Table, add, update, where_rows, count_rows}
use project_stock.Store.Order.{order_by, offset_limit, newest_first, oldest_first}
use project_stock.Store.Guarded.{get_guarded, change_guarded}
use project_stock.Errors.{
  AppException, not_found, forbidden, decision_log_not_found, decision_log_forbidden,
}
use project_stock.Theses.{set_or_keep}

-- `DecisionType`
pub data DecisionType : Type 0 where
  watch buy_consider buy hold sell_consider : DecisionType
  sell skip rebalance take_profit stop_loss : DecisionType

abbrev pub type_value : DecisionType → String
type_value watch = "WATCH"
type_value buy_consider = "BUY_CONSIDER"
type_value buy = "BUY"
type_value hold = "HOLD"
type_value sell_consider = "SELL_CONSIDER"
type_value sell = "SELL"
type_value skip = "SKIP"
type_value rebalance = "REBALANCE"
type_value take_profit = "TAKE_PROFIT"
type_value stop_loss = "STOP_LOSS"

-- `DecisionStatus`
pub data DecisionStatus : Type 0 where
  opened reviewed closed : DecisionStatus

abbrev pub status_value : DecisionStatus → String
status_value opened = "OPEN"
status_value reviewed = "REVIEWED"
status_value closed = "CLOSED"

-- `CreatedBy`
pub data CreatedBy : Type 0 where
  user ai system : CreatedBy

abbrev pub created_by_value : CreatedBy → String
created_by_value user = "USER"
created_by_value ai = "AI"
created_by_value system = "SYSTEM"

-- The columns that a user writes, which a create and a row share.
pub record Notes : Type 0 where
  pub ticker : String
  pub company_name : Option String
  pub summary : Option String
  pub reason : Option String
  pub risk_note : Option String
  pub action_plan : Option String
  pub confidence_score : Option ℕ
  pub target_price : Option String
  pub stop_loss_price : Option String
  pub valuation_snapshot : Option String
  pub news_snapshot : Option String
  pub portfolio_snapshot : Option String
  pub ai_analysis_snapshot : Option String
  pub cognitive_risks : List String

-- `DecisionLog`
pub record DecisionLog : Type 0 where
  pub user_id : ℕ
  pub notes : Notes
  pub decision_type : String
  pub decision_status : String
  pub created_by : String
  pub decided_at : ℕ
  pub reviewed_at : Option ℕ
  pub closed_at : Option ℕ
  pub created_at : ℕ

abbrev pub DecisionLogs : Type 0
DecisionLogs = Table DecisionLog

-- `DecisionLogCreate`
pub record DecisionLogCreate : Type 0 where
  pub notes : Notes
  pub decision_type : DecisionType
  pub decision_status : DecisionStatus
  pub created_by : CreatedBy
  pub decided_at : Option ℕ

-- `DecisionLogUpdate`: the fields that were set, each to a value that its column takes; `notes` is what the
-- text columns become.
pub record DecisionLogUpdate : Type 0 where
  pub notes : Notes → Notes
  pub decision_type : Option DecisionType
  pub decision_status : Option DecisionStatus
  pub created_by : Option CreatedBy
  pub decided_at : Option ℕ
  pub reviewed_at : Option (Option ℕ)
  pub closed_at : Option (Option ℕ)

abbrev pub decided : ℕ → Option ℕ → ℕ
decided now none = now
decided now (some time) = time

-- `DecisionLogService.create_decision_log` with `DecisionLogRepository.create`
unfoldable pub create_decision_log :
    ℕ → ℕ → DecisionLogCreate → DecisionLogs → (ℕ × DecisionLog) × DecisionLogs
create_decision_log now user_id d t =
    add
      (record {
        user_id = user_id;
        notes = d.notes;
        decision_type = type_value d.decision_type;
        decision_status = status_value d.decision_status;
        created_by = created_by_value d.created_by;
        decided_at = decided now d.decided_at;
        reviewed_at = none;
        closed_at = none;
        created_at = now;
      })
      t

abbrev pub is_reviewed : Option DecisionStatus → Bool
is_reviewed (some reviewed) = true
is_reviewed (some opened) = false
is_reviewed (some closed) = false
is_reviewed none = false

abbrev pub is_closed : Option DecisionStatus → Bool
is_closed (some closed) = true
is_closed (some opened) = false
is_closed (some reviewed) = false
is_closed none = false

-- a time that was neither sent nor stamped before is now
stamp : ℕ → Bool → Option (Option ℕ) → Option ℕ → Option (Option ℕ)
stamp now false sent old = sent
stamp now true (some time) old = some time
stamp now true none none = some (some now)
stamp now true none (some time) = none

-- `DecisionLogService._with_lifecycle_stamp`
unfoldable pub with_lifecycle_stamp : ℕ → DecisionLog → DecisionLogUpdate → DecisionLogUpdate
unfolding stamp
with_lifecycle_stamp now r u = record u {
  reviewed_at = stamp now (is_reviewed u.decision_status) u.reviewed_at r.reviewed_at;
  closed_at = stamp now (is_closed u.decision_status) u.closed_at r.closed_at;
}

abbrev pub map_value {ℓ} : {A : Type ℓ} → (A → String) → Option A → Option String
map_value f none = none
map_value f (some a) = some (f a)

-- the attributes that `DecisionLogRepository.update` sets
abbrev pub apply_update : ℕ → DecisionLogUpdate → DecisionLog → DecisionLog
apply_update now u r = record r {
  notes = u.notes r.notes;
  decision_type = set_or_keep (map_value type_value u.decision_type) r.decision_type;
  decision_status = set_or_keep (map_value status_value u.decision_status) r.decision_status;
  created_by = set_or_keep (map_value created_by_value u.created_by) r.created_by;
  decided_at = set_or_keep u.decided_at r.decided_at;
  reviewed_at = set_or_keep u.reviewed_at r.reviewed_at;
  closed_at = set_or_keep u.closed_at r.closed_at;
}

-- `DecisionLogService._get_owned_decision_log`, which is also `get_decision_log`
unfoldable pub get_decision_log : ℕ → ℕ → DecisionLogs → Result AppException (ℕ × DecisionLog)
get_decision_log id user_id t =
    get_guarded (λ (r : DecisionLog). r.user_id) (not_found decision_log_not_found)
      (forbidden decision_log_forbidden) id user_id t

-- the row as the update leaves it
abbrev pub changed : ℕ → DecisionLogUpdate → DecisionLog → DecisionLog
changed now u r = apply_update now (with_lifecycle_stamp now r u) r

-- `DecisionLogService.update_decision_log` with `DecisionLogRepository.update`
unfoldable pub update_decision_log :
    ℕ → ℕ → ℕ → DecisionLogUpdate → Exec AppException DecisionLogs (ℕ × DecisionLog)
update_decision_log now id user_id u =
    change_guarded (λ (r : DecisionLog). r.user_id) (not_found decision_log_not_found)
      (forbidden decision_log_forbidden) id user_id (changed now u)
