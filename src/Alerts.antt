-- ===== src/Alerts.antt =====
-- app/domains/alerts: the rows of `alerts` with their unique constraint (model.py), `AlertRepository`
-- (repository.py) and the methods of `AlertService` that change them (service.py).
pub mod Dedup
pub mod Ownership
pub mod Responses
use Prim.Native.String.{◌++◌ as str_append}
use project_stock.Base.{
  ℕ, String, Bool, true, false, ◌&&◌, ◌||◌, Option, none, some, List, str_eq, ◌==◌, if◌then◌else◌,
}
use project_stock.Base.Exec.{Result, ok, err, Exec}
use project_stock.Base.Text.{str_int}
use project_stock.Store.{Table, get, add_unique, update, where_rows, count_rows}
use project_stock.Store.Owned.{update_owned}
use project_stock.Store.Order.{order_by, offset_limit, newest_first}
use project_stock.Errors.{AppException, not_found, alert_not_found}
use project_stock.Signals.{Signal}

pub data AlertStatus : Type 0 where
  unread read dismissed : AlertStatus

-- `AlertStatus.value`
abbrev pub status_value : AlertStatus → String
status_value unread = "UNREAD"
status_value read = "READ"
status_value dismissed = "DISMISSED"

pub record Alert : Type 0 where
  pub user_id : ℕ
  pub signal_id : ℕ
  pub status : String
  pub dedup_key : String
  pub created_at : ℕ

abbrev pub Alerts : Type 0
Alerts = Table Alert

pub record AlertCreate : Type 0 where
  pub user_id : ℕ
  pub signal_id : ℕ
  pub dedup_key : String

-- `uq_alerts_user_dedup`
abbrev pub same_dedup : Alert → Alert → Bool
same_dedup a b = a.user_id == b.user_id && str_eq a.dedup_key b.dedup_key

abbrev pub new_alert : ℕ → AlertCreate → Alert
new_alert now d = record {
  user_id = d.user_id;
  signal_id = d.signal_id;
  status = status_value unread;
  dedup_key = d.dedup_key;
  created_at = now;
}

abbrev committed : Alerts → Option ((ℕ × Alert) × Alerts) → Option (ℕ × Alert) × Alerts
committed t none = (none, t)
committed t (some (a, t')) = (some a, t')

-- `AlertRepository.create_if_absent`
unfoldable pub create_if_absent : ℕ → AlertCreate → Alerts → Option (ℕ × Alert) × Alerts
create_if_absent now d t = committed t (add_unique same_dedup (new_alert now d) t)

-- `AlertService._dedup_key`
unfoldable pub dedup_key : ℕ × Signal → String
dedup_key (i, s) = elim s.news_item_id [
  | some n ↦ str_append s.signal_type (str_append ":" (str_int n))
  | none ↦ str_append s.signal_type (str_append ":signal:" (str_int i))
]

-- `AlertService.create_alert`
unfoldable pub create_alert : ℕ → ℕ → ℕ × Signal → Alerts → Option (ℕ × Alert) × Alerts
create_alert now user_id s t =
    create_if_absent now (record { user_id = user_id; signal_id = s.0; dedup_key = dedup_key s }) t

abbrev pub set_status : String → Alert → Alert
set_status status a = record a { status = status }

-- `AlertService._update_owned_alert` with `AlertRepository.update_status`
unfoldable pub update_owned_alert : ℕ → ℕ → String → Exec AppException Alerts (ℕ × Alert)
update_owned_alert alert_id user_id status =
    update_owned (λ (a : Alert). a.user_id) (not_found alert_not_found) alert_id user_id
      (set_status status)

-- `AlertService.mark_read`
unfoldable pub mark_read : ℕ → ℕ → Exec AppException Alerts (ℕ × Alert)
mark_read alert_id user_id = update_owned_alert alert_id user_id (status_value read)

-- `AlertService.dismiss`
unfoldable pub dismiss : ℕ → ℕ → Exec AppException Alerts (ℕ × Alert)
dismiss alert_id user_id = update_owned_alert alert_id user_id (status_value dismissed)

status_is : Option String → String → Bool
status_is none s = true
status_is (some status) s = str_eq s status

-- `AlertRepository.list_by_user`
unfoldable pub list_by_user : ℕ → Option String → ℕ → Option ℕ → Alerts → List (ℕ × Alert)
unfolding status_is
list_by_user user_id status offset limit t = offset_limit offset limit (
    order_by (newest_first (λ (a : Alert). a.created_at))
      (where_rows (λ e. e.1.user_id == user_id && status_is status e.1.status) t))

-- `AlertRepository.count_by_user`
unfoldable pub count_by_user : ℕ → Option String → Alerts → ℕ
unfolding status_is
count_by_user user_id status t =
    count_rows (λ e. e.1.user_id == user_id && status_is status e.1.status) t
