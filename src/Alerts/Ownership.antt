-- ===== src/Alerts/Ownership.antt =====
-- Only its owner changes an alert, and the inbox keeps its alerts.
use project_stock.Base.{ℕ}
use project_stock.Store.Owned.{OwnerChanges, update_owned-OwnerChanges}
use project_stock.Errors.{not_found, alert_not_found}
use project_stock.Alerts.{
  Alert, Alerts, set_status, status_value, read, dismissed, update_owned_alert, mark_read, dismiss,
}

abbrev pub owner : Alert → ℕ
owner a = a.user_id

-- Marking an alert read or dismissing it succeeds exactly for its owner: it returns the alert with the new
-- status and sets the status of that alert and of no other; for anybody else, and for a missing alert, it is
-- 404 and nothing changes.
pub mark_and_dismiss_exact :
    (alert_id user_id : ℕ) (t : Alerts)
    → OwnerChanges owner
        (not_found alert_not_found)
        alert_id
        user_id
        (set_status (status_value read))
        t
        (mark_read alert_id user_id t)
      × OwnerChanges owner
          (not_found alert_not_found)
          alert_id
          user_id
          (set_status (status_value dismissed))
          t
          (dismiss alert_id user_id t)
unfolding mark_read dismiss update_owned_alert
mark_and_dismiss_exact alert_id user_id t = (
  update_owned-OwnerChanges owner (not_found alert_not_found) alert_id user_id _ t,
  update_owned-OwnerChanges owner (not_found alert_not_found) alert_id user_id _ t,
)
