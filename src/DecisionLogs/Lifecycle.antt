-- ===== src/DecisionLogs/Lifecycle.antt =====
-- Only its owner changes a decision, and a stamp is set once.
use project_stock.Base.{ℕ, Bool, true, false, ◌≡◌, refl, Option, none, some, if◌then◌else◌}
use project_stock.Store.Guarded.{Changes, change_guarded-Changes}
use project_stock.Errors.{not_found, forbidden, decision_log_not_found, decision_log_forbidden}
use project_stock.Theses.{set_or_keep}
use project_stock.DecisionLogs.{
  DecisionLog, DecisionLogs, DecisionLogUpdate, changed, update_decision_log, with_lifecycle_stamp,
  stamp, is_reviewed, is_closed, decided,
}

abbrev pub owner : DecisionLog → ℕ
owner r = r.user_id

-- An update by its owner changes the decision and no other, the stamp included; a missing decision is
-- 404, another user's decision is 403, and then nothing changes.
pub update_decision_log-Changes :
    (now id user_id : ℕ) (u : DecisionLogUpdate) (t : DecisionLogs)
    → Changes owner
        (not_found decision_log_not_found)
        (forbidden decision_log_forbidden)
        id
        user_id
        (changed now u)
        t
        (update_decision_log now id user_id u t)
unfolding update_decision_log
update_decision_log-Changes now id user_id u t =
    change_guarded-Changes owner (not_found decision_log_not_found)
      (forbidden decision_log_forbidden) id user_id (changed now u) t

stamp-kept :
    (now : ℕ) (stamped : Bool) (old : Option ℕ)
    → set_or_keep (stamp now stamped none old) old
      ≡ (if stamped then some (decided now old) else old)
unfolding stamp
stamp-kept now false old = refl
stamp-kept now true none = refl
stamp-kept now true (some time) = refl

-- When an update that sends no times makes a decision reviewed or closed, it has that stamp afterwards: the
-- one it had before, or else the present time. The other stamp stays as it was.
pub changed_stamps :
    (now : ℕ) (u : DecisionLogUpdate) (r : DecisionLog)
    → u.reviewed_at ≡ none
    → u.closed_at ≡ none
    → ((changed now u r).reviewed_at ≡ (
        if is_reviewed u.decision_status then some (decided now r.reviewed_at) else r.reviewed_at))
      × ((changed now u r).closed_at
          ≡ (if is_closed u.decision_status then some (decided now r.closed_at) else r.closed_at))
unfolding with_lifecycle_stamp
changed_stamps now u r no_review no_close = (
  rw no_review (stamp-kept now (is_reviewed u.decision_status) r.reviewed_at),
  rw no_close (stamp-kept now (is_closed u.decision_status) r.closed_at),
)
