-- ===== src/Candidates/Ownership.antt =====
-- Only its owner reads or confirms a candidate.
use project_stock.Base.{ℕ}
use project_stock.Store.Owned.{OwnerChanges, update_owned-OwnerChanges}
use project_stock.Errors.{not_found, alert_candidate_not_found}
use project_stock.Candidates.{
  AlertCandidate, Candidates, set_status, status_value, read, confirmed, update_owned_candidate,
  mark_read, confirm,
}

abbrev pub owner : AlertCandidate → ℕ
owner c = c.user_id

-- Marking a candidate read or confirming it succeeds exactly for its owner: it returns the candidate with
-- the new status and sets the status of that candidate and of no other; for anybody else, and for a
-- missing candidate, it is 404 and nothing changes.
pub read_and_confirm_exact :
    (candidate_id user_id : ℕ) (t : Candidates)
    → OwnerChanges owner
        (not_found alert_candidate_not_found)
        candidate_id
        user_id
        (set_status (status_value read))
        t
        (mark_read candidate_id user_id t)
      × OwnerChanges owner
          (not_found alert_candidate_not_found)
          candidate_id
          user_id
          (set_status (status_value confirmed))
          t
          (confirm candidate_id user_id t)
unfolding mark_read confirm update_owned_candidate
read_and_confirm_exact candidate_id user_id t = (
  update_owned-OwnerChanges owner (not_found alert_candidate_not_found) candidate_id user_id _ t,
  update_owned-OwnerChanges owner (not_found alert_candidate_not_found) candidate_id user_id _ t,
)
