-- ===== src/Theses/Ownership.antt =====
-- Only its owner changes a thesis.
use project_stock.Base.{ℕ}
use project_stock.Store.Guarded.{Changes, change_guarded-Changes}
use project_stock.Errors.{not_found, forbidden, thesis_not_found, thesis_forbidden}
use project_stock.Theses.{
  InvestmentThesis, Theses, ThesisUpdate, apply_update, deactivated, update, deactivate,
}

abbrev pub owner : InvestmentThesis → ℕ
owner r = r.user_id

-- An update and a deactivation change the thesis of their owner as asked, and no other; a missing thesis is
-- 404, another user's thesis is 403, and then nothing changes.
pub update_and_deactivate_exact :
    (thesis_id user_id : ℕ) (u : ThesisUpdate) (t : Theses)
    → Changes owner
        (not_found thesis_not_found)
        (forbidden thesis_forbidden)
        thesis_id
        user_id
        (apply_update u)
        t
        (update thesis_id user_id u t)
      × Changes owner
          (not_found thesis_not_found)
          (forbidden thesis_forbidden)
          thesis_id
          user_id
          deactivated
          t
          (deactivate thesis_id user_id t)
unfolding update deactivate
update_and_deactivate_exact thesis_id user_id u t = (
  change_guarded-Changes owner (not_found thesis_not_found) (forbidden thesis_forbidden) thesis_id
      user_id _ t,
  change_guarded-Changes owner (not_found thesis_not_found) (forbidden thesis_forbidden) thesis_id
      user_id _ t,
)
