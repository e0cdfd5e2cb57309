-- ===== src/Candidates.antt =====
-- app/domains/alert_candidates: the rows of `alert_candidates` (model.py), `AlertCandidateRepository`
-- (repository.py) and `AlertCandidateService` (service.py).
pub mod Listing
pub mod Ownership
use project_stock.Base.{
  ℕ, String, Bool, true, false, ◌&&◌, Option, none, some, List, str_eq, ◌==◌, if◌then◌else◌,
}
use project_stock.Base.Exec.{Exec}
use project_stock.Store.{Table, add, where_rows, count_rows}
use project_stock.Store.Owned.{update_owned}
use project_stock.Store.Order.{
  order_by, offset_limit, newest_first, oldest_first, by_id, by_id_desc,
}
use project_stock.Errors.{AppException, not_found, alert_candidate_not_found}

pub data AlertCandidateStatus : Type 0 where
  unread read confirmed : AlertCandidateStatus

-- `AlertCandidateStatus.value`
abbrev pub status_value : AlertCandidateStatus → String
status_value unread = "UNREAD"
status_value read = "READ"
status_value confirmed = "CONFIRMED"

pub record AlertCandidate : Type 0 where
  pub user_id : ℕ
  pub candidate_type : String
  pub importance : String
  pub status : String
  pub title : String
  pub message : Option String
  pub asset_id : Option ℕ
  pub evidence : Option String
  pub created_at : ℕ

abbrev pub Candidates : Type 0
Candidates = Table AlertCandidate

pub record AlertCandidateCreate : Type 0 where
  pub user_id : ℕ
  pub candidate_type : String
  pub importance : String
  pub title : String
  pub message : Option String
  pub asset_id : Option ℕ
  pub evidence : Option String

-- `AlertCandidateRepository.create`, with the default status of the model
unfoldable pub create : ℕ → AlertCandidateCreate → Candidates → (ℕ × AlertCandidate) × Candidates
create now d t =
    add
      (record {
        user_id = d.user_id;
        candidate_type = d.candidate_type;
        importance = d.importance;
        status = status_value unread;
        title = d.title;
        message = d.message;
        asset_id = d.asset_id;
        evidence = d.evidence;
        created_at = now;
      })
      t

-- The optional filters of a listing.
pub record Filters : Type 0 where
  pub candidate_type : Option String
  pub importance : Option String
  pub status : Option String

abbrev pub passes : Option String → String → Bool
passes none s = true
passes (some wanted) s = str_eq s wanted

-- the `where` clauses of `_filtered_query`
abbrev pub is_selected : ℕ → Filters → ℕ × AlertCandidate → Bool
is_selected user_id f (i, c) =
    c.user_id == user_id
    && (passes f.candidate_type c.candidate_type
        && (passes f.importance c.importance && passes f.status c.status))

-- `AlertCandidateRepository._filtered_query`
unfoldable pub filtered_query : ℕ → Filters → Candidates → List (ℕ × AlertCandidate)
filtered_query user_id f t = where_rows (is_selected user_id f) t

-- the order that `_apply_sort` asks for
unfoldable pub order_for : String → ℕ × AlertCandidate → ℕ × AlertCandidate → Bool
order_for sort =
    if str_eq sort "created_at"
    then oldest_first (λ (c : AlertCandidate). c.created_at)
    else if str_eq sort "id"
    then by_id
    else if str_eq sort "-id"
    then by_id_desc
    else newest_first (λ (c : AlertCandidate). c.created_at)

-- `AlertCandidateRepository._apply_sort`
unfoldable pub apply_sort : String → List (ℕ × AlertCandidate) → List (ℕ × AlertCandidate)
unfolding order_for
apply_sort sort rows = order_by (order_for sort) rows

-- `AlertCandidateRepository.list_by_user`
unfoldable pub list_by_user :
    ℕ → Filters → ℕ → Option ℕ → String → Candidates → List (ℕ × AlertCandidate)
list_by_user user_id f offset limit sort t =
    offset_limit offset limit (apply_sort sort (filtered_query user_id f t))

-- `AlertCandidateRepository.count_by_user`, which repeats the clauses
unfoldable pub count_by_user : ℕ → Filters → Candidates → ℕ
count_by_user user_id f t = count_rows (is_selected user_id f) t

abbrev pub set_status : String → AlertCandidate → AlertCandidate
set_status status c = record c { status = status }

-- `AlertCandidateService._update_owned_candidate` with `AlertCandidateRepository.update_status`
unfoldable pub update_owned_candidate :
    ℕ → ℕ → String → Exec AppException Candidates (ℕ × AlertCandidate)
update_owned_candidate candidate_id user_id status =
    update_owned (λ (c : AlertCandidate). c.user_id) (not_found alert_candidate_not_found)
      candidate_id user_id (set_status status)

-- `AlertCandidateService.mark_read`
unfoldable pub mark_read : ℕ → ℕ → Exec AppException Candidates (ℕ × AlertCandidate)
mark_read candidate_id user_id = update_owned_candidate candidate_id user_id (status_value read)

-- `AlertCandidateService.confirm`
unfoldable pub confirm : ℕ → ℕ → Exec AppException Candidates (ℕ × AlertCandidate)
confirm candidate_id user_id = update_owned_candidate candidate_id user_id (status_value confirmed)
