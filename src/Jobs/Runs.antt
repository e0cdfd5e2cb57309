-- ===== src/Jobs/Runs.antt =====
-- The job run that a job leaves behind.
use project_stock.Base.{ℕ, String, Option, none, some, ◌≡◌, refl, arith}
use project_stock.Base.Exec.{Result, ok, err, Exec}
use project_stock.Store.{get, add, update}
use project_stock.Store.Laws.{IsKeyed}
use project_stock.Store.Lookup.{get-add, find_row-update}
use project_stock.Jobs.{
  Metadata, JobRun, JobRuns, JobError, collection_failed, session_broken, on_session, try_on,
  new_run, start, update_status, set_found, succeeded, failed, succeed, fail, run_job, started,
  closed, return, reraise, resolved,
}

-- The run that a collection with this outcome leaves behind.
abbrev pub outcome : {W : Type 0} → ℕ → Result String Unit × W → JobRun → JobRun
outcome now (ok _, w) = succeeded now
outcome now (err message, w) = failed now message

-- What the job reports for this outcome.
abbrev pub reported : {W : Type 0} → Result String Unit × W → Result JobError Unit
reported (ok _, w) = ok tt
reported (err message, w) = err (collection_failed message)

update_status-found :
    (id : ℕ) (r : JobRun) (f : JobRun → JobRun) (t : JobRuns)
    → get id t ≡ some (id, r)
    → (update_status id f t ≡ (ok (id, f r), update id f t))
unfolding update_status set_found
update_status-found id r f t e = rw e refl

update-get :
    (id : ℕ) (r : JobRun) (f : JobRun → JobRun) (t : JobRuns)
    → get id t ≡ some (id, r)
    → get id (update id f t) ≡ some (id, f r)
unfolding update
update-get id r f t e = rw (find_row-update id id f t.rows, e) (ground arith)

module _ {W : Type 0} (pending_rollback : W → Option String) where
  -- If the session is usable after the collection, the run is closed under its key and the job reports the
  -- outcome; else the run stays as it was and the job raises. What the collection wrote stays.
  abbrev pub Closes :
      ℕ
      → ℕ
      → JobRun
      → Result String Unit × W
      → Option String
      → Result JobError Unit × (JobRuns × W)
      → Type 0
  Closes now id r collected none (result, (t, w)) =
      (result ≡ reported collected)
      × (get id t ≡ some (id, outcome now collected r))
      × (w ≡ collected.1)
  Closes now id r collected (some message) (result, (t, w)) =
      (result ≡ err (session_broken message)) × (get id t ≡ some (id, r)) × (w ≡ collected.1)

  closed-Closes :
      (now id : ℕ) (r : JobRun) (collected : Result String Unit × W) (t : JobRuns)
      (broken : Option String)
      → pending_rollback collected.1 ≡ broken
      → get id t ≡ some (id, r)
      → Closes now id r collected broken (closed pending_rollback now id collected t)
  unfolding closed succeed fail return reraise on_session try_on
  closed-Closes now id r (ok u, w) t none b e =
      rw (b, update_status-found id r (succeeded now) t e)
        (refl, update-get id r (succeeded now) t e, refl)
  closed-Closes now id r (ok u, w) t (some m) b e = rw (b, b) (refl, e, refl)
  closed-Closes now id r (err m, w) t none b e =
      rw (b, update_status-found id r (failed now m) t e)
        (refl, update-get id r (failed now m) t e, refl)
  closed-Closes now id r (err m, w) t (some m') b e = rw b (refl, e, refl)

  -- A job whose targets are known leaves a run behind under the next key. If the session is usable after the
  -- collection, the run says success with the time if the collection returned, and failed with the text of its
  -- error if it raised, and the job raises exactly if the collection did. If the collection left the session
  -- waiting for a rollback, the run stays running and the job raises the session's error.
  pub run_job-Closes :
      {T : Type 0} (now : ℕ) (job_type : String) (metadata : T → Option Metadata)
      (resolve : W → Result String T) (collect : T → Exec String W Unit) (t : JobRuns) (w : W)
      (targets : T)
      → IsKeyed t
      → resolve w ≡ ok targets
      → Closes now t.next_id
          (new_run now job_type (metadata targets))
          (collect targets w)
          (pending_rollback (collect targets w).1)
          (run_job pending_rollback now job_type metadata resolve collect (t, w))
  unfolding run_job resolved started start
  run_job-Closes now job_type metadata resolve collect t w targets keyed e = rw e (
      closed-Closes now t.next_id (new_run now job_type (metadata targets)) (collect targets w)
        (add (new_run now job_type (metadata targets)) t).1 (pending_rollback (collect targets w).1)
        refl (get-add (new_run now job_type (metadata targets)) t keyed))
