-- ===== src/Jobs.antt =====
-- app/domains/jobs: the rows of `job_runs` (model.py), `JobRunRepository` (repository.py) and
-- `JobRunService` (service.py); and the frame that app/worker/jobs/news.py and prices.py put around a
-- collection.
pub mod Runs
use project_stock.Base.{ℕ, String, Option, none, some, List, map, length}
use project_stock.Base.Exec.{Result, ok, err, Exec}
use project_stock.Store.{Table, get, add, update}
use project_stock.Store.Lookup.{map_row}
use project_stock.Store.Order.{order_by, offset_limit, newest_first}

pub record Target : Type 0 where
  pub symbol : String
  pub market : String
  -- only of a news target
  pub name : Option String

-- The metadata that the two jobs write.
pub record Metadata : Type 0 where
  -- only of a news collection: the symbols that it was asked for
  pub symbols : Option (List String)
  pub targets : List Target

pub record JobRun : Type 0 where
  pub job_type : String
  pub status : String
  pub started_at : Option ℕ
  pub finished_at : Option ℕ
  pub error_message : Option String
  pub metadata : Option Metadata
  pub created_at : ℕ

abbrev pub JobRuns : Type 0
JobRuns = Table JobRun

-- An exception that a job meets, with its text.
pub data JobError : Type 0 where
  job_run_not_found : JobError
  collection_failed session_broken : String → JobError

-- `str(exc)`
abbrev pub message_of : JobError → String
message_of job_run_not_found = "job run not found"
message_of (collection_failed message) = message
message_of (session_broken message) = message

abbrev pub new_run : ℕ → String → Option Metadata → JobRun
new_run now job_type metadata = record {
  job_type = job_type;
  status = "running";
  started_at = some now;
  finished_at = none;
  error_message = none;
  metadata = metadata;
  created_at = now;
}

-- `JobRunService.start` with `JobRunRepository.create`
unfoldable pub start : ℕ → String → Option Metadata → JobRuns → (ℕ × JobRun) × JobRuns
start now job_type metadata t = add (new_run now job_type metadata) t

set_found : (JobRun → JobRun) → Option (ℕ × JobRun) → Exec JobError JobRuns (ℕ × JobRun)
set_found f none t = (err job_run_not_found, t)
set_found f (some (i, r)) t = (ok (i, f r), update i f t)

-- `JobRunRepository.update_status`
unfoldable pub update_status : ℕ → (JobRun → JobRun) → Exec JobError JobRuns (ℕ × JobRun)
unfolding set_found
update_status id f t = set_found f (get id t) t

abbrev pub succeeded : ℕ → JobRun → JobRun
succeeded now r = record r { status = "success"; finished_at = some now }

abbrev pub failed : ℕ → String → JobRun → JobRun
failed now message r = record r {
  status = "failed";
  finished_at = some now;
  error_message = some message;
}

-- `JobRunService.succeed`
unfoldable pub succeed : ℕ → ℕ → Exec JobError JobRuns (ℕ × JobRun)
succeed now id = update_status id (succeeded now)

-- `JobRunService.fail`
unfoldable pub fail : ℕ → ℕ → String → Exec JobError JobRuns (ℕ × JobRun)
fail now id message = update_status id (failed now message)

-- `JobRunService.list_recent`
unfoldable pub list_recent : ℕ → Option ℕ → JobRuns → List (ℕ × JobRun)
list_recent offset limit t =
    offset_limit offset limit (order_by (newest_first (λ (r : JobRun). r.created_at)) t.rows)

-- `JobRunService.count`
unfoldable pub count : JobRuns → ℕ
count t = length t.rows

-- What a collection changes beside the job runs. The job runs and the collection share one session. A flush that
-- failed in the collection and that it swallowed leaves the session waiting for a rollback, and every later
-- statement raises: `pending_rollback` is the text of that error.
module _ {W : Type 0} (pending_rollback : W → Option String) where
  try_on : Option String → Exec JobError JobRuns (ℕ × JobRun) → Exec JobError JobRuns (ℕ × JobRun)
  try_on none operation t = operation t
  try_on (some message) operation t = (err (session_broken message), t)

  -- an operation on the job runs, on the session that the collection left
  on_session : W → Exec JobError JobRuns (ℕ × JobRun) → Exec JobError JobRuns (ℕ × JobRun)
  unfolding try_on
  on_session w operation = try_on (pending_rollback w) operation

  reraise :
      JobError → W → Result JobError (ℕ × JobRun) × JobRuns → Result JobError Unit × (JobRuns × W)
  reraise e w (ok _, t) = (err e, (t, w))
  reraise e w (err e', t) = (err e', (t, w))

  -- after `succeed`: its error goes to the `except` block, where `fail` runs on the same session
  return : ℕ → ℕ → W → Result JobError (ℕ × JobRun) × JobRuns → Result JobError Unit × (JobRuns × W)
  unfolding reraise on_session try_on
  return now id w (ok _, t) = (ok tt, (t, w))
  return now id w (err e, t) = reraise e w (on_session w (fail now id (message_of e)) t)

  -- the end of the `try` block, or its `except` block
  closed : ℕ → ℕ → Result String Unit × W → JobRuns → Result JobError Unit × (JobRuns × W)
  unfolding reraise return on_session try_on
  closed now id (ok _, w) t = return now id w (on_session w (succeed now id) t)
  closed now id (err message, w) t =
      reraise (collection_failed message) w (on_session w (fail now id message) t)

  started :
      ℕ
      → String
      → Option Metadata
      → Exec String W Unit
      → JobRuns × W
      → Result JobError Unit × (JobRuns × W)
  unfolding start
  started now job_type metadata collect (t, w) =
      closed now t.next_id (collect w) (start now job_type metadata t).1

  resolved :
      {T : Type 0}
      → ℕ
      → String
      → (T → Option Metadata)
      → (T → Exec String W Unit)
      → JobRuns × W
      → Result String T
      → Result JobError Unit × (JobRuns × W)
  unfolding started closed
  resolved now job_type metadata collect s (ok targets) =
      started now job_type (metadata targets) (collect targets) s
  resolved now job_type metadata collect s (err message) = (err (collection_failed message), s)

  -- The frame of the two jobs. Resolving the targets may fail, before there is a run.
  unfoldable pub run_job :
      {T : Type 0}
      → ℕ
      → String
      → (T → Option Metadata)
      → (W → Result String T)
      → (T → Exec String W Unit)
      → JobRuns × W
      → Result JobError Unit × (JobRuns × W)
  unfolding resolved
  run_job now job_type metadata resolve collect s =
      resolved now job_type metadata collect s (resolve s.1)

  -- `collect_news_job`
  unfoldable pub collect_news_job :
      (Option (List String) → W → Result String (List Target))
      → (List Target → Exec String W Unit)
      → ℕ
      → Option (List String)
      → JobRuns × W
      → Result JobError Unit × (JobRuns × W)
  collect_news_job resolve collect now symbols =
      run_job now "news_collection"
        (λ (targets : List Target). some (record { symbols = symbols; targets = targets }))
        (resolve symbols) collect

  price_targets :
      (String → String)
      → (W → Result String (List Target))
      → Option (List String)
      → W
      → Result String (List Target)
  price_targets upper resolve none w = resolve w
  price_targets upper resolve (some symbols) w =
      ok (map (λ s. record { symbol = upper s; market = "NASDAQ"; name = none }) symbols)

  -- `collect_prices_job`; `upper` is Python's `str.upper`
  unfoldable pub collect_prices_job :
      (String → String)
      → (W → Result String (List Target))
      → (List Target → Exec String W Unit)
      → ℕ
      → Option (List String)
      → JobRuns × W
      → Result JobError Unit × (JobRuns × W)
  unfolding price_targets
  collect_prices_job upper resolve collect now symbols =
      run_job now "price_collection"
        (λ (targets : List Target). some (record { symbols = none; targets = targets }))
        (price_targets upper resolve symbols) collect
