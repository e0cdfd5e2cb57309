-- ===== src/Scheduler.antt =====
-- app/scheduler: `SchedulerRegistry` (registry.py) and `ManualSchedulerRunner` (runner.py). The queue is RQ's,
-- so its `enqueue` is a parameter: it may raise, and it returns the identifier of the queued job.
pub mod Runs
use project_stock.Base.{
  String, Bool, true, false, Option, none, some, List, [], ◌∷◌, map, str_eq, if◌then◌else◌,
}
use project_stock.Base.Exec.{Result, ok, err, Exec}

-- `ScheduleDefinition` with its `FunctionSchedulerJob`
pub record ScheduleDefinition (F : Type 0) : Type 0 where
  pub name : String
  pub func : F
  pub cron : String
  pub enabled : Bool

pub record SchedulerRunResult : Type 0 where
  pub job_name : String
  pub job_id : String
  pub status : String

pub data SchedulerError : Type 0 where
  scheduler_job_not_found scheduler_job_disabled : String → SchedulerError
  queue_error : SchedulerError

module _ {F : Type 0} where
  -- a dictionary keeps the place of a key that is set again
  set_schedule :
      ScheduleDefinition F
      → List (String × ScheduleDefinition F)
      → List (String × ScheduleDefinition F)
  set_schedule s [] = (s.name, s) ∷ []
  set_schedule s ((k, old) ∷ rest) =
      let later = set_schedule s rest in if str_eq k s.name then (k, s) ∷ rest else (k, old) ∷ later

  set_all :
      List (ScheduleDefinition F)
      → List (String × ScheduleDefinition F)
      → List (String × ScheduleDefinition F)
  set_all [] registry = registry
  set_all (s ∷ schedules) registry = set_all schedules (set_schedule s registry)

  -- `SchedulerRegistry.__init__`
  unfoldable pub scheduler_registry :
      List (ScheduleDefinition F) → List (String × ScheduleDefinition F)
  unfolding set_all set_schedule
  scheduler_registry schedules = set_all schedules []

  -- `SchedulerRegistry.get`
  unfoldable pub get_schedule :
      String → List (String × ScheduleDefinition F) → Option (ScheduleDefinition F)
  get_schedule job_name [] = none
  get_schedule job_name ((k, s) ∷ rest) =
      if str_eq k job_name then some s else get_schedule job_name rest

  -- `SchedulerRegistry.list`
  unfoldable pub list_schedules : List (String × ScheduleDefinition F) → List (ScheduleDefinition F)
  list_schedules registry = map (λ e. e.1) registry

  module _ {Q : Type 0} (enqueue : F → Exec SchedulerError Q String) where
    queued :
        String → Result SchedulerError String × Q → Result SchedulerError SchedulerRunResult × Q
    queued job_name (ok job_id, q) =
        (ok (record { job_name = job_name; job_id = job_id; status = "queued" }), q)
    queued job_name (err e, q) = (err e, q)

    run_schedule : String → Option (ScheduleDefinition F) → Exec SchedulerError Q SchedulerRunResult
    unfolding queued
    run_schedule job_name none q = (err (scheduler_job_not_found job_name), q)
    run_schedule job_name (some s) q =
        if s.enabled
        then queued s.name (enqueue s.func q)
        else (err (scheduler_job_disabled job_name), q)

    -- `ManualSchedulerRunner.run`
    unfoldable pub run_manually :
        String → List (String × ScheduleDefinition F) → Exec SchedulerError Q SchedulerRunResult
    unfolding run_schedule
    run_manually job_name registry q = run_schedule job_name (get_schedule job_name registry) q
