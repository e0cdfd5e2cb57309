-- ===== src/Scheduler/Runs.antt =====
-- Which schedule a name finds.
use project_stock.Base.{
  String, true, false, Option, none, some, List, [], ◌∷◌, ◌≡◌, refl, str_eq, eq_iff, arith, inl,
  inr, Bool-cases, if◌then◌else◌,
}
use project_stock.Base.Exec.{Result, ok, err, Exec}
use project_stock.Scheduler.{
  SchedulerError, scheduler_job_not_found, scheduler_job_disabled, SchedulerRunResult, queued,
  run_schedule, run_manually, ScheduleDefinition, set_schedule, set_all, scheduler_registry,
  get_schedule,
}

module _ {F : Type 0} where
  -- the last definition of a name in a list, else the one given
  abbrev pub last_named :
      String
      → List (ScheduleDefinition F)
      → Option (ScheduleDefinition F)
      → Option (ScheduleDefinition F)
  last_named job_name [] before = before
  last_named job_name (s ∷ schedules) before =
      last_named job_name schedules (if str_eq s.name job_name then some s else before)

  get_schedule-set_schedule :
      (job_name : String) (s : ScheduleDefinition F)
      (registry : List (String × ScheduleDefinition F))
      → get_schedule job_name (set_schedule s registry)
        ≡ (if str_eq s.name job_name then some s else get_schedule job_name registry)
  unfolding get_schedule set_schedule
  get_schedule-set_schedule job_name s [] = refl
  get_schedule-set_schedule job_name s ((k, old) ∷ rest) = elim (Bool-cases (str_eq k s.name)) [
    | inl same ↦ rw same (rw ((eq_iff k s.name).0 same) (ground arith))
    | inr other ↦ rw other (
        ground (
          arith,
          get_schedule-set_schedule job_name s rest,
          eq_iff k job_name,
          eq_iff s.name job_name,
          eq_iff k s.name,
          other,
        ))
  ]

  get_schedule-set_all :
      (job_name : String) (schedules : List (ScheduleDefinition F))
      (registry : List (String × ScheduleDefinition F))
      → get_schedule job_name (set_all schedules registry)
        ≡ last_named job_name schedules (get_schedule job_name registry)
  unfolding set_all
  get_schedule-set_all job_name [] registry = refl
  get_schedule-set_all job_name (s ∷ schedules) registry =
      rw
        (
          get_schedule-set_all job_name schedules (set_schedule s registry),
          get_schedule-set_schedule job_name s registry,
        )
        refl

  -- A registry finds under a name the last schedule that was defined with it, and nothing under a name that
  -- no schedule has.
  pub get_schedule-scheduler_registry :
      (job_name : String) (schedules : List (ScheduleDefinition F))
      → get_schedule job_name (scheduler_registry schedules) ≡ last_named job_name schedules none
  unfolding scheduler_registry get_schedule
  get_schedule-scheduler_registry job_name schedules = get_schedule-set_all job_name schedules []

module _ {F Q : Type 0} (enqueue : F → Exec SchedulerError Q String) where
  -- What a manual run does with the schedule that its name finds: the queue changes by one call of `enqueue`
  -- with the schedule's function, if it is enabled, and not at all otherwise.
  abbrev pub Runs :
      String
      → Option (ScheduleDefinition F)
      → Q
      → Result SchedulerError SchedulerRunResult × Q
      → Type 0
  Runs job_name none q (result, q') = (result ≡ err (scheduler_job_not_found job_name)) × (q' ≡ q)
  Runs job_name (some s) q (result, q') =
      (s.enabled ≡ true → q' ≡ (enqueue s.func q).1)
      × (s.enabled ≡ false → (result ≡ err (scheduler_job_disabled job_name)) × (q' ≡ q))

  queued-queue :
      (job_name : String) (r : Result SchedulerError String × Q)
      → (queued enqueue job_name r).1 ≡ r.1
  unfolding queued
  queued-queue job_name (ok job_id, q) = refl
  queued-queue job_name (err e, q) = refl

  run_schedule-Runs :
      (job_name : String) (found : Option (ScheduleDefinition F)) (q : Q)
      → Runs job_name found q (run_schedule enqueue job_name found q)
  unfolding run_schedule
  run_schedule-Runs job_name none q = (refl, refl)
  run_schedule-Runs job_name (some s) q =
      ((λ on. rw on (queued-queue s.name (enqueue s.func q))), (λ off. rw off (refl, refl)))

  -- A manual run by name over a registry of schedules enqueues the function of the last schedule with that
  -- name, once, if that schedule is enabled; a disabled or unknown name is refused and the queue untouched.
  pub run_manually-Runs :
      (job_name : String) (schedules : List (ScheduleDefinition F)) (q : Q)
      → Runs job_name
          (last_named job_name schedules none)
          q
          (run_manually enqueue job_name (scheduler_registry schedules) q)
  unfolding run_manually
  run_manually-Runs job_name schedules q =
      rw (get_schedule-scheduler_registry job_name schedules)
        (run_schedule-Runs job_name (last_named job_name schedules none) q)
