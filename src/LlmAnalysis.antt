-- ===== src/LlmAnalysis.antt =====
-- app/domains/llm_analysis: the rows of `llm_analysis_runs` (model.py), `LLMAnalysisRunRepository`
-- (repository.py) and `LLMAnalysisService` (service.py), with the types of schema.py. The context builder is
-- an argument, as it is of the service.
pub mod Settled
use project_stock.Base.{ℕ, String, Bool, ◌&&◌, Option, none, some, List, ◌==◌, head?, map}
use project_stock.Base.Exec.{Result, ok, err, Exec}
use project_stock.Store.{Table, get, add, update, where_rows}
use project_stock.Store.Order.{order_by, offset_limit, newest_first}
use project_stock.Store.Lookup.{map_row}
use project_stock.Llm.{TaskType, task_value, LlmError}
use project_stock.Llm.Externals.{Fields, Externals}
use project_stock.Llm.Privacy.{Payload}
use project_stock.Llm.World.{World}
use project_stock.Llm.Gateway.{Gateway, Request, Completion, complete_json}

-- `RunStatus`
pub data RunStatus : Type 0 where
  pending succeeded failed : RunStatus

abbrev pub status_value : RunStatus → String
status_value pending = "pending"
status_value succeeded = "succeeded"
status_value failed = "failed"

-- `LLMAnalysisRun`; the JSON columns hold their text
pub record LlmAnalysisRun : Type 0 where
  pub user_id : ℕ
  pub task_type : String
  pub related_symbols : List String
  pub input_context_json : String
  pub output_json : Option String
  pub status : String
  pub model_name : Option String
  pub prompt_version : Option String
  pub provider : Option String
  pub related_decision_log_id : Option ℕ
  pub error_message : Option String
  pub created_at : ℕ

abbrev pub Runs : Type 0
Runs = Table LlmAnalysisRun

-- `LLMAnalysisRunCreate` with the defaults of what the service leaves out
abbrev pub new_run : ℕ → ℕ → TaskType → List String → String → LlmAnalysisRun
new_run now user_id task symbols context = record {
  user_id = user_id;
  task_type = task_value task;
  related_symbols = symbols;
  input_context_json = context;
  output_json = none;
  status = status_value pending;
  model_name = none;
  prompt_version = none;
  provider = none;
  related_decision_log_id = none;
  error_message = none;
  created_at = now;
}

-- `LLMAnalysisRunRepository.create`
unfoldable pub create : LlmAnalysisRun → Runs → (ℕ × LlmAnalysisRun) × Runs
create r t = add r t

-- `LLMAnalysisRunRepository.list_by_user`
unfoldable pub list_by_user : ℕ → ℕ → Runs → List (ℕ × LlmAnalysisRun)
list_by_user user_id limit t = offset_limit 0 (some limit) (
    order_by (newest_first (λ (r : LlmAnalysisRun). r.created_at))
      (where_rows (λ e. e.1.user_id == user_id) t))

-- `LLMAnalysisRunRepository.get_by_id_for_user`
unfoldable pub get_by_id_for_user : ℕ → ℕ → Runs → Option (ℕ × LlmAnalysisRun)
get_by_id_for_user run_id user_id t =
    head? (where_rows (λ e. e.0 == run_id && e.1.user_id == user_id) t)

-- What a run can raise: the builder's exception, and the `ValueError` of `_get_required`.
pub data RunError : Type 0 where
  not_built : String → RunError
  run_missing : ℕ → RunError

-- an update of a run that has to be there
required :
    (LlmAnalysisRun → LlmAnalysisRun)
    → ℕ
    → Option (ℕ × LlmAnalysisRun)
    → Exec RunError Runs (ℕ × LlmAnalysisRun)
required f id none t = (err (run_missing id), t)
required f id (some (i, r)) t = (ok (i, f r), update id f t)

abbrev pub as_succeeded : String → String → String → String → LlmAnalysisRun → LlmAnalysisRun
as_succeeded output model_name prompt_version provider r = record r {
  output_json = some output;
  status = status_value succeeded;
  model_name = some model_name;
  prompt_version = some prompt_version;
  provider = some provider;
  error_message = none;
}

abbrev pub as_failed : String → LlmAnalysisRun → LlmAnalysisRun
as_failed message r = record r { status = status_value failed; error_message = some message }

-- `LLMAnalysisRunRepository.mark_succeeded`
unfoldable pub mark_succeeded :
    ℕ → String → String → String → String → Exec RunError Runs (ℕ × LlmAnalysisRun)
unfolding required
mark_succeeded id output model_name prompt_version provider t =
    required (as_succeeded output model_name prompt_version provider) id (get id t) t

-- `LLMAnalysisRunRepository.mark_failed`
unfoldable pub mark_failed : ℕ → String → Exec RunError Runs (ℕ × LlmAnalysisRun)
unfolding required
mark_failed id message t = required (as_failed message) id (get id t) t

-- What the service calls: the context builder, which may raise, the JSON text and the snapshot of its bundle,
-- the schema with `model_validate` and the JSON text of its result, `str` of the exceptions, and the prompt.
pub record Calls (x : Externals) : Type 1 where
  pub Bundle : Type 0
  pub build_context_bundle : TaskType → ℕ → List (String × String) → Result String Bundle
  pub bundle_json : Bundle → String
  pub to_snapshot : Bundle → Payload
  pub result_schema : x.Schema
  pub result_json : Fields x.Number → Option String
  pub error_text : LlmError → String
  pub validation_text : String
  pub system_prompt : String
  pub prompt_version : String

-- The state: the gateway's world and the runs.
pub record Analyses (x : Externals) : Type 0 where
  pub world : World x
  pub runs : Runs

module _ (x : Externals) (c : Calls x) (g : Gateway x) (now : ℕ) (today : String) where
  analysis_request : TaskType → Payload → Request x
  analysis_request task payload = record {
    today = today;
    task = task;
    payload = payload;
    schema = c.result_schema;
    system_prompt = c.system_prompt;
    signal = none;
  }

  finish : ℕ → Completion x → Option String → Exec RunError Runs (ℕ × LlmAnalysisRun)
  finish id completion (some output) =
      mark_succeeded id output completion.model_name c.prompt_version completion.provider
  finish id completion none = mark_failed id c.validation_text

  settle : ℕ → Result LlmError (Completion x) → Exec RunError Runs (ℕ × LlmAnalysisRun)
  unfolding finish
  settle id (ok completion) = finish id completion (c.result_json completion.output)
  settle id (err e) = mark_failed id (c.error_text e)

  analyzed :
      TaskType
      → ℕ
      → List (String × String)
      → Result String c.Bundle
      → Exec RunError (Analyses x) (ℕ × LlmAnalysisRun)
  unfolding settle analysis_request
  analyzed task user_id symbols (err e) s = (err (not_built e), s)
  analyzed task user_id symbols (ok bundle) s =
      let (run, runs') =
        create (new_run now user_id task (map (λ p. p.0) symbols) (c.bundle_json bundle)) s.runs in
      let (completion, world') =
        complete_json x g (analysis_request task (c.to_snapshot bundle)) s.world in
      let (result, runs'') = settle run.0 completion runs' in
      (result, record { world = world'; runs = runs'' })

  -- `LLMAnalysisService.run_analysis`
  unfoldable pub run_analysis :
      TaskType → ℕ → List (String × String) → Exec RunError (Analyses x) (ℕ × LlmAnalysisRun)
  unfolding analyzed
  run_analysis task user_id symbols s =
      analyzed task user_id symbols (c.build_context_bundle task user_id symbols) s
