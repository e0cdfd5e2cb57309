-- ===== src/LlmAnalysis/Settled.antt =====
-- A run of the analysis does not stay pending.
use project_stock.Base.{
  ℕ, String, Bool, false, Option, none, some, List, [], ◌∷◌, ◌++◌, ◌≡◌, refl, ◌⊎◌, inl, inr, str_eq,
  any, any-append, arith, map,
}
use project_stock.Base.Exec.{Result, ok, err}
use project_stock.Store.{get, add, update, update_rows}
use project_stock.Store.Laws.{IsKeyed, KeysBelow, add-IsKeyed, update-IsKeyed}
use project_stock.Store.Lookup.{get-add}
use project_stock.Llm.{TaskType, LlmError}
use project_stock.Llm.Externals.{Externals}
use project_stock.Llm.Gateway.{Gateway, Completion}
use project_stock.LlmAnalysis.{
  LlmAnalysisRun, Runs, Calls, Analyses, status_value, pending, succeeded, failed, new_run, create,
  required, mark_succeeded, mark_failed, finish, settle, analyzed, run_analysis, as_succeeded,
  as_failed, RunError, not_built,
}

abbrev pub is_pending : ℕ × LlmAnalysisRun → Bool
is_pending e = str_eq e.1.status (status_value pending)

-- No run waits, and the keys are in order.
abbrev pub AllSettled : Runs → Type 0
AllSettled t = IsKeyed t × (any is_pending t.rows ≡ false)

update_rows-last :
    (n : ℕ) (f : LlmAnalysisRun → LlmAnalysisRun) (r : LlmAnalysisRun)
    (rows : List (ℕ × LlmAnalysisRun))
    → KeysBelow n rows
    → update_rows n f (rows ++ (n, r) ∷ []) ≡ rows ++ (n, f r) ∷ []
update_rows-last n f r [] h = ground arith
update_rows-last n f r ((i, s) ∷ rows) h = ground (arith, update_rows-last n f r rows h.1)

required-add :
    (f : LlmAnalysisRun → LlmAnalysisRun) (r : LlmAnalysisRun) (t : Runs)
    → IsKeyed t
    → required f t.next_id (get t.next_id (add r t).1) (add r t).1
      ≡ (ok (t.next_id, f r), update t.next_id f (add r t).1)
unfolding required
required-add f r t h = rw (get-add r t h) refl

settled-AllSettled :
    (f : LlmAnalysisRun → LlmAnalysisRun) (r : LlmAnalysisRun) (t : Runs)
    → str_eq (f r).status (status_value pending) ≡ false
    → AllSettled t
    → AllSettled (update t.next_id f (add r t).1)
unfolding update add
settled-AllSettled f r t done h = (
  update-IsKeyed t.next_id f (add r t).1 (add-IsKeyed r t h.0),
  rw (update_rows-last t.next_id f r t.rows h.0.0) (rw any-append (ground (arith, done, h.1))),
)

-- What a run that was built returns: a row with one of the two final statuses.
abbrev pub IsFinal : Result RunError (ℕ × LlmAnalysisRun) → Type 0
IsFinal (err e) = ⊥
IsFinal (ok (id, r)) = (r.status ≡ status_value succeeded) ⊎ (r.status ≡ status_value failed)

abbrev Done : Result RunError (ℕ × LlmAnalysisRun) × Runs → Type 0
Done (result, t) = AllSettled t × IsFinal result

failed-Done :
    (message : String) (r : LlmAnalysisRun) (t : Runs)
    → AllSettled t
    → Done (mark_failed t.next_id message (add r t).1)
unfolding mark_failed
failed-Done message r t h =
    rw (required-add (as_failed message) r t h.0)
      (settled-AllSettled (as_failed message) r t refl h, inr refl)

succeeded-Done :
    (output model_name prompt_version provider : String) (r : LlmAnalysisRun) (t : Runs)
    → AllSettled t
    → Done (mark_succeeded t.next_id output model_name prompt_version provider (add r t).1)
unfolding mark_succeeded
succeeded-Done output model_name prompt_version provider r t h =
    rw (required-add (as_succeeded output model_name prompt_version provider) r t h.0) (
      settled-AllSettled (as_succeeded output model_name prompt_version provider) r t refl h,
      inl refl,
    )

module _ (x : Externals) (c : Calls x) (g : Gateway x) (now : ℕ) (today : String) where
  finish-Done :
      (completion : Completion x) (output : Option String) (r : LlmAnalysisRun) (t : Runs)
      → AllSettled t
      → Done (finish x c g now today t.next_id completion output (add r t).1)
  unfolding finish
  finish-Done completion none r t h = failed-Done c.validation_text r t h
  finish-Done completion (some output) r t h =
      succeeded-Done output completion.model_name c.prompt_version completion.provider r t h

  settle-Done :
      (answer : Result LlmError (Completion x)) (r : LlmAnalysisRun) (t : Runs)
      → AllSettled t
      → Done (settle x c g now today t.next_id answer (add r t).1)
  unfolding settle
  settle-Done (ok completion) r t h = finish-Done completion (c.result_json completion.output) r t h
  settle-Done (err e) r t h = failed-Done (c.error_text e) r t h

  -- What the analysis answers, from what the context builder answered.
  abbrev pub Answers : Result String c.Bundle → Result RunError (ℕ × LlmAnalysisRun) → Type 0
  Answers (err e) result = result ≡ err (not_built e)
  Answers (ok bundle) result = IsFinal result

  analyzed_settled :
      (task : TaskType) (user_id : ℕ) (symbols : List (String × String))
      (built : Result String c.Bundle) (s : Analyses x)
      → AllSettled s.runs
      → AllSettled (analyzed x c g now today task user_id symbols built s).1.runs
        × Answers built (analyzed x c g now today task user_id symbols built s).0
  unfolding analyzed create add
  analyzed_settled task user_id symbols (err e) s h = (h, refl)
  analyzed_settled task user_id symbols (ok bundle) s h =
      settle-Done _ (new_run now user_id task (map (λ p. p.0) symbols) (c.bundle_json bundle))
        s.runs h

  -- Where no run waits, no run waits after an analysis, whatever the gateway and the model do: if the context
  -- was built, the analysis returns its run as succeeded or failed, and else it raises the exception of the builder.
  pub run_analysis_settled :
      (task : TaskType) (user_id : ℕ) (symbols : List (String × String)) (s : Analyses x)
      → AllSettled s.runs
      → AllSettled (run_analysis x c g now today task user_id symbols s).1.runs
        × Answers
            (c.build_context_bundle task user_id symbols)
            (run_analysis x c g now today task user_id symbols s).0
  unfolding run_analysis
  run_analysis_settled task user_id symbols s h =
      analyzed_settled task user_id symbols (c.build_context_bundle task user_id symbols) s h
