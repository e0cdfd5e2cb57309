-- ===== src/Llm/Gateway.antt =====
-- app/adapters/llm/gateway.py: `LLMGateway.complete_json` and `_verify_with_cloud`.
pub mod Budget
pub mod SecondOpinion
pub mod Caching
pub mod Boundary
pub mod Tests
use project_stock.Base.{
  ℕ, String, Bool, true, false, ◌&&◌, ◌||◌, Option, none, some, List, [], ◌∷◌, str_eq,
  if◌then◌else◌,
}
use project_stock.Base.Exec.{
  Result, ok, err, Exec, pure, raise, lift, gets, or_err, modify, ◌>>=◌, ◌>>◌,
}
use project_stock.Llm.{TaskType, LlmError, routing, cloud}
use project_stock.Llm.Externals.{Fields, end, field, Externals}
use project_stock.Llm.Privacy.{Payload, guard, payload_text}
use project_stock.Llm.Router.{Routes, resolve}
use project_stock.Llm.Escalation.{EscalationSignal, should_escalate_before, should_verify_after}
use project_stock.Llm.World.{
  Message, World, Client, CachedCompletion, send, consume, build_key, lookup, store,
}

module _ (x : Externals) where
  open x use {Number, Schema, validates}

  -- The fields that `LLMGateway.__init__` sets. A budget is its daily limit, a cache its time to live,
  -- and a policy its confidence threshold; the privacy gate has no state.
  pub record Gateway : Type 0 where
    pub clients : List (String × Client x)
    pub routes : Routes
    pub timeout : Option ℕ
    pub call_budget : Option ℕ
    pub response_cache : Option ℕ
    pub escalation_policy : Option (Option Number)

  -- `LLMCompletionResult`
  pub record Completion : Type 0 where
    pub output : Fields Number
    pub provider : String
    pub model_name : String
    pub cached : Bool
    pub escalated : Bool

  -- The arguments of one call of `complete_json`, with the UTC day on which it runs.
  pub record Request : Type 0 where
    pub today : String
    pub task : TaskType
    pub payload : Payload
    pub schema : Schema
    pub system_prompt : String
    pub signal : Option EscalationSignal

  -- `_CloudVerificationResult`: the output, and whether the call was attempted
  pub record Verification : Type 0 where
    pub output : Option (Fields Number)
    pub attempted : Bool

module _ (x : Externals) where
  open x use {Number, Schema, validates}

  pub find_client : String → List (String × Client x) → Option (Client x)
  find_client k [] = none
  find_client k ((j, c) ∷ cs) = if str_eq j k then some c else find_client k cs

  overridden : String → Result LlmError Payload → String × Bool
  overridden provider (ok safe) = (cloud, true)
  overridden provider (err e) = (provider, false)

  pub override_with :
      Option (Option Number) → Option EscalationSignal → Payload → String → String × Bool
  override_with (some threshold) (some s) payload provider =
      if should_escalate_before s provider
      then overridden provider (guard payload)
      else (provider, false)
  override_with _ _ payload provider = (provider, false)

  -- The provider after the risk override, and whether it was overridden.
  pub override : Gateway x → Request x → String → String × Bool
  override g r provider = override_with g.escalation_policy r.signal r.payload provider

  messages_for : String → String → List Message
  messages_for system_prompt content =
      record { role = "system"; content = system_prompt }
      ∷ record { role = "user"; content = content }
      ∷ []

  consume_budget : Option ℕ → String → Exec LlmError (World x) (Unit {0})
  consume_budget none today = pure tt
  consume_budget (some limit) today = consume x limit today

  -- `self.response_cache.lookup(cache_key)`, where there is a cache and the provider is the cloud
  cached_reply : Gateway x → String → String → World x → Option (CachedCompletion x)
  cached_reply g provider key w = elim g.response_cache [
    | none ↦ none
    | some ttl ↦ if str_eq provider cloud then lookup x key w else none
  ]

  -- An empty answer is not stored.
  store_reply : Gateway x → String → String → Client x → Fields Number → World x → World x
  store_reply g provider key client end w = w
  store_reply g provider key client (field n v fs) w = elim g.response_cache [
    | none ↦ w
    | some ttl ↦
        if str_eq provider cloud
        then store x ttl key (field n v fs) client.provider_name client.model_name w
        else w
  ]

  -- `except Exception` around the guard and the budget
  attempt_guard : Gateway x → Request x → Exec LlmError (World x) Payload
  attempt_guard g r = do
    safe ← lift (guard r.payload)
    consume_budget g.call_budget r.today
    pure safe

  accepted : Schema → Result LlmError (Fields Number) → Verification x
  accepted schema (ok output) = record {
    output = if validates schema output then some output else none;
    attempted = true;
  }
  accepted schema (err e) = record { output = none; attempted = true }

  verify_call :
      Gateway x → Request x → Client x → Result LlmError String × World x → Verification x × World x
  verify_call g r client (ok content, w) =
      let (answer, w') =
        send x cloud r.today client (messages_for r.system_prompt content) r.schema g.timeout w in
      (accepted r.schema answer, w')
  verify_call g r client (err e, w) = (record { output = none; attempted = false }, w)

  -- `_verify_with_cloud`
  verify_with_cloud : Gateway x → Request x → Client x → World x → Verification x × World x
  verify_with_cloud g r client w =
      verify_call g r client ((attempt_guard g r >>= λ safe. lift (payload_text safe)) w)

  completion : Fields Number → Client x → Bool → Completion x
  completion output client escalated = record {
    output = output;
    provider = client.provider_name;
    model_name = client.model_name;
    cached = false;
    escalated = escalated;
  }

  merge_verification : Fields Number → Client x → Client x → Bool → Verification x → Completion x
  merge_verification output client cloud_client escalated v = elim v.output [
    | none ↦ completion output client (escalated || v.attempted)
    | some verified ↦ completion verified cloud_client (escalated || v.attempted)
  ]

  verified_by :
      Gateway x
      → Request x
      → Fields Number
      → Client x
      → Bool
      → Option (Client x)
      → Exec LlmError (World x) (Completion x)
  verified_by g r output client escalated none w = (ok (completion output client escalated), w)
  verified_by g r output client escalated (some cloud_client) w =
      let (v, w') = verify_with_cloud g r cloud_client w in
      (ok (merge_verification output client cloud_client escalated v), w')

  -- The second opinion of the cloud, if it has a client.
  verified :
      Gateway x
      → Request x
      → Fields Number
      → Client x
      → Bool
      → Exec LlmError (World x) (Completion x)
  verified g r output client escalated =
      verified_by g r output client escalated (find_client cloud g.clients)

  wants_verification : Gateway x → Request x → Fields Number → String → Bool
  wants_verification g r output provider = elim g.escalation_policy [
    | none ↦ false
    | some threshold ↦ should_verify_after x threshold output r.schema provider
  ]

  -- The budget, on the cloud's route only, and the call.
  pub ask :
      Gateway x → Request x → String → Client x → String → Exec LlmError (World x) (Fields Number)
  ask g r provider client content = do
    (if str_eq provider cloud then consume_budget g.call_budget r.today else pure tt)
    send x provider r.today client (messages_for r.system_prompt content) r.schema g.timeout

  -- From the budget to the result, where the cache had no answer.
  pub call_provider :
      Gateway x
      → Request x
      → String
      → Bool
      → Client x
      → String
      → String
      → Exec LlmError (World x) (Completion x)
  call_provider g r provider escalated client content key = do
    output ← ask g r provider client content
    modify (store_reply g provider key client output)
    if wants_verification g r output provider
        then verified g r output client escalated
        else pure (completion output client escalated)

  pub from_cache : Bool → CachedCompletion x → Completion x
  from_cache escalated c = record {
    output = c.output;
    provider = c.provider;
    model_name = c.model_name;
    cached = true;
    escalated = escalated;
  }

  -- The cached completion, or the call.
  reply :
      Gateway x
      → Request x
      → String
      → Bool
      → Client x
      → String
      → String
      → Option (CachedCompletion x)
      → Exec LlmError (World x) (Completion x)
  reply g r provider escalated client content key (some c) = pure (from_cache escalated c)
  reply g r provider escalated client content key none =
      call_provider g r provider escalated client content key

  -- From the choice of the client on. A payload that reaches the cloud is guarded, and its text is
  -- then there; on another route no state changes before the text is read.
  complete_at : Gateway x → Request x → String → Bool → Exec LlmError (World x) (Completion x)
  complete_at g r provider escalated = do
    client ← lift (or_err (find_client provider g.clients) routing)
    safe ← lift (if str_eq provider cloud then guard r.payload else ok r.payload)
    content ← lift (payload_text safe)
    let key = build_key x r.today r.task content r.system_prompt client.model_name r.schema
    hit ← gets (cached_reply g provider key)
    reply g r provider escalated client content key hit

  -- `LLMGateway.complete_json`
  pub complete_json : Gateway x → Request x → Exec LlmError (World x) (Completion x)
  complete_json g r = do
    provider ← lift (resolve g.routes r.task)
    let chosen = override g r provider
    complete_at g r chosen.0 chosen.1
