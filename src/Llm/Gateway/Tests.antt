-- ===== src/Llm/Gateway/Tests.antt =====
-- A concrete Redis, client and gateway, and the gateway's theorems at concrete requests.
use Prim.Native.String.{◌++◌ as str_append}
use project_stock.Base.{
  ℕ, ◌+◌, ◌≡◌, ◌≢◌, ◌↔◌, refl, sym, ap, ◌∙◌, String, true, false, Option, none, some, [], ◌∷◌,
  str_eq, eq_refl, ltb, arith, if◌then◌else◌,
}
use project_stock.Base.Exec.{ok}
use project_stock.Llm.{news_summary, raw, public, low, cloud, local}
use project_stock.Llm.Externals.{Json, num, Fields, end, field, Externals}
use project_stock.Llm.Privacy.{cloud_safe, guard, payload_text}
use project_stock.Llm.Router.{llm_task_routes, resolve}
use project_stock.Llm.Escalation.{EscalationSignal, should_escalate_before, should_verify_after}
use project_stock.Llm.World.{
  World, Client, counter_key, send, consume, within_limit, start_expiry, after_incr, build_key,
  lookup, store,
}
use project_stock.Llm.Gateway.{
  Gateway, Request, Completion, complete_json, complete_at, reply, call_provider, ask,
  consume_budget, messages_for, cached_reply, store_reply, find_client, override, override_with,
  overridden, wants_verification, completion,
}
use project_stock.Llm.Gateway.Budget.{InBudget, complete_json-InBudget}
use project_stock.Llm.Gateway.Boundary.{to_cloud, complete_json_boundary}
use project_stock.Llm.Gateway.Caching.{IsCloudRequest, request_key, complete_json_repeat}
use project_stock.Llm.Gateway.SecondOpinion.{
  KeepsAnswer, Escalates, call_provider-KeepsAnswer, override_exact,
}

-- Counters and a cache that never fail, as functions of their keys.
abbrev pub Counts : Type 0
Counts = String → ℕ

abbrev pub bump : String → Counts → Counts
bump k c j = if str_eq k j then c k + 1 else c j

abbrev pub number_of : Option (ℕ × Counts) → ℕ
number_of none = 0
number_of (some (n, c)) = n

abbrev pub counts_of : Option (ℕ × Counts) → Counts
counts_of none k = 0
counts_of (some (n, c)) k = c k

abbrev pub Entries : Type 0
Entries = String → Option (Json ℕ)

abbrev pub entries_of : Option Entries → Entries
entries_of none k = none
entries_of (some c) k = c k

abbrev pub only_counts : Option Counts → Counts
only_counts none k = 0
only_counts (some c) k = c k

abbrev pub put : String → Json ℕ → Entries → Entries
put k v c j = if str_eq k j then some v else c j

pub bump_self : (k : String) (c : Counts) → bump k c k ≡ c k + 1
bump_self k c = rw (eq_refl k) refl

pub bump_other : (k j : String) (c : Counts) → str_eq k j ≡ false → bump k c j ≡ c j
bump_other k j c differs = rw differs refl

pub put_self : (k : String) (v : Json ℕ) (c : Entries) → put k v c k ≡ some v
put_self k v c = rw (eq_refl k) refl

abbrev pub redis : Externals
redis = record {
  Number = ℕ;
  less = ltb;
  Schema = String;
  schema_text = λ s. s;
  validates = λ s fs. true;
  CacheText = Json ℕ;
  is_empty = λ j. false;
  dumps = λ j. j;
  loads = λ j. some j;
  loads-dumps = λ j. refl;
  dumps_nonempty = λ j. refl;
  digest = λ payload prompt model schema.
      str_append payload (str_append prompt (str_append model schema));
  Counters = Counts;
  count = λ k c. c k;
  incr = λ k c. some (c k + 1, bump k c);
  expire = λ k t c. some c;
  incr_self = λ k c n c' e.
      (sym (ap number_of e), sym (ap (λ o. counts_of o k) e) ∙ bump_self k c ∙ ap number_of e);
  incr_other = λ k j c n c' e differs. sym (ap (λ o. counts_of o j) e) ∙ bump_other k j c differs;
  expire_count = λ k j t c c' e. sym (ap (λ o. only_counts o j) e);
  Cache = Entries;
  read = λ k c. some (c k);
  write = λ k v t c. some (put k v c);
  read-write_self = λ k v t c c' e. ap some (sym (ap (λ o. entries_of o k) e) ∙ put_self k v c);
}

abbrev pub empty_world : World redis
empty_world = record { counters = λ k. 0; cache = λ k. none; sent = [] }

abbrev pub answer_fields : Fields ℕ
answer_fields = field "confidence" (num 7) end

abbrev pub model : Client redis
model = record {
  provider_name = "openai";
  model_name = "gpt";
  answer = λ n messages schema timeout. ok answer_fields;
}

abbrev pub two_calls_a_day : Gateway redis
two_calls_a_day = record {
  clients = ("cloud", model) ∷ ("local", model) ∷ [];
  routes = llm_task_routes;
  timeout = none;
  call_budget = some 2;
  response_cache = some 3600;
  escalation_policy = some (some 5);
}

abbrev pub calm : EscalationSignal
calm = record {
  risk_level = low;
  loss_spike = false;
  news_sentiment_swing = false;
  event_flag = false;
  trade_question = true;
}

abbrev public_request : Request redis
public_request = record {
  today = "20260101";
  task = news_summary;
  payload = cloud_safe public "{}";
  schema = "{}";
  system_prompt = "prompt";
  signal = some calm;
}

abbrev raw_request : Request redis
raw_request = record public_request { payload = cloud_safe raw "{}" }

pub nothing_sent : InBudget redis 2 empty_world
nothing_sent = record { counted = λ day. omega arith; limited = λ day. omega arith }

complete_json-InBudget_example :
    InBudget redis 2 (complete_json redis two_calls_a_day public_request empty_world).1
complete_json-InBudget_example =
    complete_json-InBudget redis two_calls_a_day 2 public_request empty_world refl nothing_sent

complete_json_boundary_example :
    to_cloud (complete_json redis two_calls_a_day raw_request empty_world).1.sent ≡ []
complete_json_boundary_example =
    complete_json_boundary redis two_calls_a_day raw_request empty_world (λ may_leave. may_leave)

is_cloud_request : IsCloudRequest redis two_calls_a_day public_request model "{}" 3600
unfolding resolve find_client guard payload_text
is_cloud_request = record {
  routed = refl;
  served = refl;
  guarded = refl;
  readable = refl;
  caches = refl;
}

abbrev first_answer : Completion redis
first_answer = record {
  output = answer_fields;
  provider = "openai";
  model_name = "gpt";
  cached = false;
  escalated = false;
}

abbrev after_first : World redis
after_first = (complete_json redis two_calls_a_day public_request empty_world).1

first_is_answered :
    complete_json redis two_calls_a_day public_request empty_world ≡ (ok first_answer, after_first)
unfolding complete_json complete_at reply call_provider ask consume_budget messages_for cached_reply
    store_reply find_client override override_with overridden wants_verification completion resolve
    guard payload_text should_escalate_before should_verify_after send consume within_limit
    start_expiry after_incr build_key lookup store counter_key
first_is_answered = refl

nothing_cached :
    lookup redis (request_key redis two_calls_a_day public_request model "{}" 3600) empty_world
    ≡ none
unfolding lookup
nothing_cached = refl

not_empty : answer_fields ≢ end
not_empty e = cc

writes :
    (j : Json ℕ) (c : Entries)
    → redis.write (request_key redis two_calls_a_day public_request model "{}" 3600) j 3600 c ≢ none
writes j c e = cc

complete_json_repeat_example :
    complete_json redis two_calls_a_day public_request after_first
    ≡ (ok (record first_answer { cached = true }), after_first)
complete_json_repeat_example =
    complete_json_repeat redis two_calls_a_day public_request model "{}" 3600 empty_world
      after_first first_answer is_cloud_request writes nothing_cached first_is_answered not_empty

abbrev after_local : World redis
after_local = (ask redis two_calls_a_day public_request local model "{}" empty_world).1

local_is_answered :
    ask redis two_calls_a_day public_request local model "{}" empty_world
    ≡ (ok answer_fields, after_local)
unfolding ask send messages_for
local_is_answered = refl

call_provider-KeepsAnswer_example :
    KeepsAnswer redis two_calls_a_day public_request answer_fields
      (call_provider redis two_calls_a_day public_request local false model "{}" "key"
        empty_world).0
call_provider-KeepsAnswer_example =
    call_provider-KeepsAnswer redis two_calls_a_day public_request local false model "{}" "key"
      answer_fields empty_world after_local local_is_answered

override_exact_example :
    (((override redis two_calls_a_day public_request local).1 ≡ true)
      ↔ Escalates redis two_calls_a_day public_request
          (some (some 5))
          (some calm)
          (cloud_safe public "{}")
          local)
    × ((override redis two_calls_a_day public_request local).0
        ≡ (if (override redis two_calls_a_day public_request local).1 then cloud else local))
override_exact_example = override_exact redis two_calls_a_day public_request local
