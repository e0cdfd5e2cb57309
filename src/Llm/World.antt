-- ===== src/Llm/World.antt =====
-- The state that the gateway acts on, with app/adapters/llm/budget.py, cache.py and the call of a
-- client (base.py). `sent` is the record of the calls that left for a provider.
use Prim.Native.String.{◌++◌ as str_append}
use project_stock.Base.{
  ℕ, ◌*◌, ◌≡◌, ◌≢◌, ◌∙◌, refl, String, Option, none, some, List, [], ◌∷◌, ◌++◌, ◌==◌, ltb, length,
  if◌then◌else◌,
}
use project_stock.Base.Exec.{Result, ok, err, Exec}
use project_stock.Llm.{TaskType, task_value, LlmError, redis_error, budget_exceeded}
use project_stock.Llm.Externals.{Json, text, obj, Fields, end, field, Externals}
use project_stock.Llm.Escalation.{get_field}

-- `LLMMessage`
pub record Message : Type 0 where
  pub role : String
  pub content : String

-- A call that left: the key of `clients` that it went by, the UTC day, and the messages.
pub record Sent : Type 0 where
  pub route : String
  pub day : String
  pub messages : List Message

module _ (x : Externals) where
  open x use {
    Number, Schema, loads, dumps, digest, schema_text, Counters, incr, expire, Cache, read, write,
    read-write_self, CacheText, is_empty, loads-dumps, dumps_nonempty,
  }

  pub record World : Type 0 where
    pub counters : Counters
    pub cache : Cache
    pub sent : List Sent

  -- An `LLMClient`. What it answers may depend on the number of calls made before.
  pub record Client : Type 0 where
    pub provider_name : String
    pub model_name : String
    pub answer : ℕ → List Message → Schema → Option ℕ → Result LlmError (Fields Number)

  -- `CachedCompletion`
  pub record CachedCompletion : Type 0 where
    pub output : Fields Number
    pub provider : String
    pub model_name : String

-- The counter's key for a day written as `%Y%m%d`.
unfoldable pub counter_key : String → String
counter_key today = str_append "llm:cloud_calls:" today

module _ (x : Externals) where
  open x use {
    Number, Schema, loads, dumps, digest, schema_text, Counters, incr, expire, Cache, read, write,
    read-write_self, CacheText, is_empty, loads-dumps, dumps_nonempty,
  }

  -- `client.complete_json(messages, schema, timeout=...)`
  unfoldable pub send :
      String
      → String
      → Client x
      → List Message
      → Schema
      → Option ℕ
      → Exec LlmError (World x) (Fields Number)
  send route today client messages schema timeout w = (
    client.answer (length w.sent) messages schema timeout,
    record w { sent = w.sent ++ record { route = route; day = today; messages = messages } ∷ [] },
  )

  unfoldable pub within_limit : ℕ → ℕ → World x → Result LlmError (Unit {0}) × World x
  within_limit limit count w = (if ltb limit count then err budget_exceeded else ok tt, w)

  -- the first call of a day starts the two days that its counter lives
  unfoldable pub start_expiry : String → ℕ → ℕ → World x → Result LlmError (Unit {0}) × World x
  unfolding within_limit
  start_expiry key limit count w =
      if count == 1
      then elim (expire key (2 * 24 * 60 * 60) w.counters) [
        | none ↦ (err redis_error, w)
        | some c ↦ within_limit limit count (record w { counters = c })
      ]
      else within_limit limit count w

  unfoldable pub after_incr :
      ℕ → String → World x → Option (ℕ × Counters) → Result LlmError (Unit {0}) × World x
  unfolding start_expiry
  after_incr limit today w none = (err redis_error, w)
  after_incr limit today w (some (count, c)) =
      start_expiry (counter_key today) limit count (record w { counters = c })

  -- `DailyCallBudget.consume`
  unfoldable pub consume : ℕ → String → Exec LlmError (World x) (Unit {0})
  unfolding after_incr
  consume limit today w = after_incr limit today w (incr (counter_key today) w.counters)

  -- `LLMResponseCache.build_key`
  unfoldable pub build_key : String → TaskType → String → String → String → Schema → String
  build_key today task payload system_prompt model_name schema = str_append "llm:cache:v1:" (
      str_append (task_value task) (
        str_append ":" (
          str_append today
            (str_append ":" (digest payload system_prompt model_name (schema_text schema))))))

  envelope : Fields Number → String → String → Json Number
  envelope output provider model_name = obj (
      field "output" (obj output)
        (field "provider" (text provider) (field "model_name" (text model_name) end)))

  -- the `isinstance` tests of `lookup` on the three entries
  as_completion :
      Option (Json Number)
      → Option (Json Number)
      → Option (Json Number)
      → Option (CachedCompletion x)
  as_completion (some (obj output)) (some (text provider)) (some (text model)) =
      some (record { output = output; provider = provider; model_name = model })
  as_completion _ _ _ = none

  decode : Option (Json Number) → Option (CachedCompletion x)
  unfolding as_completion get_field
  decode (some (obj fs)) =
      as_completion (get_field "output" fs) (get_field "provider" fs) (get_field "model_name" fs)
  decode _ = none

  decode_text : Option (Option CacheText) → Option (CachedCompletion x)
  unfolding decode
  decode_text (some (some raw)) = if is_empty raw then none else decode (loads raw)
  decode_text _ = none

  -- `LLMResponseCache.lookup`
  unfoldable pub lookup : String → World x → Option (CachedCompletion x)
  unfolding decode_text
  lookup key w = decode_text (read key w.cache)

  after_write : World x → Option Cache → World x
  after_write w none = w
  after_write w (some c) = record w { cache = c }

  -- `LLMResponseCache.store`: a failed write is logged and dropped.
  unfoldable pub store : ℕ → String → Fields Number → String → String → World x → World x
  unfolding envelope after_write
  store ttl key output provider model_name w =
      after_write w (write key (dumps (envelope output provider model_name)) ttl w.cache)

  -- A write to the cache counts and sends nothing.
  after_write-rest :
      (w : World x) (o : Option Cache)
      → ((after_write w o).sent ≡ w.sent) × ((after_write w o).counters ≡ w.counters)
  unfolding after_write
  after_write-rest w none = (refl, refl)
  after_write-rest w (some c) = (refl, refl)

  pub store_rest :
      (ttl : ℕ) (key : String) (output : Fields Number) (provider model : String) (w : World x)
      → ((store ttl key output provider model w).sent ≡ w.sent)
        × ((store ttl key output provider model w).counters ≡ w.counters)
  unfolding store
  store_rest ttl key output provider model w = after_write-rest w _

  lookup_written :
      (key : String) (raw : CacheText) (w : World x) (ttl : ℕ) (c : Cache)
      → write key raw ttl w.cache ≡ some c
      → lookup key (record w { cache = c }) ≡ decode_text (some (some raw))
  unfolding lookup
  lookup_written key raw w ttl c e = rw (read-write_self key raw ttl w.cache c e)

  decode_envelope :
      (output : Fields Number) (provider model : String)
      → decode_text (some (some (dumps (envelope output provider model))))
        ≡ some (record { output = output; provider = provider; model_name = model })
  unfolding decode_text envelope
  decode_envelope output provider model = rw (dumps_nonempty, loads-dumps)

  lookup-after_write :
      (key : String) (raw : CacheText) (w : World x) (ttl : ℕ) (o : Option Cache)
      → write key raw ttl w.cache ≡ o
      → o ≢ none
      → lookup key (after_write w o) ≡ decode_text (some (some raw))
  unfolding after_write
  lookup-after_write key raw w ttl none e up = absurd (up refl)
  lookup-after_write key raw w ttl (some c) e up = lookup_written key raw w ttl c e

  -- What a write that succeeded has stored is found, field by field.
  pub lookup-store :
      (ttl : ℕ) (key : String) (output : Fields Number) (provider model : String) (w : World x)
      → ((raw : CacheText) (c : Cache) → write key raw ttl c ≢ none)
      → lookup key (store ttl key output provider model w)
        ≡ some (record { output = output; provider = provider; model_name = model })
  unfolding store
  lookup-store ttl key output provider model w up =
      lookup-after_write key _ w ttl _ refl (up _ w.cache) ∙ decode_envelope output provider model
