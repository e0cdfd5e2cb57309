-- ===== src/Llm/Externals.antt =====
-- What the gateway calls and the repository does not implement: pydantic schemas, JSON text, SHA-256
-- and the two Redis interfaces of budget.py (`RedisCounter`) and cache.py (`RedisCacheStore`).
use project_stock.Base.{ℕ, ◌+◌, String, Bool, false, Option, some, ◌≡◌, str_eq}

-- JSON values over the numbers of the provider's answers.
mutual
  pub data Json (N : Type 0) : Type 0 where
    null : Json N
    bool : Bool → Json N
    num : N → Json N
    text : String → Json N
    arr : Items N → Json N
    obj : Fields N → Json N

  pub data Items (N : Type 0) : Type 0 where
    nil : Items N
    cons : Json N → Items N → Items N

  pub data Fields (N : Type 0) : Type 0 where
    end : Fields N
    field : String → Json N → Fields N → Fields N

pub record Externals : Type 1 where
  -- Python numbers that are not `bool`, and their order
  pub Number : Type 0
  pub less : Number → Number → Bool
  -- a pydantic model class: its JSON schema, and whether `model_validate` accepts an answer
  pub Schema : Type 0
  pub schema_text : Schema → String
  pub validates : Schema → Fields Number → Bool
  -- the texts that the cache stores, and the test for the empty one
  pub CacheText : Type 0
  pub is_empty : CacheText → Bool
  -- `json.dumps` and `json.loads`; `none` is an exception that `lookup` catches
  pub dumps : Json Number → CacheText
  pub loads : CacheText → Option (Json Number)
  pub loads-dumps : (j : Json Number) → loads (dumps j) ≡ some j
  pub dumps_nonempty : (j : Json Number) → is_empty (dumps j) ≡ false
  -- the SHA-256 digest of the JSON text of payload, prompt, model name and schema
  pub digest : String → String → String → String → String
  -- `RedisCounter`: `none` is a connection error
  pub Counters : Type 0
  pub count : String → Counters → ℕ
  pub incr : String → Counters → Option (ℕ × Counters)
  pub expire : String → ℕ → Counters → Option Counters
  pub incr_self :
      (k : String) (c : Counters) (n : ℕ) (c' : Counters)
      → incr k c ≡ some (n, c')
      → (n ≡ count k c + 1) × (count k c' ≡ n)
  pub incr_other :
      (k j : String) (c : Counters) (n : ℕ) (c' : Counters)
      → incr k c ≡ some (n, c')
      → str_eq k j ≡ false
      → count j c' ≡ count j c
  pub expire_count :
      (k j : String) (t : ℕ) (c c' : Counters) → expire k t c ≡ some c' → count j c' ≡ count j c
  -- `RedisCacheStore`: the outer `none` of `read` is a connection error
  pub Cache : Type 0
  pub read : String → Cache → Option (Option CacheText)
  pub write : String → CacheText → ℕ → Cache → Option Cache
  pub read-write_self :
      (k : String) (v : CacheText) (t : ℕ) (c c' : Cache)
      → write k v t c ≡ some c'
      → read k c' ≡ some (some v)
