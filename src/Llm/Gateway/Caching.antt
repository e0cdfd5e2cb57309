-- ===== src/Llm/Gateway/Caching.antt =====
-- The response cache: a repeated request is answered from it, and costs nothing.
use project_stock.Base.{
  ℕ, String, true, false, none, some, ◌≡◌, ◌≢◌, refl, ap, sym, ◌∙◌, inl, inr, Option-cases,
  if◌then◌else◌,
}
use project_stock.Base.Exec.{continue, Result, ok, err, pure, modify, ◌>>◌}
use project_stock.Llm.{LlmError, cloud}
use project_stock.Llm.Externals.{Fields, end, field, Externals}
use project_stock.Llm.Privacy.{guard, payload_text}
use project_stock.Llm.Router.{resolve}
use project_stock.Llm.Escalation.{should_escalate_before, should_verify_after}
use project_stock.Llm.World.{World, Client, CachedCompletion, build_key, lookup, lookup-store}
use project_stock.Llm.Gateway.{
  Gateway, Request, Completion, complete_json, complete_at, call_provider, ask, wants_verification,
  reply, find_client, verified, completion, store_reply, cached_reply, override, override_with,
  from_cache,
}

ok_pair :
    {E A S : Type 0} {a b : A} {s t : S}
    → ◌≡◌ {A = Result E A × S} (ok a, s) (ok b, t)
    → (a ≡ b) × (s ≡ t)
ok_pair h = (cc, cc)

module _ (x : Externals) (g : Gateway x) (r : Request x) (client : Client x) (content : String)
    (ttl : ℕ) where
  -- A request that goes to the cloud by its task's route, with a cache and a payload that may leave.
  open x use {Number, write}

  pub record IsCloudRequest : Type 0 where
    pub routed : resolve g.routes r.task ≡ ok cloud
    pub served : find_client x cloud g.clients ≡ some client
    pub guarded : guard r.payload ≡ ok r.payload
    pub readable : payload_text r.payload ≡ ok content
    pub caches : g.response_cache ≡ some ttl

  abbrev pub request_key : String
  request_key = build_key x r.today r.task content r.system_prompt client.model_name r.schema

  override-cloud : override x g r cloud ≡ (cloud, false)
  unfolding override override_with should_escalate_before
  override-cloud = elim (Option-cases g.escalation_policy) [
    | inl unset ↦ rw unset
    | inr (t, e) ↦ elim (Option-cases r.signal) [
      | inl unset ↦ rw (e, unset)
      | inr (s, f) ↦ rw (e, f)
    ]
  ]

  module _ (h : IsCloudRequest) where
    complete_cloud :
        (w : World x)
        → complete_json x g r w
          ≡ reply x g r cloud false client content request_key (lookup x request_key w) w
    unfolding complete_json complete_at cached_reply
    complete_cloud w = rw (h.routed, override-cloud, h.served, h.guarded, h.readable, h.caches) refl

    -- A request whose answer is in the cache gets it and leaves the state as it was: nothing leaves for
    -- a provider, and the budget is not charged.
    pub cache_hit :
        (w : World x) (c : CachedCompletion x)
        → lookup x request_key w ≡ some c
        → complete_json x g r w ≡ (ok (from_cache x false c), w)
    unfolding reply
    cache_hit w c e = complete_cloud w ∙ rw e

    -- what a call that was answered has left, by the result of `ask`
    abbrev stored :
        Result LlmError (Fields Number) × World x → Result LlmError (Completion x) × World x
    stored (ok output, v) =
        (ok (completion x output client false), store_reply x g cloud request_key client output v)
    stored (err e, v) = (err e, v)

    no_verification : (output : Fields Number) → wants_verification x g r output cloud ≡ false
    unfolding wants_verification should_verify_after
    no_verification output = elim (Option-cases g.escalation_policy) [
      | inl unset ↦ rw unset
      | inr (threshold, e) ↦ rw e
    ]

    finish-stored :
        (m : Result LlmError (Fields Number) × World x)
        → continue
            (λ output.
              modify (store_reply x g cloud request_key client output)
              >> (if wants_verification x g r output cloud
                  then verified x g r output client false
                  else pure (completion x output client false)))
            m
          ≡ stored m
    finish-stored (ok output, v) = rw no_verification
    finish-stored (err e, v) = refl

    complete_miss :
        (w : World x)
        → lookup x request_key w ≡ none
        → complete_json x g r w ≡ stored (ask x g r cloud client content w)
    unfolding reply call_provider
    complete_miss w e = complete_cloud w ∙ rw e (finish-stored (ask x g r cloud client content w))

    lookup-store_reply :
        (output : Fields Number) (v : World x)
        → output ≢ end
        → ((raw : x.CacheText) (c : x.Cache) → write request_key raw ttl c ≢ none)
        → lookup x request_key (store_reply x g cloud request_key client output v)
          ≡ some (record {
            output = output;
            provider = client.provider_name;
            model_name = client.model_name;
          })
    unfolding store_reply
    lookup-store_reply end v nonempty up = absurd (nonempty refl)
    lookup-store_reply (field n j fs) v nonempty up =
        rw h.caches (
          lookup-store x ttl request_key (field n j fs) client.provider_name client.model_name v up)

    repeat_stored :
        (m : Result LlmError (Fields Number) × World x) (c : Completion x) (w' : World x)
        → stored m ≡ (ok c, w')
        → c.output ≢ end
        → ((raw : x.CacheText) (d : x.Cache) → write request_key raw ttl d ≢ none)
        → complete_json x g r w' ≡ (ok (record c { cached = true }), w')
    unfolding completion from_cache
    repeat_stored (err e, v) c w' made nonempty up = cc
    repeat_stored (ok output, v) c w' made nonempty up =
        let (same_c, same_w) = ok_pair made in
        rw (← same_w, ← same_c)
          (cache_hit _ _ (
            lookup-store_reply output v
              (λ e. nonempty (ap (λ (k : Completion x). k.output) (sym same_c) ∙ e)) up))

-- If the task's own route is cloud, a cloud client is there, the privacy gate lets the payload through as it is,
-- caching is on and no write under the request's key fails: the same request again, after one that was not in the
-- cache and that got a non-empty answer, is answered from the cache with the same output, provider and model, and
-- changes nothing: no call leaves and the budget is not charged.
pub complete_json_repeat :
    (x : Externals) (g : Gateway x) (r : Request x) (client : Client x) (content : String) (ttl : ℕ)
    (w w' : World x) (c : Completion x)
    → IsCloudRequest x g r client content ttl
    → ((raw : x.CacheText) (d : x.Cache)
        → x.write (request_key x g r client content ttl) raw ttl d ≢ none)
    → lookup x (request_key x g r client content ttl) w ≡ none
    → complete_json x g r w ≡ (ok c, w')
    → c.output ≢ end
    → complete_json x g r w' ≡ (ok (record c { cached = true }), w')
complete_json_repeat x g r client content ttl w w' c h up miss first nonempty =
    repeat_stored x g r client content ttl h (ask x g r cloud client content w) c w'
      (sym (complete_miss x g r client content ttl h w miss) ∙ first) nonempty up
