-- ===== src/Llm/Gateway/Boundary.antt =====
-- The privacy boundary: what the gate refuses does not leave for the cloud.
use project_stock.Base.{
  String, Bool, true, false, Option, none, some, List, ◌≡◌, refl, ap, append-nil, str_eq, filter,
  filter-append, inl, inr, Bool-cases, Option-cases, if◌then◌else◌,
}
use project_stock.Base.Exec.{
  continue, Result, err, Exec, pure, lift, or_err, ◌>>=◌, Ensures, Ensures-bind, Ensures-of_state,
  Ensures-state,
}
use project_stock.Llm.{
  LlmError, raw, semi, aggregated, public, routing, cloud_boundary_violation, cloud,
}
use project_stock.Llm.Externals.{Fields, end, field, Externals}
use project_stock.Llm.Privacy.{Payload, cloud_safe, other, guard, payload_text, MayLeave}
use project_stock.Llm.Router.{resolve}
use project_stock.Llm.World.{Message, Sent, World, Client, CachedCompletion, send}
use project_stock.Llm.Gateway.{
  Gateway, Request, complete_json, complete_at, call_provider, ask, wants_verification, reply,
  find_client, verified, verified_by, completion, verify_with_cloud, verify_call, attempt_guard,
  store_reply, override,
}

-- The calls that went by the cloud route.
abbrev pub to_cloud : List Sent → List Sent
to_cloud sent = filter (λ s. str_eq s.route cloud) sent

guard-MayLeave : (p : Payload) → ¬ MayLeave p → guard p ≡ err cloud_boundary_violation
unfolding guard
guard-MayLeave (cloud_safe aggregated c) h = absurd (h tt)
guard-MayLeave (cloud_safe public c) h = absurd (h tt)
guard-MayLeave (cloud_safe raw c) h = refl
guard-MayLeave (cloud_safe semi c) h = refl
guard-MayLeave other h = refl

module _ (x : Externals) (g : Gateway x) (r : Request x) (base : List Sent)
    (blocked : guard r.payload ≡ err cloud_boundary_violation) where
  open x use {Number, Schema}

  abbrev Same : World x → Type 0
  Same w = to_cloud w.sent ≡ base

  abbrev Kept : {A : Type 0} → Result LlmError A × World x → Type 0
  Kept = Ensures (λ _ w. Same w) Same

  step :
      {A B : Type 0} (m : Result LlmError A × World x) (f : A → Exec LlmError (World x) B)
      → Kept m
      → ((a : A) (v : World x) → Same v → Kept (f a v))
      → Kept (continue f m)
  step m f = Ensures-bind (λ _ v. Same v) (λ _ v. Same v) Same m f

  attempt_blocked :
      (w : World x)
      → (attempt_guard x g r >>= λ safe. lift (payload_text safe)) w
        ≡ (err cloud_boundary_violation, w)
  unfolding attempt_guard
  attempt_blocked w = rw blocked

  verify_blocked :
      (client : Client x) (w : World x)
      → verify_with_cloud x g r client w ≡ (record { output = none; attempted = false }, w)
  unfolding verify_with_cloud verify_call
  verify_blocked client w = ap (verify_call x g r client) (attempt_blocked w)

  verified_by-Kept :
      (output : Fields Number) (client : Client x) (escalated : Bool) (o : Option (Client x))
      (w : World x)
      → Same w
      → Kept (verified_by x g r output client escalated o w)
  unfolding verified_by
  verified_by-Kept output client escalated none w h = h
  verified_by-Kept output client escalated (some c) w h = rw verify_blocked h

  finish-Kept :
      (b : Bool) (output : Fields Number) (client : Client x) (escalated : Bool) (w : World x)
      → Same w
      → Kept (
          (if b
              then verified x g r output client escalated
              else pure (completion x output client escalated))
            w)
  unfolding verified
  finish-Kept true output client escalated w h = verified_by-Kept output client escalated _ w h
  finish-Kept false output client escalated w h = h

  send-Same :
      (route : String) (client : Client x) (ms : List Message) (w : World x)
      → str_eq route cloud ≡ false
      → Same w
      → Same (send x route r.today client ms r.schema g.timeout w).1
  unfolding send
  send-Same route client ms w elsewhere h = rw filter-append (rw elsewhere (rw append-nil h))

  store_reply-Same :
      (provider key : String) (client : Client x) (output : Fields Number) (w : World x)
      → str_eq provider cloud ≡ false
      → Same w
      → Same (store_reply x g provider key client output w)
  unfolding store_reply
  store_reply-Same provider key client end w elsewhere h = h
  store_reply-Same provider key client (field n v fs) w elsewhere h =
      elim (Option-cases g.response_cache) [
        | inl unset ↦ rw unset h
        | inr (ttl, e) ↦ rw (e, elsewhere) h
      ]

  call_provider-Kept :
      (provider : String) (escalated : Bool) (client : Client x) (content key : String)
      (w : World x)
      → str_eq provider cloud ≡ false
      → Same w
      → Kept (call_provider x g r provider escalated client content key w)
  unfolding call_provider ask
  call_provider-Kept provider escalated client content key w elsewhere h = rw elsewhere (
      step (send x provider r.today client _ r.schema g.timeout w) _
        (Ensures-of_state Same _ (send-Same provider client _ w elsewhere h))
        λ output v k.
          finish-Kept (wants_verification x g r output provider) output client escalated _
            (store_reply-Same provider key client output v elsewhere k))

  reply-Kept :
      (provider : String) (escalated : Bool) (client : Client x) (content key : String)
      (hit : Option (CachedCompletion x)) (w : World x)
      → str_eq provider cloud ≡ false
      → Same w
      → Kept (reply x g r provider escalated client content key hit w)
  unfolding reply
  reply-Kept provider escalated client content key (some c) w elsewhere h = h
  reply-Kept provider escalated client content key none w elsewhere h =
      call_provider-Kept provider escalated client content key w elsewhere h

  complete_at-Kept :
      (provider : String) (escalated : Bool) (w : World x)
      → Same w
      → Kept (complete_at x g r provider escalated w)
  unfolding complete_at
  complete_at-Kept provider escalated w h =
      step (lift (or_err (find_client x provider g.clients) routing) w) _
        (Ensures-of_state Same _ h)
        λ client v k. elim (Bool-cases (str_eq provider cloud)) [
          | inl here ↦ rw here (rw blocked k)
          | inr elsewhere ↦ rw elsewhere (
              step (lift (payload_text r.payload) v) _ (Ensures-of_state Same _ k)
                λ content u j. reply-Kept provider escalated client content _ _ u elsewhere j)
        ]

-- A payload that is no `CloudSafePayload`, or whose sensitivity is not aggregated or public, never
-- leaves by the cloud route: whatever the request returns or raises, override and second opinion
-- included, the cloud calls are those of before.
pub complete_json_boundary :
    (x : Externals) (g : Gateway x) (r : Request x) (w : World x)
    → ¬ MayLeave r.payload
    → to_cloud (complete_json x g r w).1.sent ≡ to_cloud w.sent
unfolding complete_json
complete_json_boundary x g r w secret =
    let blocked = guard-MayLeave r.payload secret in
    Ensures-state (λ v. to_cloud v.sent ≡ to_cloud w.sent) _
      (step x g r (to_cloud w.sent) blocked (lift (resolve g.routes r.task) w) _
        (Ensures-of_state (λ v. to_cloud v.sent ≡ to_cloud w.sent) _ refl)
        λ provider v k.
          complete_at-Kept x g r (to_cloud w.sent) blocked (override x g r provider).0
            (override x g r provider).1 v k)
