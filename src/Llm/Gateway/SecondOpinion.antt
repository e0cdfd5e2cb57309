-- ===== src/Llm/Gateway/SecondOpinion.antt =====
-- Risk escalation before a call, and the cloud's second opinion after a local answer.
use project_stock.Base.{
  String, Bool, true, false, Option, none, some, ◌≡◌, refl, ap, ◌↔◌, ◌⊎◌, eq_iff, arith, inl, inr,
  Bool-cases, Option-cases, if◌then◌else◌,
}
use project_stock.Base.Exec.{Result, ok, err, pure}
use project_stock.Llm.{LlmError, raw, semi, aggregated, public, high, cloud, local}
use project_stock.Llm.Externals.{Fields, Externals}
use project_stock.Llm.Privacy.{Payload, cloud_safe, other, guard, MayLeave}
use project_stock.Llm.Escalation.{EscalationSignal, should_escalate_before}
use project_stock.Llm.World.{World, Client}
use project_stock.Llm.Gateway.{
  Gateway, Request, Completion, Verification, ask, call_provider, wants_verification, verified,
  verified_by, verify_with_cloud, verify_call, accepted, merge_verification, completion, override,
  override_with, overridden,
}

-- A high risk level, or one of the four events.
abbrev pub Risky : EscalationSignal → Type 0
Risky s =
    (s.risk_level ≡ high)
    ⊎ ((s.loss_spike ≡ true)
        ⊎ ((s.news_sentiment_swing ≡ true) ⊎ ((s.event_flag ≡ true) ⊎ (s.trade_question ≡ true))))

Risky-iff :
    (s : EscalationSignal) (provider : String)
    → (should_escalate_before s provider ≡ true) ↔ ((provider ≡ local) × Risky s)
unfolding should_escalate_before
Risky-iff s provider = ground (arith, eq_iff provider local)

module _ (x : Externals) (g : Gateway x) (r : Request x) where
  open x use {Number, validates}

  -- A verdict whose output, if there is one, the schema accepts.
  abbrev Validated : Verification x → Type 0
  Validated v = (o : Fields Number) → v.output ≡ some o → validates r.schema o ≡ true

  accepted-Validated : (a : Result LlmError (Fields Number)) → Validated (accepted x r.schema a)
  unfolding accepted
  accepted-Validated (ok output) = λ o e. ground arith
  accepted-Validated (err e) = λ o h. cc

  verify_call-Validated :
      (client : Client x) (m : Result LlmError String × World x)
      → Validated (verify_call x g r client m).0
  unfolding verify_call
  verify_call-Validated client (ok content, w) = accepted-Validated _
  verify_call-Validated client (err e, w) = λ o h. cc

  -- What the result of an answered request holds: the provider's output, or one that the schema accepts.
  abbrev pub KeepsAnswer : Fields Number → Result LlmError (Completion x) → Type 0
  KeepsAnswer output (ok c) = (c.output ≡ output) ⊎ (validates r.schema c.output ≡ true)
  KeepsAnswer output (err e) = ⊥

  merge-KeepsAnswer :
      (output : Fields Number) (client cloud_client : Client x) (escalated : Bool)
      (v : Verification x)
      → Validated v
      → KeepsAnswer output (ok (merge_verification x output client cloud_client escalated v))
  unfolding merge_verification completion
  merge-KeepsAnswer output client cloud_client escalated v valid = elim (Option-cases v.output) [
    | inl kept ↦ rw kept (inl refl)
    | inr (o, e) ↦ rw e (inr (valid o e))
  ]

  verified_by-KeepsAnswer :
      (output : Fields Number) (client : Client x) (escalated : Bool) (o : Option (Client x))
      (w : World x)
      → KeepsAnswer output (verified_by x g r output client escalated o w).0
  unfolding verified_by verify_with_cloud completion
  verified_by-KeepsAnswer output client escalated none w = inl refl
  verified_by-KeepsAnswer output client escalated (some c) w =
      merge-KeepsAnswer output client c escalated _ (verify_call-Validated c _)

  finish-KeepsAnswer :
      (b : Bool) (output : Fields Number) (client : Client x) (escalated : Bool) (w : World x)
      → KeepsAnswer output
          ((if b
              then verified x g r output client escalated
              else pure (completion x output client escalated))
            w).0
  unfolding verified completion
  finish-KeepsAnswer true output client escalated w =
      verified_by-KeepsAnswer output client escalated _ w
  finish-KeepsAnswer false output client escalated w = inl refl

  -- Once a provider has answered, the request returns: a second opinion that the gate, the budget, Redis,
  -- the cloud or the schema refuses is dropped and the answer kept, and one that replaces it is valid.
  pub call_provider-KeepsAnswer :
      (provider : String) (escalated : Bool) (client : Client x) (content key : String)
      (output : Fields Number) (w v : World x)
      → ask x g r provider client content w ≡ (ok output, v)
      → KeepsAnswer output (call_provider x g r provider escalated client content key w).0
  unfolding call_provider
  call_provider-KeepsAnswer provider escalated client content key output w v answered =
      rw answered
        (finish-KeepsAnswer (wants_verification x g r output provider) output client escalated _)

  -- When a request is moved to the cloud before its call: there is a policy and a signal with a high risk
  -- level or one of the four events, the route is the local one, and the payload may leave.
  abbrev pub Escalates :
      Option (Option Number) → Option EscalationSignal → Payload → String → Type 0
  Escalates (some threshold) (some s) payload provider =
      (provider ≡ local) × Risky s × MayLeave payload
  Escalates _ _ payload provider = ⊥

  MayLeave-of_guard :
      (p : Payload) (provider : String) → (overridden x provider (guard p)).1 ≡ true → MayLeave p
  unfolding overridden guard
  MayLeave-of_guard (cloud_safe aggregated c) provider h = tt
  MayLeave-of_guard (cloud_safe public c) provider h = tt
  MayLeave-of_guard (cloud_safe raw c) provider h = cc
  MayLeave-of_guard (cloud_safe semi c) provider h = cc
  MayLeave-of_guard other provider h = cc

  guard_of_MayLeave :
      (p : Payload) (provider : String)
      → MayLeave p
      → (overridden x provider (guard p)) ≡ (cloud, true)
  unfolding overridden guard
  guard_of_MayLeave (cloud_safe aggregated c) provider h = refl
  guard_of_MayLeave (cloud_safe public c) provider h = refl
  guard_of_MayLeave (cloud_safe raw c) provider h = absurd h
  guard_of_MayLeave (cloud_safe semi c) provider h = absurd h
  guard_of_MayLeave other provider h = absurd h

  moved_iff :
      (threshold : Option (Option Number)) (signal : Option EscalationSignal) (payload : Payload)
      (provider : String)
      → ((override_with x threshold signal payload provider).1 ≡ true)
        ↔ Escalates threshold signal payload provider
  unfolding override_with
  moved_iff none signal payload provider = (λ h. cc, λ h. absurd h)
  moved_iff (some t) none payload provider = (λ h. cc, λ h. absurd h)
  moved_iff (some t) (some s) payload provider =
      elim (Bool-cases (should_escalate_before s provider)) [
        | inl risky ↦ rw risky (
          λ h.
              let (here, why) = (Risky-iff s provider).0 risky in
              (here, why, MayLeave-of_guard payload provider h),
          λ h. ap (λ (t : String × Bool). t.1) (guard_of_MayLeave payload provider h.2),
        )
        | inr calm ↦ rw calm (λ h. cc, λ h. cc ((Risky-iff s provider).1 (h.0, h.1), calm))
      ]

  stays :
      (threshold : Option (Option Number)) (signal : Option EscalationSignal) (payload : Payload)
      (provider : String)
      → (override_with x threshold signal payload provider).0
        ≡ (if (override_with x threshold signal payload provider).1 then cloud else provider)
  unfolding override_with overridden
  stays none signal payload provider = refl
  stays (some t) none payload provider = refl
  stays (some t) (some s) payload provider = ground arith

  -- A request is moved to the cloud before its call exactly if there is a policy and a signal with a high
  -- risk level or an event, its route is the local one, and its payload may leave; a request that is not
  -- moved keeps the provider of its route.
  pub override_exact :
      (provider : String)
      → (((override x g r provider).1 ≡ true)
          ↔ Escalates g.escalation_policy r.signal r.payload provider)
        × ((override x g r provider).0 ≡ (if (override x g r provider).1 then cloud else provider))
  unfolding override
  override_exact provider = (
    moved_iff g.escalation_policy r.signal r.payload provider,
    stays g.escalation_policy r.signal r.payload provider,
  )
