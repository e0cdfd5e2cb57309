-- ===== src/Llm/Gateway/Budget.antt =====
-- The daily budget over any series of requests to the gateway.
use text.Mathlib.TextLemmas.{append_cancel_left}
use project_stock.Base.{
  ℕ, ◌+◌, ◌≤◌, String, Bool, true, false, ◌&&◌, Option, none, some, List, [], ◌∷◌, ◌++◌, ◌≡◌, refl,
  str_eq, eq_iff, arith, length, filter, filter-append, length-append, inl, inr, Bool-cases,
  Option-cases, if◌then◌else◌, ltb, ◌==◌, ◌*◌,
}
use project_stock.Base.Exec.{
  Result, ok, err, pure, lift, or_err, ◌>>=◌, Ensures, Ensures-bind, Ensures-lift, Ensures-of_state,
  Ensures-state,
}
use project_stock.Llm.{LlmError, routing, cloud}
use project_stock.Llm.Externals.{Fields, end, field, Externals}
use project_stock.Llm.Privacy.{guard, payload_text}
use project_stock.Llm.Router.{resolve}
use project_stock.Llm.World.{
  Message, Sent, World, Client, CachedCompletion, counter_key, send, consume, within_limit,
  start_expiry, after_incr, store, store_rest,
}
use project_stock.Llm.Gateway.{
  Gateway, Request, complete_json, complete_at, call_provider, ask, wants_verification, reply,
  find_client, verified, verified_by, completion, verify_with_cloud, verify_call, attempt_guard,
  consume_budget, store_reply, override,
}

-- The calls of one UTC day that went by the cloud route.
abbrev pub is_cloud_call : String → Sent → Bool
is_cloud_call day s = str_eq s.route cloud && str_eq s.day day

abbrev pub cloud_calls : String → List Sent → ℕ
cloud_calls day sent = length (filter (is_cloud_call day) sent)

cloud_calls-append_one :
    (day : String) (s : Sent) (sent : List Sent)
    → cloud_calls day (sent ++ s ∷ [])
      ≡ cloud_calls day sent + (if is_cloud_call day s then 1 else 0)
cloud_calls-append_one day s sent = rw filter-append (rw length-append (ground arith))

counter_key_ne :
    (today day : String)
    → str_eq today day ≡ false
    → str_eq (counter_key today) (counter_key day) ≡ false
unfolding counter_key
counter_key_ne today day h = elim (Bool-cases (str_eq (counter_key today) (counter_key day))) [
  | inl e ↦ ground (
    arith,
    (eq_iff today day).1 (
        append_cancel_left "llm:cloud_calls:" today day
          ((eq_iff (counter_key today) (counter_key day)).0 e)),
  )
  | inr e ↦ e
]

module _ (x : Externals) where
  open x use {Number, Counters, count, incr, expire, incr_self, incr_other, expire_count, Schema}

  -- On no day have more calls left for the cloud than the counter of the day has counted, and than
  -- the limit allows.
  pub record InBudget (limit : ℕ) (w : World x) : Type 0 where
    pub counted : (day : String) → cloud_calls day w.sent ≤ count (counter_key day) w.counters
    pub limited : (day : String) → cloud_calls day w.sent ≤ limit

  -- After a call of the budget that did not raise there is room for one call.
  record HasCredit (limit : ℕ) (today : String) (w : World x) : Type 0 where
    budget : InBudget limit w
    counted : cloud_calls today w.sent + 1 ≤ count (counter_key today) w.counters
    limited : cloud_calls today w.sent + 1 ≤ limit

  abbrev CreditIfOk : ℕ → String → Result LlmError (Unit {0}) × World x → Type 0
  CreditIfOk limit today = Ensures (λ _ w. HasCredit limit today w) (InBudget limit)

  module _ (limit : ℕ) (today : String) (w : World x) (c : Counters) (n : ℕ) where
    counted_after :
        InBudget limit w
        → incr (counter_key today) w.counters ≡ some (n, c)
        → (day : String) → cloud_calls day w.sent ≤ count (counter_key day) c
    counted_after h e day = elim (Bool-cases (str_eq today day)) [
      | inl same ↦
          rw (← (eq_iff today day).0 same)
            (omega (arith, h.counted today, incr_self (counter_key today) w.counters n c e))
      | inr differs ↦
          rw
            (incr_other (counter_key today) (counter_key day) w.counters n c e
              (counter_key_ne today day differs))
            (h.counted day)
    ]

  within_limit-CreditIfOk :
      (limit n : ℕ) (today : String) (w : World x)
      → InBudget limit w
      → cloud_calls today w.sent + 1 ≤ n
      → n ≤ count (counter_key today) w.counters
      → CreditIfOk limit today (within_limit x limit n w)
  unfolding within_limit
  within_limit-CreditIfOk limit n today w h room counted = elim (Bool-cases (ltb limit n)) [
    | inl over ↦ rw over h
    | inr under ↦ rw under (record { budget = h; counted = omega arith; limited = ground arith })
  ]

  start_expiry-CreditIfOk :
      (limit n : ℕ) (today : String) (w : World x)
      → InBudget limit w
      → cloud_calls today w.sent + 1 ≤ n
      → n ≤ count (counter_key today) w.counters
      → CreditIfOk limit today (start_expiry x (counter_key today) limit n w)
  unfolding start_expiry
  start_expiry-CreditIfOk limit n today w h room counted = elim (Bool-cases (n == 1)) [
    | inr later ↦ rw later (within_limit-CreditIfOk limit n today w h room counted)
    | inl first ↦
        rw first (elim (Option-cases (expire (counter_key today) (2 * 24 * 60 * 60) w.counters)) [
          | inl down ↦ rw down h
          | inr (c, e) ↦ rw e (
              within_limit-CreditIfOk limit n today (record w { counters = c })
                (record {
                  counted = λ day.
                      rw (expire_count (counter_key today) (counter_key day) _ w.counters c e)
                        (h.counted day);
                  limited = h.limited;
                })
                room
                (rw (expire_count (counter_key today) (counter_key today) _ w.counters c e)
                  counted))
        ])
  ]

  after_incr-CreditIfOk :
      (limit : ℕ) (today : String) (w : World x) (o : Option (ℕ × Counters))
      → InBudget limit w
      → incr (counter_key today) w.counters ≡ o
      → CreditIfOk limit today (after_incr x limit today w o)
  unfolding after_incr
  after_incr-CreditIfOk limit today w none h e = h
  after_incr-CreditIfOk limit today w (some (n, c)) h e =
      start_expiry-CreditIfOk limit n today (record w { counters = c })
        (record { counted = counted_after limit today w c n h e; limited = h.limited })
        (omega (arith, h.counted today, incr_self (counter_key today) w.counters n c e))
        (omega (arith, incr_self (counter_key today) w.counters n c e))

  consume-CreditIfOk :
      (limit : ℕ) (today : String) (w : World x)
      → InBudget limit w
      → CreditIfOk limit today (consume x limit today w)
  unfolding consume
  consume-CreditIfOk limit today w h =
      after_incr-CreditIfOk limit today w (incr (counter_key today) w.counters) h refl

  -- A call by the cloud route uses the room up; a call by another route needs none.
  send-InBudget :
      (limit : ℕ) (today : String) (client : Client x) (ms : List Message) (s : Schema)
      (t : Option ℕ) (w : World x)
      → HasCredit limit today w
      → InBudget limit (send x cloud today client ms s t w).1
  unfolding send
  send-InBudget limit today client ms s t w h = record {
    counted = λ day.
        rw cloud_calls-append_one
          (ground (arith, h.budget.counted day, h.counted, eq_iff today day));
    limited = λ day.
        rw cloud_calls-append_one
          (ground (arith, h.budget.limited day, h.limited, eq_iff today day));
  }

  send_elsewhere-InBudget :
      (limit : ℕ) (route today : String) (client : Client x) (ms : List Message) (s : Schema)
      (t : Option ℕ) (w : World x)
      → str_eq route cloud ≡ false
      → InBudget limit w
      → InBudget limit (send x route today client ms s t w).1
  unfolding send
  send_elsewhere-InBudget limit route today client ms s t w other h = record {
    counted = λ day. rw cloud_calls-append_one (ground (arith, h.counted day));
    limited = λ day. rw cloud_calls-append_one (ground (arith, h.limited day));
  }

  store-InBudget :
      (limit ttl : ℕ) (key : String) (output : Fields Number) (provider model : String)
      (w : World x)
      → InBudget limit w
      → InBudget limit (store x ttl key output provider model w)
  store-InBudget limit ttl key output provider model w h = record {
    counted = λ day.
        rw
          (
            (store_rest x ttl key output provider model w).0,
            (store_rest x ttl key output provider model w).1,
          )
          (h.counted day);
    limited = λ day. rw (store_rest x ttl key output provider model w).0 (h.limited day);
  }

  if-InBudget :
      {limit : ℕ} (b : Bool) (v w : World x)
      → InBudget limit v
      → InBudget limit w
      → InBudget limit (if b then v else w)
  if-InBudget true v w h k = h
  if-InBudget false v w h k = k

  module _ (g : Gateway x) (r : Request x) (limit : ℕ) (budget : g.call_budget ≡ some limit) where
    consume_budget-CreditIfOk :
        (w : World x)
        → InBudget limit w
        → CreditIfOk limit r.today (consume_budget x g.call_budget r.today w)
    unfolding consume_budget
    consume_budget-CreditIfOk w h = rw budget (consume-CreditIfOk limit r.today w h)

    store_reply-InBudget :
        (provider key : String) (client : Client x) (output : Fields Number) (w : World x)
        → InBudget limit w
        → InBudget limit (store_reply x g provider key client output w)
    unfolding store_reply
    store_reply-InBudget provider key client end w h = h
    store_reply-InBudget provider key client (field n v fs) w h =
        elim (Option-cases g.response_cache) [
          | inl none_set ↦ rw none_set h
          | inr (ttl, e) ↦
              rw e
                (if-InBudget (str_eq provider cloud) _ w (store-InBudget limit ttl key _ _ _ w h) h)
        ]

    abbrev Credit : {A : Type 0} → Result LlmError A × World x → Type 0
    Credit = Ensures (λ _ w'. HasCredit limit r.today w') (InBudget limit)

    abbrev Kept : {A : Type 0} → Result LlmError A × World x → Type 0
    Kept = Ensures (λ _ w'. InBudget limit w') (InBudget limit)

    attempt_guard-Credit : (w : World x) → InBudget limit w → Credit (attempt_guard x g r w)
    unfolding attempt_guard
    attempt_guard-Credit w h =
        Ensures-bind (λ _ w'. InBudget limit w') _ (InBudget limit) (lift (guard r.payload) w) _
          (Ensures-lift _ (InBudget limit) (guard r.payload) w h (λ _ _. h))
          λ safe w' k.
            Ensures-bind (λ _ v. HasCredit limit r.today v) _ (InBudget limit)
              (consume_budget x g.call_budget r.today w') (λ _. pure safe)
              (consume_budget-CreditIfOk w' k) (λ _ v c. c)

    attempt-Credit :
        (w : World x)
        → InBudget limit w
        → Credit ((attempt_guard x g r >>= λ safe. lift (payload_text safe)) w)
    attempt-Credit w h =
        Ensures-bind (λ _ v. HasCredit limit r.today v) _ (InBudget limit) (attempt_guard x g r w)
          (λ safe. lift (payload_text safe)) (attempt_guard-Credit w h)
          λ safe w' k. Ensures-lift _ (InBudget limit) (payload_text safe) w' k.budget (λ _ _. k)

    verify_call-InBudget :
        (client : Client x) (a : Result LlmError String × World x)
        → Ensures (λ _ w'. HasCredit limit r.today w') (InBudget limit) a
        → InBudget limit (verify_call x g r client a).1
    unfolding verify_call
    verify_call-InBudget client (ok content, w) h =
        send-InBudget limit r.today client _ r.schema g.timeout w h
    verify_call-InBudget client (err e, w) h = h

    verify_with_cloud-InBudget :
        (client : Client x) (w : World x)
        → InBudget limit w
        → InBudget limit (verify_with_cloud x g r client w).1
    unfolding verify_with_cloud
    verify_with_cloud-InBudget client w h = verify_call-InBudget client _ (attempt-Credit w h)

    verified_by-InBudget :
        (output : Fields Number) (client : Client x) (escalated : Bool) (o : Option (Client x))
        (w : World x)
        → InBudget limit w
        → Kept (verified_by x g r output client escalated o w)
    unfolding verified_by
    verified_by-InBudget output client escalated none w h = h
    verified_by-InBudget output client escalated (some c) w h = verify_with_cloud-InBudget c w h

    -- what follows the answer of a provider
    finish-Kept :
        (b : Bool) (output : Fields Number) (client : Client x) (escalated : Bool) (w : World x)
        → InBudget limit w
        → Kept (
            (if b
                then verified x g r output client escalated
                else pure (completion x output client escalated))
              w)
    unfolding verified
    finish-Kept true output client escalated w h =
        verified_by-InBudget output client escalated _ w h
    finish-Kept false output client escalated w h = h

    ask-Kept :
        (provider : String) (client : Client x) (content : String) (w : World x)
        → InBudget limit w
        → Kept (ask x g r provider client content w)
    unfolding ask
    ask-Kept provider client content w h = elim (Bool-cases (str_eq provider cloud)) [
      | inl e ↦ rw ((eq_iff provider cloud).0 e) (
          Ensures-bind (λ _ v. HasCredit limit r.today v) _ (InBudget limit)
            (consume_budget x g.call_budget r.today w) _ (consume_budget-CreditIfOk w h)
            λ _ v c.
              Ensures-of_state (InBudget limit) _
                (send-InBudget limit r.today client _ r.schema g.timeout v c))
      | inr e ↦ rw e (
          Ensures-of_state (InBudget limit) _
            (send_elsewhere-InBudget limit provider r.today client _ r.schema g.timeout w e h))
    ]

    call_provider-Kept :
        (provider : String) (escalated : Bool) (client : Client x) (content key : String)
        (w : World x)
        → InBudget limit w
        → Kept (call_provider x g r provider escalated client content key w)
    unfolding call_provider
    call_provider-Kept provider escalated client content key w h =
        Ensures-bind (λ _ v. InBudget limit v) _ (InBudget limit)
          (ask x g r provider client content w) _ (ask-Kept provider client content w h)
          λ output v k.
            finish-Kept (wants_verification x g r output provider) output client escalated _
              (store_reply-InBudget provider key client output v k)

    reply-Kept :
        (provider : String) (escalated : Bool) (client : Client x) (content key : String)
        (hit : Option (CachedCompletion x)) (w : World x)
        → InBudget limit w
        → Kept (reply x g r provider escalated client content key hit w)
    unfolding reply
    reply-Kept provider escalated client content key none w h =
        call_provider-Kept provider escalated client content key w h
    reply-Kept provider escalated client content key (some c) w h = h

    complete_at-Kept :
        (provider : String) (escalated : Bool) (w : World x)
        → InBudget limit w
        → Kept (complete_at x g r provider escalated w)
    unfolding complete_at
    complete_at-Kept provider escalated w h =
        Ensures-bind (λ _ v. InBudget limit v) _ (InBudget limit)
          (lift (or_err (find_client x provider g.clients) routing) w) _
          (Ensures-of_state (InBudget limit) _ h)
          λ client w₁ h₁.
            Ensures-bind (λ _ v. InBudget limit v) _ (InBudget limit)
              (lift (if str_eq provider cloud then guard r.payload else ok r.payload) w₁) _
              (Ensures-of_state (InBudget limit) _ h₁)
              λ safe w₂ h₂.
                Ensures-bind (λ _ v. InBudget limit v) _ (InBudget limit)
                  (lift (payload_text safe) w₂) _ (Ensures-of_state (InBudget limit) _ h₂)
                  λ content w₃ h₃. reply-Kept provider escalated client content _ _ w₃ h₃

  -- With a budget of `limit` calls set, a request, whatever it returns or raises, leaves the cloud calls
  -- of every day within what the day's counter has counted and within `limit`, if they were before.
  pub complete_json-InBudget :
      (g : Gateway x) (limit : ℕ) (r : Request x) (w : World x)
      → g.call_budget ≡ some limit
      → InBudget limit w
      → InBudget limit (complete_json x g r w).1
  unfolding complete_json
  complete_json-InBudget g limit r w budget h = Ensures-state (InBudget limit) _ (
      Ensures-bind (λ _ v. InBudget limit v) _ (InBudget limit) (lift (resolve g.routes r.task) w) _
        (Ensures-of_state (InBudget limit) _ h)
        λ provider v k.
          complete_at-Kept g r limit budget (override x g r provider).0 (override x g r provider).1
            v k)
