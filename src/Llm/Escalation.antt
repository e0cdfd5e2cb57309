-- ===== src/Llm/Escalation.antt =====
-- app/adapters/llm/escalation.py
use project_stock.Base.{
  String, Bool, true, false, ◌||◌, Option, none, some, str_eq, if◌then◌else◌, not,
}
use project_stock.Llm.{RiskLevel, low, medium, high, cloud, local}
use project_stock.Llm.Externals.{Json, num, Fields, end, field, Externals}

pub record EscalationSignal : Type 0 where
  pub risk_level : RiskLevel
  pub loss_spike : Bool
  pub news_sentiment_swing : Bool
  pub event_flag : Bool
  pub trade_question : Bool

is_high : RiskLevel → Bool
is_high high = true
is_high medium = false
is_high low = false

-- `EscalationPolicy.should_escalate_before`
unfoldable pub should_escalate_before : EscalationSignal → String → Bool
unfolding is_high
should_escalate_before s provider =
    if str_eq provider local
    then is_high s.risk_level
      || s.loss_spike
      || s.news_sentiment_swing
      || s.event_flag
      || s.trade_question
    else false

-- `output.get(name)`
unfoldable pub get_field : {N : Type 0} → String → Fields N → Option (Json N)
get_field k end = none
get_field k (field j v fs) = if str_eq j k then some v else get_field k fs

module _ (x : Externals) where
  open x use {Number, less, Schema, validates}

  -- `confidence is a number, no bool, and below the threshold`
  below : Option Number → Option (Json Number) → Bool
  below (some threshold) (some (num c)) = less c threshold
  below _ _ = false

  -- `EscalationPolicy.should_verify_after`
  unfoldable pub should_verify_after : Option Number → Fields Number → Schema → String → Bool
  unfolding below get_field
  should_verify_after threshold output schema first_provider =
      if str_eq first_provider cloud
      then false
      else if below threshold (get_field "confidence" output)
      then true
      else not (validates schema output)
