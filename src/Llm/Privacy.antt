-- ===== src/Llm/Privacy.antt =====
-- app/adapters/llm/privacy.py: payloads and the gate in front of the cloud.
use project_stock.Base.{String, Bool, true, false}
use project_stock.Base.Exec.{Result, ok, err}
use project_stock.Llm.{
  SensitivityLevel, raw, semi, aggregated, public, LlmError, cloud_boundary_violation,
  attribute_error,
}

-- What a caller hands to the gateway: a `CloudSafePayload` with the sensitivity of its class and the
-- JSON text of its `as_payload()`, or some other object.
pub data Payload : Type 0 where
  cloud_safe : SensitivityLevel → String → Payload
  other : Payload

-- `sensitivity in CLOUD_ALLOWED`
unfoldable pub cloud_allowed : SensitivityLevel → Bool
cloud_allowed aggregated = true
cloud_allowed public = true
cloud_allowed raw = false
cloud_allowed semi = false

-- `PrivacyGate.guard`
unfoldable pub guard : Payload → Result LlmError Payload
unfolding cloud_allowed
guard (cloud_safe level content) = elim (cloud_allowed level) [
  | true ↦ ok (cloud_safe level content)
  | false ↦ err cloud_boundary_violation
]
guard other = err cloud_boundary_violation

-- `json.dumps(payload.as_payload(), ensure_ascii=False)`
unfoldable pub payload_text : Payload → Result LlmError String
payload_text (cloud_safe level content) = ok content
payload_text other = err attribute_error

-- What may leave for the cloud.
abbrev pub MayLeave : Payload → Type 0
MayLeave (cloud_safe aggregated content) = Unit
MayLeave (cloud_safe public content) = Unit
MayLeave p = ⊥
