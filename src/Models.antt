-- ===== src/Models.antt =====
-- domain/models.py: the records that cross the ports. A `datetime` is a number of microseconds.
use openagent_control.Prelude.{ℕ, String, Bool, Option, List, map}
use openagent_control.Json.{ℤ, Fields}

abbrev pub Instant : Type 0
Instant = ℕ

pub record AgentIdentity : Type 0 where
  pub spiffe_id : String
  pub human_sponsor : Option String
  pub client_id : Option String

pub record SubjectIdentity : Type 0 where
  pub subject_id : String
  pub issuer : String
  pub username : Option String
  pub roles : List String
  pub scopes : List String
  pub authorized_actor : Option String

pub data AgentStatus : Type 0 where
  active suspended : AgentStatus

pub data RiskTier : Type 0 where
  low medium high : RiskTier

pub record ToolGrant : Type 0 where
  pub name : String
  pub risk_tier : Option RiskTier
  pub approval_required : Bool
  pub required_roles : List String

pub record RegisteredAgent : Type 0 where
  pub spiffe_id : String
  pub display_name : String
  pub purpose : String
  pub owner : String
  pub risk_tier : RiskTier
  pub status : AgentStatus
  pub granted_tools : List ToolGrant
  pub created_at : Instant
  pub updated_at : Instant
  pub status_changed_at : Option Instant

abbrev pub tool_names : RegisteredAgent → List String
tool_names agent = map (λ grant. grant.name) agent.granted_tools

-- `str | int` of `ToolCallRequest.request_id`
pub data RequestId : Type 0 where
  text : String → RequestId
  int : ℤ → RequestId

pub record ToolCallRequest : Type 0 where
  pub method : String
  pub tool_name : Option String
  pub arguments : Fields
  pub agent : AgentIdentity
  pub registration : Option RegisteredAgent
  pub subject : Option SubjectIdentity
  pub request_id : Option RequestId

pub data Decision : Type 0 where
  allow deny : Decision

pub record PolicyDecision : Type 0 where
  pub decision : Decision
  pub reason : String

pub record ExecutionReceipt : Type 0 where
  pub sequence_id : String
  pub timestamp : Instant
  pub spiffe_id : String
  pub decision : Decision
  pub reason : String
  pub payload_hash : String
  pub previous_hash : String
  pub signature : Option String
  pub enforced : Bool

pub record AuthorizationOutcome : Type 0 where
  pub allowed : Bool
  pub decision : PolicyDecision
  pub receipt : ExecutionReceipt
  pub call : ToolCallRequest
  pub shadowed : Bool

-- The `.value` of the string enums.
abbrev pub status_value : AgentStatus → String
status_value AgentStatus.active = "active"
status_value AgentStatus.suspended = "suspended"

abbrev pub decision_value : Decision → String
decision_value Decision.allow = "ALLOW"
decision_value Decision.deny = "DENY"

abbrev pub risk_tier_value : RiskTier → String
risk_tier_value RiskTier.low = "low"
risk_tier_value RiskTier.medium = "medium"
risk_tier_value RiskTier.high = "high"
