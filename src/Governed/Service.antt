-- ===== src/Governed/Service.antt =====
-- The fields of `GovernedExecutionService`: its ports and its settings, over the state `E` of the
-- world outside the process. A port is code that the service only calls, so it is a parameter here:
-- it may read and change that state, and it returns or raises. The model notes every call of a port
-- and what came back in a trace, newest first; the spans of the tracer have no effect and are left out.
use openagent_control.Prelude.{String, Option, List, ◌∷◌}
use openagent_control.Dict.{Dict}
use openagent_control.Json.{Json, Fields}
use openagent_control.Exec.{Exec, Result}
use openagent_control.Models.{
  AgentIdentity, SubjectIdentity, RegisteredAgent, RequestId, ToolCallRequest, PolicyDecision,
  ExecutionReceipt,
}
use mathlib.Core.Bool.{Bool}

pub data DecisionMode : Type 0 where
  enforce observe : DecisionMode

pub data SubjectBinding : Type 0 where
  strict may_act_only off : SubjectBinding

abbrev pub Headers : Type 0
Headers = Dict String

pub record GovernedExecutionService (E : Type 0) : Type 0 where
  pub identify : Headers → Exec E AgentIdentity
  pub lookup : String → Exec E (Option RegisteredAgent)
  pub evaluate : ToolCallRequest → Exec E PolicyDecision
  pub record_receipt :
      AgentIdentity → ToolCallRequest → PolicyDecision → Bool → Exec E ExecutionReceipt
  pub export : ExecutionReceipt → Exec E (Unit {0})
  pub exchange : String → String → Exec E String
  pub forward : ToolCallRequest → String → Exec E Fields
  pub subject_verifier : Option (String → Exec E SubjectIdentity)
  pub delegated_audience : String
  pub decision_mode : DecisionMode
  pub subject_binding : SubjectBinding
  -- pydantic's reading of a body's `id` as `str | int`; `none` where it raises
  pub request_id_of : Json → Option RequestId

-- A call of a port, with its arguments and its outcome.
pub data Event : Type 0 where
  identified : Headers → Result AgentIdentity → Event
  looked_up : String → Result (Option RegisteredAgent) → Event
  verified : String → Result SubjectIdentity → Event
  evaluated : ToolCallRequest → Result PolicyDecision → Event
  recorded :
      AgentIdentity → ToolCallRequest → PolicyDecision → Bool → Result ExecutionReceipt → Event
  exported : ExecutionReceipt → Result (Unit {0}) → Event
  exchanged : String → String → Result String → Event
  forwarded : ToolCallRequest → String → Result Fields → Event

pub record World (E : Type 0) : Type 0 where
  pub env : E
  pub trace : List Event

module _ {E A : Type 0} where
  unfoldable pub call_port : (Result A → Event) → Exec E A → Exec (World E) A
  call_port event port w =
      let (r, env) = port w.env in (r, record { env = env; trace = event r ∷ w.trace })
