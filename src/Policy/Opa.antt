-- ===== src/Policy/Opa.antt =====
-- adapters/policy/opa.py: OPA's HTTP API as the policy engine.
use openagent_control.Prelude.{String, false, none, some, [], if◌then◌else◌}
use openagent_control.Json.{Json, bool, str, arr, obj, Fields, end, field, is_truthy}
use openagent_control.Exec.{Result, ok, err, policy_engine_unavailable, uncaught, bind, Exec}
use openagent_control.Models.{
  Instant, SubjectIdentity, ToolCallRequest, Decision, allow, deny, PolicyDecision,
}
use openagent_control.Ledger.Documents.{array, dump_registration, or_null}
use openagent_control.Access.{body_of, get_default}
use openagent_control.Http.{Sent, received, http_error, broken, json_body, HttpClient}

-- The curated projection of the human.
unfoldable pub project_subject : SubjectIdentity → Json
project_subject s = obj (
    field "id" (str s.subject_id)
      (field "roles" (arr (array str s.roles)) (field "scopes" (arr (array str s.scopes)) end)))

-- `Decision.ALLOW if x else Decision.DENY`
abbrev pub decision_for : Json → Decision
decision_for x = if is_truthy x then allow else deny

-- The default of the reason.
abbrev pub default_reason : Decision → String
default_reason allow = ""
default_reason deny = "Denied by policy"

-- `PolicyDecision(...)`, whose reason has to be a text
unfoldable pub policy_decision : Decision → Json → Result PolicyDecision
policy_decision decision (str reason) = ok (record { decision = decision; reason = reason })
policy_decision decision _ = err (uncaught "ValidationError: reason")

unfoldable pub with_reason : Json → Json → Result PolicyDecision
unfolding policy_decision get_default
with_reason result allowed =
    bind (get_default "reason" (str (default_reason (decision_for allowed))) result)
      (policy_decision (decision_for allowed))

unfoldable pub read_result : Json → Result PolicyDecision
unfolding with_reason
read_result result = bind (get_default "allow" (bool false) result) (with_reason result)

-- `evaluate`, after the response's body
unfoldable pub read_decision : Json → Result PolicyDecision
unfolding read_result
read_decision body = bind (get_default "result" (obj end) body) read_result

unfoldable pub read_sent : {E : Type 0} → HttpClient E → Sent → Result PolicyDecision
unfolding read_decision body_of
read_sent http (received r) = elim (http.raise_for_status r) [
  | none ↦ bind (body_of r) read_decision
  | some message ↦ err (policy_engine_unavailable message)
]
read_sent http (http_error message) = err (policy_engine_unavailable message)
read_sent http (broken message) = err (uncaught message)

module _ (isoformat : Instant → String) where
  unfoldable pub opa_input : ToolCallRequest → Fields
  unfolding project_subject
  opa_input request =
      field "input"
        (obj (
          field "method" (str request.method) (
            field "spiffe_id" (str request.agent.spiffe_id) (
              field "agent" (or_null (dump_registration isoformat) request.registration) (
                field "subject" (or_null project_subject request.subject) (
                  field "params"
                    (obj (
                      field "name" (or_null str request.tool_name)
                        (field "arguments" (obj request.arguments) end)))
                    end))))))
        end

  module _ {E : Type 0} (http : HttpClient E) where
    -- `OPAPolicyEngine.evaluate`
    unfoldable pub evaluate : String → ToolCallRequest → Exec E PolicyDecision
    unfolding read_sent opa_input
    evaluate opa_url request w =
        let (sent, w') = http.post opa_url (json_body (obj (opa_input request))) [] w in
        (read_sent http sent, w')
