-- ===== src/Ledger/Documents.antt =====
-- `model_dump(mode="json")` of the records that the ledger hashes and signs. How pydantic writes a
-- `datetime` is the parameter `iso`.
use openagent_control.Prelude.{String, Option, none, some, List, [], ◌∷◌}
use openagent_control.Json.{Json, null, bool, str, arr, obj, Items, nil, cons, Fields, end, field}
use openagent_control.Models.{
  Instant, AgentIdentity, SubjectIdentity, ToolGrant, RegisteredAgent, ToolCallRequest,
  ExecutionReceipt, status_value, risk_tier_value, decision_value,
}
use openagent_control.Governed.Flow.{id_json}

abbrev pub or_null {ℓ} : {A : Type ℓ} → (A → Json) → Option A → Json
or_null dump none = null
or_null dump (some a) = dump a

abbrev pub array {ℓ} : {A : Type ℓ} → (A → Json) → List A → Items
array dump [] = nil
array dump (x ∷ xs) = cons (dump x) (array dump xs)

unfoldable pub dump_agent : AgentIdentity → Json
dump_agent a = obj (
    field "spiffe_id" (str a.spiffe_id) (
      field "human_sponsor" (or_null str a.human_sponsor)
        (field "client_id" (or_null str a.client_id) end)))

unfoldable pub dump_subject : SubjectIdentity → Json
dump_subject s = obj (
    field "subject_id" (str s.subject_id) (
      field "issuer" (str s.issuer) (
        field "username" (or_null str s.username) (
          field "roles" (arr (array str s.roles)) (
            field "scopes" (arr (array str s.scopes))
              (field "authorized_actor" (or_null str s.authorized_actor) end))))))

unfoldable pub dump_grant : ToolGrant → Json
dump_grant g = obj (
    field "name" (str g.name) (
      field "risk_tier" (or_null (λ t. str (risk_tier_value t)) g.risk_tier) (
        field "approval_required" (bool g.approval_required)
          (field "required_roles" (arr (array str g.required_roles)) end))))

module _ (iso : Instant → String) where
  abbrev instant : Instant → Json
  instant t = str (iso t)

  unfoldable pub dump_registration : RegisteredAgent → Json
  unfolding dump_grant
  dump_registration r = obj (
      field "spiffe_id" (str r.spiffe_id) (
        field "display_name" (str r.display_name) (
          field "purpose" (str r.purpose) (
            field "owner" (str r.owner) (
              field "risk_tier" (str (risk_tier_value r.risk_tier)) (
                field "status" (str (status_value r.status)) (
                  field "granted_tools" (arr (array dump_grant r.granted_tools)) (
                    field "created_at" (instant r.created_at) (
                      field "updated_at" (instant r.updated_at) (
                        field "status_changed_at" (or_null instant r.status_changed_at)
                          end))))))))))

  -- `request.model_dump(mode="json")`
  unfoldable pub dump_call : ToolCallRequest → Fields
  unfolding dump_agent dump_subject dump_registration
  dump_call c = field "method" (str c.method) (
      field "tool_name" (or_null str c.tool_name) (
        field "arguments" (obj c.arguments) (
          field "agent" (dump_agent c.agent) (
            field "registration" (or_null dump_registration c.registration) (
              field "subject" (or_null dump_subject c.subject)
                (field "request_id" (id_json c.request_id) end))))))

  -- `receipt.model_dump(mode="json", exclude={"signature"})`
  unfoldable pub dump_receipt : ExecutionReceipt → Fields
  dump_receipt r = field "sequence_id" (str r.sequence_id) (
      field "timestamp" (instant r.timestamp) (
        field "spiffe_id" (str r.spiffe_id) (
          field "decision" (str (decision_value r.decision)) (
            field "reason" (str r.reason) (
              field "payload_hash" (str r.payload_hash) (
                field "previous_hash" (str r.previous_hash)
                  (field "enforced" (bool r.enforced) end)))))))
