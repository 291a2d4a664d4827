-- ===== src/Registry/Audit.antt =====
-- The audit trail of the registry's changes, `operator_actions`.
use openagent_control.Prelude.{String, ◌≡◌, refl, ◌⊎◌, inl, inr, Bool, Option, ◌∷◌, Option-cases}
use openagent_control.Json.{Json}
use openagent_control.Exec.{Error, Result, ok, err, uncaught, agent_not_found, Result-cases}
use openagent_control.Models.{Instant, AgentStatus, RegisteredAgent}
use openagent_control.Registry.Tables.{AgentRow, OperatorActionRow, Tables, find_row, to_domain}
use openagent_control.Registry.Directory.{
  AgentPatch, patch_row, status_row, create, update, set_status, commit, audit_row,
}

-- What an operator asks of the registry, with the time and the operator.
pub data Change : Type 0 where
  creating : RegisteredAgent → Change
  updating : String → AgentPatch → Change
  setting : String → AgentStatus → Change

abbrev pub target : Change → String
target (creating agent) = agent.spiffe_id
target (updating id p) = id
target (setting id status) = id

abbrev pub action_name : Change → String
action_name (creating agent) = "agent.create"
action_name (updating id p) = "agent.update"
action_name (setting id status) = "agent.set_status"

-- The row that names who did what to which agent, and when.
abbrev pub IsAuditOf : Instant → String → Change → OperatorActionRow → Type 0
IsAuditOf now operator change row =
    (row.operator_subject ≡ operator)
    × (row.action ≡ action_name change)
    × (row.target_spiffe_id ≡ target change)
    × (row.timestamp ≡ now)

module _ (bool_of : Json → Option Bool) where
  unfoldable pub apply : Instant → String → Change → Tables → Result RegisteredAgent × Tables
  apply now operator (creating agent) = create bool_of now agent operator
  apply now operator (updating id p) = update bool_of now id p operator
  apply now operator (setting id status) = set_status bool_of now id status operator

  -- A change raises and leaves both tables as they were, or it returns an agent.
  abbrev pub Audited : Instant → String → Change → Tables → Result RegisteredAgent × Tables → Type 0
  Audited now operator change t r =
      ((e : Error) × (r ≡ (err e, t)))
      ⊎ ((agent : RegisteredAgent) × (row : OperatorActionRow) × (r.0 ≡ ok agent)
          × (r.1.actions ≡ row ∷ t.actions)
          × IsAuditOf now operator change row)

  commit-Audited :
      (now : Instant) (operator id : String) (change : Change) (row : AgentRow)
      (audit : OperatorActionRow) (t : Tables)
      → IsAuditOf now operator change audit
      → Audited now operator change t (commit bool_of id row audit t)
  unfolding commit
  commit-Audited now operator id change row audit t h =
      elim (Result-cases (to_domain bool_of row)) [
        | inl (agent, e) ↦ rw (commit, e) (inr (agent, audit, refl, refl, h))
        | inr (x, e) ↦ rw (commit, e) (inl (x, refl))
      ]

  -- A change that raises leaves both tables as they were. One that returns an agent adds exactly one
  -- row to the audit trail, which names the operator, the action, the agent and the time.
  pub apply-Audited :
      (now : Instant) (operator : String) (change : Change) (t : Tables)
      → Audited now operator change t (apply now operator change t)
  unfolding apply create update set_status audit_row
  apply-Audited now operator (creating agent) t =
      elim (Option-cases (find_row agent.spiffe_id t.agents)) [
        | inl e ↦ rw (create, e) (inr (agent, _, refl, refl, (refl, refl, refl, refl)))
        | inr (row, e) ↦ rw (create, e) (inl (uncaught "IntegrityError", refl))
      ]
  apply-Audited now operator (updating id p) t = elim (Option-cases (find_row id t.agents)) [
    | inl e ↦ rw (update, e) (inl (agent_not_found id, refl))
    | inr (row, e) ↦
        rw (update, e)
          (commit-Audited now operator id (updating id p) (patch_row now p row) _ t
            (refl, refl, refl, refl))
  ]
  apply-Audited now operator (setting id status) t = elim (Option-cases (find_row id t.agents)) [
    | inl e ↦ rw (set_status, e) (inl (agent_not_found id, refl))
    | inr (row, e) ↦
        rw (set_status, e)
          (commit-Audited now operator id (setting id status) (status_row now status row) _ t
            (refl, refl, refl, refl))
  ]
