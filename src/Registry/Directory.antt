-- ===== src/Registry/Directory.antt =====
-- `PostgresAgentRegistry` (adapters/registry/postgres.py). A method runs in one transaction: what
-- raises changes neither table. `datetime.now(UTC)` comes in as `now`.
use openagent_control.Prelude.{
  String, Bool, Option, none, some, List, [], ◌∷◌, ◌++◌, ◌==◌, get_or, keep,
}
use openagent_control.Json.{Json, str, arr, obj, bool, Fields, end, field}
use openagent_control.Exec.{Result, ok, err, agent_not_found, uncaught, bind}
use openagent_control.Models.{
  Instant, RiskTier, AgentStatus, ToolGrant, RegisteredAgent, status_value, risk_tier_value,
}
use openagent_control.Ledger.Documents.{array, dump_grant}
use openagent_control.Registry.Tables.{
  AgentRow, OperatorActionRow, Tables, find_row, write_row, to_domain,
}

-- `AgentPatch`
pub record AgentPatch : Type 0 where
  pub display_name : Option String
  pub purpose : Option String
  pub owner : Option String
  pub risk_tier : Option RiskTier
  pub granted_tools : Option (List ToolGrant)

abbrev unless_none {ℓ} : {A : Type ℓ} → String → (A → Json) → Option A → Fields → Fields
unless_none key dump none rest = rest
unless_none key dump (some a) rest = field key (dump a) rest

-- `grant.model_dump(exclude_none=True)`
unfoldable pub dump_grant_set : ToolGrant → Json
dump_grant_set g = obj (
    field "name" (str g.name) (
      unless_none "risk_tier" (λ t. str (risk_tier_value t)) g.risk_tier
        (field "approval_required" (bool g.approval_required)
          (field "required_roles" (arr (array str g.required_roles)) end))))

-- `patch.model_dump(exclude_none=True)`, as the JSON column holds it
unfoldable pub dump_patch : AgentPatch → Fields
unfolding dump_grant_set
dump_patch p = unless_none "display_name" str p.display_name (
    unless_none "purpose" str p.purpose (
      unless_none "owner" str p.owner (
        unless_none "risk_tier" (λ t. str (risk_tier_value t)) p.risk_tier
          (unless_none "granted_tools" (λ gs. arr (array dump_grant_set gs)) p.granted_tools end))))

-- `_audit_row`
unfoldable pub audit_row : Instant → String → String → String → Fields → OperatorActionRow
audit_row now operator action target detail = record {
  operator_subject = operator;
  action = action;
  target_spiffe_id = target;
  detail = detail;
  timestamp = now;
}

-- The row that `create` inserts.
unfoldable pub row_of : RegisteredAgent → AgentRow
unfolding dump_grant
row_of agent = record {
  spiffe_id = agent.spiffe_id;
  display_name = agent.display_name;
  purpose = agent.purpose;
  owner = agent.owner;
  risk_tier = risk_tier_value agent.risk_tier;
  status = status_value agent.status;
  granted_tools = array dump_grant agent.granted_tools;
  created_at = agent.created_at;
  updated_at = agent.updated_at;
  status_changed_at = agent.status_changed_at;
}

-- The row that `update` leaves: a field that the patch leaves unset stays as it is.
unfoldable pub patch_row : Instant → AgentPatch → AgentRow → AgentRow
unfolding dump_grant_set
patch_row now p row = record row {
  display_name = get_or p.display_name row.display_name;
  purpose = get_or p.purpose row.purpose;
  owner = get_or p.owner row.owner;
  risk_tier = elim p.risk_tier [ none ↦ row.risk_tier | some tier ↦ risk_tier_value tier ];
  granted_tools = elim p.granted_tools [
    | none ↦ row.granted_tools
    | some gs ↦ array dump_grant_set gs
  ];
  updated_at = now;
}

-- The row that `set_status` leaves.
unfoldable pub status_row : Instant → AgentStatus → AgentRow → AgentRow
status_row now status row = record row {
  status = status_value status;
  status_changed_at = some now;
  updated_at = now;
}

module _ (bool_of : Json → Option Bool) where
  unfoldable pub lookup : String → Tables → Result (Option RegisteredAgent)
  lookup id t = elim (find_row id t.agents) [
    | none ↦ ok none
    | some row ↦ bind (to_domain bool_of row) λ agent. ok (some agent)
  ]

  -- The rows of a status, or all.
  abbrev pub selected : Option AgentStatus → List AgentRow → List AgentRow
  selected none rows = rows
  selected (some status) rows = keep (λ row. row.status == status_value status) rows

  unfoldable pub read_all : List AgentRow → Result (List RegisteredAgent)
  read_all [] = ok []
  read_all (row ∷ rows) =
      bind (to_domain bool_of row) λ agent. bind (read_all rows) λ agents. ok (agent ∷ agents)

  unfoldable pub list_agents : Option AgentStatus → Tables → Result (List RegisteredAgent)
  list_agents status t = read_all (selected status t.agents)

  unfoldable pub create :
      Instant → RegisteredAgent → String → Tables → Result RegisteredAgent × Tables
  unfolding row_of audit_row
  create now agent operator t = elim (find_row agent.spiffe_id t.agents) [
    | some row ↦ (err (uncaught "IntegrityError"), t)
    | none ↦ (
      ok agent,
      record {
        agents = t.agents ++ row_of agent ∷ [];
        actions =
            audit_row now operator "agent.create" agent.spiffe_id (
              field "owner" (str agent.owner)
                (field "risk_tier" (str (risk_tier_value agent.risk_tier)) end))
            ∷ t.actions;
      },
    )
  ]

  -- The end of `update` and `set_status`: the row and its audit are flushed, and the row is read; if
  -- that raises, the transaction is rolled back.
  unfoldable pub commit :
      String → AgentRow → OperatorActionRow → Tables → Result RegisteredAgent × Tables
  commit id row audit t = elim (to_domain bool_of row) [
    | err e ↦ (err e, t)
    | ok agent ↦
        (ok agent, record { agents = write_row id row t.agents; actions = audit ∷ t.actions })
  ]

  unfoldable pub update :
      Instant → String → AgentPatch → String → Tables → Result RegisteredAgent × Tables
  unfolding patch_row dump_patch audit_row commit
  update now id p operator t = elim (find_row id t.agents) [
    | none ↦ (err (agent_not_found id), t)
    | some row ↦
        commit id (patch_row now p row) (audit_row now operator "agent.update" id (dump_patch p)) t
  ]

  unfoldable pub set_status :
      Instant → String → AgentStatus → String → Tables → Result RegisteredAgent × Tables
  unfolding status_row audit_row commit
  set_status now id status operator t = elim (find_row id t.agents) [
    | none ↦ (err (agent_not_found id), t)
    | some row ↦
        commit id (status_row now status row)
          (audit_row now operator "agent.set_status" id
            (field "from" (str row.status) (field "to" (str (status_value status)) end)))
          t
  ]
