-- ===== src/Registry/Tables.antt =====
-- The tables of the registry (adapters/db/tables.py) and `_to_domain`. A timestamp column keeps its
-- value.
use openagent_control.Prelude.{String, Bool, Option, none, some, List, [], ◌∷◌, ◌==◌, if◌then◌else◌}
use openagent_control.Json.{Json, Items, arr, Fields}
use openagent_control.Exec.{Result, ok, bind}
use openagent_control.Models.{Instant, RegisteredAgent}
use openagent_control.Registry.Grants.{risk_tier_of, status_of, validate_grants}

pub record AgentRow : Type 0 where
  pub spiffe_id : String
  pub display_name : String
  pub purpose : String
  pub owner : String
  pub risk_tier : String
  pub status : String
  pub granted_tools : Items
  pub created_at : Instant
  pub updated_at : Instant
  pub status_changed_at : Option Instant

pub record OperatorActionRow : Type 0 where
  pub operator_subject : String
  pub action : String
  pub target_spiffe_id : String
  pub detail : Fields
  pub timestamp : Instant

-- The two tables; `operator_actions` has its newest row first.
pub record Tables : Type 0 where
  pub agents : List AgentRow
  pub actions : List OperatorActionRow

-- `select(AgentRow).where(AgentRow.spiffe_id == spiffe_id)`, of which the primary key leaves one.
unfoldable pub find_row : String → List AgentRow → Option AgentRow
find_row id [] = none
find_row id (row ∷ rows) = if row.spiffe_id == id then some row else find_row id rows

-- A row of that key written back.
unfoldable pub write_row : String → AgentRow → List AgentRow → List AgentRow
write_row id new [] = []
write_row id new (row ∷ rows) =
    if row.spiffe_id == id then new ∷ rows else row ∷ write_row id new rows

unfoldable pub to_domain : (Json → Option Bool) → AgentRow → Result RegisteredAgent
to_domain bool_of row = bind (risk_tier_of row.risk_tier) λ tier.
    bind (status_of row.status) λ status.
      bind (validate_grants bool_of (arr row.granted_tools)) λ grants. ok (record {
        spiffe_id = row.spiffe_id;
        display_name = row.display_name;
        purpose = row.purpose;
        owner = row.owner;
        risk_tier = tier;
        status = status;
        granted_tools = grants;
        created_at = row.created_at;
        updated_at = row.updated_at;
        status_changed_at = row.status_changed_at;
      })
