-- ===== src/Registry/Tests.antt =====
-- The registry's theorems at concrete tables.
use openagent_control.Prelude.{ℕ, ◌≡◌, refl, Bool, true, false, Option, none, some, [], ◌∷◌}
use openagent_control.Text.{is_blank, is_space}
use openagent_control.Json
use openagent_control.Json.{Json, bool, Fields}
use openagent_control.Exec.{ok, err, agent_not_found}
use openagent_control.Models.{
  AgentStatus, RiskTier, RegisteredAgent, ToolCallRequest, deny, AuthorizationOutcome,
}
use openagent_control.Governed.Service.{GovernedExecutionService}
use openagent_control.Governed.Flow.{authorize}
use openagent_control.Governed.Demo.{
  record_of, gateway, gateway_run, headers, call_request, start, receipt_of, bot, alice,
}
use openagent_control.Ledger.Documents.{dump_grant}
use openagent_control.Registry.Grants.{
  risk_tier_of, status_of, normalize_tool_grants, normalize_entry, validate_grants, validate_each,
  validate_grant, grant_name, grant_tier, grant_approval, grant_roles, texts_of,
}
use openagent_control.Registry.Tables.{Tables, find_row, write_row, to_domain}
use openagent_control.Registry.Directory.{
  AgentPatch, row_of, patch_row, status_row, audit_row, lookup, create, update, set_status, commit,
}
use openagent_control.Registry.Reading.{ReadsBool}
use openagent_control.Registry.Changes.{
  Holds, patched, with_status, create-Holds, set_status-Holds, update-Holds,
}
use openagent_control.Registry.Audit.{setting, apply, Audited, apply-Audited}
use openagent_control.Registry.Revocation.{authorize-set_status}

-- What the runs below compute with.
unfoldable registry_run : Unit {0}
unfolding lookup create update set_status commit find_row write_row to_domain row_of patch_row
    status_row audit_row dump_grant risk_tier_of status_of normalize_tool_grants normalize_entry
    validate_grants validate_each validate_grant grant_name grant_tier grant_approval grant_roles
    texts_of is_blank is_space Json.get
registry_run = tt

abbrev strict_bool : Json → Option Bool
strict_bool (bool b) = some b
strict_bool _ = none

strict_bool-ReadsBool : ReadsBool strict_bool
strict_bool-ReadsBool b = refl

abbrev empty : Tables
empty = record { agents = []; actions = [] }

abbrev bots : RegisteredAgent
bots = record_of AgentStatus.active

abbrev one_agent : Tables
one_agent = record { agents = row_of bots ∷ []; actions = [] }

create-Holds_example :
    ((create strict_bool 3 bots "root" empty).0 ≡ ok bots)
    × Holds strict_bool bots empty (create strict_bool 3 bots "root" empty).1
unfolding registry_run
create-Holds_example =
    create-Holds strict_bool strict_bool-ReadsBool 3 bots "root" empty refl (refl, _)

set_status-Holds_example :
    ((set_status strict_bool 4 "spiffe://corp/bot" AgentStatus.suspended "root" one_agent).0
      ≡ ok (with_status 4 AgentStatus.suspended bots))
    × Holds strict_bool
        (with_status 4 AgentStatus.suspended bots)
        one_agent
        (set_status strict_bool 4 "spiffe://corp/bot" AgentStatus.suspended "root" one_agent).1
unfolding registry_run
set_status-Holds_example =
    set_status-Holds strict_bool strict_bool-ReadsBool 4 "spiffe://corp/bot" AgentStatus.suspended
      "root" one_agent bots refl

abbrev new_owner : AgentPatch
new_owner = record {
  display_name = none;
  purpose = none;
  owner = some "bob";
  risk_tier = some RiskTier.high;
  granted_tools = none;
}

update-Holds_example :
    ((update strict_bool 4 "spiffe://corp/bot" new_owner "root" one_agent).0
      ≡ ok (patched 4 new_owner bots))
    × Holds strict_bool
        (patched 4 new_owner bots)
        one_agent
        (update strict_bool 4 "spiffe://corp/bot" new_owner "root" one_agent).1
unfolding registry_run
update-Holds_example =
    update-Holds strict_bool strict_bool-ReadsBool 4 "spiffe://corp/bot" new_owner "root" one_agent
      bots refl _

apply-Audited_example :
    Audited strict_bool 4 "root"
      (setting "spiffe://corp/bot" AgentStatus.suspended)
      one_agent
      (apply strict_bool 4 "root" (setting "spiffe://corp/bot" AgentStatus.suspended) one_agent)
apply-Audited_example =
    apply-Audited strict_bool 4 "root" (setting "spiffe://corp/bot" AgentStatus.suspended) one_agent

unknown_agent :
    set_status strict_bool 4 "spiffe://corp/ghost" AgentStatus.active "root" one_agent
    ≡ (err (agent_not_found "spiffe://corp/ghost"), one_agent)
unfolding registry_run
unknown_agent = refl

-- The gateway over the tables in which its agent was suspended.
abbrev revoking : GovernedExecutionService ℕ
revoking = record gateway {
  lookup = λ id n. (
    lookup strict_bool id
        (set_status strict_bool 4 "spiffe://corp/bot" AgentStatus.suspended "root" one_agent).1,
    n,
  );
}

abbrev revoked_call : ToolCallRequest
revoked_call = record {
  method = "tools/call";
  tool_name = some "read_query";
  arguments = Json.end;
  agent = bot;
  registration = some (with_status 4 AgentStatus.suspended bots);
  subject = some alice;
  request_id = none;
}

abbrev revoked : AuthorizationOutcome
revoked = record {
  allowed = false;
  decision = record { decision = deny; reason = "Agent is suspended in the Agent Registry" };
  receipt =
      receipt_of 0 (record { decision = deny; reason = "Agent is suspended in the Agent Registry" })
        true;
  call = revoked_call;
  shadowed = false;
}

authorize-set_status_example :
    (revoked.allowed ≡ false) × (revoked.shadowed ≡ false) × (revoked.decision.decision ≡ deny)
unfolding registry_run gateway_run
authorize-set_status_example =
    authorize-set_status revoking strict_bool 4 "spiffe://corp/bot" "root" one_agent bots headers
      call_request start (authorize revoking headers call_request start).1 revoked
      strict_bool-ReadsBool refl (λ id n. refl) refl refl
