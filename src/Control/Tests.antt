-- ===== src/Control/Tests.antt =====
-- The control plane with an operator's key: a witness and runs.
use openagent_control.Prelude.{ℕ, ◌+◌, ◌≡◌, refl, true, none, [], ◌∷◌, ◌==◌}
use openagent_control.Text.{lower, partition}
use openagent_control.Dict
use openagent_control.Exec.{ok, err, identity, agent_not_found}
use openagent_control.Models.{AgentStatus, RiskTier}
use openagent_control.Governed.Service.{Headers}
use openagent_control.Governed.Subject.{normalize}
use openagent_control.Governed.Demo.{record_of}
use openagent_control.Identity.Claims.{bearer}
use openagent_control.Identity.Operator.{identify_by_key}
use openagent_control.Registry.Directory.{AgentPatch}
use openagent_control.Ledger.Search.{Filter}
use openagent_control.Control.Routes.{
  ControlPlane, answer, http_exception, CreateAgentRequest, on_missing, on_identity, as_operator,
  or_404, list_agents, get_agent, create_agent, update_agent, suspend_agent, activate_agent,
  search_receipts, verify_receipts, read_receipt,
}
use openagent_control.Control.Guard.{Refuses, routes-Refuses}

-- The state counts the calls of the registry and the receipt query.
abbrev plane : ControlPlane ℕ
plane = record {
  identify = λ headers n. (identify_by_key (λ a b. ok (a == b)) "k" headers, n);
  lookup = λ id n. (ok none, n + 1);
  list_agents = λ status n. (ok [], n + 1);
  create = λ agent operator n. (ok agent, n + 1);
  update = λ id patch operator n. (err (agent_not_found "no agent"), n + 1);
  set_status = λ id status operator n. (ok (record_of status), n + 1);
  search = λ filter n. (ok [], n + 1);
  verify_chain = λ n.
      (ok (record { valid = true; receipts_checked = 0; first_broken_sequence_id = none }), n + 1);
  get = λ id n. (ok none, n + 1);
  register = λ agent. ok agent;
}

abbrev stranger : Headers
stranger = ("Authorization", "Bearer wrong") ∷ []

abbrev operator : Headers
operator = ("Authorization", "Bearer k") ∷ []

abbrev new_bot : CreateAgentRequest
new_bot = record {
  spiffe_id = "spiffe://corp/new";
  display_name = "New";
  purpose = "Reads";
  owner = "alice";
  risk_tier = RiskTier.low;
  granted_tools = [];
}

abbrev no_change : AgentPatch
no_change = record {
  display_name = none;
  purpose = none;
  owner = none;
  risk_tier = none;
  granted_tools = none;
}

abbrev newest : Filter
newest = record {
  spiffe_id = none;
  decision = none;
  enforced = none;
  since = none;
  until = none;
  limit = 50;
  offset = 0;
}

unfoldable route_run : Unit {0}
unfolding identify_by_key bearer normalize Dict.insert Dict.get lower partition on_missing
    on_identity as_operator or_404 list_agents get_agent create_agent update_agent suspend_agent
    activate_agent search_receipts verify_receipts read_receipt
route_run = tt

suspended :
    suspend_agent plane operator "spiffe://corp/bot" 0
    ≡ (answer (record_of AgentStatus.suspended), 1)
unfolding route_run
suspended = refl

missing :
    get_agent plane operator "spiffe://corp/x" 0
    ≡ (http_exception 404 "no agent registered as 'spiffe://corp/x'", 1)
unfolding route_run
missing = refl

refused : plane.identify stranger 0 ≡ (err (identity "invalid control-plane API key"), 0)
unfolding route_run
refused = refl

routes-Refuses_example :
    Refuses (list_agents plane stranger none) 0 0 "invalid control-plane API key"
    × Refuses (get_agent plane stranger "a") 0 0 "invalid control-plane API key"
    × Refuses (create_agent plane stranger (0, 0) new_bot) 0 0 "invalid control-plane API key"
    × Refuses (update_agent plane stranger "a" no_change) 0 0 "invalid control-plane API key"
    × Refuses (suspend_agent plane stranger "a") 0 0 "invalid control-plane API key"
    × Refuses (activate_agent plane stranger "a") 0 0 "invalid control-plane API key"
    × Refuses (search_receipts plane stranger newest) 0 0 "invalid control-plane API key"
    × Refuses (verify_receipts plane stranger) 0 0 "invalid control-plane API key"
    × Refuses (read_receipt plane stranger "r") 0 0 "invalid control-plane API key"
routes-Refuses_example =
    routes-Refuses plane stranger (0, 0) new_bot no_change none newest "a" "r" 0 0
      "invalid control-plane API key" refused
