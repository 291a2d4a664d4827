-- ===== src/Governed/Demo.antt =====
-- Test data: the gateway at concrete requests: an in-memory state, a registry of one active and one suspended
-- agent, a policy that lets `read_query` pass, and an upstream that lists two tools.
use openagent_control.Prelude.{
  ℕ, ◌+◌, String, Bool, false, none, some, [], ◌∷◌, ◌==◌, if◌then◌else◌,
}
use openagent_control.Text.{lower, partition}
use openagent_control.Dict
use openagent_control.Json
use openagent_control.Json.{Json, null, num, str, arr, obj, pos, Fields, end, field, nil, cons}
use openagent_control.Exec.{ok, ◌>>=◌}
use openagent_control.Models.{
  AgentIdentity, AgentStatus, SubjectIdentity, RegisteredAgent, ToolGrant, RiskTier,
  ToolCallRequest, allow, deny, PolicyDecision, ExecutionReceipt,
}
use openagent_control.Governed.Service.{
  GovernedExecutionService, enforce, strict, Headers, World, call_port,
}
use openagent_control.Governed.Subject.{normalize, check_actor, check_sponsor, bind_subject}
use openagent_control.Governed.Listing.{filter_listing, keep_granted}
use openagent_control.Governed.Flow.{
  make_call, attach_subject, verify_subject, fail_closed, ask_policy, decide, conclude, receive,
  prepare, judge, authorize, broker_credential, forward_call, with_credential, run_allowed, respond,
  execute, jsonrpc_error, policy_violation,
}

abbrev pub bot : AgentIdentity
bot = record { spiffe_id = "spiffe://corp/bot"; human_sponsor = some "idp#alice"; client_id = none }

abbrev pub grant : ToolGrant
grant = record {
  name = "read_query";
  risk_tier = none;
  approval_required = false;
  required_roles = [];
}

abbrev pub record_of : AgentStatus → RegisteredAgent
record_of status = record {
  spiffe_id = "spiffe://corp/bot";
  display_name = "Bot";
  purpose = "Reads invoices";
  owner = "alice";
  risk_tier = RiskTier.low;
  status = status;
  granted_tools = grant ∷ [];
  created_at = 0;
  updated_at = 0;
  status_changed_at = none;
}

abbrev pub alice : SubjectIdentity
alice = record {
  subject_id = "idp#alice";
  issuer = "idp";
  username = none;
  roles = [];
  scopes = [];
  authorized_actor = none;
}

abbrev pub receipt_of : ℕ → PolicyDecision → Bool → ExecutionReceipt
receipt_of n d enforced = record {
  sequence_id = "r";
  timestamp = n;
  spiffe_id = "spiffe://corp/bot";
  decision = d.decision;
  reason = d.reason;
  payload_hash = "";
  previous_hash = "";
  signature = none;
  enforced = enforced;
}

abbrev pub tool : String → Json
tool name = obj (field "name" (str name) end)

abbrev pub listing : Fields
listing = field "jsonrpc" (str "2.0") (
    field "result"
      (obj (field "tools" (arr (cons (tool "drop_table") (cons (tool "read_query") nil))) end)) end)

abbrev pub permits : ToolCallRequest → PolicyDecision
permits call =
    if call.method == "tools/list"
    then record { decision = allow; reason = "" }
    else record { decision = deny; reason = "Denied by policy" }

-- The state counts the receipts.
abbrev pub gateway : GovernedExecutionService ℕ
gateway = record {
  identify = λ headers n. (ok bot, n);
  lookup = λ id n. (ok (some (record_of AgentStatus.active)), n);
  evaluate = λ call n. (ok (permits call), n);
  record_receipt = λ agent call d enforced n. (ok (receipt_of n d enforced), n + 1);
  export = λ receipt n. (ok tt, n);
  exchange = λ token audience n. (ok "minted", n);
  forward = λ call credential n. (ok listing, n);
  subject_verifier = some (λ token n. (ok alice, n));
  delegated_audience = "upstream";
  decision_mode = enforce;
  subject_binding = strict;
  request_id_of = λ j. none;
}

abbrev pub headers : Headers
headers = ("X-Subject-Token", "alices-token") ∷ []

abbrev pub list_request : Fields
list_request = field "method" (str "tools/list") end

abbrev pub call_request : Fields
call_request =
    field "method" (str "tools/call")
      (field "params" (obj (field "name" (str "read_query") end)) end)

-- Everything that a run of the gateway computes with.
unfoldable pub gateway_run : Unit {0}
unfolding execute authorize prepare receive judge decide ask_policy conclude respond run_allowed
    broker_credential with_credential forward_call filter_listing keep_granted normalize Dict.get
    Dict.insert Json.get Json.insert lower partition make_call verify_subject attach_subject
    bind_subject check_actor check_sponsor call_port ◌>>=◌ fail_closed jsonrpc_error
    policy_violation
gateway_run = tt

abbrev pub start : World ℕ
start = record { env = 0; trace = [] }
