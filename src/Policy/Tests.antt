-- ===== src/Policy/Tests.antt =====
-- The gateway of Governed.Demo with OPA in front: a witness and runs.
use openagent_control.Prelude.{
  ℕ, ◌+◌, String, ◌≡◌, refl, true, false, none, some, [], ◌∷◌, leb, if◌then◌else◌,
}
use openagent_control.Json
use openagent_control.Json.{Json, bool, str, obj, Fields, end, field}
use openagent_control.Exec.{ok, err, policy_engine_unavailable, uncaught, ◌>>=◌}
use openagent_control.Models.{
  AgentStatus, ToolCallRequest, allow, PolicyDecision, AuthorizationOutcome,
}
use openagent_control.Governed.Service.{
  GovernedExecutionService, World, evaluated, recorded, exported, call_port,
}
use openagent_control.Governed.Flow.{
  judge, decide, pass_gate, ask_if_active, ask_policy, fail_closed, conclude, is_shadowed,
}
use openagent_control.Governed.Demo.{bot, record_of, receipt_of, gateway, start}
use openagent_control.Access.{body_of, get_default}
use openagent_control.Http.{Response, received, http_error, json_body, HttpClient}
use openagent_control.Policy.Opa.{
  policy_decision, with_reason, read_result, read_decision, read_sent, opa_input, evaluate,
}
use openagent_control.Policy.Consent.{IsConsent, judge-IsConsent}

abbrev consent : Response
consent = record {
  status_code = 200;
  text = "";
  json = some (obj (field "result" (obj (field "allow" (bool true) end)) end));
}

-- It counts its requests.
abbrev opa_client : HttpClient ℕ
opa_client = record {
  get = λ url n. (http_error "unused", n);
  post = λ url body headers n. (received consent, n + 1);
  close = λ n. n;
  raise_for_status = λ r. if leb 400 r.status_code then some "HTTPStatusError" else none;
}

abbrev iso : ℕ → String
iso n = "2026-01-01T00:00:00Z"

abbrev opa_gateway : GovernedExecutionService ℕ
opa_gateway = record gateway { evaluate = evaluate iso opa_client "http://opa/v1/data/authz" }

abbrev bots_call : ToolCallRequest
bots_call = record {
  method = "tools/call";
  tool_name = some "read_query";
  arguments = end;
  agent = bot;
  registration = some (record_of AgentStatus.active);
  subject = none;
  request_id = none;
}

abbrev granted : PolicyDecision
granted = record { decision = allow; reason = "" }

abbrev bots_outcome : AuthorizationOutcome
bots_outcome = record {
  allowed = true;
  decision = granted;
  receipt = receipt_of 1 granted true;
  call = bots_call;
  shadowed = false;
}

abbrev judged : World ℕ
judged = record {
  env = 2;
  trace =
      exported (receipt_of 1 granted true) (ok tt)
      ∷ (recorded bot bots_call granted true (ok (receipt_of 1 granted true))
          ∷ (evaluated bots_call (ok granted) ∷ []));
}

unfoldable opa_run : Unit {0}
unfolding judge decide pass_gate ask_if_active ask_policy fail_closed conclude is_shadowed call_port
    ◌>>=◌ evaluate read_sent read_decision read_result with_reason policy_decision get_default
    body_of Json.get
opa_run = tt

judge_run : judge opa_gateway bots_call start ≡ (ok bots_outcome, judged)
unfolding opa_run
judge_run = refl

-- An error status is an outage, and a body that is no JSON is not.
unavailable :
    read_sent opa_client (received (record { status_code = 503; text = ""; json = none }))
    ≡ err (policy_engine_unavailable "HTTPStatusError")
unfolding opa_run
unavailable = refl

not_json :
    read_sent opa_client (received (record { status_code = 200; text = "OK"; json = none }))
    ≡ err (uncaught "ValueError: not JSON")
unfolding opa_run
not_json = refl

judge-IsConsent_example :
    IsConsent opa_client
      (opa_client.post "http://opa/v1/data/authz"
        (json_body (obj (opa_input iso bots_call)))
        []
        0).0
judge-IsConsent_example =
    judge-IsConsent opa_gateway opa_client iso "http://opa/v1/data/authz" bots_call start judged
      bots_outcome refl refl judge_run refl
