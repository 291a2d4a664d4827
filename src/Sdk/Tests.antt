-- ===== src/Sdk/Tests.antt =====
-- A client wired to the gateway of Governed.Demo: witnesses and runs.
use openagent_control.Prelude.{ℕ, String, ◌≡◌, refl, true, false, Option, none, some, [], ◌∷◌}
use openagent_control.Text.{strip, strip_end}
use openagent_control.Json.{Json, num, str, obj, pos, Fields, end, field}
use openagent_control.Exec.{ok}
use openagent_control.Models.{
  AgentStatus, RequestId, int, ToolCallRequest, deny, PolicyDecision, AuthorizationOutcome,
}
use openagent_control.Governed.Service.{
  GovernedExecutionService, World, identified, looked_up, verified, evaluated, recorded, exported,
}
use openagent_control.Governed.Flow.{authorize as governed_authorize}
use openagent_control.Governed.Effects.{effects}
use openagent_control.Governed.Demo.{
  alice, bot, record_of, receipt_of, gateway, headers, start, gateway_run,
}
use openagent_control.Http.{Body, json_body, Sent, broken, HttpClient}
use openagent_control.Gateway.Routes.{authorize_payload, authorize_route, mcp_proxy}
use openagent_control.Sdk.Client.{
  Outcome, returned, failed, tool_call_failed, ClientBase, create_client, authorize, call_tool,
  rpc_request,
}
use openagent_control.Sdk.Guard.{return, Call, wrapper}
use openagent_control.Sdk.Wire.{arrive, learned, IsConnected, authorize_lem}
use openagent_control.Sdk.Safety.{request_of, guarded, wrapper_lem}
use openagent_control.Sdk.Refusal.{IsProxied, call_payload, refusal_text, call_tool_refused}

abbrev no_repr : Json → String
no_repr j = "None"

abbrev no_text : Fields → String
no_text d = ""

abbrev base : ClientBase
base = record { base_url = "http://gw"; headers = ("X-Subject-Token", "alices-token") ∷ [] }

abbrev numbered : Json → Option RequestId
numbered (num n) = some (int n)
numbered _ = none

abbrev served : GovernedExecutionService ℕ
served = record gateway { request_id_of = numbered }

-- The network: one route per client.
abbrev to_authorize : Body → World ℕ → Sent × World ℕ
to_authorize (json_body (obj (field _ (str tool) (field _ (obj arguments) end)))) w =
    arrive no_text
      (authorize_route served headers (record { tool = tool; arguments = arguments }) w)
to_authorize _ w = (broken "no route", w)

abbrev to_mcp : Body → World ℕ → Sent × World ℕ
to_mcp (json_body j) w = arrive no_text (mcp_proxy served headers (some j) w)
to_mcp _ w = (broken "no route", w)

abbrev wired : (Body → World ℕ → Sent × World ℕ) → HttpClient (World ℕ)
wired route = record {
  get = λ url w. (broken "no route", w);
  post = λ url body headers w. route body w;
  close = λ w. w;
  raise_for_status = λ r. none;
}

connected : IsConnected served no_text headers (wired to_authorize) base false
connected tool arguments w = refl

proxied : IsProxied served no_text headers (wired to_mcp) base false
proxied payload w = refl

abbrev agents_call : Call (Unit {0})
agents_call = record { given = tt; bound = some (field "id" (str "ACC-1") end); kwargs = end }

abbrev delete_account : Unit {0} → World ℕ → Outcome String × World ℕ
delete_account u w = (returned "deleted", w)

authorize_lem_example :
    authorize no_repr (wired to_authorize) base false "read_query" (some end) start ≡ (
      learned (
          (governed_authorize served headers
            (authorize_payload (record { tool = "read_query"; arguments = end }))
            start).0),
      (governed_authorize served headers
          (authorize_payload (record { tool = "read_query"; arguments = end }))
          start).1,
    )
authorize_lem_example =
    authorize_lem no_repr no_text served headers (wired to_authorize) base false "read_query" end
      start connected

wrapper_lem_example :
    wrapper no_repr
      (authorize no_repr (wired to_authorize) base false)
      return
      "delete_account"
      delete_account
      agents_call
      start
    ≡ guarded no_repr return "delete_account"
        (delete_account tt)
        (governed_authorize served headers (request_of "delete_account" agents_call) start)
wrapper_lem_example =
    wrapper_lem no_repr served no_text headers (wired to_authorize) base false return
      "delete_account" delete_account agents_call start connected

abbrev refused_call : ToolCallRequest
refused_call = record {
  method = "tools/call";
  tool_name = some "drop_table";
  arguments = end;
  agent = bot;
  registration = some (record_of AgentStatus.active);
  subject = some alice;
  request_id = some (int (pos 1));
}

abbrev denied : PolicyDecision
denied = record { decision = deny; reason = "Denied by policy" }

abbrev refused_outcome : AuthorizationOutcome
refused_outcome = record {
  allowed = false;
  decision = denied;
  receipt = receipt_of 0 denied true;
  call = refused_call;
  shadowed = false;
}

abbrev refused_world : World ℕ
refused_world = record {
  env = 1;
  trace =
      exported (receipt_of 0 denied true) (ok tt)
      ∷ recorded bot refused_call denied true (ok (receipt_of 0 denied true))
      ∷ evaluated refused_call (ok denied)
      ∷ verified "alices-token" (ok alice)
      ∷ looked_up "spiffe://corp/bot" (ok (some (record_of AgentStatus.active)))
      ∷ identified headers (ok bot)
      ∷ [];
}

refused_run :
    governed_authorize served headers (call_payload base "drop_table" end) start
    ≡ (ok refused_outcome, refused_world)
unfolding gateway_run rpc_request
refused_run = refl

call_tool_refused_example :
    (call_tool no_repr (wired to_mcp) base false "drop_table" (some end) start
      ≡ (failed (tool_call_failed (refusal_text refused_outcome)), refused_world))
    × (effects refused_world.trace ≡ effects [])
call_tool_refused_example =
    call_tool_refused no_repr served no_text headers (wired to_mcp) base false "drop_table" end
      start refused_world refused_outcome proxied refused_run refl

refusal_read :
    refusal_text refused_outcome
    ≡ "Policy violation: Denied by policy\n\nStop execution and request user approval."
unfolding strip
refusal_read = refl

trailing_slash :
    create_client "http://gw/" (some "t") none none
    ≡ returned (record { base_url = "http://gw"; headers = ("Authorization", "Bearer t") ∷ [] })
unfolding create_client strip_end
trailing_slash = refl
