-- ===== src/Gateway/Tests.antt =====
-- The routes and the MCP handlers at concrete requests.
use openagent_control.Prelude.{ℕ, ◌≡◌, refl, false, none, some}
use openagent_control.Json
use openagent_control.Json.{Json, negsuc, null, str, obj, arr, nil, end, field}
use openagent_control.Exec.{ok, err, identity, uncaught}
use openagent_control.Governed.Service.{GovernedExecutionService, enforce, strict}
use openagent_control.Governed.Demo.{gateway, headers, start, gateway_run}
use openagent_control.Gateway.Routes.{jsonrpc_error_response, mcp_proxy}
use openagent_control.Gateway.Settings.{default_settings}
use openagent_control.Gateway.Wiring.{
  Machine, header_provider, file_registry, in_process_ledger, receipt_signer, stub_exchange,
  single_upstream, streamable_upstream, build_container,
}
use openagent_control.Gateway.Server.{error_text}

list_is_no_request : mcp_proxy gateway headers (some (arr nil)) start ≡ (
  ok (
      jsonrpc_error_response 400 null
        (negsuc 32599)
        "Invalid request: body must be a JSON-RPC object"),
  start,
)
unfolding mcp_proxy
list_is_no_request = refl

abbrev stranger : GovernedExecutionService ℕ
stranger = record gateway { identify = λ headers n. (err (identity "no token"), n) }

unidentified :
    (mcp_proxy stranger headers (some (obj (field "id" (str "7") end))) start).0
    ≡ ok (jsonrpc_error_response 401 (str "7") (negsuc 32000) "Identity error: no token")
unfolding mcp_proxy gateway_run
unidentified = refl

shown_error :
    error_text
      (λ j. "None")
      (obj (
        field "message"
          (str "denied")
          (field "data" (obj (field "instruction" (str "Stop.") end)) end)))
    ≡ ok (str "denied\n\nStop.")
unfolding error_text Json.get
shown_error = refl

error_is_no_dict :
    error_text (λ j. "None") (str "denied")
    ≡ err (uncaught "AttributeError: object has no attribute 'get'")
unfolding error_text
error_is_no_dict = refl

abbrev laptop : Machine
laptop = record {
  is_file = λ path. false;
  example_registry = "registry/agents.yaml";
  has_persistence = false;
}

-- An empty environment gives a gateway that trusts headers and reads the packaged registry.
default_wiring :
    build_container laptop default_settings
    ≡ ok (record {
      identity_provider = header_provider;
      agent_registry = file_registry "registry/agents.yaml";
      opa_url = "http://localhost:8181/v1/data/openagent/authz";
      ledger = in_process_ledger receipt_signer;
      token_exchange = stub_exchange;
      mcp_upstream = single_upstream (streamable_upstream "http://localhost:8080");
      subject_verifier = none;
      subject_binding = strict;
      delegated_audience = "openagent-control-mcp-upstream";
      decision_mode = enforce;
      db_engine = none;
      redis_client = none;
    })
unfolding build_container default_settings
default_wiring = refl
