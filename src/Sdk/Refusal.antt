-- ===== src/Sdk/Refusal.antt =====
-- The blocking client against the gateway's MCP route, on a call that the gateway refuses.
use openagent_control.Prelude.{
  String, ◌≡◌, refl, Bool, false, some, if◌then◌else◌, ap, ◌∙◌, [], get_or,
}
use openagent_control.Text.{◌<>◌, strip}
use openagent_control.Json
use openagent_control.Json.{Json, str, obj, Fields, end, field}
use openagent_control.Exec.{ok}
use openagent_control.Models.{AuthorizationOutcome}
use openagent_control.Governed.Service.{GovernedExecutionService, Headers, World}
use openagent_control.Governed.Flow.{
  authorize as governed_authorize, policy_violation, jsonrpc_error, stop_instruction,
}
use openagent_control.Governed.Effects.{effects, execute_refused}
use openagent_control.Http.{json_body, HttpClient}
use openagent_control.Gateway.Routes.{rpc_answer, proxy_object, mcp_proxy}
use openagent_control.Sdk.Client.{
  tool_call_failed, failed, ClientBase, rpc_request, read_error, read_rpc, parse_rpc, parse_sent,
  call_tool,
}
use openagent_control.Sdk.Wire.{delivered, arrive}

-- The client's posts of JSON-RPC requests reach the route, with the client's headers.
abbrev pub IsProxied :
    {E : Type 0}
    → GovernedExecutionService E
    → (Fields → String)
    → Headers
    → HttpClient (World E)
    → ClientBase
    → Bool
    → Type 0
IsProxied {E} s render headers http base is_given =
    (payload : Fields) (w : World E)
    → http.post (base.base_url <> "/mcp/v1") (json_body (obj payload))
        (if is_given then [] else base.headers) w
      ≡ arrive render (mcp_proxy s headers (some (obj payload)) w)

-- The body that the client posts for a tool call.
abbrev pub call_payload : ClientBase → String → Fields → Fields
call_payload base tool arguments =
    (rpc_request base "tools/call"
      (field "name" (str tool) (field "arguments" (obj arguments) end))).1

-- The text of a refusal, as the agent reads it.
abbrev pub refusal_text : AuthorizationOutcome → String
refusal_text o = strip (("Policy violation: " <> o.decision.reason) <> "\n\n" <> stop_instruction)

module _ (repr : Json → String) where
  read_rpc-policy_violation :
      (o : AuthorizationOutcome)
      → read_rpc repr (obj (policy_violation o)) ≡ failed (tool_call_failed (refusal_text o))
  unfolding read_rpc read_error policy_violation jsonrpc_error Json.get
  read_rpc-policy_violation o = refl

  module _ {E : Type 0} (s : GovernedExecutionService E) (render : Fields → String)
      (headers : Headers) (http : HttpClient (World E)) (base : ClientBase) (is_given : Bool) where
    -- A tool call whose authorization by the gateway is not allowed comes back from a client whose posts
    -- reach the MCP route as ToolCallFailed with the policy's reason and the stop instruction. No
    -- credential is exchanged for it and nothing is forwarded.
    pub call_tool_refused :
        (tool : String) (arguments : Fields) (w w' : World E) (o : AuthorizationOutcome)
        → IsProxied s render headers http base is_given
        → governed_authorize s headers (call_payload base tool arguments) w ≡ (ok o, w')
        → o.allowed ≡ false
        → (call_tool repr http base is_given tool (some arguments) w
            ≡ (failed (tool_call_failed (refusal_text o)), w'))
          × (effects w'.trace ≡ effects w.trace)
    unfolding call_tool rpc_request mcp_proxy proxy_object rpc_answer parse_sent parse_rpc
    call_tool_refused tool arguments w w' o proxied h denied =
        let payload = call_payload base tool arguments in
        let (refused, quiet) = execute_refused s headers payload w w' o h denied in
        let id = get_or (Json.get "id" payload) Json.null in
        let url = base.base_url <> "/mcp/v1" in
        (
          ap (λ q. (parse_sent repr url (parse_rpc repr) q.0, q.1)) (proxied payload w)
              ∙ ap (λ q. (parse_rpc repr (delivered render (rpc_answer id q.0)), q.1)) refused
              ∙ ap (λ seen. (seen, w')) (read_rpc-policy_violation o),
          quiet,
        )
