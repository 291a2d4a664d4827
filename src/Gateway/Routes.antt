-- ===== src/Gateway/Routes.antt =====
-- gateway/routes/mcp.py and gateway/routes/authorize.py. The framework's reading of a request is left
-- out: a body is what `request.json()` returns, with `none` where it raises ValueError, or the fields
-- of a validated model. What leaves a route is an answer with its status, or an exception.
use openagent_control.Prelude.{ℕ, String, Bool, Option, none, some, if◌then◌else◌, get_or}
use openagent_control.Text.{◌<>◌}
use openagent_control.Json.{ℤ, negsuc, Json, null, bool, num, str, obj, Fields, end, field, get}
use openagent_control.Exec.{Result, ok, err, identity, missing_subject_token, Exec}
use openagent_control.Models.{decision_value, AuthorizationOutcome}
use openagent_control.Governed.Service.{GovernedExecutionService, Headers, World}
use openagent_control.Governed.Flow.{authorize, execute, stop_instruction}

pub record Answer : Type 0 where
  pub status_code : ℕ
  pub content : Fields

-- The body of `_jsonrpc_error_response`, and of `_error_response` of gateway/mcp_server.py.
unfoldable pub error_body : Json → ℤ → String → Fields
error_body request_id code message = field "jsonrpc" (str "2.0") (
    field "id" request_id
      (field "error" (obj (field "code" (num code) (field "message" (str message) end))) end))

-- `_jsonrpc_error_response`
unfoldable pub jsonrpc_error_response : ℕ → Json → ℤ → String → Answer
unfolding error_body
jsonrpc_error_response status_code request_id code message = record {
  status_code = status_code;
  content = error_body request_id code message;
}

-- What `mcp_proxy` makes of the outcome of `execute`.
unfoldable pub rpc_answer : Json → Result Fields → Result Answer
unfolding jsonrpc_error_response
rpc_answer id (ok response) = ok (record { status_code = 200; content = response })
rpc_answer id (err (identity message)) =
    ok (jsonrpc_error_response 401 id (negsuc 32000) ("Identity error: " <> message))
rpc_answer id (err (missing_subject_token message)) =
    ok (jsonrpc_error_response 401 id (negsuc 32002) ("Delegation error: " <> message))
rpc_answer id (err e) = err e

pub record AuthorizeRequest : Type 0 where
  pub tool : String
  pub arguments : Fields

pub record AuthorizeResponse : Type 0 where
  pub allowed : Bool
  pub decision : String
  pub reason : String
  pub shadowed : Bool
  pub instruction : String
  pub receipt_id : String
  pub receipt_signature : Option String

abbrev pub optional_json : Option String → Json
optional_json none = null
optional_json (some s) = str s

-- The response model as the framework renders it.
unfoldable pub dump_response : AuthorizeResponse → Fields
dump_response r = field "allowed" (bool r.allowed) (
    field "decision" (str r.decision) (
      field "reason" (str r.reason) (
        field "shadowed" (bool r.shadowed) (
          field "instruction" (str r.instruction) (
            field "receipt_id" (str r.receipt_id)
              (field "receipt_signature" (optional_json r.receipt_signature) end))))))

-- The JSON-RPC request that the authorize route makes of its body.
unfoldable pub authorize_payload : AuthorizeRequest → Fields
authorize_payload body = field "jsonrpc" (str "2.0") (
    field "id" null (
      field "method" (str "tools/call") (
        field "params"
          (obj (field "name" (str body.tool) (field "arguments" (obj body.arguments) end))) end)))

unfoldable pub response_of : AuthorizationOutcome → AuthorizeResponse
response_of outcome = record {
  allowed = outcome.allowed;
  decision = decision_value outcome.decision.decision;
  reason = outcome.decision.reason;
  shadowed = outcome.shadowed;
  instruction = if outcome.allowed then "" else stop_instruction;
  receipt_id = outcome.receipt.sequence_id;
  receipt_signature = outcome.receipt.signature;
}

unfoldable pub authorize_answer : Result AuthorizationOutcome → Result Answer
unfolding dump_response response_of
authorize_answer (ok outcome) =
    ok (record { status_code = 200; content = dump_response (response_of outcome) })
authorize_answer (err (identity message)) = ok (record {
  status_code = 401;
  content = field "detail" (str ("Identity error: " <> message)) end;
})
authorize_answer (err (missing_subject_token message)) = ok (record {
  status_code = 401;
  content = field "detail" (str ("Delegation error: " <> message)) end;
})
authorize_answer (err e) = err e

module _ {E : Type 0} (s : GovernedExecutionService E) where
  unfoldable pub proxy_object : Headers → Fields → Exec (World E) Answer
  unfolding rpc_answer
  proxy_object headers body w =
      let (r, w') = execute s headers body w in (rpc_answer (get_or (get "id" body) null) r, w')

  unfoldable pub mcp_proxy : Headers → Option Json → Exec (World E) Answer
  unfolding proxy_object jsonrpc_error_response
  mcp_proxy headers none w =
      (ok (jsonrpc_error_response 400 null (negsuc 32699) "Parse error: body is not valid JSON"), w)
  mcp_proxy headers (some (obj body)) w = proxy_object headers body w
  mcp_proxy headers (some _) w = (
    ok (
        jsonrpc_error_response 400 null (negsuc 32599)
          "Invalid request: body must be a JSON-RPC object"),
    w,
  )

  unfoldable pub authorize_route : Headers → AuthorizeRequest → Exec (World E) Answer
  unfolding authorize_answer authorize_payload
  authorize_route headers body w =
      let (r, w') = authorize s headers (authorize_payload body) w in (authorize_answer r, w')
