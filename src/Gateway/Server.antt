-- ===== src/Gateway/Server.antt =====
-- gateway/mcp_server.py: the two handlers of the MCP server, around `execute`. The MCP library's
-- models validate what they are given and raise; they are parameters, and so are uuid4 and Python's
-- `repr`. What a handler raises is left to the library.
use openagent_control.Prelude.{String, Option, [], if◌then◌else◌, get_or}
use openagent_control.Text.{◌<>◌}
use openagent_control.Json.{
  negsuc, Json, null, num, str, obj, Fields, end, field, contains, is_truthy,
}
use openagent_control.Exec.{
  Result, ok, err, identity, missing_subject_token, bind, Exec, lift, ◌>>=◌,
}
use openagent_control.Governed.Service.{GovernedExecutionService, Headers, World}
use openagent_control.Governed.Flow.{execute}
use openagent_control.Identity.Claims.{to_str, or_else, claim}
use openagent_control.Access.{subscript, get_default}
use openagent_control.Gateway.Routes.{error_body}

-- `_extract_headers`, from the request of the server's context
unfoldable pub extract_headers : Option Headers → Headers
extract_headers request = get_or request []

-- `_payload`
unfoldable pub payload : String → String → Fields → Fields
payload method request_id params =
    field "jsonrpc" (str "2.0")
      (field "id" (str request_id) (field "method" (str method) (field "params" (obj params) end)))

-- The handlers of `_execute`
unfoldable pub answer_of : String → Result Fields → Result Fields
unfolding error_body
answer_of request_id (err (identity message)) =
    ok (error_body (str request_id) (negsuc 32000) ("Identity error: " <> message))
answer_of request_id (err (missing_subject_token message)) =
    ok (error_body (str request_id) (negsuc 32002) ("Delegation error: " <> message))
answer_of request_id r = r

-- The text of an error result.
unfoldable pub with_instruction : (Json → String) → Json → Json → Json
with_instruction repr text instruction =
    if is_truthy instruction
    then str (to_str repr text <> "\n\n" <> to_str repr instruction)
    else text

-- `error.get("message", …)` and `(error.get("data") or {}).get("instruction", "")`
unfoldable pub error_text : (Json → String) → Json → Result Json
unfolding get_default with_instruction
error_text repr error = bind (get_default "data" null error) λ details.
    bind (get_default "instruction" (str "") (or_else details (obj end))) λ instruction.
      bind (get_default "message" (str "tool call failed") error)
        λ text. ok (with_instruction repr text instruction)

-- The library's models: `model_validate` of the two results, `TextContent` and `ErrorData`.
pub record McpTypes (L C D : Type 0) : Type 0 where
  pub list_tools_result : Json → Result L
  pub call_tool_result : Json → Result C
  pub error_result : Json → Result C
  pub error_data : Json → Json → Result D

-- `list_tools` returns or raises an McpError.
pub data Listing (L D : Type 0) : Type 0 where
  listed : L → Listing L D
  mcp_error : D → Listing L D

module _ {E L C D : Type 0} (s : GovernedExecutionService E) (types : McpTypes L C D)
    (repr : Json → String) where
  -- `_execute`
  unfoldable pub execute_as : String → Headers → String → Fields → Exec (World E) Fields
  unfolding answer_of payload
  execute_as request_id headers method params w =
      let (r, w') = execute s headers (payload method request_id params) w in
      (answer_of request_id r, w')

  -- `_mcp_error`
  unfoldable pub to_mcp_error : Json → Result (Listing L D)
  unfolding get_default
  to_mcp_error error = bind (get_default "code" (num (negsuc 31999)) error) λ code.
      bind (get_default "message" (str "error") error)
        λ message. bind (types.error_data code message) λ shown. ok (mcp_error shown)

  unfoldable pub read_listing : Fields → Result (Listing L D)
  unfolding to_mcp_error
  read_listing response =
      if contains "error" response
      then to_mcp_error (claim "error" response)
      else (bind (subscript "result" (obj response))
          λ result. bind (types.list_tools_result result) λ tools. ok (listed tools))

  unfoldable pub read_call : Fields → Result C
  unfolding error_text
  read_call response =
      if contains "error" response
      then bind (error_text repr (claim "error" response)) types.error_result
      else bind (subscript "result" (obj response)) types.call_tool_result

  -- `list_tools` of `build_mcp_asgi_app`
  unfoldable pub list_tools : String → Option Headers → Exec (World E) (Listing L D)
  unfolding read_listing execute_as extract_headers
  list_tools request_id request =
      execute_as request_id (extract_headers request) "tools/list" end >>= λ response.
      lift (read_listing response)

  -- `call_tool` of `build_mcp_asgi_app`
  unfoldable pub call_tool : String → Option Headers → String → Fields → Exec (World E) C
  unfolding read_call execute_as extract_headers
  call_tool request_id request name arguments =
      execute_as request_id (extract_headers request) "tools/call"
        (field "name" (str name) (field "arguments" (obj arguments) end))
      >>= λ response. lift (read_call response)
