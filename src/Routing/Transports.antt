-- ===== src/Routing/Transports.antt =====
-- The two transports to an upstream: adapters/mcp_upstream/http.py and streamable_http.py. The MCP
-- client's session is a parameter; it raises exceptions, alone or in groups.
use openagent_control.Prelude.{
  String, Bool, ◌&&◌, Option, none, some, List, [], ◌∷◌, ◌==◌, if◌then◌else◌, get_or,
}
use openagent_control.Text.{◌<>◌, is_truthy as is_truthy_str}
use openagent_control.Dict.{Dict}
use openagent_control.Json.{Json, str, arr, obj, Items, nil, cons, Fields, end, field, is_truthy}
use openagent_control.Exec.{Result, ok, err, upstream, uncaught, Exec}
use openagent_control.Models.{ToolCallRequest}
use openagent_control.Ledger.Documents.{or_null}
use openagent_control.Governed.Flow.{id_json}
use openagent_control.Governed.Subject.{or_empty}
use openagent_control.Access.{body_of}
use openagent_control.Http.{Sent, received, http_error, broken, json_body, HttpClient}
use openagent_control.Identity.Claims.{claim, is_text}
use openagent_control.Routing.Upstream.{join}

-- The payload of `HttpMCPUpstream.forward`
unfoldable pub rpc_payload : ToolCallRequest → Fields
rpc_payload request = field "jsonrpc" (str "2.0") (
    field "id" (id_json request.request_id) (
      field "method" (str request.method) (
        field "params"
          (obj (
            field "name" (or_null str request.tool_name)
              (field "arguments" (obj request.arguments) end)))
          end)))

-- What `HttpMCPUpstream.forward` makes of an answer: its body, whatever that is.
unfoldable pub read_answer : {E : Type 0} → HttpClient E → Sent → Result Json
unfolding body_of
read_answer http (received r) = elim (http.raise_for_status r) [
  | none ↦ body_of r
  | some message ↦ err (upstream message)
]
read_answer http (http_error message) = err (upstream message)
read_answer http (broken message) = err (uncaught message)

-- `HttpMCPUpstream.forward`
unfoldable pub forward_http :
    {E : Type 0} → HttpClient E → String → ToolCallRequest → String → Exec E Json
unfolding rpc_payload read_answer
forward_http http upstream_url request credential w =
    let headers = ("Authorization", "Bearer " <> credential) ∷ [] in
    let (sent, w') = http.post upstream_url (json_body (obj (rpc_payload request))) headers w in
    (read_answer http sent, w')

mutual
  -- A Python exception: a group, an UpstreamError, or another, by its class and its text.
  pub data Raised : Type 0 where
    group : Group → Raised
    upstream_error : String → Raised
    other : String → String → Raised

  pub data Group : Type 0 where
    none_left : Group
    one_more : Raised → Group → Group

unfoldable mutual
  -- `_describe`
  pub describe : Raised → String
  describe (group exceptions) = join "; " (describe_all exceptions)
  describe (upstream_error message) = message
  describe (other type_name message) = type_name <> ": " <> message

  pub describe_all : Group → List String
  describe_all none_left = []
  describe_all (one_more e exceptions) = describe e ∷ describe_all exceptions

pub data Attempt (A : Type 0) : Type 0 where
  done : A → Attempt A
  failed : Raised → Attempt A

-- An MCP session over Streamable HTTP. Leaving it may wrap the exception that was raised inside.
pub record McpSession (E : Type 0) : Type 0 where
  pub initialize : String → Dict String → E → Option Raised × E
  pub list_tools : E → Attempt Fields × E
  -- the result's `isError` and its dump
  pub call_tool : String → Fields → E → Attempt (Bool × Fields) × E
  pub leave : Option Raised → E → Option Raised × E

-- `b.get("text", "")` of the text blocks, those that are true
unfoldable pub block_texts : Items → List Json
block_texts nil = []
block_texts (cons b blocks) =
    let rest = block_texts blocks in
    elim b [
      | obj d ↦
          if is_text (claim "type" d) "text" && is_truthy (claim "text" d)
          then claim "text" d ∷ rest
          else rest
      | _ ↦ rest
    ]

-- `join` wants texts.
unfoldable pub all_texts : List Json → Attempt (List String)
all_texts [] = done []
all_texts (t ∷ ts) =
    let rest = all_texts ts in
    elim t [
      | str s ↦ elim rest [ done texts ↦ done (s ∷ texts) | failed e ↦ failed e ]
      | _ ↦ failed (other "TypeError" "sequence item: expected str instance")
    ]

unfoldable pub blocks_of : Json → Attempt Items
blocks_of (arr blocks) = done blocks
blocks_of (str s) = done nil
blocks_of (obj d) = done nil
blocks_of content =
    if is_truthy content then failed (other "TypeError" "object is not iterable") else done nil

abbrev joined : List String → String
joined texts =
    let text = join "; " texts in if is_truthy_str text then text else "upstream reported an error"

-- `_error_text`
unfoldable pub error_text : Fields → Attempt String
unfolding block_texts all_texts blocks_of
error_text payload = elim (blocks_of (claim "content" payload)) [
  | failed e ↦ failed e
  | done blocks ↦ elim (all_texts (block_texts blocks)) [
    | failed e ↦ failed e
    | done texts ↦ done (joined texts)
  ]
]

-- `_jsonrpc_result`
unfoldable pub jsonrpc_result : ToolCallRequest → Fields → Fields
jsonrpc_result request payload =
    field "jsonrpc" (str "2.0")
      (field "id" (id_json request.request_id) (field "result" (obj payload) end))

-- The rest of `_dispatch` after a listing, and after a call.
unfoldable pub listing_result : ToolCallRequest → Attempt Fields → Attempt Fields
unfolding jsonrpc_result
listing_result request (done listing) = done (jsonrpc_result request listing)
listing_result request (failed e) = failed e

abbrev pub raise_upstream : Attempt String → Attempt Fields
raise_upstream (done message) = failed (upstream_error message)
raise_upstream (failed e) = failed e

unfoldable pub call_result : ToolCallRequest → Attempt (Bool × Fields) → Attempt Fields
unfolding error_text jsonrpc_result
call_result request (done (is_error, payload)) =
    if is_error then raise_upstream (error_text payload) else done (jsonrpc_result request payload)
call_result request (failed e) = failed e

module _ {E : Type 0} (session : McpSession E) where
  -- `_dispatch`
  unfoldable pub dispatch : ToolCallRequest → E → Attempt Fields × E
  unfolding listing_result call_result
  dispatch request w =
      if request.method == "tools/list"
      then (let (r, w') = session.list_tools w in (listing_result request r, w'))
      else (let (r, w') = session.call_tool (or_empty request.tool_name) request.arguments w in
          (call_result request r, w'))

  -- The end of the session, with the answer or the exception that leaves it.
  unfoldable pub close_session : Attempt Fields → Exec E Fields
  unfolding describe
  close_session (done response) w =
      let (left, w') = session.leave none w in
      elim left [ none ↦ (ok response, w') | some e ↦ (err (upstream (describe e)), w') ]
  close_session (failed e) w =
      let (left, w') = session.leave (some e) w in (err (upstream (describe (get_or left e))), w')

  -- `StreamableHttpMCPUpstream.forward`
  unfoldable pub forward_streamable : String → ToolCallRequest → String → Exec E Fields
  unfolding dispatch close_session
  forward_streamable upstream_url request credential w =
      let headers = ("Authorization", "Bearer " <> credential) ∷ [] in
      let (raised, w') = session.initialize upstream_url headers w in
      elim raised [
        | some e ↦ close_session (failed e) w'
        | none ↦ let (r, v) = dispatch request w' in close_session r v
      ]
