-- ===== src/Sdk/Client.antt =====
-- sdk/client.py: the blocking client; the other one differs only in its `await`s. An exception is a
-- value of `Failure`, and `raised` is one that the SDK does not name. The timeout of a client only
-- goes to httpx and is left out.
use Prim.Native.Char.{code}
use openagent_control.Prelude.{
  String, Bool, false, Option, none, some, [], ◌∷◌, ◌==◌, eqb, leb, if◌then◌else◌, get_or, ◌++◌,
  not, ◌&&◌,
}
use openagent_control.Text.{◌<>◌, strip, strip_end, take, decimal}
use openagent_control.Dict.{Dict}
use openagent_control.Json.{
  Json, null, num, str, arr, obj, pos, Fields, end, field, get, contains, is_truthy, nil,
}
use openagent_control.Models.{Decision, allow, deny}
use openagent_control.Governed.Subject.{is_set, or_empty}
use openagent_control.Identity.Claims.{to_str, or_else, claim}
use openagent_control.Http.{Response, Sent, received, http_error, broken, json_body, HttpClient}

pub record AuthorizationResult : Type 0 where
  pub allowed : Bool
  pub decision : Decision
  pub reason : Json
  pub instruction : Json
  pub receipt_id : Json
  pub shadowed : Bool

pub data Failure : Type 0 where
  gateway_error : String → Failure
  tool_call_failed : String → Failure
  tool_call_denied : AuthorizationResult → String → Failure
  raised : String → Failure

pub data Outcome (A : Type 0) : Type 0 where
  returned : A → Outcome A
  failed : Failure → Outcome A

module _ {A B : Type 0} where
  abbrev pub then_ : Outcome A → (A → Outcome B) → Outcome B
  then_ (returned a) f = f a
  then_ (failed e) f = failed e

-- `raise GatewayError(f"{prefix}{text}")`
abbrev refuse : {A : Type 0} → String → Outcome String → Outcome A
refuse prefix text = then_ text λ shown. failed (gateway_error (prefix <> shown))

-- `_ClientBase.__init__`
pub record ClientBase : Type 0 where
  pub base_url : String
  pub headers : Dict String

abbrev add_header : String → String → Option String → Dict String
add_header name prefix value = if is_set value then (name, prefix <> or_empty value) ∷ [] else []

unfoldable pub create_client :
    String → Option String → Option String → Option String → Outcome ClientBase
create_client gateway_url token spiffe_id subject_token =
    if not (is_set token) && not (is_set spiffe_id)
    then failed (
        raised
          "ValueError: GovernedClient needs either token= (the agent's access token) or spiffe_id= (identity_mode='header' only, a dev stub — see ADR-0005)")
    else returned (record {
      base_url = strip_end (λ c. eqb (code c) 47) gateway_url;
      headers =
          add_header "Authorization" "Bearer " token
          ++ add_header "X-Spiffe-ID" "" spiffe_id
          ++ add_header "X-Subject-Token" "" subject_token;
    })

-- `_authorize_request`
unfoldable pub authorize_request : ClientBase → String → Fields → String × Fields
authorize_request base tool arguments = (
  base.base_url <> "/api/v1/authorize",
  field "tool" (str tool) (field "arguments" (obj arguments) end),
)

-- `_rpc_request`
unfoldable pub rpc_request : ClientBase → String → Fields → String × Fields
rpc_request base method params = (
  base.base_url <> "/mcp/v1",
  field "jsonrpc" (str "2.0")
      (field "id" (num (pos 1)) (field "method" (str method) (field "params" (obj params) end))),
)

-- `x[k]` and `x.get(k, default)` of a value
abbrev pub item : String → Json → Outcome Json
item k (obj d) = elim (get k d) [
  | none ↦ failed (raised ("KeyError: '" <> k <> "'"))
  | some v ↦ returned v
]
item k _ = failed (raised "TypeError: not a dict")

abbrev pub get_default : String → Json → Json → Outcome Json
get_default k default (obj d) = returned (get_or (get k d) default)
get_default k default _ = failed (raised "AttributeError: object has no attribute 'get'")

abbrev pub json_of : Response → Outcome Json
json_of r = elim (r.json) [ none ↦ failed (raised "ValueError: not JSON") | some j ↦ returned j ]

-- `Decision(x)`
unfoldable pub decision_of : Json → Outcome Decision
decision_of (str s) =
    if s == "ALLOW"
    then returned allow
    else if s == "DENY"
    then returned deny
    else failed (raised "ValueError: not a valid Decision")
decision_of _ = failed (raised "ValueError: not a valid Decision")

module _ (repr : Json → String) where
  -- `_detail`
  unfoldable pub detail_or_body : Json → Json → String
  detail_or_body detail body =
      if is_truthy detail then to_str repr detail else take 200 (to_str repr body)

  unfoldable pub detail_of : Json → Outcome String
  unfolding detail_or_body
  detail_of (obj d) =
      if is_truthy (claim "detail" d)
      then returned (to_str repr (claim "detail" d))
      else then_ (get_default "message" null (or_else (claim "error" d) (obj end)))
          λ message. returned (detail_or_body message (obj d))
  detail_of body = returned (take 200 (to_str repr body))

  unfoldable pub detail : Response → Outcome String
  unfolding detail_of
  detail r = elim (r.json) [ none ↦ returned (take 200 (r.text)) | some body ↦ detail_of body ]

  -- The fields of the result, in the order in which they are read.
  unfoldable pub read_authorization : Json → Outcome AuthorizationResult
  unfolding decision_of
  read_authorization body = then_ (item "allowed" body) λ allowed.
      then_ (item "decision" body) λ value. then_ (decision_of value) λ decision.
        then_ (get_default "reason" (str "") body) λ reason.
          then_ (get_default "instruction" (str "") body) λ instruction.
            then_ (item "receipt_id" body) λ receipt_id.
              then_ (get_default "shadowed" (Json.bool false) body) λ shadowed. returned (record {
                allowed = is_truthy allowed;
                decision = decision;
                reason = reason;
                instruction = instruction;
                receipt_id = receipt_id;
                shadowed = is_truthy shadowed;
              })

  -- `_parse_authorization`
  unfoldable pub parse_authorization : Response → Outcome AuthorizationResult
  unfolding read_authorization detail
  parse_authorization r =
      if eqb r.status_code 401
      then refuse "gateway refused the agent's identity: " (detail r)
      else if leb 400 r.status_code
      then refuse ("gateway returned " <> decimal r.status_code <> ": ") (detail r)
      else then_ (json_of r) read_authorization

  unfoldable pub read_error : Json → Outcome Json
  unfolding strip
  read_error error = then_ (get_default "data" null error) λ details.
      then_ (get_default "instruction" (str "") (or_else details (obj end))) λ instruction.
        then_ (get_default "message" (str "tool call failed") error) λ message.
          failed
            (tool_call_failed (strip (to_str repr message <> "\n\n" <> to_str repr instruction)))

  -- The body of `_parse_rpc`; whatever else than a dict raises, by one exception or another.
  unfoldable pub read_rpc : Json → Outcome Json
  unfolding read_error
  read_rpc (obj d) =
      if contains "error" d then read_error (claim "error" d) else returned (claim "result" d)
  read_rpc _ = failed (raised "TypeError: not a dict")

  -- `_parse_rpc`
  unfoldable pub parse_rpc : Response → Outcome Json
  unfolding read_rpc detail
  parse_rpc r =
      if eqb r.status_code 401
      then refuse "gateway refused the agent's identity: " (detail r)
      else then_ (json_of r) read_rpc

  -- `except httpx.HTTPError`
  unfoldable pub parse_sent : {A : Type 0} → String → (Response → Outcome A) → Sent → Outcome A
  parse_sent url parse (received r) = parse r
  parse_sent url parse (http_error message) =
      failed (gateway_error ("could not reach the gateway at " <> url <> ": " <> message))
  parse_sent url parse (broken message) = failed (raised message)

  -- `(result or {}).get("tools", [])`
  unfoldable pub tools_of : Json → Outcome Json
  tools_of result = get_default "tools" (arr nil) (or_else result (obj end))

  -- `GovernedClient`: its base, the httpx client that it was given or made, and the headers of the
  -- latter, which a given client has not.
  module _ {E : Type 0} (http : HttpClient E) (base : ClientBase) (is_given : Bool) where
    abbrev post : (String × Fields) → E → Sent × E
    post (url, payload) =
        http.post url (json_body (obj payload)) (if is_given then [] else base.headers)

    abbrev send : {A : Type 0} → (String × Fields) → (Response → Outcome A) → E → Outcome A × E
    send request parse w = let (sent, w') = post request w in (parse_sent request.0 parse sent, w')

    -- `GovernedClient.authorize`
    unfoldable pub authorize : String → Option Fields → E → Outcome AuthorizationResult × E
    unfolding authorize_request parse_sent parse_authorization
    authorize tool arguments =
        send (authorize_request base tool (get_or arguments end)) parse_authorization

    -- `GovernedClient.call_tool`
    unfoldable pub call_tool : String → Option Fields → E → Outcome Json × E
    unfolding rpc_request parse_sent parse_rpc
    call_tool tool arguments =
        send
          (rpc_request base "tools/call"
            (field "name" (str tool) (field "arguments" (obj (get_or arguments end)) end)))
          parse_rpc

    -- `GovernedClient.list_tools`
    unfoldable pub list_tools : E → Outcome Json × E
    unfolding rpc_request parse_sent parse_rpc tools_of
    list_tools w =
        let (result, w') = send (rpc_request base "tools/list" end) parse_rpc w in
        (then_ result tools_of, w')

    -- `GovernedClient.close`
    unfoldable pub close : E → E
    close = http.close
