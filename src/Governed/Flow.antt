-- ===== src/Governed/Flow.antt =====
-- `authorize`, `execute` and `_broker_credential`. A raise of a port that no `except` names leaves
-- the request, and so does whatever the service's own code raises.
use openagent_control.Prelude.{
  String, Bool, true, false, not, ◌&&◌, ◌||◌, Option, none, some, ◌==◌, if◌then◌else◌, get_or,
}
use openagent_control.Text.{◌<>◌, is_truthy as is_truthy_str, partition, lower}
use openagent_control.Json.{
  ℤ, negsuc, Json, null, num, str, obj, Fields, end, field, get, is_truthy,
}
use openagent_control.Exec.{
  Result, ok, err, missing_subject_token, policy_engine_unavailable, token_exchange, upstream,
  uncaught, bind, Exec, pure, raise, lift, ◌>>=◌, ◌>>◌,
}
use openagent_control.Models.{
  AgentIdentity, SubjectIdentity, AgentStatus, status_value, RegisteredAgent, RequestId, text, int,
  ToolCallRequest, Decision, allow, deny, PolicyDecision, AuthorizationOutcome,
}
use openagent_control.Governed.Service.{
  GovernedExecutionService, DecisionMode, enforce, observe, Headers, identified, looked_up,
  verified, evaluated, recorded, exported, exchanged, forwarded, World, call_port,
}
use openagent_control.Governed.Subject.{header, is_set, or_empty, bind_subject}
use openagent_control.Governed.Listing.{filter_listing}

-- `payload.get("params") or {}`, on which `.get` is called next: only a dict has it.
unfoldable pub params_of : Fields → Result Fields
unfolding get
params_of payload =
    let params = get_or (get "params" payload) null in
    if is_truthy params
    then elim params [
      | obj fields ↦ ok fields
      | _ ↦ err (uncaught "AttributeError: object has no attribute 'get'")
    ]
    else ok end

-- The fields of `ToolCallRequest` as pydantic validates them.
unfoldable pub str_field : Option Json → Result String
str_field none = ok ""
str_field (some (str s)) = ok s
str_field (some _) = err (uncaught "ValidationError: method")

unfoldable pub optional_str_field : Option Json → Result (Option String)
optional_str_field none = ok none
optional_str_field (some null) = ok none
optional_str_field (some (str s)) = ok (some s)
optional_str_field (some _) = err (uncaught "ValidationError: tool_name")

unfoldable pub dict_field : Option Json → Result Fields
dict_field none = ok end
dict_field (some (obj fields)) = ok fields
dict_field (some _) = err (uncaught "ValidationError: arguments")

unfoldable pub id_field : (Json → Option RequestId) → Option Json → Result (Option RequestId)
id_field read none = ok none
id_field read (some null) = ok none
id_field read (some j) = elim (read j) [
  | none ↦ err (uncaught "ValidationError: request_id")
  | some i ↦ ok (some i)
]

unfoldable pub make_call :
    (Json → Option RequestId)
    → AgentIdentity
    → Option RegisteredAgent
    → Fields
    → Result ToolCallRequest
unfolding get params_of str_field optional_str_field dict_field id_field
make_call read agent registration payload = bind (params_of payload) λ params.
    bind (str_field (get "method" payload)) λ method.
      bind (optional_str_field (get "name" params)) λ tool_name.
        bind (dict_field (get "arguments" params)) λ arguments.
          bind (id_field read (get "id" payload)) λ request_id. ok (record {
            method = method;
            tool_name = tool_name;
            arguments = arguments;
            agent = agent;
            registration = registration;
            subject = none;
            request_id = request_id;
          })

abbrev pub id_json : Option RequestId → Json
id_json none = null
id_json (some (text s)) = str s
id_json (some (int n)) = num n

-- `_jsonrpc_error`
unfoldable pub jsonrpc_error : Option RequestId → ℤ → String → String → Fields
jsonrpc_error request_id code message instruction = field "jsonrpc" (str "2.0") (
    field "id" (id_json request_id) (
      field "error"
        (obj (
          field "code" (num code) (
            field "message" (str message)
              (field "data" (obj (field "instruction" (str instruction) end)) end))))
        end))

abbrev pub stop_instruction : String
stop_instruction = "Stop execution and request user approval."

abbrev pub no_retry : String
no_retry = "Do not retry automatically; report the failure to the user."

abbrev pub fail_closed_reason : String
fail_closed_reason = "Policy engine unavailable; denied (fail-closed)"

-- The answer to a refused call.
unfoldable pub policy_violation : AuthorizationOutcome → Fields
policy_violation outcome =
    jsonrpc_error outcome.call.request_id (negsuc 31999)
      ("Policy violation: " <> outcome.decision.reason) stop_instruction

-- The decision, and whether shadow mode may soften it.
pub record Verdict : Type 0 where
  pub decision : PolicyDecision
  pub shadowable : Bool

abbrev pub refusal : String → Verdict
refusal reason = record {
  decision = record { decision = deny; reason = reason };
  shadowable = false;
}

abbrev pub orphaned_reason : String
orphaned_reason = "Agent not registered in the Agent Registry (orphaned agents are refused)"

-- `except PolicyEngineUnavailableError`
unfoldable pub fail_closed : Result PolicyDecision → Result Verdict
fail_closed (ok decision) = ok (record { decision = decision; shadowable = true })
fail_closed (err (policy_engine_unavailable _)) = ok (refusal fail_closed_reason)
fail_closed (err e) = err e

abbrev pub is_allow : Decision → Bool
is_allow allow = true
is_allow deny = false

abbrev pub is_observe : DecisionMode → Bool
is_observe observe = true
is_observe enforce = false

module _ {E : Type 0} (s : GovernedExecutionService E) where
  -- The body of `verify_subject`.
  unfoldable pub attach_subject :
      (String → Exec E SubjectIdentity) → ToolCallRequest → String → Exec (World E) ToolCallRequest
  attach_subject verify call token = do
    subject ← call_port (verified token) (verify token)
    lift (bind_subject call.agent subject s.subject_binding)
    pure (record call { subject = some subject })

  -- It is entered only with a verifier configured and a subject token on the request.
  unfoldable pub verify_by :
      Option (String → Exec E SubjectIdentity)
      → ToolCallRequest
      → String
      → Exec (World E) ToolCallRequest
  verify_by none call token = pure call
  verify_by (some verify) call token =
      if is_truthy_str token then attach_subject verify call token else pure call

  unfoldable pub verify_subject : ToolCallRequest → String → Exec (World E) ToolCallRequest
  unfolding verify_by
  verify_subject = verify_by s.subject_verifier

  -- `policy_evaluate` behind the registry gate.
  unfoldable pub ask_policy : ToolCallRequest → Exec (World E) Verdict
  unfolding call_port fail_closed
  ask_policy call w =
      let (r, w') = call_port (evaluated call) (s.evaluate call) w in (fail_closed r, w')

  unfoldable pub ask_if_active : ToolCallRequest → AgentStatus → Exec (World E) Verdict
  ask_if_active call AgentStatus.active = ask_policy call
  ask_if_active call AgentStatus.suspended =
      pure (refusal ("Agent is " <> status_value AgentStatus.suspended <> " in the Agent Registry"))

  unfoldable pub pass_gate : ToolCallRequest → Option RegisteredAgent → Exec (World E) Verdict
  unfolding ask_if_active
  pass_gate call none = pure (refusal orphaned_reason)
  pass_gate call (some agent) = ask_if_active call agent.status

  -- `policy_evaluate`: the registry gate, then the policy engine.
  unfoldable pub decide : ToolCallRequest → Exec (World E) Verdict
  unfolding pass_gate
  decide call = pass_gate call call.registration

  unfoldable pub is_shadowed : Verdict → Bool
  is_shadowed v = v.shadowable && is_observe s.decision_mode && not (is_allow v.decision.decision)

  -- The receipt, its export and the outcome.
  unfoldable pub conclude : ToolCallRequest → Verdict → Exec (World E) AuthorizationOutcome
  unfolding is_shadowed
  conclude call v = do
    let shadow = is_shadowed v
    receipt ←
        call_port (recorded call.agent call v.decision (not shadow))
          (s.record_receipt call.agent call v.decision (not shadow))
    call_port (exported receipt) (s.export receipt)
    pure (record {
      allowed = is_allow v.decision.decision || shadow;
      decision = v.decision;
      receipt = receipt;
      call = call;
      shadowed = shadow;
    })

  -- `_authorize` up to the subject: who calls, what the registry knows of it, and the call.
  unfoldable pub receive : Headers → Fields → Exec (World E) ToolCallRequest
  receive headers payload = do
    agent ← call_port (identified headers) (s.identify headers)
    registration ← call_port (looked_up agent.spiffe_id) (s.lookup agent.spiffe_id)
    lift (make_call s.request_id_of agent registration payload)

  -- `_authorize` up to the registry gate.
  unfoldable pub prepare : Headers → Fields → Exec (World E) ToolCallRequest
  prepare headers payload = receive headers payload >>= λ call.
      verify_subject call (or_empty (header "x-subject-token" headers))

  -- The rest of it: the decision and its receipt.
  unfoldable pub judge : ToolCallRequest → Exec (World E) AuthorizationOutcome
  judge call = decide call >>= conclude call

  -- `authorize` and `_authorize`
  unfoldable pub authorize : Headers → Fields → Exec (World E) AuthorizationOutcome
  authorize headers payload = prepare headers payload >>= judge

  abbrev pub exchange_port : String → Exec (World E) String
  exchange_port token =
      call_port (exchanged token s.delegated_audience) (s.exchange token s.delegated_audience)

  -- `_broker_credential`
  unfoldable pub broker_credential : AgentIdentity → Headers → Exec (World E) String
  unfolding call_port
  broker_credential agent headers =
      if is_set agent.human_sponsor
      then (let subject_token = or_empty (header "x-subject-token" headers) in
          if is_truthy_str subject_token
          then exchange_port subject_token
          else raise (
              missing_subject_token (
                "delegated call for sponsor '"
                <> or_empty agent.human_sponsor
                <> "' requires a 'x-subject-token' header")))
      else (let (scheme, agent_token) = partition (or_empty (header "authorization" headers)) in
          if lower scheme == "bearer" && is_truthy_str agent_token
          then exchange_port agent_token
          else pure ("autonomous::" <> agent.spiffe_id))

  -- `except UpstreamError`, around the forward and the listing's projection
  unfoldable pub on_upstream : ToolCallRequest → Result Fields → Result Fields
  on_upstream call (err (upstream message)) = ok (
      jsonrpc_error call.request_id (negsuc 32001) ("Upstream execution failed: " <> message)
        no_retry)
  on_upstream call r = r

  unfoldable pub forward_call : ToolCallRequest → String → Exec (World E) Fields
  unfolding call_port on_upstream
  forward_call call credential w =
      let (r, w') = call_port (forwarded call credential) (s.forward call credential) w in
      (on_upstream call (bind r λ response. filter_listing response call), w')

  -- `except TokenExchangeError`
  unfoldable pub with_credential : ToolCallRequest → Result String → Exec (World E) Fields
  with_credential call (ok credential) = forward_call call credential
  with_credential call (err (token_exchange message)) = pure (
      jsonrpc_error call.request_id (negsuc 32003) ("Credential brokering failed: " <> message)
        no_retry)
  with_credential call (err e) = raise e

  unfoldable pub run_allowed : ToolCallRequest → Headers → Exec (World E) Fields
  run_allowed call headers w =
      let (r, w') = broker_credential call.agent headers w in with_credential call r w'

  -- `execute` after the decision: refuse, or broker and forward.
  unfoldable pub respond : AuthorizationOutcome → Headers → Exec (World E) Fields
  respond outcome headers =
      if outcome.allowed then run_allowed outcome.call headers else pure (policy_violation outcome)

  unfoldable pub execute : Headers → Fields → Exec (World E) Fields
  execute headers payload = authorize headers payload >>= λ outcome. respond outcome headers
