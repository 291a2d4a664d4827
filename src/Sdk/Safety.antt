-- ===== src/Sdk/Safety.antt =====
-- sdk/decorator.py around a client whose posts reach the gateway's authorize route.
use openagent_control.Prelude.{String, ◌≡◌, refl, Bool, if◌then◌else◌, ap, ◌∙◌}
use openagent_control.Json.{Json, Fields}
use openagent_control.Exec.{
  Result, ok, err, identity, missing_subject_token, policy_engine_unavailable, token_exchange,
  upstream, agent_not_found, uncaught,
}
use openagent_control.Text.{◌<>◌}
use openagent_control.Models.{AuthorizationOutcome}
use openagent_control.Governed.Service.{GovernedExecutionService, Headers, World}
use openagent_control.Governed.Flow.{authorize as governed_authorize}
use openagent_control.Http.{HttpClient}
use openagent_control.Gateway.Routes.{authorize_payload}
use openagent_control.Sdk.Client.{Outcome, gateway_error, failed, ClientBase, authorize}
use openagent_control.Sdk.Guard.{
  OnDeny, Value, Call, run_value, deny_call, run_decided, run_answered, bind_arguments, wrapper,
}
use openagent_control.Sdk.Wire.{IsConnected, result_of, learned, authorize_lem}

-- The request that stands for a call of a guarded function.
abbrev pub request_of : {X : Type 0} → String → Call X → Fields
request_of tool call =
    authorize_payload (record { tool = tool; arguments = bind_arguments call.bound call.kwargs })

-- What a guarded call comes to, by the gateway's answer and its state then: on an allowed outcome the
-- function runs on that state; on another, or on none, the state stays and nothing runs.
abbrev pub guarded :
    {E A : Type 0}
    → (Json → String)
    → OnDeny
    → String
    → (World E → Outcome A × World E)
    → Result AuthorizationOutcome × World E
    → Outcome (Value A) × World E
guarded repr on_deny tool func (ok o, w) =
    if o.allowed then run_value (func w) else (deny_call repr on_deny (result_of o) tool, w)
guarded repr on_deny tool func (err (identity message), w) = (
  failed
      (gateway_error ("gateway refused the agent's identity: " <> ("Identity error: " <> message))),
  w,
)
guarded repr on_deny tool func (err (missing_subject_token message), w) = (
  failed (
      gateway_error
        ("gateway refused the agent's identity: " <> ("Delegation error: " <> message))),
  w,
)
guarded repr on_deny tool func (err _, w) =
    (failed (gateway_error "gateway returned 500: Internal Server Error"), w)

module _ (repr : Json → String) where
  run_learned :
      {E A : Type 0} (on_deny : OnDeny) (tool : String) (func : World E → Outcome A × World E)
      (r : Result AuthorizationOutcome) (w : World E)
      → run_answered repr on_deny tool func (learned r) w ≡ guarded repr on_deny tool func (r, w)
  unfolding run_answered run_decided
  run_learned on_deny tool func (ok o) w = refl
  run_learned on_deny tool func (err (identity message)) w = refl
  run_learned on_deny tool func (err (missing_subject_token message)) w = refl
  run_learned on_deny tool func (err (policy_engine_unavailable message)) w = refl
  run_learned on_deny tool func (err (token_exchange message)) w = refl
  run_learned on_deny tool func (err (upstream message)) w = refl
  run_learned on_deny tool func (err (agent_not_found message)) w = refl
  run_learned on_deny tool func (err (uncaught message)) w = refl

  -- A guarded function whose client's posts reach the authorize route runs exactly on an outcome that
  -- the gateway allowed, with the state that the authorization of the bound arguments left. On an
  -- outcome that is not allowed the call gives the denial, as a text or as ToolCallDenied, and on an
  -- error a GatewayError, and the state stays as the authorization left it.
  pub wrapper_lem :
      {E X A : Type 0} (s : GovernedExecutionService E) (render : Fields → String)
      (headers : Headers) (http : HttpClient (World E)) (base : ClientBase) (is_given : Bool)
      (on_deny : OnDeny) (tool : String) (func : X → World E → Outcome A × World E) (call : Call X)
      (w : World E)
      → IsConnected s render headers http base is_given
      → wrapper repr (authorize repr http base is_given) on_deny tool func call w
        ≡ guarded repr on_deny tool
            (func call.given)
            (governed_authorize s headers (request_of tool call) w)
  unfolding wrapper
  wrapper_lem s render headers http base is_given on_deny tool func call w connected =
      let (r, w') = governed_authorize s headers (request_of tool call) w in
      ap (λ q. run_answered repr on_deny tool (func call.given) q.0 q.1)
        (authorize_lem repr render s headers http base is_given tool
          (bind_arguments call.bound call.kwargs) w connected)
      ∙ run_learned on_deny tool (func call.given) r w'
