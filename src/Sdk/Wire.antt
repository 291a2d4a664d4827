-- ===== src/Sdk/Wire.antt =====
-- The blocking client against the gateway's authorize route.
use openagent_control.Prelude.{
  String, ◌≡◌, refl, Bool, some, none, if◌then◌else◌, ap, ◌∙◌, [], ◌⊎◌, inl, inr,
}
use openagent_control.Text.{◌<>◌, take, decimal, is_truthy-append}
use openagent_control.Json
use openagent_control.Json.{Json, str, obj, Fields, end, field}
use openagent_control.Exec.{
  Result, ok, err, identity, missing_subject_token, policy_engine_unavailable, token_exchange,
  upstream, agent_not_found, uncaught,
}
use openagent_control.Models.{Decision, allow, deny, AuthorizationOutcome}
use openagent_control.Governed.Service.{GovernedExecutionService, Headers, World}
use openagent_control.Governed.Flow.{authorize as governed_authorize, stop_instruction}
use openagent_control.Http.{Response, Sent, received, json_body, HttpClient}
use openagent_control.Gateway.Routes.{
  Answer, authorize_payload, response_of, dump_response, authorize_answer, authorize_route,
}
use openagent_control.Sdk.Client.{
  AuthorizationResult, gateway_error, Outcome, returned, failed, ClientBase, authorize_request,
  decision_of, read_authorization, detail, detail_of, parse_authorization, parse_sent, authorize,
}

-- An answer as it arrives; an exception that leaves the route is the server's 500.
abbrev pub delivered : (Fields → String) → Result Answer → Response
delivered render (ok a) = record {
  status_code = a.status_code;
  text = render a.content;
  json = some (obj a.content);
}
delivered render (err e) = record { status_code = 500; text = "Internal Server Error"; json = none }

abbrev pub arrive : {W : Type 0} → (Fields → String) → Result Answer × W → Sent × W
arrive render (r, w) = (received (delivered render r), w)

-- The client's posts of authorizations reach the route, with the client's headers.
abbrev pub IsConnected :
    {E : Type 0}
    → GovernedExecutionService E
    → (Fields → String)
    → Headers
    → HttpClient (World E)
    → ClientBase
    → Bool
    → Type 0
IsConnected {E} s render headers http base is_given =
    (tool : String) (arguments : Fields) (w : World E)
    → http.post (base.base_url <> "/api/v1/authorize")
        (json_body (obj (field "tool" (str tool) (field "arguments" (obj arguments) end))))
        (if is_given then [] else base.headers) w
      ≡ arrive render (authorize_route s headers (record { tool = tool; arguments = arguments }) w)

-- What an agent learns of an outcome.
abbrev pub result_of : AuthorizationOutcome → AuthorizationResult
result_of o = record {
  allowed = o.allowed;
  decision = o.decision.decision;
  reason = str o.decision.reason;
  instruction = str (if o.allowed then "" else stop_instruction);
  receipt_id = str o.receipt.sequence_id;
  shadowed = o.shadowed;
}

-- What it learns of the gateway's authorization.
abbrev pub learned : Result AuthorizationOutcome → Outcome AuthorizationResult
learned (ok o) = returned (result_of o)
learned (err (identity message)) =
    failed
      (gateway_error ("gateway refused the agent's identity: " <> ("Identity error: " <> message)))
learned (err (missing_subject_token message)) =
    failed (
      gateway_error ("gateway refused the agent's identity: " <> ("Delegation error: " <> message)))
learned (err _) = failed (gateway_error "gateway returned 500: Internal Server Error")

Decision-cases : (d : Decision) → (d ≡ allow) ⊎ (d ≡ deny)
Decision-cases allow = inl refl
Decision-cases deny = inr refl

module _ (repr : Json → String) (render : Fields → String) where
  parse-authorize_answer :
      (r : Result AuthorizationOutcome)
      → parse_authorization repr (delivered render (authorize_answer r)) ≡ learned r
  unfolding parse_authorization authorize_answer dump_response response_of read_authorization detail
      detail_of Json.get take decimal decision_of
  parse-authorize_answer (ok o) = elim (Decision-cases o.decision.decision) [
    | inl e ↦ simp e
    | inr e ↦ simp e
  ]
  parse-authorize_answer (err (identity message)) =
      rw (is_truthy-append "Identity error: " message refl)
  parse-authorize_answer (err (missing_subject_token message)) =
      rw (is_truthy-append "Delegation error: " message refl)
  parse-authorize_answer (err (policy_engine_unavailable message)) = refl
  parse-authorize_answer (err (token_exchange message)) = refl
  parse-authorize_answer (err (upstream message)) = refl
  parse-authorize_answer (err (agent_not_found message)) = refl
  parse-authorize_answer (err (uncaught message)) = refl

  module _ {E : Type 0} (s : GovernedExecutionService E) (headers : Headers)
      (http : HttpClient (World E)) (base : ClientBase) (is_given : Bool) where
    -- A client whose posts reach the authorize route learns what the gateway decided: for an outcome its
    -- `allowed`, `decision`, `reason`, `shadowed` and receipt, and an instruction exactly if it is not
    -- allowed; for an identity or delegation error a GatewayError with its text, and for any other error
    -- a GatewayError for the status 500. The gateway's state afterwards is that of its authorization.
    pub authorize_lem :
        (tool : String) (arguments : Fields) (w : World E)
        → IsConnected s render headers http base is_given
        → authorize repr http base is_given tool (some arguments) w ≡ (
          learned (
              (governed_authorize s headers
                (authorize_payload (record { tool = tool; arguments = arguments }))
                w).0),
          (governed_authorize s headers
              (authorize_payload (record { tool = tool; arguments = arguments }))
              w).1,
        )
    unfolding authorize authorize_request parse_sent authorize_route
    authorize_lem tool arguments w connected =
        let payload = authorize_payload (record { tool = tool; arguments = arguments }) in
        let url = base.base_url <> "/api/v1/authorize" in
        ap (λ q. (parse_sent repr url (parse_authorization repr) q.0, q.1))
          (connected tool arguments w)
        ∙ ap (λ seen. (seen, (governed_authorize s headers payload w).1))
            (parse-authorize_answer (governed_authorize s headers payload w).0)
