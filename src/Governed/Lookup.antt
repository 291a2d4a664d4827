-- ===== src/Governed/Lookup.antt =====
-- What the registry said of the agent of a call: the registration that the gate looks at.
use openagent_control.Prelude.{
  String, ◌≡◌, ap, sym, subst, Option, none, some, arith, Bool-cases, inl, inr,
}
use openagent_control.Text.{is_truthy as is_truthy_str}
use openagent_control.Json.{Json, Fields, get}
use openagent_control.Exec.{Result, ok, Exec, bind-eq-ok, >>=-eq-ok}
use openagent_control.Models.{
  AgentIdentity, SubjectIdentity, RegisteredAgent, RequestId, ToolCallRequest, AuthorizationOutcome,
}
use openagent_control.Governed.Service.{GovernedExecutionService, Headers, World, Event, call_port}
use openagent_control.Governed.Flow.{
  params_of, str_field, optional_str_field, dict_field, id_field, make_call, attach_subject,
  verify_by, verify_subject, receive, prepare, authorize,
}
use openagent_control.Governed.Stages.{authorize_ok}

make_call_keeps :
    (read : Json → Option RequestId) (agent : AgentIdentity) (registration : Option RegisteredAgent)
    (payload : Fields) (call : ToolCallRequest)
    → make_call read agent registration payload ≡ ok call
    → (call.agent ≡ agent) × (call.registration ≡ registration)
unfolding make_call
make_call_keeps read agent registration payload call h =
    let (params, a, h1) = bind-eq-ok (params_of payload) _ h in
    let (method, b, h2) = bind-eq-ok (str_field (get "method" payload)) _ h1 in
    let (tool_name, c, h3) = bind-eq-ok (optional_str_field (get "name" params)) _ h2 in
    let (arguments, d, h4) = bind-eq-ok (dict_field (get "arguments" params)) _ h3 in
    let (request_id, e, h5) = bind-eq-ok (id_field read (get "id" payload)) _ h4 in
    (ground (arith, h5), ground (arith, h5))

port_answer :
    {E A : Type 0} (event : Result A → Event) (m : Exec E A) (w w' : World E) {a : A}
    → call_port event m w ≡ (ok a, w')
    → (m w.env).0 ≡ ok a
unfolding call_port
port_answer event m w w' h = ap (λ p. p.0) h

module _ {E : Type 0} (s : GovernedExecutionService E) where
  -- The registration of a call is the registry's answer for its agent.
  abbrev pub LookedUp : ToolCallRequest → Type 0
  LookedUp call = (env : E) × ((s.lookup call.agent.spiffe_id env).0 ≡ ok call.registration)

  receive-LookedUp :
      (headers : Headers) (payload : Fields) (call : ToolCallRequest) (w w' : World E)
      → receive s headers payload w ≡ (ok call, w')
      → LookedUp call
  unfolding receive
  receive-LookedUp headers payload call w w' h =
      let (agent, u, got, k) = >>=-eq-ok _ _ w h in
      let (registration, v, found, l) = >>=-eq-ok _ _ u k in
      let (a, r) =
        make_call_keeps s.request_id_of agent registration payload call (ap (λ p. p.0) l) in
      (u.env, rw (a, r) (port_answer _ _ u v found))

  -- Verifying the subject leaves the caller and its registration alone.
  attach_subject_keeps :
      (verify : String → Exec E SubjectIdentity) (call call' : ToolCallRequest) (token : String)
      (w w' : World E)
      → attach_subject s verify call token w ≡ (ok call', w')
      → (call'.agent ≡ call.agent) × (call'.registration ≡ call.registration)
  unfolding attach_subject
  attach_subject_keeps verify call call' token w w' h =
      let (subject, u, got, k) = >>=-eq-ok _ _ w h in
      let (unit, v, bound, l) = >>=-eq-ok _ _ u k in (ground (arith, l), ground (arith, l))

  verify_by_keeps :
      (verifier : Option (String → Exec E SubjectIdentity)) (call call' : ToolCallRequest)
      (token : String) (w w' : World E)
      → verify_by s verifier call token w ≡ (ok call', w')
      → (call'.agent ≡ call.agent) × (call'.registration ≡ call.registration)
  unfolding verify_by
  verify_by_keeps none call call' token w w' h = (ground arith, ground arith)
  verify_by_keeps (some verify) call call' token w w' h = elim (Bool-cases (is_truthy_str token)) [
    | inl e ↦ attach_subject_keeps verify call call' token w w' (rw e at h)
    | inr e ↦ (let k = rw e at h in (ground (arith, k), ground (arith, k)))
  ]

  prepare-LookedUp :
      (headers : Headers) (payload : Fields) (call : ToolCallRequest) (w w' : World E)
      → prepare s headers payload w ≡ (ok call, w')
      → LookedUp call
  unfolding prepare verify_subject
  prepare-LookedUp headers payload call w w' h =
      let (call₀, x, rec, att) = >>=-eq-ok _ _ w h in
      let (env, l) = receive-LookedUp headers payload call₀ w x rec in
      let (a, r) = verify_by_keeps s.subject_verifier call₀ call _ x w' att in (env, rw (a, r) l)

  -- The registration of the call of an outcome is what the registry answered for its agent.
  pub authorize-LookedUp :
      (headers : Headers) (payload : Fields) (w w' : World E) (o : AuthorizationOutcome)
      → authorize s headers payload w ≡ (ok o, w')
      → LookedUp o.call
  authorize-LookedUp headers payload w w' o h =
      let (call, v, u, u', prep, jud, d, c) = authorize_ok s headers payload w w' o h in
      subst LookedUp (sym c.1) (prepare-LookedUp headers payload call w u prep)
