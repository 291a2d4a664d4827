-- ===== src/Policy/Consent.antt =====
-- The gateway with adapters/policy/opa.py as its policy engine.
use openagent_control.Prelude.{
  String, ◌≡◌, refl, ◌⊎◌, inl, inr, true, false, Option, none, some, ap, arith, Bool-cases, [],
  ◌||◌, sym, ◌∙◌, Option-cases,
}
use openagent_control.Json.{Json, null, str, bool, end, obj, Fields, get, is_truthy}
use openagent_control.Exec.{Result, ok, >>=-eq-ok, bind-eq-ok}
use openagent_control.Models.{
  Instant, ToolCallRequest, RegisteredAgent, AgentStatus, Decision, PolicyDecision, allow,
  AuthorizationOutcome,
}
use openagent_control.Governed.Service.{GovernedExecutionService, enforce, World, call_port}
use openagent_control.Governed.Flow.{
  Verdict, decide, pass_gate, ask_if_active, ask_policy, fail_closed, judge, is_allow, is_shadowed,
}
use openagent_control.Governed.Stages.{conclude_ok}
use openagent_control.Access.{body_of, get_default}
use openagent_control.Http.{Response, Sent, received, http_error, broken, json_body, HttpClient}
use openagent_control.Policy.Opa.{
  default_reason, policy_decision, decision_for, with_reason, read_result, read_decision, read_sent,
  opa_input, evaluate,
}

-- Independent of the code: a successful answer whose body has a `result` with a true `allow`.
abbrev pub IsConsent : {E : Type 0} → HttpClient E → Sent → Type 0
IsConsent http sent =
    (r : Response) × (sent ≡ received r)
    × (http.raise_for_status r ≡ none)
    × (body : Fields) × (r.json ≡ some (obj body))
    × (result : Fields) × (get "result" body ≡ some (obj result))
    × (v : Json) × (get "allow" result ≡ some v)
    × (is_truthy v ≡ true)

get_default_ok :
    (k : String) (default body v : Json)
    → get_default k default body ≡ ok v
    → (d : Fields) × (body ≡ obj d) × ((get k d ≡ some v) ⊎ (v ≡ default))
unfolding get_default
get_default_ok k default (obj d) v h = elim (Option-cases (get k d)) [
  | inl e ↦ (d, refl, inr (ground arith))
  | inr (x, e) ↦ (d, refl, inl (ground arith))
]
get_default_ok k default null v h = cc
get_default_ok k default _ v h = cc

policy_decision_ok :
    (decision : Decision) (reason : Json) (d : PolicyDecision)
    → policy_decision decision reason ≡ ok d
    → d.decision ≡ decision
unfolding policy_decision
policy_decision_ok decision reason d h = ground arith

-- A body that is read as an ALLOW.
abbrev SaysAllow : Json → Type 0
SaysAllow body =
    (d : Fields) × (body ≡ obj d)
    × (result : Fields) × (get "result" d ≡ some (obj result))
    × (v : Json) × (get "allow" result ≡ some v)
    × (is_truthy v ≡ true)

truthy_of : (v : Json) → decision_for v ≡ allow → is_truthy v ≡ true
truthy_of v h = elim (Bool-cases (is_truthy v)) [ inl e ↦ e | inr e ↦ cc (rw e at h) ]

with_reason_ok :
    (result v : Json) (d : PolicyDecision)
    → with_reason result v ≡ ok d
    → d.decision ≡ decision_for v
unfolding with_reason
with_reason_ok result v d h =
    let (reason, why, m) =
      bind-eq-ok (get_default "reason" (str (default_reason (decision_for v))) result)
        (policy_decision (decision_for v)) h in
    policy_decision_ok (decision_for v) reason d m

-- A result that is read as an ALLOW.
result-allow :
    (result : Json) (d : PolicyDecision)
    → read_result result ≡ ok d
    → d.decision ≡ allow
    → (inner : Fields) × (result ≡ obj inner)
      × (v : Json) × (get "allow" inner ≡ some v)
      × (is_truthy v ≡ true)
unfolding read_result
result-allow result d h a =
    let (v, allowed, l) = bind-eq-ok (get_default "allow" (bool false) result) _ h in
    let (inner, dict, given) = get_default_ok "allow" (bool false) result v allowed in
    let held = truthy_of v (sym (with_reason_ok result v d l) ∙ a) in
    elim given [ inl e ↦ (inner, dict, v, e, held) | inr e ↦ cc (ap is_truthy e) ]

read_decision-allow :
    (body : Json) (d : PolicyDecision)
    → read_decision body ≡ ok d
    → d.decision ≡ allow
    → SaysAllow body
unfolding read_decision get
read_decision-allow body d h a =
    let (result, got, k) = bind-eq-ok (get_default "result" (obj end) body) read_result h in
    let (fields, shape, found) = get_default_ok "result" (obj end) body result got in
    let (inner, dict, v, given, held) = result-allow result d k a in
    elim found [ inl e ↦ (fields, shape, inner, e ∙ ap some dict, v, given, held) | inr e ↦ cc ]

body_of_ok : (r : Response) (j : Json) → body_of r ≡ ok j → r.json ≡ some j
unfolding body_of
body_of_ok r j h = ground arith

module _ {E : Type 0} (http : HttpClient E) where
  read_sent-allow :
      (sent : Sent) (d : PolicyDecision)
      → read_sent http sent ≡ ok d
      → d.decision ≡ allow
      → IsConsent http sent
  unfolding read_sent body_of
  read_sent-allow (received r) d h a = elim (Option-cases (http.raise_for_status r)) [
    | inl e ↦
        let (body, read, k) = bind-eq-ok (body_of r) read_decision (rw (read_sent, e) at h) in
        let (fields, shape, result, found, v, given, held) = read_decision-allow body d k a in
        (r, refl, e, fields, body_of_ok r body read ∙ ap some shape, result, found, v, given, held)
    | inr (message, e) ↦ cc (rw (read_sent, e) at h)
  ]
  read_sent-allow (http_error m) d h a = cc
  read_sent-allow (broken m) d h a = cc

fail_closed-allow :
    (r : Result PolicyDecision) (v : Verdict)
    → fail_closed r ≡ ok v
    → v.decision.decision ≡ allow
    → r ≡ ok v.decision
unfolding fail_closed
fail_closed-allow r v h a = ground arith

module _ {E : Type 0} (s : GovernedExecutionService E) where
  -- Nothing is shadowed in enforce mode.
  allow_of :
      (v : Verdict)
      → (is_allow v.decision.decision || is_shadowed s v) ≡ true
      → s.decision_mode ≡ enforce
      → v.decision.decision ≡ allow
  unfolding is_shadowed
  allow_of v h mode = ground arith

  ask_policy-evaluate :
      (call : ToolCallRequest) (v : Verdict) (w u : World E)
      → ask_policy s call w ≡ (ok v, u)
      → v.decision.decision ≡ allow
      → s.evaluate call w.env ≡ (ok v.decision, u.env)
  unfolding ask_policy call_port
  ask_policy-evaluate call v w u h a =
      cc (fail_closed-allow _ v (ap (λ r. r.0) h) a, ap (λ r. r.1.env) h)

  ask_if_active-evaluate :
      (call : ToolCallRequest) (status : AgentStatus) (v : Verdict) (w u : World E)
      → ask_if_active s call status w ≡ (ok v, u)
      → v.decision.decision ≡ allow
      → s.evaluate call w.env ≡ (ok v.decision, u.env)
  unfolding ask_if_active
  ask_if_active-evaluate call AgentStatus.active v w u h a = ask_policy-evaluate call v w u h a
  ask_if_active-evaluate call AgentStatus.suspended v w u h a = ground arith

  pass_gate-evaluate :
      (call : ToolCallRequest) (registration : Option RegisteredAgent) (v : Verdict) (w u : World E)
      → pass_gate s call registration w ≡ (ok v, u)
      → v.decision.decision ≡ allow
      → s.evaluate call w.env ≡ (ok v.decision, u.env)
  unfolding pass_gate
  pass_gate-evaluate call none v w u h a = ground arith
  pass_gate-evaluate call (some agent) v w u h a =
      ask_if_active-evaluate call agent.status v w u h a

  -- An allowed call in enforce mode has the policy port's ALLOW.
  judge-evaluate :
      (call : ToolCallRequest) (w w' : World E) (o : AuthorizationOutcome)
      → s.decision_mode ≡ enforce
      → judge s call w ≡ (ok o, w')
      → o.allowed ≡ true
      → (u : E) × (s.evaluate call w.env ≡ (ok o.decision, u)) × (o.decision.decision ≡ allow)
  unfolding judge decide
  judge-evaluate call w w' o mode h a =
      let (v, u, dec, con) = >>=-eq-ok _ _ w h in
      let made = conclude_ok s call v u w' o con in
      let consent = allow_of v (sym made.4 ∙ a) mode in
      (
        u.env,
        cc (pass_gate-evaluate call call.registration v w u dec consent, made.2),
        cc (consent, made.2),
      )

  -- With OPA as the policy engine and in enforce mode, a call is allowed only by OPA's answer to the
  -- post of that call's input: a response without an error status, whose body is a dict with a dict as
  -- its `result` and a true `allow` in it. An unreachable engine, an error status, an answer that is no
  -- JSON and one without `allow` allow nothing.
  pub judge-IsConsent :
      (http : HttpClient E) (isoformat : Instant → String) (opa_url : String)
      (call : ToolCallRequest) (w w' : World E) (o : AuthorizationOutcome)
      → s.evaluate ≡ evaluate isoformat http opa_url
      → s.decision_mode ≡ enforce
      → judge s call w ≡ (ok o, w')
      → o.allowed ≡ true
      → IsConsent http (http.post opa_url (json_body (obj (opa_input isoformat call))) [] w.env).0
  unfolding evaluate
  judge-IsConsent http isoformat opa_url call w w' o opa mode h a =
      let (u, run, consent) = judge-evaluate call w w' o mode h a in
      let answered = sym (ap (λ f. f call w.env) opa) ∙ run in
      read_sent-allow http _ o.decision (ap (λ r. r.0) answered) consent
