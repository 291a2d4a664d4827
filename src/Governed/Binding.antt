-- ===== src/Governed/Binding.antt =====
-- Whom a delegated call runs as: `_bind_subject` against its specification, and the subject that a
-- call carries when it is decided.
use openagent_control.Prelude.{
  String, ◌≡◌, refl, ◌↔◌, ◌⊎◌, inl, inr, true, false, Option, none, some, eq_iff, Any, ◌∷◌, subst,
  sym, arith, Option-cases, ap,
}
use openagent_control.Text.{is_truthy as is_truthy_str}
use openagent_control.Json.{Json, Fields}
use openagent_control.Exec.{pure, Result, ok, Exec, >>=-eq-ok}
use openagent_control.Models.{
  RequestId, AgentIdentity, SubjectIdentity, RegisteredAgent, ToolCallRequest, AuthorizationOutcome,
}
use openagent_control.Governed.Service.{
  GovernedExecutionService, SubjectBinding, Event, strict, may_act_only, off, Headers, verified,
  World, call_port,
}
use openagent_control.Governed.Subject.{
  header, is_set, or_empty, check_actor, check_sponsor, bind_subject,
}
use openagent_control.Governed.Flow.{
  receive, make_call, attach_subject, verify_by, verify_subject, prepare, judge, authorize,
}
use openagent_control.Governed.Keeps.{Keeps, judge-Keeps}
use openagent_control.Governed.Stages.{authorize_ok}

-- The relation that a binding mode asks for. With `may_act` in the subject's token, the actor that
-- it names is the caller's client id, if the caller has one; without it, strict mode asks that the
-- subject is the sponsor that the agent claims, if it claims one.
abbrev pub Bound : AgentIdentity → SubjectIdentity → SubjectBinding → Type 0
Bound agent subject mode =
    (mode ≡ off)
    ⊎ ((actor : String) × (subject.authorized_actor ≡ some actor)
        × ((is_set agent.client_id ≡ false) ⊎ (agent.client_id ≡ some actor)))
    ⊎ ((subject.authorized_actor ≡ none)
        × ((mode ≡ may_act_only)
            ⊎ (is_set agent.human_sponsor ≡ false)
            ⊎ (agent.human_sponsor ≡ some subject.subject_id)))

check_actor_ok :
    (actor : String) (client_id : Option String)
    → (check_actor actor client_id ≡ ok tt)
      ↔ ((is_set client_id ≡ false) ⊎ (client_id ≡ some actor))
unfolding check_actor
check_actor_ok actor none = (λ h. inl refl, λ h. refl)
check_actor_ok actor (some client) =
    (λ h. ground (arith, eq_iff actor client), λ h. ground (arith, eq_iff actor client))

check_sponsor_ok :
    (subject_id : String) (sponsor : Option String)
    → (check_sponsor subject_id sponsor ≡ ok tt)
      ↔ ((is_set sponsor ≡ false) ⊎ (sponsor ≡ some subject_id))
unfolding check_sponsor
check_sponsor_ok subject_id none = (λ h. inl refl, λ h. refl)
check_sponsor_ok subject_id (some sponsor) =
    (λ h. ground (arith, eq_iff subject_id sponsor), λ h. ground (arith, eq_iff subject_id sponsor))

-- `_bind_subject` returns exactly when binding is off, or the actor that the subject's token names is
-- the caller's client id or the caller has none, or, for a token that names no actor, the mode is
-- may-act-only, the agent claims no sponsor, or the sponsor that it claims is the subject.
pub bind_subject_iff :
    (agent : AgentIdentity) (subject : SubjectIdentity) (mode : SubjectBinding)
    → (bind_subject agent subject mode ≡ ok tt) ↔ Bound agent subject mode
unfolding bind_subject
bind_subject_iff agent subject off = (λ h. inl refl, λ h. refl)
bind_subject_iff agent subject strict = elim (Option-cases subject.authorized_actor) [
  | inl e ↦ (
    λ h. ground (arith, (check_sponsor_ok subject.subject_id agent.human_sponsor).0),
    λ h. ground (arith, (check_sponsor_ok subject.subject_id agent.human_sponsor).1),
  )
  | inr (actor, e) ↦ (
    λ h. ground (arith, (check_actor_ok actor agent.client_id).0),
    λ h. ground (arith, (check_actor_ok actor agent.client_id).1),
  )
]
bind_subject_iff agent subject may_act_only = elim (Option-cases subject.authorized_actor) [
  | inl e ↦ (λ h. ground arith, λ h. ground arith)
  | inr (actor, e) ↦ (
    λ h. ground (arith, (check_actor_ok actor agent.client_id).0),
    λ h. ground (arith, (check_actor_ok actor agent.client_id).1),
  )
]

-- A fresh call is the caller's, and has no subject.
pub make_call_ok :
    (read : Json → Option RequestId) (agent : AgentIdentity) (registration : Option RegisteredAgent)
    (payload : Fields) (call : ToolCallRequest)
    → make_call read agent registration payload ≡ ok call
    → (call.subject ≡ none) × (call.agent ≡ agent)
unfolding make_call
make_call_ok read agent registration payload call h = ground arith

call_port_ok :
    {E A : Type 0} (event : Result A → Event) (m : Exec E A) (w w' : World E) {a : A}
    → call_port event m w ≡ (ok a, w')
    → w'.trace ≡ event (ok a) ∷ w.trace
unfolding call_port
call_port_ok event m w w' h = cc (ap (λ p. p.0) h, ap (λ p. p.1.trace) h)

module _ {E : Type 0} (s : GovernedExecutionService E) where
  receive_ok :
      (headers : Headers) (payload : Fields) (call : ToolCallRequest) (w w' : World E)
      → receive s headers payload w ≡ (ok call, w')
      → call.subject ≡ none
  unfolding receive
  receive_ok headers payload call w w' h =
      let (agent, u, got, k) = >>=-eq-ok _ _ w h in
      let (registration, v, found, l) = >>=-eq-ok _ _ u k in
      (make_call_ok s.request_id_of agent registration payload call (ap (λ p. p.0) l)).0

  -- What `verify_by` has attached, given that a verifier and a token were there.
  pub attach_subject_ok :
      (verify : String → Exec E SubjectIdentity) (call call' : ToolCallRequest) (token : String)
      (w w' : World E)
      → attach_subject s verify call token w ≡ (ok call', w')
      → (subject : SubjectIdentity) × (call'.subject ≡ some subject)
        × (call'.agent ≡ call.agent)
        × (bind_subject call.agent subject s.subject_binding ≡ ok tt)
        × (w'.trace ≡ verified token (ok subject) ∷ w.trace)
  unfolding attach_subject
  attach_subject_ok verify call call' token w w' h =
      let (subject, u, got, k) = >>=-eq-ok _ _ w h in
      let (unit, v, bound, l) = >>=-eq-ok _ _ u k in
      (
        subject,
        ground arith,
        ground arith,
        ap (λ p. p.0) bound,
        cc (ap (λ p. p.1) bound, ap (λ p. p.1) l, call_port_ok _ _ w u got),
      )

  pub verify_by_on :
      (verifier : Option (String → Exec E SubjectIdentity))
      (verify : String → Exec E SubjectIdentity) (call : ToolCallRequest) (token : String)
      → verifier ≡ some verify
      → is_truthy_str token ≡ true
      → verify_by s verifier call token ≡ attach_subject s verify call token
  unfolding verify_by
  verify_by_on verifier verify call token e t = rw (e, verify_by, t)

  verify_by_off :
      (verifier : Option (String → Exec E SubjectIdentity)) (call : ToolCallRequest)
      (token : String)
      → (verifier ≡ none) ⊎ (is_truthy_str token ≡ false)
      → verify_by s verifier call token ≡ pure call
  unfolding verify_by
  verify_by_off none call token e = refl
  verify_by_off (some verify) call token (inl e) = cc
  verify_by_off (some verify) call token (inr e) = rw e

  -- Once seen, the verification stays in the trace.
  Seen-Keeps :
      (event : Event) (call : ToolCallRequest) → Keeps (Any (λ e. e ≡ event)) (judge s call)
  Seen-Keeps event = judge-Keeps s (λ e t p h. inr h)

  abbrev RunsAs : String → AuthorizationOutcome → World E → Type 0
  RunsAs token o w' =
      (subject : SubjectIdentity) × (o.call.subject ≡ some subject)
      × Bound o.call.agent subject s.subject_binding
      × Any (λ e. e ≡ verified token (ok subject)) w'.trace

  attach-RunsAs :
      (verify : String → Exec E SubjectIdentity) (token : String) (call₀ call : ToolCallRequest)
      (x u w' : World E) (o : AuthorizationOutcome)
      → attach_subject s verify call₀ token x ≡ (ok call, u)
      → judge s call u ≡ (ok o, w')
      → call ≡ o.call
      → RunsAs token o w'
  attach-RunsAs verify token call₀ call x u w' o att jud e =
      let (subject, has, same, bound, seen) = attach_subject_ok verify call₀ call token x u att in
      let agents : call₀.agent ≡ o.call.agent = cc (e, same) in
      (
        subject,
        cc (e, has),
        subst (λ agent. Bound agent subject s.subject_binding) agents
            ((bind_subject_iff call₀.agent subject s.subject_binding).0 bound),
        rw jud at ((Seen-Keeps (verified token (ok subject)) call).at u (rw seen (inl refl))),
      )

  -- With a verifier configured and a nonempty subject token on the request, the call of an outcome that
  -- `authorize` returns runs as a subject that the verifier returned for that token, and that the
  -- configured mode binds to the calling agent.
  pub authorize-Bound :
      (headers : Headers) (payload : Fields) (verify : String → Exec E SubjectIdentity)
      (token : String) (w w' : World E) (o : AuthorizationOutcome)
      → s.subject_verifier ≡ some verify
      → header "x-subject-token" headers ≡ some token
      → is_truthy_str token ≡ true
      → authorize s headers payload w ≡ (ok o, w')
      → (subject : SubjectIdentity) × (o.call.subject ≡ some subject)
        × Bound o.call.agent subject s.subject_binding
        × Any (λ e. e ≡ verified token (ok subject)) w'.trace
  unfolding prepare verify_subject
  authorize-Bound headers payload verify token w w' o ver tok tru h =
      let (call, v, u, u', prep, jud, d, c) = authorize_ok s headers payload w w' o h in
      let (call₀, x, rec, att) = >>=-eq-ok _ _ w prep in
      let on = verify_by_on s.subject_verifier verify call₀ token ver tru in
      attach-RunsAs verify token call₀ call x u w' o (rw (tok, on) at att) jud (sym c.1)

  -- Without a verifier, or without a nonempty subject token on the request, the call of an outcome that
  -- `authorize` returns has no subject.
  pub authorize_no_subject :
      (headers : Headers) (payload : Fields) (w w' : World E) (o : AuthorizationOutcome)
      → (s.subject_verifier ≡ none)
        ⊎ (is_truthy_str (or_empty (header "x-subject-token" headers)) ≡ false)
      → authorize s headers payload w ≡ (ok o, w')
      → o.call.subject ≡ none
  unfolding prepare verify_subject
  authorize_no_subject headers payload w w' o n h =
      let (call, v, u, u', prep, jud, d, c) = authorize_ok s headers payload w w' o h in
      let (call₀, x, rec, kept) = >>=-eq-ok _ _ w prep in
      let token = or_empty (header "x-subject-token" headers) in
      cc (
        c.1,
        receive_ok headers payload call₀ w x rec,
        ap (λ p. p.0) (rw (verify_by_off s.subject_verifier call₀ token n) at kept),
      )
