-- ===== src/Governed/Keeps.antt =====
-- Invariants of the service's trace: what an event may do to them, and the stages of `authorize`.
use openagent_control.Prelude.{String, Option, none, some, List, ◌∷◌, Bool-cases, inl, inr}
use openagent_control.Text.{is_truthy as is_truthy_str}
use openagent_control.Json.{Fields}
use openagent_control.Exec.{Result, ok, err, Exec, pure, lift, ◌>>=◌, continue}
use openagent_control.Models.{AgentStatus, SubjectIdentity, RegisteredAgent, ToolCallRequest}
use openagent_control.Governed.Service.{
  GovernedExecutionService, Headers, Event, identified, looked_up, verified, evaluated, recorded,
  exported, exchanged, forwarded, World, call_port,
}
use openagent_control.Governed.Flow.{
  attach_subject, verify_by, ask_policy, ask_if_active, pass_gate, Verdict, verify_subject, decide,
  conclude, receive, prepare, judge, authorize,
}

-- An event that changes nothing upstream: no credential is exchanged and no call is forwarded.
abbrev pub IsPassive : Event → Type 0
IsPassive (exchanged token audience r) = ⊥
IsPassive (forwarded call credential r) = ⊥
IsPassive (identified h r) = Unit
IsPassive (looked_up i r) = Unit
IsPassive (verified t r) = Unit
IsPassive (evaluated c r) = Unit
IsPassive (recorded a c d e r) = Unit
IsPassive (exported r x) = Unit

module _ {E : Type 0} (P : List Event → Type 0) where
  pub record Keeps {A : Type 0} (m : Exec (World E) A) : Type 0 where
    pub at : (w : World E) → P w.trace → P (m w).1.trace

module _ {E : Type 0} {P : List Event → Type 0} where
  Keeps-pure : {A : Type 0} (a : A) → Keeps {E = E} P (pure a)
  Keeps-pure a = record { at = λ w h. h }

  Keeps-lift : {A : Type 0} (r : Result A) → Keeps {E = E} P (lift r)
  Keeps-lift r = record { at = λ w h. h }

  Keeps-continue :
      {A B : Type 0} (r : Result A) (f : A → Exec (World E) B) (v : World E)
      → P v.trace
      → ((a : A) → Keeps P (f a))
      → P (continue r f v).1.trace
  Keeps-continue (ok a) f v h kf = (kf a).at v h
  Keeps-continue (err e) f v h kf = h

  Keeps-bind :
      {A B : Type 0} (m : Exec (World E) A) (f : A → Exec (World E) B)
      → Keeps P m
      → ((a : A) → Keeps P (f a))
      → Keeps P (m >>= f)
  unfolding ◌>>=◌
  Keeps-bind m f km kf = record {
    at = λ w h. let (r, v) = m w in Keeps-continue r f v (km.at w h) kf;
  }

module _ {E : Type 0} (s : GovernedExecutionService E) {P : List Event → Type 0}
    (closed : (e : Event) (t : List Event) → IsPassive e → P t → P (e ∷ t)) where
  call_port-Keeps :
      {A : Type 0} (event : Result A → Event) (m : Exec E A)
      → ((r : Result A) → IsPassive (event r))
      → Keeps P (call_port event m)
  unfolding call_port
  call_port-Keeps event m p = record {
    at = λ w h. closed (event (m w.env).0) w.trace (p (m w.env).0) h;
  }

  identified-Keeps :
      (headers : Headers) → Keeps P (call_port (identified headers) (s.identify headers))
  identified-Keeps headers = call_port-Keeps _ _ (λ r. tt)

  looked_up-Keeps : (id : String) → Keeps P (call_port (looked_up id) (s.lookup id))
  looked_up-Keeps id = call_port-Keeps _ _ (λ r. tt)

  attach_subject-Keeps :
      (verify : String → Exec E SubjectIdentity) (call : ToolCallRequest) (token : String)
      → Keeps P (attach_subject s verify call token)
  unfolding attach_subject
  attach_subject-Keeps verify call token = search (
    Keeps-bind,
    Keeps-lift,
    Keeps-pure,
    λ (t : String). call_port-Keeps (verified t) (verify t) (λ r. tt),
  )

  verify_by-Keeps :
      (verifier : Option (String → Exec E SubjectIdentity)) (call : ToolCallRequest)
      (token : String)
      → Keeps P (verify_by s verifier call token)
  unfolding verify_by
  verify_by-Keeps none call token = Keeps-pure call
  verify_by-Keeps (some verify) call token = elim (Bool-cases (is_truthy_str token)) [
    | inl e ↦ rw e (attach_subject-Keeps verify call token)
    | inr e ↦ rw e (Keeps-pure call)
  ]

  verify_subject-Keeps :
      (call : ToolCallRequest) (token : String) → Keeps P (verify_subject s call token)
  unfolding verify_subject
  verify_subject-Keeps = verify_by-Keeps s.subject_verifier

  ask_policy-Keeps : (call : ToolCallRequest) → Keeps P (ask_policy s call)
  unfolding ask_policy
  ask_policy-Keeps call = record {
    at = λ w h. closed (evaluated call (s.evaluate call w.env).0) w.trace tt h;
  }

  pass_gate-Keeps :
      (call : ToolCallRequest) (registration : Option RegisteredAgent)
      → Keeps P (pass_gate s call registration)
  unfolding pass_gate
  pass_gate-Keeps call none = Keeps-pure _
  pass_gate-Keeps call (some agent) = ask_if_active-Keeps agent.status
    where
      ask_if_active-Keeps : (status : AgentStatus) → Keeps P (ask_if_active s call status)
      ask_if_active-Keeps AgentStatus.active = ask_policy-Keeps call
      ask_if_active-Keeps AgentStatus.suspended = Keeps-pure _

  conclude-Keeps : (call : ToolCallRequest) (v : Verdict) → Keeps P (conclude s call v)
  unfolding conclude
  conclude-Keeps call v =
      Keeps-bind _ _ (call_port-Keeps _ _ (λ r. tt))
        λ receipt. Keeps-bind _ _ (call_port-Keeps _ _ (λ r. tt)) λ u. Keeps-pure _

  pub judge-Keeps : (call : ToolCallRequest) → Keeps P (judge s call)
  unfolding judge decide
  judge-Keeps call =
      Keeps-bind (decide s call) (conclude s call) (pass_gate-Keeps call call.registration)
        (conclude-Keeps call)

  receive-Keeps : (headers : Headers) (payload : Fields) → Keeps P (receive s headers payload)
  unfolding receive
  receive-Keeps headers payload = search (Keeps-bind, identified-Keeps, looked_up-Keeps, Keeps-lift)

  prepare-Keeps : (headers : Headers) (payload : Fields) → Keeps P (prepare s headers payload)
  unfolding prepare
  prepare-Keeps headers payload = search (Keeps-bind, receive-Keeps, verify_subject-Keeps)

  pub authorize-Keeps :
      (headers : Headers) (payload : Fields) → Keeps P (authorize s headers payload)
  unfolding authorize
  authorize-Keeps headers payload =
      Keeps-bind (prepare s headers payload) (judge s) (prepare-Keeps headers payload) judge-Keeps
