-- ===== src/Governed/Permit.antt =====
-- The trace of `authorize` and `execute` (application/governed_execution.py) read as a whole: which
-- events must stand before a token exchange and before a forward.
use openagent_control.Prelude.{
  String, ◌≡◌, refl, ◌⊎◌, inl, inr, Bool, true, false, not, some, List, [], ◌∷◌, arith, Bool-cases,
  ◌==◌, ap, ◌&&◌, not,
}
use openagent_control.Text.{lower, partition, is_truthy as is_truthy_str, ◌<>◌}
use openagent_control.Json.{Fields}
use openagent_control.Exec.{Result, ok, err, ◌>>=◌, continue}
use openagent_control.Models.{
  AgentStatus, RegisteredAgent, ToolCallRequest, allow, PolicyDecision, ExecutionReceipt,
  AuthorizationOutcome,
}
use openagent_control.Governed.Service.{
  GovernedExecutionService, observe, Headers, Event, identified, looked_up, verified, evaluated,
  recorded, exported, exchanged, forwarded, World, call_port,
}
use openagent_control.Governed.Subject.{header, or_empty, is_set}
use openagent_control.Governed.Flow.{
  Verdict, is_shadowed, authorize, broker_credential, forward_call, respond, exchange_port,
  with_credential, run_allowed, execute,
}
use openagent_control.Governed.Keeps.{IsPassive, Keeps, authorize-Keeps}
use openagent_control.Governed.Stages.{authorize_ok, Concluded, Decided}

module _ {E : Type 0} (s : GovernedExecutionService E) where
  -- The trace ends in a receipted and exported decision of the policy engine that lets `call` pass:
  -- an ALLOW, or anything in observe mode, then marked as not enforced.
  abbrev pub Permitted : ToolCallRequest → List Event → Type 0
  Permitted call trace =
      (agent : RegisteredAgent) × (d : PolicyDecision) × (enforced : Bool)
      × (receipt : ExecutionReceipt) × (earlier : List Event) × (trace
          ≡ exported receipt (ok tt)
            ∷ recorded call.agent call d enforced (ok receipt)
            ∷ evaluated call (ok d)
            ∷ earlier)
      × (call.registration ≡ some agent)
      × (agent.status ≡ AgentStatus.active)
      × ((d.decision ≡ allow) ⊎ ((enforced ≡ false) × (s.decision_mode ≡ observe)))

  -- The credential came from the exchange that stands right before, or is the placeholder.
  abbrev pub Brokered : ToolCallRequest → String → List Event → Type 0
  Brokered call credential trace =
      ((credential ≡ "autonomous::" <> call.agent.spiffe_id) × Permitted call trace)
      ⊎ ((token : String) × (earlier : List Event) × (trace
            ≡ exchanged token s.delegated_audience (ok credential) ∷ earlier)
          × Permitted call earlier)

  abbrev pub IsGoverned : List Event → Type 0
  IsGoverned [] = Unit
  IsGoverned (forwarded call credential r ∷ t) = Brokered call credential t × IsGoverned t
  IsGoverned (exchanged token audience r ∷ t) =
      ((call : ToolCallRequest) × Permitted call t) × IsGoverned t
  IsGoverned (identified h r ∷ t) = IsGoverned t
  IsGoverned (looked_up i r ∷ t) = IsGoverned t
  IsGoverned (verified k r ∷ t) = IsGoverned t
  IsGoverned (evaluated c r ∷ t) = IsGoverned t
  IsGoverned (recorded a c d e r ∷ t) = IsGoverned t
  IsGoverned (exported r x ∷ t) = IsGoverned t

  IsGoverned-IsPassive :
      (e : Event) (t : List Event) → IsPassive e → IsGoverned t → IsGoverned (e ∷ t)
  IsGoverned-IsPassive (exchanged token audience r) t p h = absurd p
  IsGoverned-IsPassive (forwarded call credential r) t p h = absurd p
  IsGoverned-IsPassive _ t p h = h

  verdict_permits :
      (call : ToolCallRequest) (v : Verdict) (w u w' : World E) (o : AuthorizationOutcome)
      → Decided s call v w u
      → Concluded s call v u w' o
      → o.allowed ≡ true
      → Permitted call w'.trace
  unfolding is_shadowed
  verdict_permits call v w u w' o (inl (sh, (agent, reg, act, asked))) c a = (
    agent,
    v.decision,
    not (is_shadowed s v),
    o.receipt,
    w.trace,
    rw (c.0, asked) refl,
    reg,
    act,
    ground arith,
  )
  verdict_permits call v w u w' o (inr (sh, den)) c a = ground arith

  authorize_permits :
      (headers : Headers) (payload : Fields) (w w' : World E) (o : AuthorizationOutcome)
      → authorize s headers payload w ≡ (ok o, w')
      → o.allowed ≡ true
      → Permitted o.call w'.trace
  authorize_permits headers payload w w' o h a =
      let (call, v, u, u', _, _, d, c) = authorize_ok s headers payload w w' o h in
      rw c.1 (verdict_permits call v u u' w' o d c a)

  -- Brokering keeps the trace governed, and what it returns is what the forward may carry.
  abbrev Ready : ToolCallRequest → Result String → World E → Type 0
  Ready call r w =
      IsGoverned w.trace
      × ((credential : String) → r ≡ ok credential → Brokered call credential w.trace)

  exchange-Ready :
      (call : ToolCallRequest) (token : String) (w : World E)
      → IsGoverned w.trace
      → Permitted call w.trace
      → let (r, w') = exchange_port s token w in Ready call r w'
  unfolding call_port
  exchange-Ready call token w h p =
      (((call, p), h), λ credential e. inr (token, w.trace, rw e refl, p))

  broker-Ready :
      (call : ToolCallRequest) (headers : Headers) (w : World E)
      → IsGoverned w.trace
      → Permitted call w.trace
      → let (r, w') = broker_credential s call.agent headers w in Ready call r w'
  unfolding broker_credential
  broker-Ready call headers w h p =
      let token = or_empty (header "x-subject-token" headers) in
      let bearer = partition (or_empty (header "authorization" headers)) in
      elim (Bool-cases (is_set call.agent.human_sponsor)) [
        | inl e ↦ rw e (elim (Bool-cases (is_truthy_str token)) [
          | inl t ↦ rw t (exchange-Ready call token w h p)
          | inr t ↦ rw t (h, λ c x. cc)
        ])
        | inr e ↦ rw e (elim (Bool-cases (lower bearer.0 == "bearer" && is_truthy_str bearer.1)) [
          | inl t ↦ rw t (exchange-Ready call bearer.1 w h p)
          | inr t ↦ rw t (h, λ c x. inl (cc, p))
        ])
      ]

  forward-IsGoverned :
      (call : ToolCallRequest) (r : Result String) (w : World E)
      → Ready call r w
      → IsGoverned (with_credential s call r w).1.trace
  unfolding with_credential forward_call
  forward-IsGoverned call (ok credential) w h = (h.1 credential refl, h.0)
  forward-IsGoverned call (err e) w h = ground (arith, h.0)

  run_allowed-IsGoverned :
      (call : ToolCallRequest) (headers : Headers) (w : World E)
      → IsGoverned w.trace
      → Permitted call w.trace
      → IsGoverned (run_allowed s call headers w).1.trace
  unfolding run_allowed
  run_allowed-IsGoverned call headers w h p =
      let (r, w') = broker_credential s call.agent headers w in
      forward-IsGoverned call r w' (broker-Ready call headers w h p)

  respond-IsGoverned :
      (o : AuthorizationOutcome) (headers : Headers) (w : World E)
      → IsGoverned w.trace
      → (o.allowed ≡ true → Permitted o.call w.trace)
      → IsGoverned (respond s o headers w).1.trace
  unfolding respond
  respond-IsGoverned o headers w h p = elim (Bool-cases o.allowed) [
    | inl e ↦ rw e (run_allowed-IsGoverned o.call headers w h (p e))
    | inr e ↦ rw e h
  ]

  continue-IsGoverned :
      (r : Result AuthorizationOutcome) (headers : Headers) (v : World E)
      → IsGoverned v.trace
      → ((o : AuthorizationOutcome) → r ≡ ok o → o.allowed ≡ true → Permitted o.call v.trace)
      → IsGoverned (continue r (λ o. respond s o headers) v).1.trace
  continue-IsGoverned (ok o) headers v h p = respond-IsGoverned o headers v h (p o refl)
  continue-IsGoverned (err e) headers v h p = h

  -- `execute` keeps a governed trace governed, whether it returns or raises: a credential is
  -- exchanged, and a call forwarded, only behind a permit for that call, and the forward carries
  -- the credential just brokered.
  pub execute-Keeps :
      (headers : Headers) (payload : Fields) → Keeps IsGoverned (execute s headers payload)
  unfolding execute ◌>>=◌
  execute-Keeps headers payload = record {
    at = λ w h.
        let (r, v) = authorize s headers payload w in
        continue-IsGoverned r headers v
          ((authorize-Keeps s IsGoverned-IsPassive headers payload).at w h)
          λ o e. authorize_permits headers payload w v o (ap (λ x. (x, v)) e);
  }

pub data Request : Type 0 where
  authorize_request execute_request : Headers → Fields → Request

-- What a process does with its requests, one after the other; a raise ends only its own request.
module _ {E : Type 0} (s : GovernedExecutionService E) where
  pub handle : Request → World E → World E
  handle (authorize_request headers payload) w = (authorize s headers payload w).1
  handle (execute_request headers payload) w = (execute s headers payload w).1

  pub serve : List Request → World E → World E
  unfolding handle
  serve [] w = w
  serve (r ∷ rs) w = serve rs (handle r w)

  handle-IsGoverned :
      (r : Request) (w : World E) → IsGoverned s w.trace → IsGoverned s (handle r w).trace
  unfolding handle
  handle-IsGoverned (authorize_request headers payload) w h =
      (authorize-Keeps s (IsGoverned-IsPassive s) headers payload).at w h
  handle-IsGoverned (execute_request headers payload) w h = (execute-Keeps s headers payload).at w h

  -- Whatever requests are served and whatever the ports answer, a governed trace, such as the empty
  -- one, stays governed: each token exchange stands right behind a permit for some call, and each
  -- forward right behind a permit for its own call, with at most the exchange that brokered its
  -- credential between. A permit is a decision of the policy engine on that call, for a registered and
  -- active agent, that is an ALLOW or is left unenforced in observe mode, receipted and exported.
  pub serve-IsGoverned :
      (rs : List Request) (w : World E) → IsGoverned s w.trace → IsGoverned s (serve rs w).trace
  unfolding serve
  serve-IsGoverned [] w h = h
  serve-IsGoverned (r ∷ rs) w h = serve-IsGoverned rs (handle r w) (handle-IsGoverned r w h)
