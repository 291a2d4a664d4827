-- ===== src/Governed/Stages.antt =====
-- What each stage of `_authorize` leaves behind when it returns.
use openagent_control.Prelude.{◌≡◌, ◌⊎◌, true, false, not, ◌||◌, some, ◌∷◌, arith}
use openagent_control.Json.{Fields}
use openagent_control.Exec.{ok, ◌>>=◌, >>=-eq-ok}
use openagent_control.Models.{
  AgentStatus, RegisteredAgent, ToolCallRequest, deny, PolicyDecision, AuthorizationOutcome,
}
use openagent_control.Governed.Service.{
  GovernedExecutionService, Headers, evaluated, recorded, exported, World, call_port,
}
use openagent_control.Governed.Flow.{
  Verdict, decide, ask_policy, conclude, is_shadowed, is_allow, prepare, judge, authorize,
}

module _ {E : Type 0} (s : GovernedExecutionService E) where
  -- What `conclude` has done to the trace, and how its outcome comes from the verdict.
  abbrev pub Concluded :
      ToolCallRequest → Verdict → World E → World E → AuthorizationOutcome → Type 0
  Concluded call v w w' o =
      (w'.trace
        ≡ exported o.receipt (ok tt)
          ∷ recorded call.agent call v.decision (not (is_shadowed s v)) (ok o.receipt)
          ∷ w.trace)
      × (o.call ≡ call)
      × (o.decision ≡ v.decision)
      × (o.shadowed ≡ is_shadowed s v)
      × (o.allowed ≡ (is_allow v.decision.decision || is_shadowed s v))

  pub conclude_ok :
      (call : ToolCallRequest) (v : Verdict) (w w' : World E) (o : AuthorizationOutcome)
      → conclude s call v w ≡ (ok o, w')
      → Concluded call v w w' o
  unfolding conclude call_port ◌>>=◌
  conclude_ok call v w w' o h = ground arith

  -- The verdict of the policy engine on this very call, for an active agent.
  abbrev pub FromPolicy : ToolCallRequest → PolicyDecision → World E → World E → Type 0
  FromPolicy call d w w' =
      (agent : RegisteredAgent) × (call.registration ≡ some agent)
      × (agent.status ≡ AgentStatus.active)
      × (w'.trace ≡ evaluated call (ok d) ∷ w.trace)

  -- A verdict is the policy engine's, or a DENY that shadow mode never softens.
  abbrev pub Decided : ToolCallRequest → Verdict → World E → World E → Type 0
  Decided call v w w' =
      ((v.shadowable ≡ true) × FromPolicy call v.decision w w')
      ⊎ ((v.shadowable ≡ false) × (v.decision.decision ≡ deny))

  pub decide_ok :
      (call : ToolCallRequest) (v : Verdict) (w w' : World E)
      → decide s call w ≡ (ok v, w')
      → Decided call v w w'
  unfolding decide ask_policy
  decide_ok call v w w' h = ground arith

  -- An authorization that returns has decided and receipted some call.
  pub authorize_ok :
      (headers : Headers) (payload : Fields) (w w' : World E) (o : AuthorizationOutcome)
      → authorize s headers payload w ≡ (ok o, w')
      → (call : ToolCallRequest) × (v : Verdict) × (u : World E) × (u' : World E) × (prepare s
            headers payload w
          ≡ (ok call, u))
        × (judge s call u ≡ (ok o, w'))
        × Decided call v u u'
        × Concluded call v u' w' o
  unfolding authorize judge
  authorize_ok headers payload w w' o h =
      let (call, u, p, j) = >>=-eq-ok (prepare s headers payload) (judge s) w h in
      let (v, u', d, c) = >>=-eq-ok (decide s call) (conclude s call) u j in
      (call, v, u, u', p, j, decide_ok call v u u' d, conclude_ok call v u' w' o c)
