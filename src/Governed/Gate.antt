-- ===== src/Governed/Gate.antt =====
-- What decides a call: the registry gate, the policy engine and its outage, and shadow mode.
use openagent_control.Prelude.{
  subst, String, ◌≡◌, ◌⊎◌, ◌↔◌, true, false, not, none, some, List, ◌∷◌, arith,
}
use openagent_control.Json.{Fields}
use openagent_control.Exec.{ok, err, policy_engine_unavailable, ◌>>=◌}
use openagent_control.Models.{
  AgentStatus, RegisteredAgent, ToolCallRequest, allow, deny, AuthorizationOutcome,
}
use openagent_control.Governed.Service.{
  GovernedExecutionService, observe, Headers, Event, evaluated, recorded, exported, World,
  call_port,
}
use openagent_control.Governed.Flow.{
  Verdict, ask_policy, judge, decide, conclude, is_shadowed, authorize, fail_closed_reason,
}
use openagent_control.Governed.Stages.{authorize_ok, Concluded}

module _ {E : Type 0} (s : GovernedExecutionService E) where
  -- The gate's own test: no record, or a record that is not active.
  abbrev pub Gated : ToolCallRequest → Type 0
  Gated call =
      (call.registration ≡ none)
      ⊎ ((agent : RegisteredAgent) × (call.registration ≡ some agent)
          × (agent.status ≡ AgentStatus.suspended))

  -- An enforced refusal that has been receipted and exported, on top of the trace of `w`.
  abbrev pub Refused : ToolCallRequest → AuthorizationOutcome → World E → World E → Type 0
  Refused call o w w' =
      (o.allowed ≡ false)
      × (o.shadowed ≡ false)
      × (o.decision.decision ≡ deny)
      × (w'.trace
          ≡ exported o.receipt (ok tt)
            ∷ recorded call.agent call o.decision true (ok o.receipt)
            ∷ w.trace)

  -- When `judge` returns an outcome for an orphaned or a suspended agent, in either decision mode, the
  -- outcome is a DENY that is neither allowed nor shadowed, and all that happened is that it was
  -- receipted as enforced and exported: the policy engine was not asked.
  pub judge-Gated :
      (call : ToolCallRequest) (w w' : World E) (o : AuthorizationOutcome)
      → Gated call
      → judge s call w ≡ (ok o, w')
      → Refused call o w w'
  unfolding judge decide ask_policy conclude call_port ◌>>=◌
  judge-Gated call w w' o g h = ground arith

  -- When `judge` returns an outcome for an active agent while the policy engine is unavailable, in
  -- either decision mode, the outcome is a DENY with the fail-closed reason that is neither allowed nor
  -- shadowed, and after the failed evaluation it was receipted as enforced and exported.
  pub judge_outage :
      (call : ToolCallRequest) (agent : RegisteredAgent) (message : String) (w w' : World E)
      (o : AuthorizationOutcome)
      → call.registration ≡ some agent
      → agent.status ≡ AgentStatus.active
      → (s.evaluate call w.env).0 ≡ err (policy_engine_unavailable message)
      → judge s call w ≡ (ok o, w')
      → (o.decision.reason ≡ fail_closed_reason)
        × Refused call o
            (record {
              env = (s.evaluate call w.env).1;
              trace = evaluated call (err (policy_engine_unavailable message)) ∷ w.trace;
            })
            w'
  unfolding judge decide ask_policy conclude call_port ◌>>=◌
  judge_outage call agent message w w' o reg act out h = ground arith

  -- When `authorize` returns an outcome whose call is of an orphaned or a suspended agent, in either
  -- decision mode, it is a DENY that is neither allowed nor shadowed.
  pub authorize-Gated :
      (headers : Headers) (payload : Fields) (w w' : World E) (o : AuthorizationOutcome)
      → authorize s headers payload w ≡ (ok o, w')
      → Gated o.call
      → (o.allowed ≡ false) × (o.shadowed ≡ false) × (o.decision.decision ≡ deny)
  authorize-Gated headers payload w w' o h g =
      let (call, v, u, u', prep, jud, d, c) = authorize_ok s headers payload w w' o h in
      let (a, b, e, _) = judge-Gated call u w' o (subst Gated c.1 g) jud in (a, b, e)

  -- How the fields of an outcome hang together.
  abbrev pub IsCoherent : AuthorizationOutcome → Type 0
  IsCoherent o =
      ((o.allowed ≡ true) ↔ ((o.decision.decision ≡ allow) ⊎ (o.shadowed ≡ true)))
      × ((o.shadowed ≡ false) ⊎ ((o.decision.decision ≡ deny) × (s.decision_mode ≡ observe)))

  outcome-IsCoherent :
      (call : ToolCallRequest) (v : Verdict) (w w' : World E) (o : AuthorizationOutcome)
      → Concluded s call v w w' o
      → IsCoherent o
  unfolding is_shadowed
  outcome-IsCoherent call v w w' o c = (((λ a. ground arith), λ a. ground arith), ground arith)

  -- Of an outcome that `authorize` returns: `allowed` is true exactly for an ALLOW or a shadowed
  -- decision, a shadowed decision is a DENY in observe mode, and the last two events are the receipt of
  -- the outcome's call and decision, enforced unless shadowed, and its export.
  pub authorize-IsCoherent :
      (headers : Headers) (payload : Fields) (w w' : World E) (o : AuthorizationOutcome)
      → authorize s headers payload w ≡ (ok o, w')
      → IsCoherent o
        × ((earlier : List Event) × (w'.trace
              ≡ exported o.receipt (ok tt)
                ∷ recorded o.call.agent o.call o.decision (not o.shadowed) (ok o.receipt)
                ∷ earlier))
  authorize-IsCoherent headers payload w w' o h =
      let (call, v, u, u', _, _, d, c) = authorize_ok s headers payload w w' o h in
      (outcome-IsCoherent call v u' w' o c, (u'.trace, cc (c.0, c.1, c.2, c.3)))
