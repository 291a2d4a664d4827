-- ===== src/Governed/Returns.antt =====
-- `judge` with a ledger, an audit export and a policy engine that answer.
use openagent_control.Prelude.{
  String, ◌≡◌, refl, ap, ◌⊎◌, inl, inr, Bool, not, ◌||◌, Option, none, some,
}
use openagent_control.Exec.{ok, err, policy_engine_unavailable, ◌>>=◌}
use openagent_control.Models.{
  AgentIdentity, AgentStatus, RegisteredAgent, ToolCallRequest, PolicyDecision, ExecutionReceipt,
  AuthorizationOutcome,
}
use openagent_control.Governed.Service.{GovernedExecutionService, World, call_port}
use openagent_control.Governed.Flow.{
  Verdict, is_allow, is_shadowed, fail_closed, ask_policy, ask_if_active, pass_gate, decide,
  conclude, judge,
}

module _ {E : Type 0} (s : GovernedExecutionService E)
    (records : (agent : AgentIdentity) (call : ToolCallRequest) (d : PolicyDecision)
        (enforced : Bool) (x : E)
      → (receipt : ExecutionReceipt) × ((s.record_receipt agent call d enforced x).0 ≡ ok receipt))
    (exports : (receipt : ExecutionReceipt) (x : E) → (s.export receipt x).0 ≡ ok tt)
    (answers : (call : ToolCallRequest) (x : E)
      → ((d : PolicyDecision) × ((s.evaluate call x).0 ≡ ok d))
        ⊎ ((message : String) × ((s.evaluate call x).0
              ≡ err (policy_engine_unavailable message)))) where
  conclude_returns :
      (call : ToolCallRequest) (v : Verdict) (w : World E)
      → (o : AuthorizationOutcome) × ((conclude s call v w).0 ≡ ok o)
  unfolding conclude call_port ◌>>=◌
  conclude_returns call v w =
      let (receipt, r) = records call.agent call v.decision (not (is_shadowed s v)) w.env in
      let e =
        exports receipt
          (s.record_receipt call.agent call v.decision (not (is_shadowed s v)) w.env).1 in
      (
        record {
          allowed = is_allow v.decision.decision || is_shadowed s v;
          decision = v.decision;
          receipt = receipt;
          call = call;
          shadowed = is_shadowed s v;
        },
        rw (r, e) refl,
      )

  ask_policy_returns :
      (call : ToolCallRequest) (w : World E) → (v : Verdict) × ((ask_policy s call w).0 ≡ ok v)
  unfolding ask_policy call_port fail_closed
  ask_policy_returns call w = elim (answers call w.env) [
    | inl (d, e) ↦ (_, ap fail_closed e)
    | inr (message, e) ↦ (_, ap fail_closed e)
  ]

  pass_gate_returns :
      (call : ToolCallRequest) (registration : Option RegisteredAgent) (w : World E)
      → (v : Verdict) × ((pass_gate s call registration w).0 ≡ ok v)
  unfolding pass_gate ask_if_active
  pass_gate_returns call none w = (_, refl)
  pass_gate_returns call (some agent) w = active_returns agent.status
    where
      active_returns :
          (status : AgentStatus) → (v : Verdict) × ((ask_if_active s call status w).0 ≡ ok v)
      active_returns AgentStatus.active = ask_policy_returns call w
      active_returns AgentStatus.suspended = (_, refl)

  -- If the ledger and the audit export return, and the policy engine answers or raises that it is
  -- unavailable, `judge` returns an outcome for every call.
  pub judge_returns :
      (call : ToolCallRequest) (w : World E)
      → (o : AuthorizationOutcome) × ((judge s call w).0 ≡ ok o)
  unfolding judge decide ◌>>=◌
  judge_returns call w =
      let (v, e) = pass_gate_returns call call.registration w in
      let (o, c) = conclude_returns call v (decide s call w).1 in (o, rw e c)
