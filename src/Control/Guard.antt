-- ===== src/Control/Guard.antt =====
-- The routes of routes/agents.py and routes/receipts.py, asked by a caller that is no operator.
use openagent_control.Prelude.{String, ◌≡◌, Option, ap}
use openagent_control.Exec.{err, identity}
use openagent_control.Models.{Instant, AgentStatus}
use openagent_control.Governed.Service.{Headers}
use openagent_control.Registry.Directory.{AgentPatch}
use openagent_control.Ledger.Search.{Filter}
use openagent_control.Control.Routes.{
  ControlPlane, http_exception, Route, CreateAgentRequest, on_identity, as_operator, list_agents,
  get_agent, create_agent, update_agent, suspend_agent, activate_agent, search_receipts,
  verify_receipts, read_receipt,
}

-- The route answers with that status, and the state is what the identification left.
abbrev pub Refuses : {E A : Type 0} → Route E A → E → E → String → Type 0
Refuses route w w' message = route w ≡ (http_exception 401 message, w')

module _ {E : Type 0} (c : ControlPlane E) where
  -- If the operator's identification raises an identity error, each of the six routes of routes/agents.py
  -- and of the three of routes/receipts.py answers with the status 401 and that error's text, and leaves
  -- the state that the identification left.
  pub routes-Refuses :
      (headers : Headers) (times : Instant × Instant) (body : CreateAgentRequest)
      (patch : AgentPatch) (status : Option AgentStatus) (filter : Filter)
      (spiffe_id sequence_id : String) (w w' : E) (message : String)
      → c.identify headers w ≡ (err (identity message), w')
      → Refuses (list_agents c headers status) w w' message
        × Refuses (get_agent c headers spiffe_id) w w' message
        × Refuses (create_agent c headers times body) w w' message
        × Refuses (update_agent c headers spiffe_id patch) w w' message
        × Refuses (suspend_agent c headers spiffe_id) w w' message
        × Refuses (activate_agent c headers spiffe_id) w w' message
        × Refuses (search_receipts c headers filter) w w' message
        × Refuses (verify_receipts c headers) w w' message
        × Refuses (read_receipt c headers sequence_id) w w' message
  unfolding list_agents get_agent create_agent update_agent suspend_agent activate_agent
      search_receipts verify_receipts read_receipt as_operator on_identity
  routes-Refuses headers times body patch status filter spiffe_id sequence_id w w' message h =
      let raised = ap (λ q. q.0) h in
      let left = ap (λ q. q.1) h in
      (
        rw (list_agents, as_operator, raised, left, on_identity),
        rw (get_agent, as_operator, raised, left, on_identity),
        rw (create_agent, as_operator, raised, left, on_identity),
        rw (update_agent, as_operator, raised, left, on_identity),
        rw (suspend_agent, as_operator, raised, left, on_identity),
        rw (activate_agent, as_operator, raised, left, on_identity),
        rw (search_receipts, as_operator, raised, left, on_identity),
        rw (verify_receipts, as_operator, raised, left, on_identity),
        rw (read_receipt, as_operator, raised, left, on_identity),
      )
