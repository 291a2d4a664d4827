-- ===== src/Control/Routes.antt =====
-- control_plane/auth.py, routes/agents.py and routes/receipts.py. A route depends on the operator's
-- identity before its body runs, and answers or raises an HTTPException. The framework's reading of a
-- request into its models and its rendering of an answer are left out.
use openagent_control.Prelude.{ℕ, String, Option, none, some, List}
use openagent_control.Text.{◌<>◌}
use openagent_control.Exec.{Result, ok, err, Error, identity, agent_not_found, Exec}
use openagent_control.Models.{
  Instant, AgentStatus, RiskTier, ToolGrant, RegisteredAgent, ExecutionReceipt,
}
use openagent_control.Governed.Service.{Headers}
use openagent_control.Registry.Directory.{AgentPatch}
use openagent_control.Ledger.Query.{ChainVerificationResult}
use openagent_control.Ledger.Search.{Filter}

-- The fields of `ControlPlaneContainer` that the routes use, over the state of the databases.
pub record ControlPlane (E : Type 0) : Type 0 where
  pub identify : Headers → Exec E String
  pub lookup : String → Exec E (Option RegisteredAgent)
  pub list_agents : Option AgentStatus → Exec E (List RegisteredAgent)
  pub create : RegisteredAgent → String → Exec E RegisteredAgent
  pub update : String → AgentPatch → String → Exec E RegisteredAgent
  pub set_status : String → AgentStatus → String → Exec E RegisteredAgent
  pub search : Filter → Exec E (List ExecutionReceipt)
  pub verify_chain : Exec E ChainVerificationResult
  pub get : String → Exec E (Option ExecutionReceipt)
  -- `RegisteredAgent(...)`, which validates its fields
  pub register : RegisteredAgent → Result RegisteredAgent

pub data Reply (A : Type 0) : Type 0 where
  answer : A → Reply A
  http_exception : ℕ → String → Reply A
  raised : Error → Reply A

abbrev pub Route : Type 0 → Type 0 → Type 0
Route E A = E → Reply A × E

-- The handlers of the routes.
unfoldable pub on_identity : {A : Type 0} → Error → Reply A
on_identity (identity message) = http_exception 401 message
on_identity e = raised e

unfoldable pub on_missing : {A : Type 0} → Result A → Reply A
on_missing (ok a) = answer a
on_missing (err (agent_not_found message)) = http_exception 404 message
on_missing (err e) = raised e

abbrev pub reply : {A : Type 0} → Result A → Reply A
reply (ok a) = answer a
reply (err e) = raised e

-- `if x is None: raise HTTPException(404, …)`
unfoldable pub or_404 : {A : Type 0} → String → Result (Option A) → Reply A
or_404 missing (ok none) = http_exception 404 missing
or_404 missing (ok (some a)) = answer a
or_404 missing (err e) = raised e

pub record CreateAgentRequest : Type 0 where
  pub spiffe_id : String
  pub display_name : String
  pub purpose : String
  pub owner : String
  pub risk_tier : RiskTier
  pub granted_tools : List ToolGrant

-- The record that `create_agent` makes of its body. The two times are those of two clock readings.
unfoldable pub agent_of : Instant × Instant → CreateAgentRequest → RegisteredAgent
agent_of (created, updated) body = record {
  spiffe_id = body.spiffe_id;
  display_name = body.display_name;
  purpose = body.purpose;
  owner = body.owner;
  risk_tier = body.risk_tier;
  status = AgentStatus.active;
  granted_tools = body.granted_tools;
  created_at = created;
  updated_at = updated;
  status_changed_at = none;
}

module _ {E : Type 0} (c : ControlPlane E) where
  -- `get_operator_subject`
  unfoldable pub operator_subject : Headers → Route E String
  unfolding on_identity
  operator_subject headers w =
      let (r, w') = c.identify headers w in
      elim r [ ok operator ↦ (answer operator, w') | err e ↦ (on_identity e, w') ]

  -- A route behind that dependency.
  unfoldable pub as_operator : {A : Type 0} → Headers → (String → Route E A) → Route E A
  unfolding on_identity
  as_operator headers route w =
      let (r, w') = c.identify headers w in
      elim r [ ok operator ↦ route operator w' | err e ↦ (on_identity e, w') ]

  abbrev answered : {A : Type 0} → (Result A → Reply A) → Exec E A → Route E A
  answered f m w = let (r, w') = m w in (f r, w')

  unfoldable pub list_agents : Headers → Option AgentStatus → Route E (List RegisteredAgent)
  unfolding as_operator
  list_agents headers status = as_operator headers λ operator. answered reply (c.list_agents status)

  unfoldable pub get_agent : Headers → String → Route E RegisteredAgent
  unfolding as_operator or_404
  get_agent headers spiffe_id = as_operator headers λ operator w.
      let (r, w') = c.lookup spiffe_id w in
      (or_404 ("no agent registered as '" <> spiffe_id <> "'") r, w')

  unfoldable pub create_agent :
      Headers → Instant × Instant → CreateAgentRequest → Route E RegisteredAgent
  unfolding as_operator agent_of
  create_agent headers now body = as_operator headers λ operator w.
      elim (c.register (agent_of now body)) [
        | ok agent ↦ answered reply (c.create agent operator) w
        | err e ↦ (raised e, w)
      ]

  unfoldable pub update_agent : Headers → String → AgentPatch → Route E RegisteredAgent
  unfolding as_operator on_missing
  update_agent headers spiffe_id patch =
      as_operator headers λ operator. answered on_missing (c.update spiffe_id patch operator)

  unfoldable pub suspend_agent : Headers → String → Route E RegisteredAgent
  unfolding as_operator on_missing
  suspend_agent headers spiffe_id =
      as_operator headers
        λ operator. answered on_missing (c.set_status spiffe_id AgentStatus.suspended operator)

  unfoldable pub activate_agent : Headers → String → Route E RegisteredAgent
  unfolding as_operator on_missing
  activate_agent headers spiffe_id =
      as_operator headers
        λ operator. answered on_missing (c.set_status spiffe_id AgentStatus.active operator)

  unfoldable pub search_receipts : Headers → Filter → Route E (List ExecutionReceipt)
  unfolding as_operator
  search_receipts headers filter = as_operator headers λ operator. answered reply (c.search filter)

  unfoldable pub verify_receipts : Headers → Route E ChainVerificationResult
  unfolding as_operator
  verify_receipts headers = as_operator headers λ operator. answered reply c.verify_chain

  unfoldable pub read_receipt : Headers → String → Route E ExecutionReceipt
  unfolding as_operator or_404
  read_receipt headers sequence_id = as_operator headers λ operator w.
      let (r, w') = c.get sequence_id w in (or_404 ("no receipt '" <> sequence_id <> "'") r, w')
