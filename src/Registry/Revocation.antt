-- ===== src/Registry/Revocation.antt =====
-- Revocation: what the registry's `set_status` means for the gateway that looks agents up in it.
use openagent_control.Prelude.{String, ◌≡◌, refl, sym, ◌∙◌, inr, Bool, false, Option, some, eq_iff}
use openagent_control.Json.{Json, Fields}
use openagent_control.Exec.{ok}
use openagent_control.Models.{Instant, AgentStatus, RegisteredAgent, deny, AuthorizationOutcome}
use openagent_control.Governed.Service.{GovernedExecutionService, Headers, World}
use openagent_control.Governed.Flow.{authorize}
use openagent_control.Governed.Gate.{authorize-Gated}
use openagent_control.Governed.Lookup.{authorize-LookedUp}
use openagent_control.Registry.Tables.{Tables}
use openagent_control.Registry.Directory.{lookup, set_status}
use openagent_control.Registry.Reading.{ReadsBool}
use openagent_control.Registry.Changes.{with_status, lookup_ok, set_status-Holds}

module _ {E : Type 0} (s : GovernedExecutionService E) where
  -- A gateway whose registry port answers from these tables.
  abbrev pub LooksUpIn : (Json → Option Bool) → Tables → Type 0
  LooksUpIn bool_of t = (id : String) (e : E) → (s.lookup id e).0 ≡ lookup bool_of id t

  -- Once `set_status` has suspended an agent that the registry has, a gateway that looks agents up in
  -- those tables refuses each of its calls that it decides, in either decision mode: the outcome is a
  -- DENY that is neither allowed nor shadowed.
  pub authorize-set_status :
      (bool_of : Json → Option Bool) (now : Instant) (id operator : String) (t : Tables)
      (agent : RegisteredAgent) (headers : Headers) (payload : Fields) (w w' : World E)
      (o : AuthorizationOutcome)
      → ReadsBool bool_of
      → lookup bool_of id t ≡ ok (some agent)
      → LooksUpIn bool_of (set_status bool_of now id AgentStatus.suspended operator t).1
      → authorize s headers payload w ≡ (ok o, w')
      → o.call.agent.spiffe_id ≡ id
      → (o.allowed ≡ false) × (o.shadowed ≡ false) × (o.decision.decision ≡ deny)
  authorize-set_status bool_of now id operator t agent headers payload w w' o reads known through h
        caller =
      let (env, l) = authorize-LookedUp s headers payload w w' o h in
      let (_, _, _, key, _) = lookup_ok bool_of reads id t agent known in
      let (_, holds) =
        set_status-Holds bool_of reads now id AgentStatus.suspended operator t agent known in
      let answer : ok o.call.registration
          ≡ ok (some (with_status now AgentStatus.suspended agent)) =
        sym l
        ∙ through o.call.agent.spiffe_id env
        ∙ holds o.call.agent.spiffe_id
        ∙ rw ((eq_iff agent.spiffe_id o.call.agent.spiffe_id).1 (key ∙ sym caller)) refl in
      authorize-Gated s headers payload w w' o h
        (inr (with_status now AgentStatus.suspended agent, cc answer, refl))
