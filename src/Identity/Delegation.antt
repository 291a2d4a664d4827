-- ===== src/Identity/Delegation.antt =====
-- A delegated call through the OIDC adapters: the subject that it runs as and the sponsor of its agent.
use openagent_control.Prelude.{String, ◌≡◌, some}
use openagent_control.Text.{is_truthy as is_truthy_str}
use openagent_control.Json.{Json, Fields}
use openagent_control.Exec.{ok, Exec}
use openagent_control.Models.{SubjectIdentity, AuthorizationOutcome}
use openagent_control.Governed.Service.{Headers}
use openagent_control.Identity.Claims.{Decoded, claims}
use openagent_control.Identity.Discovery.{OidcJwks, OidcSubject}
use openagent_control.Identity.Subject.{subject_of}
use openagent_control.Identity.Trust.{IsBearer, IsProven}
use openagent_control.Identity.SameHuman.{SameHuman}

module _ (repr : Json → String) where
  -- The token library accepted the token at some moment, and returned these claims.
  abbrev pub Accepted : {E : Type 0} → (String → E → Decoded × E) → String → Fields → Type 0
  Accepted {E} decode token fields = (u : E) × (u' : E) × (decode token u ≡ (claims fields, u'))

  -- The two identities of a delegated call, and the tokens that they are made of.
  abbrev pub IsDelegated :
      {E : Type 0}
      → (String → E → Decoded × E)
      → (String → E → Decoded × E)
      → OidcJwks
      → OidcSubject
      → Headers
      → String
      → AuthorizationOutcome
      → Type 0
  IsDelegated decode decode_subject p q headers token o =
      (subject : SubjectIdentity) × (o.call.subject ≡ some subject)
      × (subject_claims : Fields) × Accepted decode_subject token subject_claims
      × (subject_of repr q subject_claims ≡ ok subject)
      × (agent_token : String) × IsBearer headers agent_token
      × (agent_claims : Fields) × Accepted decode agent_token agent_claims
      × IsProven repr p agent_claims o.call.agent
      × SameHuman repr agent_claims subject_claims o.call.agent subject
