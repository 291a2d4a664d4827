-- ===== src/Registry/Reading.antt =====
-- Writing an agent to a row and reading it, `_to_domain`: grants, tiers, statuses, the whole agent.
use openagent_control.Prelude.{
  String, ◌≡◌, refl, Bool, false, Option, some, List, [], ◌∷◌, inl, inr, Option-cases, All,
}
use openagent_control.Text.{is_blank}
use openagent_control.Json.{Json, bool, str, arr, get}
use openagent_control.Exec.{ok}
use openagent_control.Models.{
  RiskTier, AgentStatus, ToolGrant, RegisteredAgent, status_value, risk_tier_value,
}
use openagent_control.Ledger.Documents.{array, dump_grant}
use openagent_control.Registry.Grants.{
  risk_tier_of, status_of, normalize_entry, normalize_tool_grants, grant_name, grant_tier, texts_of,
  grant_roles, grant_approval, validate_grant, validate_each, validate_grants,
}
use openagent_control.Registry.Tables.{to_domain}
use openagent_control.Registry.Directory.{dump_grant_set, row_of}

pub risk_tier_of-risk_tier_value : (t : RiskTier) → risk_tier_of (risk_tier_value t) ≡ ok t
unfolding risk_tier_of
risk_tier_of-risk_tier_value RiskTier.low = refl
risk_tier_of-risk_tier_value RiskTier.medium = refl
risk_tier_of-risk_tier_value RiskTier.high = refl

pub status_of-status_value : (s : AgentStatus) → status_of (status_value s) ≡ ok s
unfolding status_of
status_of-status_value AgentStatus.active = refl
status_of-status_value AgentStatus.suspended = refl

texts_of-array : (xs : List String) → texts_of (array str xs) ≡ ok xs
unfolding texts_of
texts_of-array [] = refl
texts_of-array (x ∷ xs) = rw (texts_of-array xs) refl

-- What the validator of `ToolGrant` asks of a name.
abbrev pub IsNamed : ToolGrant → Type 0
IsNamed g = is_blank g.name ≡ false

abbrev pub ReadsBool : (Json → Option Bool) → Type 0
ReadsBool bool_of = (b : Bool) → bool_of (bool b) ≡ some b

module _ (bool_of : Json → Option Bool) (reads : ReadsBool bool_of) where
  validate_grant-dump_grant :
      (g : ToolGrant) → IsNamed g → validate_grant bool_of (dump_grant g) ≡ ok g
  unfolding validate_grant dump_grant get grant_name grant_tier grant_roles grant_approval
  validate_grant-dump_grant g h = elim (Option-cases g.risk_tier) [
    | inl none_set ↦
        rw (h, none_set, reads g.approval_required, texts_of-array g.required_roles) refl
    | inr (tier, one_set) ↦
        rw
          (
            h,
            one_set,
            risk_tier_of-risk_tier_value tier,
            reads g.approval_required,
            texts_of-array g.required_roles,
          )
          refl
  ]

  validate_grant-dump_grant_set :
      (g : ToolGrant) → IsNamed g → validate_grant bool_of (dump_grant_set g) ≡ ok g
  unfolding validate_grant dump_grant_set get grant_name grant_tier grant_roles grant_approval
  validate_grant-dump_grant_set g h = elim (Option-cases g.risk_tier) [
    | inl none_set ↦
        rw (h, none_set, reads g.approval_required, texts_of-array g.required_roles) refl
    | inr (tier, one_set) ↦
        rw
          (
            h,
            one_set,
            risk_tier_of-risk_tier_value tier,
            reads g.approval_required,
            texts_of-array g.required_roles,
          )
          refl
  ]

  validate_each-array :
      (dump : ToolGrant → Json)
      → ((g : ToolGrant) → IsNamed g → validate_grant bool_of (dump g) ≡ ok g)
      → ((g : ToolGrant) → normalize_entry (dump g) ≡ dump g)
      → (gs : List ToolGrant) → All IsNamed gs
      → validate_grants bool_of (arr (array dump gs)) ≡ ok gs
  unfolding validate_grants validate_each normalize_tool_grants
  validate_each-array dump one same [] h = refl
  validate_each-array dump one same (g ∷ gs) h =
      rw (same g, one g h.0, validate_each-array dump one same gs h.1) refl

  pub validate_grants-dump_grant :
      (gs : List ToolGrant)
      → All IsNamed gs
      → validate_grants bool_of (arr (array dump_grant gs)) ≡ ok gs
  unfolding dump_grant normalize_entry
  validate_grants-dump_grant = validate_each-array dump_grant validate_grant-dump_grant (λ g. refl)

  pub validate_grants-dump_grant_set :
      (gs : List ToolGrant)
      → All IsNamed gs
      → validate_grants bool_of (arr (array dump_grant_set gs)) ≡ ok gs
  unfolding dump_grant_set normalize_entry
  validate_grants-dump_grant_set =
      validate_each-array dump_grant_set validate_grant-dump_grant_set (λ g. refl)

  -- The row that `create` inserts reads back as the agent.
  pub to_domain-row_of :
      (agent : RegisteredAgent)
      → All IsNamed agent.granted_tools
      → to_domain bool_of (row_of agent) ≡ ok agent
  unfolding to_domain row_of
  to_domain-row_of agent h =
      rw
        (
          risk_tier_of-risk_tier_value agent.risk_tier,
          status_of-status_value agent.status,
          validate_grants-dump_grant agent.granted_tools h,
        )
        refl
