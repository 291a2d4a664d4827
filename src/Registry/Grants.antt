-- ===== src/Registry/Grants.antt =====
-- `normalize_tool_grants` and the validation of `ToolGrant` (domain/models.py). What pydantic takes for
-- a truth value is the parameter `bool_of`.
use openagent_control.Prelude.{
  String, Bool, false, Option, none, some, List, [], ◌∷◌, ◌==◌, if◌then◌else◌,
}
use openagent_control.Text.{is_blank}
use openagent_control.Json.{Json, null, str, arr, obj, Items, nil, cons, end, field, get}
use openagent_control.Exec.{Result, ok, err, uncaught, bind}
use openagent_control.Models.{RiskTier, AgentStatus, ToolGrant}

-- `RiskTier(value)`
unfoldable pub risk_tier_of : String → Result RiskTier
risk_tier_of value =
    if value == "low"
    then ok RiskTier.low
    else if value == "medium"
    then ok RiskTier.medium
    else if value == "high"
    then ok RiskTier.high
    else err (uncaught "ValueError: not a valid RiskTier")

-- `AgentStatus(value)`
unfoldable pub status_of : String → Result AgentStatus
status_of value =
    if value == "active"
    then ok AgentStatus.active
    else if value == "suspended"
    then ok AgentStatus.suspended
    else err (uncaught "ValueError: not a valid AgentStatus")

unfoldable pub normalize_entry : Json → Json
normalize_entry (str name) = obj (field "name" (str name) end)
normalize_entry entry = entry

abbrev normalize_entries : Items → Items
normalize_entries nil = nil
normalize_entries (cons entry entries) = cons (normalize_entry entry) (normalize_entries entries)

unfoldable pub normalize_tool_grants : Json → Json
normalize_tool_grants (arr entries) = arr (normalize_entries entries)
normalize_tool_grants value = value

-- The fields of `ToolGrant`: a name that is not blank, and three with defaults.
unfoldable pub grant_name : Option Json → Result String
grant_name (some (str name)) =
    if is_blank name
    then err (uncaught "ValidationError: granted_tools entry must name a tool")
    else ok name
grant_name _ = err (uncaught "ValidationError: name")

unfoldable pub grant_tier : Option Json → Result (Option RiskTier)
unfolding risk_tier_of
grant_tier none = ok none
grant_tier (some null) = ok none
grant_tier (some (str value)) = bind (risk_tier_of value) λ tier. ok (some tier)
grant_tier (some _) = err (uncaught "ValidationError: risk_tier")

unfoldable pub texts_of : Items → Result (List String)
texts_of nil = ok []
texts_of (cons (str s) items) = bind (texts_of items) λ texts. ok (s ∷ texts)
texts_of (cons _ items) = err (uncaught "ValidationError: required_roles")

unfoldable pub grant_roles : Option Json → Result (List String)
grant_roles none = ok []
grant_roles (some (arr items)) = texts_of items
grant_roles (some _) = err (uncaught "ValidationError: required_roles")

module _ (bool_of : Json → Option Bool) where
  unfoldable pub grant_approval : Option Json → Result Bool
  grant_approval none = ok false
  grant_approval (some value) = elim (bool_of value) [
    | none ↦ err (uncaught "ValidationError: approval_required")
    | some b ↦ ok b
  ]

  unfoldable pub validate_grant : Json → Result ToolGrant
  unfolding get grant_name grant_tier grant_approval grant_roles
  validate_grant (obj fields) = bind (grant_name (get "name" fields)) λ name.
      bind (grant_tier (get "risk_tier" fields)) λ tier.
        bind (grant_approval (get "approval_required" fields)) λ approval.
          bind (grant_roles (get "required_roles" fields)) λ roles. ok (record {
            name = name;
            risk_tier = tier;
            approval_required = approval;
            required_roles = roles;
          })
  validate_grant _ = err (uncaught "ValidationError: granted_tools")

  unfoldable pub validate_each : Items → Result (List ToolGrant)
  unfolding validate_grant
  validate_each nil = ok []
  validate_each (cons entry entries) =
      bind (validate_grant entry)
        λ grant. bind (validate_each entries) λ grants. ok (grant ∷ grants)

  -- The `granted_tools` field of `RegisteredAgent`: normalised, then validated.
  unfoldable pub validate_grants : Json → Result (List ToolGrant)
  unfolding normalize_tool_grants validate_each
  validate_grants value = elim (normalize_tool_grants value) [
    | arr entries ↦ validate_each entries
    | _ ↦ err (uncaught "ValidationError: granted_tools")
  ]
