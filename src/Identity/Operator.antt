-- ===== src/Identity/Operator.antt =====
-- adapters/operator_identity: who may operate the control plane. `hmac.compare_digest` is a parameter.
use openagent_control.Prelude.{String, Bool, false, ◌||◌, if◌then◌else◌}
use openagent_control.Text.{◌<>◌, is_truthy as is_truthy_str}
use openagent_control.Json.{Json, str, arr, Items, nil, cons, Fields}
use openagent_control.Exec.{Result, ok, err, identity, uncaught, bind, Exec, lift, ◌>>=◌}
use openagent_control.Governed.Service.{Headers}
use openagent_control.Identity.Claims.{
  Decoded, read_claims, bearer, claim, is_text, or_else, to_str, resolve_dotted_claim,
}
use openagent_control.Identity.Discovery.{OidcOperator}

-- `ApiKeyOperatorAuth.__init__`: the key that it keeps
unfoldable pub create_api_key : String → Result String
create_api_key api_key =
    if is_truthy_str api_key
    then ok api_key
    else err (
        uncaught
          "ValueError: OAC_CONTROL_PLANE_API_KEY must be set to use operator_auth_mode='api-key' — an empty key would accept every request")

-- `ApiKeyOperatorAuth.identify`
unfoldable pub identify_by_key : (String → String → Result Bool) → String → Headers → Result String
identify_by_key compare_digest api_key headers = bind (bearer "<api-key>" headers) λ token.
    bind (compare_digest token api_key)
      λ same. if same then ok "api-key" else err (identity "invalid control-plane API key")

-- `role in roles` for a list from a claim
unfoldable pub holds_role : String → Items → Bool
holds_role role nil = false
holds_role role (cons j items) = is_text j role || holds_role role items

-- The test of the roles, with a lone text for a list of one.
unfoldable pub has_role : String → Json → Bool
unfolding holds_role
has_role role (str s) = holds_role role (cons (str s) nil)
has_role role (arr items) = holds_role role items
has_role role _ = false

module _ (repr : Json → String) where
  unfoldable pub operator_of : OidcOperator → Fields → Result String
  unfolding has_role resolve_dotted_claim
  operator_of p claims =
      if has_role p.required_role (resolve_dotted_claim claims p.role_claim)
      then ok (to_str repr (or_else (claim "preferred_username" claims) (claim "sub" claims)))
      else err (
          identity (
            "token lacks required role '" <> p.required_role <> "' in claim '" <> p.role_claim
            <> "'"))

  -- `OidcOperatorAuth.identify`
  unfoldable pub identify_operator :
      {E : Type 0} → (String → E → Decoded × E) → OidcOperator → Headers → Exec E String
  unfolding operator_of
  identify_operator decode p headers = do
    token ← lift (bearer "<access-token>" headers)
    claims ← read_claims decode "invalid OIDC access token: " token
    lift (operator_of p claims)
