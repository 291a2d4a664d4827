-- ===== src/Identity/Workload.antt =====
-- `identify` of the three workload adapters: header.py, jwt_svid.py and oidc_jwks.py. The token
-- library and Python's `repr` are parameters.
use openagent_control.Prelude.{
  String, Bool, false, not, ◌||◌, Option, none, some, List, [], ◌∷◌, if◌then◌else◌,
}
use openagent_control.Text.{◌<>◌, is_truthy as is_truthy_str}
use openagent_control.Json.{Json, str, Fields, get, is_truthy}
use openagent_control.Exec.{bind, Result, ok, err, identity, uncaught, Exec, lift, ◌>>=◌}
use openagent_control.Models.{AgentIdentity}
use openagent_control.Governed.Service.{Headers}
use openagent_control.Governed.Subject.{header, or_empty}
use openagent_control.Identity.Claims.{
  Decoded, read_claims, bearer, claim, is_text, to_str, starts_with,
}
use openagent_control.Identity.Discovery.{OidcJwks}

-- `HeaderIdentityProvider.identify`
unfoldable pub identify_by_header : Headers → Result AgentIdentity
identify_by_header headers =
    let spiffe_id = or_empty (header "x-spiffe-id" headers) in
    if is_truthy_str spiffe_id
    then ok (record {
      spiffe_id = spiffe_id;
      human_sponsor = header "x-human-sponsor" headers;
      client_id = none;
    })
    else err (identity "missing required 'x-spiffe-id' header")

abbrev pub client_id_claims : List String
client_id_claims = "azp" ∷ ("appid" ∷ ("cid" ∷ []))

abbrev pub is_service_account : Json → Bool
is_service_account (str username) = starts_with "service-account-" username
is_service_account _ = false

-- `_has_human_sponsor`
unfoldable pub has_human_sponsor : Fields → String → Bool
has_human_sponsor claims client_id =
    let subject = claim "sub" claims in
    if not (is_truthy subject) || is_text subject client_id
    then false
    else (if is_text (claim "idtyp" claims) "app"
        then false
        else not (is_service_account (claim "preferred_username" claims)))

-- `JwtSvidIdentityProvider.__init__`: the key that the PEM file holds, by its class if it is one that
-- the algorithms cannot use. Reading the file and parsing it are the `load` parameter.
unfoldable pub create_svid :
    {K : Type 0} → (String → Result K) → (K → Option String) → String → String → Result (K × String)
create_svid load unsupported public_key_path audience = bind (load public_key_path) λ key.
    elim (unsupported key) [
      | none ↦ ok (key, audience)
      | some class_name ↦ err (
          uncaught (
            "ValueError: unsupported trust-bundle key type " <> class_name
            <> "; expected one usable with ['RS256', 'ES256', 'EdDSA']"))
    ]

module _ (repr : Json → String) where
  -- The rest of `JwtSvidIdentityProvider.identify`, after the claims.
  unfoldable pub svid_identity : Headers → Fields → Result AgentIdentity
  svid_identity headers claims = elim (get "sub" claims) [
    | none ↦ err (uncaught "KeyError: 'sub'")
    | some sub ↦
        let spiffe_id = to_str repr sub in
        if starts_with "spiffe://" spiffe_id
        then ok (record {
          spiffe_id = spiffe_id;
          human_sponsor = header "x-human-sponsor" headers;
          client_id = none;
        })
        else err (identity ("token subject is not a SPIFFE ID: " <> repr (str spiffe_id)))
  ]

  -- `next((str(claims[c]) for c in names if c in claims), None)`
  unfoldable pub first_claim : List String → Fields → Option String
  first_claim [] claims = none
  first_claim (name ∷ names) claims =
      let rest = first_claim names claims in
      elim (get name claims) [ none ↦ rest | some v ↦ some (to_str repr v) ]

  unfoldable pub sponsor_of : OidcJwks → Fields → String → Option String
  unfolding has_human_sponsor
  sponsor_of p claims client_id =
      if has_human_sponsor claims client_id
      then some (to_str repr p.issuer <> "#" <> to_str repr (claim "sub" claims))
      else none

  unfoldable pub oidc_identity : OidcJwks → Fields → Result AgentIdentity
  unfolding sponsor_of first_claim
  oidc_identity p claims =
      let client_id = or_empty (first_claim client_id_claims claims) in
      if is_truthy_str client_id
      then ok (record {
        spiffe_id = "oidc://" <> to_str repr p.issuer <> "/" <> client_id;
        human_sponsor = sponsor_of p claims client_id;
        client_id = some client_id;
      })
      else err (identity "token has none of the expected client-id claims ('azp', 'appid', 'cid')")

  module _ {E : Type 0} where
    -- `JwtSvidIdentityProvider.identify`
    unfoldable pub identify_by_svid : (String → E → Decoded × E) → Headers → Exec E AgentIdentity
    unfolding svid_identity
    identify_by_svid decode headers = do
      token ← lift (bearer "<jwt-svid>" headers)
      claims ← read_claims decode "invalid JWT-SVID: " token
      lift (svid_identity headers claims)

    -- `OidcJwksIdentityProvider.identify`
    unfoldable pub identify_by_oidc :
        (String → E → Decoded × E) → OidcJwks → Headers → Exec E AgentIdentity
    unfolding oidc_identity
    identify_by_oidc decode p headers = do
      token ← lift (bearer "<access-token>" headers)
      claims ← read_claims decode "invalid OIDC access token: " token
      lift (oidc_identity p claims)
