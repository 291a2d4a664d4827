-- ===== src/Identity/Trust.antt =====
-- The identity that `OidcJwksIdentityProvider.identify` makes of the bearer's token.
use openagent_control.Prelude.{
  String, ◌≡◌, ◌⊎◌, inl, inr, true, false, none, some, ap, sym, arith, eq_iff, Bool-cases,
  Option-cases, refl,
}
use openagent_control.Text.{◌<>◌, is_truthy as is_truthy_str, partition, lower}
use openagent_control.Json.{Json, str, null, bool, num, arr, obj, Fields, is_truthy, get}
use openagent_control.Exec.{Result, ok, lift, ◌>>=◌, >>=-eq-ok}
use openagent_control.Models.{AgentIdentity}
use openagent_control.Governed.Service.{Headers}
use openagent_control.Governed.Subject.{header, or_empty}
use openagent_control.Identity.Claims.{
  Decoded, claims, claims_of, read_claims, bearer, claim, is_text, to_str,
}
use openagent_control.Identity.Discovery.{OidcJwks}
use openagent_control.Identity.Workload.{
  is_service_account, client_id_claims, has_human_sponsor, first_claim, sponsor_of, oidc_identity,
  identify_by_oidc,
}

-- The header names a bearer token, and it is not empty.
abbrev pub IsBearer : Headers → String → Type 0
IsBearer headers token =
    (scheme : String) × (partition (or_empty (header "authorization" headers)) ≡ (scheme, token))
    × (lower scheme ≡ "bearer")
    × (is_truthy_str token ≡ true)

pub bearer_ok :
    (missing : String) (headers : Headers) (token : String)
    → bearer missing headers ≡ ok token
    → IsBearer headers token
unfolding bearer
bearer_ok missing headers token h =
    let (scheme, t) = partition (or_empty (header "authorization" headers)) in
    let same : t ≡ token = ground (arith, eq_iff (lower scheme) "bearer") in
    (
      scheme,
      ap (λ x. (scheme, x)) same,
      ground (arith, eq_iff (lower scheme) "bearer"),
      ground arith,
    )

claims_of_ok :
    (prefix : String) (decoded : Decoded) (fields : Fields)
    → claims_of prefix decoded ≡ ok fields
    → decoded ≡ claims fields
unfolding claims_of
claims_of_ok prefix decoded fields h = ground arith

pub read_claims_ok :
    {E : Type 0} (decode : String → E → Decoded × E) (prefix token : String) (w w' : E)
    (fields : Fields)
    → read_claims decode prefix token w ≡ (ok fields, w')
    → decode token w ≡ (claims fields, w')
unfolding read_claims
read_claims_ok decode prefix token w w' fields h =
    let (decoded, v) = decode token w in
    cc (claims_of_ok prefix decoded fields (ap (λ q. q.0) h), ap (λ q. q.1) h)

-- What marks a token as an application's own: no subject, the client as its subject, Entra's
-- `idtyp`, or the name of a Keycloak service account.
abbrev pub IsAppOnly : Fields → String → Type 0
IsAppOnly fields client_id =
    (is_truthy (claim "sub" fields) ≡ false)
    ⊎ (claim "sub" fields ≡ str client_id)
    ⊎ (claim "idtyp" fields ≡ str "app")
    ⊎ (is_service_account (claim "preferred_username" fields) ≡ true)

pub is_text_yes : (j : Json) (s : String) → is_text j s ≡ true → j ≡ str s
is_text_yes (str t) s h = ap str (ground (arith, eq_iff t s))
is_text_yes null s h = cc
is_text_yes (bool b) s h = cc
is_text_yes (num n) s h = cc
is_text_yes (arr a) s h = cc
is_text_yes (obj o) s h = cc

pub has_human_sponsor_no :
    (fields : Fields) (client_id : String)
    → has_human_sponsor fields client_id ≡ false
    → IsAppOnly fields client_id
unfolding has_human_sponsor
has_human_sponsor_no fields client_id h =
    ground
      (arith, is_text_yes (claim "sub" fields) client_id, is_text_yes (claim "idtyp" fields) "app")

-- An answer that is made of the claims of a bearer's token.
abbrev pub FromToken :
    {E : Type 0} → (String → E → Decoded × E) → Headers → E → E → (Fields → Type 0) → Type 0
FromToken decode headers w w' P =
    (token : String) × (fields : Fields) × IsBearer headers token
    × (decode token w ≡ (claims fields, w'))
    × P fields

pub by_token_ok :
    {E A : Type 0} (decode : String → E → Decoded × E) (missing prefix : String)
    (f : Fields → Result A) (headers : Headers) (w w' : E) (a : A)
    → (do
      token ← lift (bearer missing headers)
      fields ← read_claims decode prefix token
      lift (f fields))
        w
      ≡ (ok a, w')
    → FromToken decode headers w w' (λ fields. f fields ≡ ok a)
by_token_ok decode missing prefix f headers w w' a h =
    let (token, u, got, k) = >>=-eq-ok _ _ w h in
    let (fields, v, seen, l) = >>=-eq-ok _ _ u k in
    (
      token,
      fields,
      bearer_ok missing headers token (ap (λ p. p.0) got),
      rw (sym (ap (λ p. p.1) got), ap (λ p. p.1) l) at
          (read_claims_ok decode prefix token u v fields seen),
      ap (λ p. p.0) l,
    )

pub has_human_sponsor_yes :
    (fields : Fields) (client_id : String)
    → has_human_sponsor fields client_id ≡ true
    → is_truthy (claim "sub" fields) ≡ true
unfolding has_human_sponsor
has_human_sponsor_yes fields client_id h = ground arith

module _ (repr : Json → String) where
  -- The client that the claims name: the text of the first claim present of `azp` (Keycloak and Auth0),
  -- `appid` (Entra) and `cid` (Okta).
  abbrev pub NamesClient : Fields → String → Type 0
  NamesClient fields client_id =
      ((v : Json) × (get "azp" fields ≡ some v) × (client_id ≡ to_str repr v))
      ⊎ ((v : Json) × (get "azp" fields ≡ none)
          × (get "appid" fields ≡ some v)
          × (client_id ≡ to_str repr v))
      ⊎ ((v : Json) × (get "azp" fields ≡ none)
          × (get "appid" fields ≡ none)
          × (get "cid" fields ≡ some v)
          × (client_id ≡ to_str repr v))

  -- The identity that the claims of an access token stand for: the client that they name, in the
  -- issuer's scope, for no human if the token is the application's own, and else for its subject.
  abbrev pub IsProven : OidcJwks → Fields → AgentIdentity → Type 0
  IsProven p fields agent =
      (client_id : String) × (agent.client_id ≡ some client_id)
      × (is_truthy_str client_id ≡ true)
      × NamesClient fields client_id
      × (agent.spiffe_id ≡ "oidc://" <> to_str repr p.issuer <> "/" <> client_id)
      × (((agent.human_sponsor ≡ none) × IsAppOnly fields client_id)
          ⊎ ((is_truthy (claim "sub" fields) ≡ true)
              × (agent.human_sponsor
                  ≡ some (to_str repr p.issuer <> "#" <> to_str repr (claim "sub" fields)))))

  sponsor_of_cases :
      (p : OidcJwks) (fields : Fields) (client_id : String)
      → ((sponsor_of repr p fields client_id ≡ none) × IsAppOnly fields client_id)
        ⊎ ((is_truthy (claim "sub" fields) ≡ true)
            × (sponsor_of repr p fields client_id
                ≡ some (to_str repr p.issuer <> "#" <> to_str repr (claim "sub" fields))))
  unfolding sponsor_of
  sponsor_of_cases p fields client_id = elim (Bool-cases (has_human_sponsor fields client_id)) [
    | inl e ↦ inr (has_human_sponsor_yes fields client_id e, rw (sponsor_of, e))
    | inr e ↦ inl (rw (sponsor_of, e), has_human_sponsor_no fields client_id e)
  ]

  first_claim-NamesClient :
      (fields : Fields)
      → is_truthy_str (or_empty (first_claim repr client_id_claims fields)) ≡ true
      → NamesClient fields (or_empty (first_claim repr client_id_claims fields))
  unfolding first_claim
  first_claim-NamesClient fields h = elim (Option-cases (get "azp" fields)) [
    | inr (v, azp) ↦ inl (v, azp, rw (first_claim, azp) refl)
    | inl no_azp ↦ elim (Option-cases (get "appid" fields)) [
      | inr (v, appid) ↦ inr (inl (v, no_azp, appid, rw (first_claim, no_azp, appid) refl))
      | inl no_appid ↦ elim (Option-cases (get "cid" fields)) [
        | inr (v, cid) ↦
            inr (inr (v, no_azp, no_appid, cid, rw (first_claim, no_azp, no_appid, cid) refl))
        | inl no_cid ↦
            let gone : is_truthy_str (or_empty (first_claim repr client_id_claims fields)) ≡ false =
              rw (first_claim, no_azp, no_appid, no_cid) refl in
            cc
      ]
    ]
  ]

  pub oidc_identity_ok :
      (p : OidcJwks) (fields : Fields) (agent : AgentIdentity)
      → oidc_identity repr p fields ≡ ok agent
      → IsProven p fields agent
  unfolding oidc_identity
  oidc_identity_ok p fields agent h =
      let client_id = or_empty (first_claim repr client_id_claims fields) in
      elim (Bool-cases (is_truthy_str client_id)) [
        | inl e ↦ elim (sponsor_of_cases p fields client_id) [
          | inl (n, a) ↦ (
            client_id,
            ground arith,
            e,
            first_claim-NamesClient fields e,
            ground arith,
            inl (ground arith, a),
          )
          | inr (y, n) ↦ (
            client_id,
            ground arith,
            e,
            first_claim-NamesClient fields e,
            ground arith,
            inr (y, ground arith),
          )
        ]
        | inr e ↦ ground arith
      ]

  -- An identity that the OIDC provider returns comes from the claims of a nonempty bearer token that
  -- the token library accepted: its client id is the text of the first present of the claims `azp`,
  -- `appid` and `cid`, and not empty, its SPIFFE ID is that client in the issuer's scope, and its sponsor is either absent, and the token has the mark of an application's
  -- own, or it is the token's subject in the issuer's scope.
  pub identify_by_oidc-IsProven :
      {E : Type 0} (decode : String → E → Decoded × E) (p : OidcJwks) (headers : Headers) (w w' : E)
      (agent : AgentIdentity)
      → identify_by_oidc repr decode p headers w ≡ (ok agent, w')
      → FromToken decode headers w w' (λ fields. IsProven p fields agent)
  unfolding identify_by_oidc
  identify_by_oidc-IsProven decode p headers w w' agent h =
      let (token, fields, b, d, k) =
        by_token_ok decode "<access-token>" "invalid OIDC access token: " (oidc_identity repr p)
          headers w w' agent h in
      (token, fields, b, d, oidc_identity_ok p fields agent k)
