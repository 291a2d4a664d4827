-- ===== src/Identity/Discovery.antt =====
-- The constructors of the OIDC adapters: the discovery document, fetched once at startup, and what an
-- adapter keeps of it. The PyJWKClient that they make is known by its address.
use openagent_control.Prelude.{String, Option, none, some, get_or, if◌then◌else◌}
use openagent_control.Text.{is_truthy as is_truthy_str}
use openagent_control.Json.{Json, str}
use openagent_control.Exec.{Result, ok, err, uncaught, Exec, lift, ◌>>=◌}
use openagent_control.Access.{subscript, body_of}
use openagent_control.Http.{Sent, received, http_error, broken, HttpClient}

-- `issuer or document["issuer"]`
unfoldable pub issuer_of : String → Json → Result Json
issuer_of issuer document =
    if is_truthy_str issuer then ok (str issuer) else subscript "issuer" document

module _ {E : Type 0} where
  -- `raise_for_status()` and `json()`, where no exception is named
  unfoldable pub read_document : HttpClient E → Sent → Result Json
  read_document c (received r) = elim (c.raise_for_status r) [
    | none ↦ body_of r
    | some message ↦ err (uncaught message)
  ]
  read_document c (http_error message) = err (uncaught message)
  read_document c (broken message) = err (uncaught message)

  -- The `try` with its `finally`: a client that the adapter made itself is closed, whatever happened.
  unfoldable pub discover : HttpClient E → Option (HttpClient E) → String → Exec E Json
  unfolding read_document body_of
  discover made given url w =
      let client = get_or given made in
      let (sent, w') = client.get url w in
      (read_document client sent, elim given [ none ↦ client.close w' | some c ↦ w' ])

-- What the constructors of the three adapters keep.
pub record OidcJwks : Type 0 where
  pub jwks_uri : Json
  pub audience : String
  pub issuer : Json

pub record OidcSubject : Type 0 where
  pub jwks_uri : Json
  pub audience : String
  pub issuer : Json
  pub role_claim : String

pub record OidcOperator : Type 0 where
  pub jwks_uri : Json
  pub audience : String
  pub issuer : Json
  pub role_claim : String
  pub required_role : String

module _ {E : Type 0} (made : HttpClient E) where
  unfoldable pub create_jwks : String → String → String → Option (HttpClient E) → Exec E OidcJwks
  unfolding discover
  create_jwks url audience issuer client = do
    document ← discover made client url
    jwks_uri ← lift (subscript "jwks_uri" document)
    issuer ← lift (issuer_of issuer document)
    lift (ok (record { jwks_uri = jwks_uri; audience = audience; issuer = issuer }))

  unfoldable pub create_subject :
      String → String → String → String → Option (HttpClient E) → Exec E OidcSubject
  unfolding discover
  create_subject url audience role_claim issuer client = do
    document ← discover made client url
    jwks_uri ← lift (subscript "jwks_uri" document)
    issuer ← lift (issuer_of issuer document)
    lift (
        ok (record {
          jwks_uri = jwks_uri;
          audience = audience;
          issuer = issuer;
          role_claim = role_claim;
        }))

  unfoldable pub create_operator :
      String → String → String → String → String → Option (HttpClient E) → Exec E OidcOperator
  unfolding discover
  create_operator url audience role_claim required_role issuer client = do
    document ← discover made client url
    jwks_uri ← lift (subscript "jwks_uri" document)
    issuer ← lift (issuer_of issuer document)
    lift (
        ok (record {
          jwks_uri = jwks_uri;
          audience = audience;
          issuer = issuer;
          role_claim = role_claim;
          required_role = required_role;
        }))
