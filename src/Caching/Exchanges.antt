-- ===== src/Caching/Exchanges.antt =====
-- The token exchanges: stub.py, rfc8693.py and entra_obo.py of adapters/token_exchange.
use openagent_control.Prelude.{String, none, some, [], ◌∷◌, if◌then◌else◌}
use openagent_control.Text.{◌<>◌, take}
use openagent_control.Dict.{Dict}
use openagent_control.Json.{Json, null, is_truthy}
use openagent_control.Exec.{Result, ok, err, token_exchange, uncaught, bind, Exec}
use openagent_control.Access.{body_of, get_default}
use openagent_control.Http.{form_body, signed_form, Sent, received, http_error, broken, HttpClient}
use openagent_control.Identity.Claims.{to_str}

-- `StubTokenExchange.exchange`
unfoldable pub exchange_stub : String → String → Result String
exchange_stub subject_token audience =
    ok ("stub-obo-token::aud=" <> audience <> "::subj=" <> take 8 subject_token)

pub record TokenEndpoint : Type 0 where
  pub token_url : String
  pub client_id : String
  pub client_secret : String

abbrev access_token_type : String
access_token_type = "urn:ietf:params:oauth:token-type:access_token"

-- The form of `Rfc8693TokenExchange.exchange`
unfoldable pub rfc8693_form : String → String → Dict String
rfc8693_form subject_token audience =
    ("grant_type", "urn:ietf:params:oauth:grant-type:token-exchange")
    ∷ ("subject_token", subject_token)
    ∷ ("subject_token_type", access_token_type)
    ∷ ("requested_token_type", access_token_type)
    ∷ ("audience", audience)
    ∷ []

-- The form of `EntraOnBehalfOfTokenExchange.exchange`
unfoldable pub entra_form : TokenEndpoint → String → String → Dict String
entra_form p subject_token audience =
    ("grant_type", "urn:ietf:params:oauth:grant-type:jwt-bearer")
    ∷ ("client_id", p.client_id)
    ∷ ("client_secret", p.client_secret)
    ∷ ("assertion", subject_token)
    ∷ ("scope", audience)
    ∷ ("requested_token_use", "on_behalf_of")
    ∷ []

module _ (repr : Json → String) where
  -- `access_token` of the answer's body
  unfoldable pub token_of : String → Json → Result String
  unfolding get_default
  token_of missing body =
      bind (get_default "access_token" null body)
        λ token. if is_truthy token then ok (to_str repr token) else err (token_exchange missing)

  unfoldable pub read_token : {E : Type 0} → HttpClient E → String → Sent → Result String
  unfolding token_of body_of
  read_token http missing (received r) = elim (http.raise_for_status r) [
    | none ↦ bind (body_of r) (token_of missing)
    | some message ↦ err (token_exchange message)
  ]
  read_token http missing (http_error message) = err (token_exchange message)
  read_token http missing (broken message) = err (uncaught message)

  module _ {E : Type 0} (http : HttpClient E) (p : TokenEndpoint) where
    -- `Rfc8693TokenExchange.exchange`
    unfoldable pub exchange_rfc8693 : String → String → Exec E String
    unfolding rfc8693_form read_token
    exchange_rfc8693 subject_token audience w =
        let form =
          signed_form (rfc8693_form subject_token audience) (p.client_id, p.client_secret) in
        let (sent, w') = http.post p.token_url form [] w in
        (read_token http "authorization server returned no access_token" sent, w')

    -- `EntraOnBehalfOfTokenExchange.exchange`
    unfoldable pub exchange_entra : String → String → Exec E String
    unfolding entra_form read_token
    exchange_entra subject_token audience w =
        let form = form_body (entra_form p subject_token audience) in
        let (sent, w') = http.post p.token_url form [] w in
        (read_token http "Entra returned no access_token" sent, w')
