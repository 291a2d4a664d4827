-- ===== src/Http.antt =====
-- What the adapters use of httpx: a client that they are given or make, its requests, and what a
-- response says. The library itself is a parameter, and so is when it raises.
use openagent_control.Prelude.{ℕ, String, Option}
use openagent_control.Dict.{Dict}
use openagent_control.Json.{Json}

pub record Response : Type 0 where
  pub status_code : ℕ
  pub text : String
  -- `.json()`, with `none` where it raises ValueError
  pub json : Option Json

-- What a request comes to: a response, an `httpx.HTTPError` with its text, or another exception.
pub data Sent : Type 0 where
  received : Response → Sent
  http_error : String → Sent
  broken : String → Sent

-- The `json=` and the `data=` of a request.
pub data Body : Type 0 where
  json_body : Json → Body
  form_body : Dict String → Body
  -- with the `auth=` of the request
  signed_form : Dict String → String × String → Body

pub record HttpClient (E : Type 0) : Type 0 where
  pub get : String → E → Sent × E
  pub post : String → Body → Dict String → E → Sent × E
  pub close : E → E
  -- `response.raise_for_status()`: the text of the `HTTPStatusError`, if it raises
  pub raise_for_status : Response → Option String
