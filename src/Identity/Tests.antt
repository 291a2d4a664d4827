-- ===== src/Identity/Tests.antt =====
-- The identity adapters at concrete tokens: witnesses and runs.
use openagent_control.Prelude.{
  String, ◌≡◌, refl, true, false, none, some, [], ◌∷◌, ◌==◌, if◌then◌else◌,
}
use openagent_control.Text.{lower, partition, is_space}
use openagent_control.Dict
use openagent_control.Json
use openagent_control.Json.{Json, null, str, arr, obj, nil, cons, Fields, end, field}
use openagent_control.Exec.{ok, err, identity, ◌>>=◌}
use openagent_control.Models.{
  AgentIdentity, SubjectIdentity, ToolCallRequest, deny, PolicyDecision, AuthorizationOutcome,
}
use openagent_control.Governed.Service.{
  GovernedExecutionService, enforce, strict, identified, looked_up, verified, recorded, exported,
  World, Headers,
}
use openagent_control.Governed.Flow.{orphaned_reason}
use openagent_control.Governed.Demo.{permits, receipt_of}
use openagent_control.Governed.Subject.{normalize}
use openagent_control.Identity.Claims.{
  Decoded, claims, invalid_token, claims_of, read_claims, bearer, split_dots, walk,
  resolve_dotted_claim, starts_with, to_str, or_else, claim,
}
use openagent_control.Identity.Discovery.{OidcJwks, OidcSubject, OidcOperator}
use openagent_control.Identity.Workload.{
  has_human_sponsor, sponsor_of, first_claim, oidc_identity, identify_by_oidc, svid_identity,
  identify_by_svid,
}
use openagent_control.Identity.Subject.{
  string_list, words_from, issuer_field, text_or_none, authorized_actor, subject_of, verify,
}
use openagent_control.Identity.Operator.{holds_role, has_role, operator_of, identify_operator}
use openagent_control.Identity.Trust.{FromToken, IsProven, identify_by_oidc-IsProven}
use openagent_control.Identity.Entitlement.{IsEntitled, identify_operator-IsEntitled}

abbrev no_repr : Json → String
no_repr j = "None"

abbrev ada_claims : Fields
ada_claims = field "azp" (str "crm-bot") (
    field "sub" (str "u1") (
      field "preferred_username" (str "ada")
        (field "realm_access" (obj (field "roles" (arr (cons (str "ops") nil)) end)) end)))

-- One token is valid.
abbrev decode_one : String → Unit {0} → Decoded × Unit {0}
decode_one token u =
    if token == "t1"
    then (claims ada_claims, u)
    else (invalid_token "Signature verification failed", u)

abbrev jwks : OidcJwks
jwks = record { jwks_uri = str "https://idp/keys"; audience = "api"; issuer = str "https://idp" }

abbrev operator : OidcOperator
operator = record {
  jwks_uri = str "https://idp/keys";
  audience = "api";
  issuer = str "https://idp";
  role_claim = "realm_access.roles";
  required_role = "ops";
}

abbrev headers : Headers
headers = ("Authorization", "Bearer t1") ∷ (("X-Human-Sponsor", "mallory") ∷ [])

abbrev crm_bot : AgentIdentity
crm_bot = record {
  spiffe_id = "oidc://https://idp/crm-bot";
  human_sponsor = some "https://idp#u1";
  client_id = some "crm-bot";
}

unfoldable pub identity_run : Unit {0}
unfolding identify_by_oidc oidc_identity sponsor_of has_human_sponsor first_claim bearer read_claims
    claims_of normalize Dict.insert Dict.get Json.get ◌>>=◌ starts_with resolve_dotted_claim walk
    split_dots lower partition verify subject_of string_list words_from is_space authorized_actor
    issuer_field text_or_none operator_of has_role holds_role identify_operator identify_by_svid
    svid_identity
identity_run = tt

oidc_agent : identify_by_oidc no_repr decode_one jwks headers tt ≡ (ok crm_bot, tt)
unfolding identity_run
oidc_agent = refl

oidc_operator : identify_operator no_repr decode_one operator headers tt ≡ (ok "ada", tt)
unfolding identity_run
oidc_operator = refl

svid_refused :
    identify_by_svid no_repr decode_one headers tt
    ≡ (err (identity "token subject is not a SPIFFE ID: None"), tt)
unfolding identity_run
svid_refused = refl

identify_by_oidc-IsProven_example :
    FromToken decode_one headers tt tt (λ fields. IsProven no_repr jwks fields crm_bot)
identify_by_oidc-IsProven_example =
    identify_by_oidc-IsProven no_repr decode_one jwks headers tt tt crm_bot oidc_agent

identify_operator-IsEntitled_example : FromToken decode_one headers tt tt λ fields.
    IsEntitled operator.required_role (resolve_dotted_claim fields operator.role_claim)
    × ("ada" ≡ to_str no_repr (or_else (claim "preferred_username" fields) (claim "sub" fields)))
identify_operator-IsEntitled_example =
    identify_operator-IsEntitled no_repr decode_one operator headers tt tt "ada" oidc_operator

-- A gateway with both OIDC adapters, and a request whose two tokens are Ada's.
abbrev ada_subject : OidcSubject
ada_subject = record {
  jwks_uri = str "https://idp/keys";
  audience = "api";
  issuer = str "https://idp";
  role_claim = "realm_access.roles";
}

abbrev oidc_gateway : GovernedExecutionService (Unit {0})
oidc_gateway = record {
  identify = identify_by_oidc no_repr decode_one jwks;
  lookup = λ id n. (ok none, n);
  evaluate = λ call n. (ok (permits call), n);
  record_receipt = λ agent call d enforced n. (ok (receipt_of 0 d enforced), n);
  export = λ receipt n. (ok tt, n);
  exchange = λ token audience n. (ok "minted", n);
  forward = λ call credential n. (ok end, n);
  subject_verifier = some (verify no_repr decode_one ada_subject);
  delegated_audience = "upstream";
  decision_mode = enforce;
  subject_binding = strict;
  request_id_of = λ j. none;
}

abbrev delegated_headers : Headers
delegated_headers = ("X-Subject-Token", "t1") ∷ headers

abbrev ada : SubjectIdentity
ada = record {
  subject_id = "https://idp#u1";
  issuer = "https://idp";
  username = some "ada";
  roles = "ops" ∷ [];
  scopes = [];
  authorized_actor = none;
}

abbrev ada_call : ToolCallRequest
ada_call = record {
  method = "tools/call";
  tool_name = some "read_query";
  arguments = end;
  agent = crm_bot;
  registration = none;
  subject = some ada;
  request_id = none;
}

abbrev orphaned : PolicyDecision
orphaned = record { decision = deny; reason = orphaned_reason }

abbrev ada_outcome : AuthorizationOutcome
ada_outcome = record {
  allowed = false;
  decision = orphaned;
  receipt = receipt_of 0 orphaned true;
  call = ada_call;
  shadowed = false;
}

abbrev idle : World (Unit {0})
idle = record { env = tt; trace = [] }

abbrev ada_events : World (Unit {0})
ada_events = record {
  env = tt;
  trace =
      exported (receipt_of 0 orphaned true) (ok tt)
      ∷ (recorded crm_bot ada_call orphaned true (ok (receipt_of 0 orphaned true))
          ∷ (verified "t1" (ok ada)
              ∷ (looked_up "oidc://https://idp/crm-bot" (ok none)
                  ∷ (identified delegated_headers (ok crm_bot) ∷ []))));
}
