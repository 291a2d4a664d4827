-- ===== src/Gateway/Settings.antt =====
-- config.py: the settings that the gateway and the control plane are built from, with their defaults.
-- pydantic's reading of the environment is left out, and so are the settings of tracing. Seconds are
-- whole.
use openagent_control.Prelude.{ℕ, String, []}
use openagent_control.Dict.{Dict}
use openagent_control.Governed.Service.{DecisionMode, enforce, SubjectBinding, strict}

pub data McpUpstreamMode : Type 0 where
  streamable_http raw_jsonrpc : McpUpstreamMode

pub data IdentityMode : Type 0 where
  header jwt_svid oidc_jwks : IdentityMode

pub data SubjectVerificationMode : Type 0 where
  unverified by_oidc_jwks : SubjectVerificationMode

pub data TokenExchangeMode : Type 0 where
  stub rfc8693 entra : TokenExchangeMode

pub data SigningKeyMode : Type 0 where
  in_process vault_transit : SigningKeyMode

pub data OperatorAuthMode : Type 0 where
  api_key operator_oidc : OperatorAuthMode

pub record Settings : Type 0 where
  pub opa_url : String
  pub mcp_upstream_url : String
  pub mcp_upstreams : Dict String
  pub mcp_route_cache_ttl_seconds : ℕ
  pub mcp_upstream_mode : McpUpstreamMode
  pub registry_path : String
  pub decision_mode : DecisionMode
  pub delegated_audience : String
  pub identity_mode : IdentityMode
  pub jwt_svid_public_key_path : String
  pub jwt_svid_audience : String
  pub oidc_discovery_url : String
  pub oidc_audience : String
  pub oidc_issuer : String
  pub subject_verification_mode : SubjectVerificationMode
  pub subject_oidc_discovery_url : String
  pub subject_oidc_audience : String
  pub subject_role_claim : String
  pub subject_binding : SubjectBinding
  pub token_exchange_mode : TokenExchangeMode
  pub token_exchange_url : String
  pub token_exchange_client_id : String
  pub token_exchange_client_secret : String
  pub database_url : String
  pub redis_url : String
  pub registry_cache_ttl_seconds : ℕ
  pub token_cache_max_ttl_seconds : ℕ
  pub token_cache_safety_margin_seconds : ℕ
  pub signing_key_mode : SigningKeyMode
  pub vault_url : String
  pub vault_token : String
  pub vault_transit_key_name : String
  pub control_plane_operator_auth_mode : OperatorAuthMode
  pub control_plane_api_key : String
  pub control_plane_oidc_discovery_url : String
  pub control_plane_oidc_audience : String
  pub control_plane_oidc_issuer : String
  pub control_plane_oidc_role_claim : String
  pub control_plane_oidc_required_role : String

-- `Settings()` in an empty environment
unfoldable pub default_settings : Settings
default_settings = record {
  opa_url = "http://localhost:8181/v1/data/openagent/authz";
  mcp_upstream_url = "http://localhost:8080";
  mcp_upstreams = [];
  mcp_route_cache_ttl_seconds = 300;
  mcp_upstream_mode = streamable_http;
  registry_path = "";
  decision_mode = enforce;
  delegated_audience = "openagent-control-mcp-upstream";
  identity_mode = header;
  jwt_svid_public_key_path = "";
  jwt_svid_audience = "openagent-control";
  oidc_discovery_url = "";
  oidc_audience = "";
  oidc_issuer = "";
  subject_verification_mode = unverified;
  subject_oidc_discovery_url = "";
  subject_oidc_audience = "";
  subject_role_claim = "roles";
  subject_binding = strict;
  token_exchange_mode = stub;
  token_exchange_url = "";
  token_exchange_client_id = "";
  token_exchange_client_secret = "";
  database_url = "";
  redis_url = "";
  registry_cache_ttl_seconds = 30;
  token_cache_max_ttl_seconds = 300;
  token_cache_safety_margin_seconds = 30;
  signing_key_mode = in_process;
  vault_url = "http://localhost:8200";
  vault_token = "";
  vault_transit_key_name = "oac-receipt-signer";
  control_plane_operator_auth_mode = api_key;
  control_plane_api_key = "";
  control_plane_oidc_discovery_url = "";
  control_plane_oidc_audience = "";
  control_plane_oidc_issuer = "";
  control_plane_oidc_role_claim = "roles";
  control_plane_oidc_required_role = "oac-operator";
}
