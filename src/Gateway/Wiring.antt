-- ===== src/Gateway/Wiring.antt =====
-- gateway/dependencies.py: which adapters a gateway is made of. An adapter is named with the arguments
-- of its constructor; constructing it is what those adapters' own modules say. What the environment
-- knows, whether a file is there and whether the optional libraries are, comes in as an argument.
use openagent_control.Prelude.{ℕ, String, Bool, Option, none, some, List, [], ◌∷◌, if◌then◌else◌}
use openagent_control.Text.{◌<>◌, is_truthy}
use openagent_control.Dict.{Dict}
use openagent_control.Exec.{Result, ok, err, uncaught, bind}
use openagent_control.Governed.Service.{DecisionMode, SubjectBinding}
use openagent_control.Gateway.Settings.{
  McpUpstreamMode, IdentityMode, SubjectVerificationMode, TokenExchangeMode, SigningKeyMode,
  Settings,
}

pub data IdentityAdapter : Type 0 where
  header_provider : IdentityAdapter
  jwt_svid_provider : String → String → IdentityAdapter
  oidc_jwks_provider : String → String → String → IdentityAdapter

pub data ExchangeAdapter : Type 0 where
  stub_exchange : ExchangeAdapter
  rfc8693_exchange : String → String → String → ExchangeAdapter
  entra_exchange : String → String → String → ExchangeAdapter
  -- the inner adapter, the maximum and the safety margin
  caching_exchange : ExchangeAdapter → ℕ → ℕ → ExchangeAdapter

pub data RegistryAdapter : Type 0 where
  file_registry : String → RegistryAdapter
  postgres_registry : String → RegistryAdapter
  caching_registry : RegistryAdapter → ℕ → RegistryAdapter

pub data Transport : Type 0 where
  http_upstream : String → Transport
  streamable_upstream : String → Transport

pub data UpstreamAdapter : Type 0 where
  single_upstream : Transport → UpstreamAdapter
  routing_upstream : List (String × Transport) → ℕ → UpstreamAdapter

pub record SubjectAdapter : Type 0 where
  pub discovery_url : String
  pub audience : String
  pub role_claim : String
  pub issuer : String

pub data SignerAdapter : Type 0 where
  receipt_signer : SignerAdapter
  vault_signer : String → String → String → SignerAdapter

pub data LedgerAdapter : Type 0 where
  in_process_ledger : SignerAdapter → LedgerAdapter
  postgres_ledger : String → SignerAdapter → LedgerAdapter

pub record Container : Type 0 where
  pub identity_provider : IdentityAdapter
  pub agent_registry : RegistryAdapter
  pub opa_url : String
  pub ledger : LedgerAdapter
  pub token_exchange : ExchangeAdapter
  pub mcp_upstream : UpstreamAdapter
  pub subject_verifier : Option SubjectAdapter
  pub subject_binding : SubjectBinding
  pub delegated_audience : String
  pub decision_mode : DecisionMode
  pub db_engine : Option String
  pub redis_client : Option String

-- What the environment knows.
pub record Machine : Type 0 where
  pub is_file : String → Bool
  pub example_registry : String
  pub has_persistence : Bool

-- `_identity_provider`
unfoldable pub identity_provider : Settings → IdentityAdapter
identity_provider s = elim s.identity_mode [
  | IdentityMode.header ↦ header_provider
  | IdentityMode.jwt_svid ↦ jwt_svid_provider s.jwt_svid_public_key_path s.jwt_svid_audience
  | IdentityMode.oidc_jwks ↦ oidc_jwks_provider s.oidc_discovery_url s.oidc_audience s.oidc_issuer
]

-- `_token_exchange`
unfoldable pub token_exchange : Settings → ExchangeAdapter
token_exchange s = elim s.token_exchange_mode [
  | TokenExchangeMode.stub ↦ stub_exchange
  | TokenExchangeMode.rfc8693 ↦
      rfc8693_exchange s.token_exchange_url s.token_exchange_client_id
        s.token_exchange_client_secret
  | TokenExchangeMode.entra ↦
      entra_exchange s.token_exchange_url s.token_exchange_client_id s.token_exchange_client_secret
]

-- `resolve_registry_path`
unfoldable pub resolve_registry_path : Machine → Settings → Result String
resolve_registry_path m s =
    if is_truthy s.registry_path
    then (if m.is_file s.registry_path
        then ok s.registry_path
        else err (
            uncaught (
              "RuntimeError: OAC_REGISTRY_PATH points at '" <> s.registry_path
              <> "', which does not exist. Create one with: openagent-control init <dir>")))
    else ok m.example_registry

-- `_one_upstream`
unfoldable pub one_upstream : McpUpstreamMode → String → Transport
one_upstream McpUpstreamMode.raw_jsonrpc url = http_upstream url
one_upstream McpUpstreamMode.streamable_http url = streamable_upstream url

unfoldable pub each_upstream : McpUpstreamMode → Dict String → List (String × Transport)
unfolding one_upstream
each_upstream mode [] = []
each_upstream mode ((name, url) ∷ upstreams) =
    (name, one_upstream mode url) ∷ each_upstream mode upstreams

-- `_mcp_upstream`
unfoldable pub mcp_upstream : Settings → UpstreamAdapter
unfolding each_upstream
mcp_upstream s = elim s.mcp_upstreams [
  | [] ↦ single_upstream (one_upstream s.mcp_upstream_mode s.mcp_upstream_url)
  | upstream ∷ upstreams ↦
      routing_upstream (each_upstream s.mcp_upstream_mode (upstream ∷ upstreams))
        s.mcp_route_cache_ttl_seconds
]

abbrev or_text : String → String → String
or_text a b = if is_truthy a then a else b

-- `_subject_verifier`
unfoldable pub subject_verifier : Settings → Option SubjectAdapter
subject_verifier s = elim s.subject_verification_mode [
  | SubjectVerificationMode.unverified ↦ none
  | SubjectVerificationMode.by_oidc_jwks ↦ some (record {
    discovery_url = or_text s.subject_oidc_discovery_url s.oidc_discovery_url;
    audience = or_text s.subject_oidc_audience s.oidc_audience;
    role_claim = s.subject_role_claim;
    issuer = s.oidc_issuer;
  })
]

-- `_require_persistence`
unfoldable pub require_persistence : {A : Type 0} → String → Result A
require_persistence feature = err (
    uncaught (
      "RuntimeError: " <> feature
      <> " is configured but the persistence dependencies are not installed — install with: pip install 'openagent-control[persistence]' (or poetry install --extras persistence)"))

-- `_signer`
unfoldable pub signer : Settings → SignerAdapter
signer s = elim s.signing_key_mode [
  | SigningKeyMode.in_process ↦ receipt_signer
  | SigningKeyMode.vault_transit ↦ vault_signer s.vault_url s.vault_token s.vault_transit_key_name
]

-- The registry, the ledger and the engine of `build_container`.
unfoldable pub storage :
    Machine → Settings → Result (RegistryAdapter × LedgerAdapter × Option String)
unfolding resolve_registry_path require_persistence signer
storage m s =
    if is_truthy s.database_url
    then (if m.has_persistence
        then ok (
          postgres_registry s.database_url,
          postgres_ledger s.database_url (signer s),
          some s.database_url,
        )
        else require_persistence "OAC_DATABASE_URL")
    else bind (resolve_registry_path m s)
        λ path. ok (file_registry path, in_process_ledger (signer s), none)

-- The caches of `build_container`: both or neither.
unfoldable pub caches :
    Machine
    → Settings
    → RegistryAdapter
    → Result (RegistryAdapter × ExchangeAdapter × Option String)
unfolding require_persistence token_exchange
caches m s registry =
    if is_truthy s.redis_url
    then (if m.has_persistence
        then ok (
          caching_registry registry s.registry_cache_ttl_seconds,
          caching_exchange (token_exchange s) s.token_cache_max_ttl_seconds
              s.token_cache_safety_margin_seconds,
          some s.redis_url,
        )
        else require_persistence "OAC_REDIS_URL")
    else ok (registry, token_exchange s, none)

-- `build_container`
unfoldable pub build_container : Machine → Settings → Result Container
unfolding storage caches identity_provider mcp_upstream subject_verifier
build_container m s = bind (storage m s) λ (stored, ledger, engine).
    bind (caches m s stored) λ (registry, exchange, redis). ok (record {
      identity_provider = identity_provider s;
      agent_registry = registry;
      opa_url = s.opa_url;
      ledger = ledger;
      token_exchange = exchange;
      mcp_upstream = mcp_upstream s;
      subject_verifier = subject_verifier s;
      subject_binding = s.subject_binding;
      delegated_audience = s.delegated_audience;
      decision_mode = s.decision_mode;
      db_engine = engine;
      redis_client = redis;
    })
