-- ===== src/Control/Wiring.antt =====
-- control_plane/dependencies.py: what the control plane is made of.
use openagent_control.Prelude.{String, if◌then◌else◌}
use openagent_control.Text.{is_truthy}
use openagent_control.Exec.{Result, ok, err, uncaught}
use openagent_control.Gateway.Settings.{SigningKeyMode, OperatorAuthMode, Settings}
use openagent_control.Gateway.Wiring.{Machine}

pub data OperatorAdapter : Type 0 where
  api_key_auth : String → OperatorAdapter
  oidc_operator_auth : String → String → String → String → String → OperatorAdapter

-- Where the public key is taken from: Vault, or a signer made on the spot.
pub data KeySource : Type 0 where
  vault_key : String → String → String → KeySource
  fresh_key : KeySource

pub record ControlPlaneContainer : Type 0 where
  pub database_url : String
  pub public_key : KeySource
  pub operator_auth : OperatorAdapter

-- `_public_key`
unfoldable pub public_key_source : Settings → KeySource
public_key_source s = elim s.signing_key_mode [
  | SigningKeyMode.in_process ↦ fresh_key
  | SigningKeyMode.vault_transit ↦ vault_key s.vault_url s.vault_token s.vault_transit_key_name
]

-- `_operator_auth`; its constructor refuses an empty key
unfoldable pub operator_auth : Settings → Result OperatorAdapter
operator_auth s = elim s.control_plane_operator_auth_mode [
  | OperatorAuthMode.operator_oidc ↦ ok (
      oidc_operator_auth s.control_plane_oidc_discovery_url s.control_plane_oidc_audience
        s.control_plane_oidc_role_claim s.control_plane_oidc_required_role
        s.control_plane_oidc_issuer)
  | OperatorAuthMode.api_key ↦
      if is_truthy s.control_plane_api_key
      then ok (api_key_auth s.control_plane_api_key)
      else err (
          uncaught
            "ValueError: OAC_CONTROL_PLANE_API_KEY must be set to use operator_auth_mode='api-key' — an empty key would accept every request")
]

unfoldable pub with_operator : Settings → Result OperatorAdapter → Result ControlPlaneContainer
unfolding public_key_source
with_operator s (err e) = err e
with_operator s (ok auth) = ok (record {
  database_url = s.database_url;
  public_key = public_key_source s;
  operator_auth = auth;
})

-- `build_control_plane_container`
unfoldable pub build_control_plane_container : Machine → Settings → Result ControlPlaneContainer
unfolding with_operator operator_auth
build_control_plane_container m s =
    if is_truthy s.database_url
    then (if m.has_persistence
        then with_operator s (operator_auth s)
        else err (
            uncaught
              "RuntimeError: OAC_DATABASE_URL is configured but the persistence dependencies are not installed — install with: pip install 'openagent-control[persistence]'"))
    else err (
        uncaught
          "RuntimeError: OAC_DATABASE_URL is required to run the control plane — its entire purpose is operating on a real deployment's persisted registry and receipts, unlike the gateway's zero-dependency dev mode.")
