-- ===== src/Diagnostics/Tests.antt =====
-- The checks where nothing answers: runs.
use openagent_control.Prelude.{◌≡◌, refl, true, false, some}
use openagent_control.Identity.Claims.{starts_with}
use openagent_control.Gateway.Settings.{default_settings}
use openagent_control.Gateway.Wiring.{resolve_registry_path}
use openagent_control.Diagnostics.Checks.{
  fault, Surroundings, before_v1, schema_check, run_checks, run_all, reported, check_registry,
  check_opa, check_identity, check_database, check_redis, check_signing_key, identity_of,
  signing_of, registry_of, registry_detail,
}
use openagent_control.Diagnostics.Readiness.{all_ok, readiness_of, readyz}

abbrev island : Surroundings (Unit {0})
island = record {
  machine = record {
    is_file = λ path. false;
    example_registry = "agents.yaml";
    has_persistence = true;
  };
  load_yaml = λ path w. fault "FileNotFoundError" path;
  get = λ url w. (fault "ConnectError" "refused", w);
  raise_for_status = λ r. fault "HTTPStatusError" "";
  json = λ r. fault "JSONDecodeError" "";
  revisions = λ url w. (fault "OSError" "", w);
  ping = λ url w. (fault "ConnectionError" "", w);
  vault_key = λ url token name w. (fault "ConnectError" "", w);
  repr = λ j. "None";
}

health_base : before_v1 "http://localhost:8181/v1/data/openagent/authz" ≡ "http://localhost:8181"
unfolding before_v1 starts_with
health_base = refl

behind :
    (schema_check (some "0001", "0002")).detail
    ≡ "schema at 0001, head is 0002 — run: openagent-control migrate"
unfolding schema_check
behind = refl

unready : (readyz island default_settings tt).0.status_code ≡ 503
unfolding readyz run_all run_checks readiness_of all_ok reported check_registry check_opa
    check_identity check_database check_redis check_signing_key identity_of signing_of registry_of
    registry_detail resolve_registry_path default_settings
unready = refl
