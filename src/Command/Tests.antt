-- ===== src/Command/Tests.antt =====
-- A gateway whose engine answers and whose registry is a file: a witness and runs.
use openagent_control.Prelude.{
  ◌≡◌, refl, ◌↔◌, true, false, some, [], ◌∷◌, ◌++◌, map, All, Any, ◌==◌,
}
use openagent_control.Text.{◌<>◌}
use openagent_control.Json.{obj, end, get}
use openagent_control.Exec.{pure}
use openagent_control.Identity.Claims.{starts_with}
use openagent_control.Gateway.Settings.{default_settings}
use openagent_control.Gateway.Wiring.{resolve_registry_path}
use openagent_control.Diagnostics.Checks.{
  seen, fault, Surroundings, run_all, run_checks, reported, check_registry, check_opa,
  check_identity, check_database, check_redis, check_signing_key, identity_of, signing_of,
  registry_of, registry_detail, opa_detail, listed_agents, len,
}
use openagent_control.Diagnostics.Readiness.{all_ok, readyz}
use openagent_control.Command.Commands.{
  Line, out, Shell, ljust, scheme, check_line, doctor_of, cmd_doctor,
}
use openagent_control.Command.Agreement.{cmd_doctor-readyz}

abbrev answering : Surroundings (Unit {0})
answering = record {
  machine = record {
    is_file = λ path. true;
    example_registry = "agents.yaml";
    has_persistence = true;
  };
  load_yaml = λ path w. seen (obj end);
  get = λ url w. (seen (record { status_code = 200; text = "{}"; json = some (obj end) }), w);
  raise_for_status = λ r. seen tt;
  json = λ r. seen (obj end);
  revisions = λ url w. (fault "OSError" "", w);
  ping = λ url w. (fault "ConnectionError" "", w);
  vault_key = λ url token name w. (fault "ConnectError" "", w);
  repr = λ j. "None";
}

abbrev shell : Shell (Unit {0})
shell = record {
  surroundings = answering;
  path = λ s. s;
  join = λ p name. p <> "/" <> name;
  exists = λ p w. p == "here/agents.yaml";
  mkdir = λ p. pure tt;
  copy = λ p q. pure tt;
  rmtree = λ p. pure tt;
  copytree = λ p q. pure tt;
  example_registry = "agents.example.yaml";
  default_policy_dir = "policies";
  has_alembic = true;
  upgrade = λ url revision. pure tt;
}

padded : ljust 9 "opa" ≡ "opa      "
unfolding ljust
padded = refl

engine : scheme "mysql://db" ≡ "mysql"
unfolding scheme starts_with
engine = refl

healthy : (cmd_doctor shell default_settings tt).0.exit_code ≡ 0
unfolding cmd_doctor run_all run_checks doctor_of all_ok reported check_registry check_opa
    check_identity check_database check_redis check_signing_key identity_of signing_of registry_of
    registry_detail resolve_registry_path default_settings opa_detail listed_agents len get
healthy = refl

cmd_doctor-readyz_example :
    (((cmd_doctor shell default_settings tt).0.exit_code ≡ 0)
      ↔ ((readyz answering default_settings tt).0.status_code ≡ 200))
    × (((readyz answering default_settings tt).0.status_code ≡ 200)
        ↔ All (λ c. c.is_ok ≡ true) (run_all answering default_settings tt).0)
    × (((cmd_doctor shell default_settings tt).0.exit_code ≡ 1)
        ↔ ((readyz answering default_settings tt).0.status_code ≡ 503))
    × (((readyz answering default_settings tt).0.status_code ≡ 503)
        ↔ Any (λ c. c.is_ok ≡ false) (run_all answering default_settings tt).0)
    × ((last : Line) × ((cmd_doctor shell default_settings tt).0.printed
          ≡ (out "openagent-control doctor\n"
                ∷ map check_line (readyz answering default_settings tt).0.checks
              ++ out "" ∷ [])
            ++ last ∷ []))
    × (map (λ c. c.name) (readyz answering default_settings tt).0.checks
        ≡ "registry" ∷ "opa" ∷ "identity" ∷ "database" ∷ "redis" ∷ "signing_key" ∷ [])
cmd_doctor-readyz_example = cmd_doctor-readyz shell default_settings tt
