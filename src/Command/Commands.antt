-- ===== src/Command/Commands.antt =====
-- `cmd_init`, `cmd_migrate` and `cmd_doctor` of cli.py. What they print is a list of lines; the file
-- system and Alembic are parameters.
use Prim.Native.String.{[] as nothing, ◌∷◌ as char_cons}
use openagent_control.Prelude.{
  ℕ, zero, suc, String, Bool, ◌&&◌, not, List, [], ◌∷◌, map, ◌++◌, if◌then◌else◌,
}
use openagent_control.Text.{◌<>◌, is_truthy}
use openagent_control.Exec.{Exec, pure, ◌>>=◌, ◌>>◌}
use openagent_control.Identity.Claims.{starts_with}
use openagent_control.Gateway.Settings.{Settings}
use openagent_control.Diagnostics.Checks.{Check, Surroundings, run_all}
use openagent_control.Diagnostics.Readiness.{all_ok}

-- A line on the standard output or on the standard error.
pub data Line : Type 0 where
  out : String → Line
  error : String → Line

-- What a command printed, and its exit code.
pub record Exit : Type 0 where
  pub printed : List Line
  pub exit_code : ℕ

pub record Shell (E : Type 0) : Type 0 where
  pub surroundings : Surroundings E
  -- `str(Path(s))` and `str(path / name)`
  pub path : String → String
  pub join : String → String → String
  pub exists : String → E → Bool
  pub mkdir : String → Exec E (Unit {0})
  pub copy : String → String → Exec E (Unit {0})
  pub rmtree : String → Exec E (Unit {0})
  pub copytree : String → String → Exec E (Unit {0})
  pub example_registry : String
  pub default_policy_dir : String
  -- whether `alembic` can be imported, and `command.upgrade(alembic_config(url), revision)`
  pub has_alembic : Bool
  pub upgrade : String → String → Exec E (Unit {0})

-- `f"{s:n}"` of a text
unfoldable pub ljust : ℕ → String → String
ljust zero s = s
ljust (suc n) nothing = " " <> ljust n nothing
ljust (suc n) (char_cons c s) = char_cons c (ljust n s)

-- `s.split("://")[0]`
unfoldable pub scheme : String → String
scheme nothing = ""
scheme (char_cons c s) =
    let rest = scheme s in if starts_with "://" (char_cons c s) then "" else char_cons c rest

unfoldable pub check_line : Check → Line
unfolding ljust
check_line check = out (
    (if check.is_ok then "  ok      " else "  FAILED  ")
    <> ljust 9 check.name
    <> ": "
    <> check.detail)

abbrev pub refused : String → Exit
refused message = record { printed = error message ∷ []; exit_code = 1 }

unfoldable pub doctor_of : List Check → Exit
unfolding check_line all_ok
doctor_of results =
    let report = out "openagent-control doctor\n" ∷ map check_line results ++ out "" ∷ [] in
    if all_ok results
    then record { printed = report ++ out "All checks passed." ∷ []; exit_code = 0 }
    else record {
      printed =
          report ++ error "One or more checks FAILED — the gateway would start but not serve." ∷ [];
      exit_code = 1;
    }

module _ {E : Type 0} (e : Shell E) where
  abbrev removed : String → Exec E (Unit {0})
  removed policies w = if e.exists policies w then e.rmtree policies w else pure tt w

  abbrev next_steps : String → String → Exit
  next_steps registry policies = record {
    printed =
        out ("Wrote " <> registry)
        ∷ out ("Wrote " <> policies <> "/")
        ∷ out ""
        ∷ out "Next:"
        ∷ out ("  export OAC_REGISTRY_PATH=" <> registry)
        ∷ out ("  opa run --server " <> policies <> "      # or point OAC_OPA_URL at your own")
        ∷ out "  openagent-control doctor"
        ∷ [];
    exit_code = 0;
  }

  -- `cmd_init` from its first `if`
  unfoldable pub write_starter : String → String → Bool → Exec E Exit
  unfolding ◌>>=◌
  write_starter registry policies force w =
      if e.exists registry w && not force
      then pure (refused (registry <> " already exists (use --force to overwrite)")) w
      else (e.copy e.example_registry registry
            >> removed policies
            >> e.copytree e.default_policy_dir policies
            >> pure (next_steps registry policies))
          w

  unfoldable pub cmd_init : String → Bool → Exec E Exit
  unfolding write_starter ◌>>=◌
  cmd_init directory force =
      let target = e.path directory in
      e.mkdir target >> write_starter (e.join target "agents.yaml") (e.join target "policies") force

  unfoldable pub cmd_migrate : Settings → String → Exec E Exit
  unfolding scheme ◌>>=◌
  cmd_migrate s revision =
      if not (is_truthy s.database_url)
      then pure (
          refused (
            "OAC_DATABASE_URL is not set — nothing to migrate.\n"
            <> "The default deployment uses the in-process ledger and a file registry."))
      else if not e.has_alembic
      then pure (
          refused (
            "persistence dependencies are not installed — "
            <> "pip install 'openagent-control[persistence]'"))
      else if not (starts_with "postgresql" s.database_url)
      then pure (
          refused (
            "OAC_DATABASE_URL uses '"
            <> scheme s.database_url
            <> "'. "
            <> "Postgres is the supported backend (ADR-0009): the schema is created "
            <> "in a dedicated `oac` namespace, which other engines don't support."))
      else (e.upgrade s.database_url revision
          >> pure (record {
            printed = out ("Database is at revision '" <> revision <> "'.") ∷ [];
            exit_code = 0;
          }))

  unfoldable pub cmd_doctor : Settings → E → Exit × E
  unfolding doctor_of
  cmd_doctor s w = let (results, w') = run_all e.surroundings s w in (doctor_of results, w')
