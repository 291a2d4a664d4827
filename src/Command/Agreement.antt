-- ===== src/Command/Agreement.antt =====
-- `cmd_doctor` of cli.py beside `readyz` of gateway/app.py, and the refusals of `cmd_init` and
-- `cmd_migrate`.
use openagent_control.Prelude.{
  String, ◌≡◌, refl, ◌↔◌, Bool, true, false, ◌&&◌, not, List, [], ◌∷◌, map, ◌++◌, All, Any,
  if◌then◌else◌, arith, inl, inr, Bool-cases,
}
use openagent_control.Text.{◌<>◌, is_truthy}
use openagent_control.Exec.{Exec, ok, ◌>>=◌, pure}
use openagent_control.Identity.Claims.{starts_with}
use openagent_control.Gateway.Settings.{Settings}
use openagent_control.Diagnostics.Checks.{Check, run_all}
use openagent_control.Diagnostics.Readiness.{all_ok, readiness_of, readyz, run_all-All}
use openagent_control.Command.Commands.{
  Line, out, error, Exit, Shell, check_line, doctor_of, cmd_init, cmd_migrate, cmd_doctor, refused,
  write_starter,
}

doctor_of-exit_code :
    (results : List Check) → (doctor_of results).exit_code ≡ (if all_ok results then 0 else 1)
unfolding doctor_of
doctor_of-exit_code results = elim (Bool-cases (all_ok results)) [
  | inl e ↦ rw (doctor_of, e)
  | inr e ↦ rw (doctor_of, e)
]

-- The exit code is 0 exactly where the route's status is 200, and 1 exactly where it is 503.
agreement :
    (results : List Check)
    → (((doctor_of results).exit_code ≡ 0) ↔ ((readiness_of results).status_code ≡ 200))
      × (((doctor_of results).exit_code ≡ 1) ↔ ((readiness_of results).status_code ≡ 503))
unfolding readiness_of
agreement results =
    let e = doctor_of-exit_code results in
    (
      (λ h. ground (arith, e), λ h. ground (arith, e)),
      (λ h. ground (arith, e), λ h. ground (arith, e)),
    )

-- What `cmd_doctor` prints.
printed-doctor_of :
    (results : List Check)
    → (last : Line) × ((doctor_of results).printed
        ≡ (out "openagent-control doctor\n" ∷ map check_line results ++ out "" ∷ []) ++ last ∷ [])
unfolding doctor_of
printed-doctor_of results = elim (Bool-cases (all_ok results)) [
  | inl e ↦ (out "All checks passed.", rw (doctor_of, e))
  | inr e ↦ (
    error "One or more checks FAILED — the gateway would start but not serve.",
    rw (doctor_of, e),
  )
]

guards_refuse :
    {E : Type 0} (a b c : Bool) (m1 m2 m3 : String) (k : Exec E Exit) (w : E)
    → b && c ≡ false
    → (x : Exit) × ((if not a
            then pure (refused m1)
            else if not b
            then pure (refused m2)
            else if not c
            then pure (refused m3)
            else k)
          w
        ≡ (ok x, w))
      × (x.exit_code ≡ 1)
guards_refuse false b c m1 m2 m3 k w h = (refused m1, refl, refl)
guards_refuse true false c m1 m2 m3 k w h = (refused m2, refl, refl)
guards_refuse true true false m1 m2 m3 k w h = (refused m3, refl, refl)
guards_refuse true true true m1 m2 m3 k w h = cc

module _ {E : Type 0} (e : Shell E) where
  -- A directory with a registry is left as it is, but for a `mkdir`, unless `--force` is given.
  cmd_init-exists :
      (directory : String) (w v : E)
      → e.mkdir (e.path directory) w ≡ (ok tt, v)
      → e.exists (e.join (e.path directory) "agents.yaml") v ≡ true
      → cmd_init e directory false w ≡ (
        ok (
            refused (
              e.join (e.path directory) "agents.yaml"
              <> " already exists (use --force to overwrite)")),
        v,
      )
  unfolding cmd_init write_starter ◌>>=◌
  cmd_init-exists directory w v made found = rw (cmd_init, made, write_starter, found)

  -- Migrating changes nothing, with the exit code 1, unless the URL is that of a Postgres and the
  -- persistence dependencies are installed.
  cmd_migrate-refused :
      (s : Settings) (revision : String) (w : E)
      → e.has_alembic && starts_with "postgresql" s.database_url ≡ false
      → (x : Exit) × (cmd_migrate e s revision w ≡ (ok x, w)) × (x.exit_code ≡ 1)
  unfolding cmd_migrate
  cmd_migrate-refused s revision w h =
      guards_refuse (is_truthy s.database_url) e.has_alembic
        (starts_with "postgresql" s.database_url) _ _ _ _ w h

module _ {E : Type 0} (e : Shell E) (s : Settings) where
  -- `doctor` exits with 0 exactly if `/readyz`, asked in the same state of the surroundings, answers
  -- with the status 200, which is exactly if every check is ok; it exits with 1 exactly if `/readyz`
  -- answers with 503, which is exactly if some check is not. `doctor` prints a heading, a line for
  -- each check of the report of `/readyz`, in order, a blank line and one more. The checks of that
  -- report are always the six in their order, each under its own name, whatever they meet.
  pub cmd_doctor-readyz :
      (w : E)
      → (((cmd_doctor e s w).0.exit_code ≡ 0) ↔ ((readyz e.surroundings s w).0.status_code ≡ 200))
        × (((readyz e.surroundings s w).0.status_code ≡ 200)
            ↔ All (λ c. c.is_ok ≡ true) (run_all e.surroundings s w).0)
        × (((cmd_doctor e s w).0.exit_code ≡ 1) ↔ ((readyz e.surroundings s w).0.status_code ≡ 503))
        × (((readyz e.surroundings s w).0.status_code ≡ 503)
            ↔ Any (λ c. c.is_ok ≡ false) (run_all e.surroundings s w).0)
        × ((last : Line) × ((cmd_doctor e s w).0.printed
              ≡ (out "openagent-control doctor\n"
                    ∷ map check_line (readyz e.surroundings s w).0.checks
                  ++ out "" ∷ [])
                ++ last ∷ []))
        × (map (λ c. c.name) (readyz e.surroundings s w).0.checks
            ≡ "registry" ∷ "opa" ∷ "identity" ∷ "database" ∷ "redis" ∷ "signing_key" ∷ [])
  unfolding cmd_doctor readyz readiness_of
  cmd_doctor-readyz w =
      let results = (run_all e.surroundings s w).0 in
      let (names, same, fine, broken) = run_all-All e.surroundings s w in
      ((agreement results).0, fine, (agreement results).1, broken, printed-doctor_of results, names)
