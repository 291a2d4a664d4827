-- ===== src/Diagnostics/Readiness.antt =====
-- `readyz` of gateway/app.py, and what it and `run_all` report.
use openagent_control.Prelude.{
  ℕ, String, ◌≡◌, refl, ◌↔◌, Bool, true, false, ◌&&◌, List, [], ◌∷◌, map, All, Any, if◌then◌else◌,
  arith,
}
use openagent_control.Gateway.Settings.{Settings}
use openagent_control.Diagnostics.Checks.{Check, Surroundings, run_all, checks}
use openagent_control.Diagnostics.Named.{run_checks-AreNamed, checks-AreNamed}

-- The status and the report of `readyz`.
pub record Readiness : Type 0 where
  pub status_code : ℕ
  pub status : String
  pub checks : List Check

-- `all(check.ok for check in checks)`
unfoldable pub all_ok : List Check → Bool
all_ok [] = true
all_ok (check ∷ rest) = check.is_ok && all_ok rest

unfoldable pub readiness_of : List Check → Readiness
unfolding all_ok
readiness_of results = record {
  status_code = if all_ok results then 200 else 503;
  status = if all_ok results then "ready" else "not ready";
  checks = results;
}

unfoldable pub readyz : {E : Type 0} → Surroundings E → Settings → E → Readiness × E
unfolding readiness_of
readyz e s w = let (results, w') = run_all e s w in (readiness_of results, w')

all_ok-All : (results : List Check) → (all_ok results ≡ true) ↔ All (λ c. c.is_ok ≡ true) results
unfolding all_ok
all_ok-All [] = (λ h. tt, λ h. refl)
all_ok-All (check ∷ rest) =
    (λ h. ground (arith, (all_ok-All rest).0), λ h. ground (arith, (all_ok-All rest).1))

ready :
    (results : List Check)
    → ((readiness_of results).status_code ≡ 200) ↔ All (λ c. c.is_ok ≡ true) results
unfolding readiness_of
ready results =
    (λ h. (all_ok-All results).0 (ground arith), λ h. rw (readiness_of, (all_ok-All results).1 h))

all_ok-Any : (results : List Check) → (all_ok results ≡ false) ↔ Any (λ c. c.is_ok ≡ false) results
unfolding all_ok
all_ok-Any [] = (λ h. cc, λ h. absurd h)
all_ok-Any (check ∷ rest) =
    (λ h. ground (arith, (all_ok-Any rest).0), λ h. ground (arith, (all_ok-Any rest).1))

not_ready :
    (results : List Check)
    → ((readiness_of results).status_code ≡ 503) ↔ Any (λ c. c.is_ok ≡ false) results
unfolding readiness_of
not_ready results =
    (λ h. (all_ok-Any results).0 (ground arith), λ h. rw (readiness_of, (all_ok-Any results).1 h))

module _ {E : Type 0} (e : Surroundings E) (s : Settings) where
  -- A report has the six checks in their order, whatever they meet: a check that raises is a failed one
  -- of its own name. `readyz` gives that report, with the status 200 exactly if every check is ok, and
  -- 503 exactly if some check is not.
  pub run_all-All :
      (w : E)
      → (map (λ c. c.name) (run_all e s w).0
          ≡ "registry" ∷ "opa" ∷ "identity" ∷ "database" ∷ "redis" ∷ "signing_key" ∷ [])
        × ((readyz e s w).0.checks ≡ (run_all e s w).0)
        × (((readyz e s w).0.status_code ≡ 200) ↔ All (λ c. c.is_ok ≡ true) (run_all e s w).0)
        × (((readyz e s w).0.status_code ≡ 503) ↔ Any (λ c. c.is_ok ≡ false) (run_all e s w).0)
  unfolding run_all readyz readiness_of
  run_all-All w =
      let results = (run_all e s w).0 in
      (
        run_checks-AreNamed (checks e s) (checks-AreNamed e s) w,
        refl,
        ready results,
        not_ready results,
      )
