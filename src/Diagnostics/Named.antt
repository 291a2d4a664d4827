-- ===== src/Diagnostics/Named.antt =====
-- The names of the checks of diagnostics.py.
use openagent_control.Prelude.{
  String, ◌≡◌, refl, inl, inr, Bool, true, false, List, [], ◌∷◌, map, if◌then◌else◌, Bool-cases,
  Option, none, some, ◌==◌,
}
use openagent_control.Json.{Json}
use openagent_control.Exec.{
  Result, ok, err, identity, missing_subject_token, policy_engine_unavailable, token_exchange,
  upstream, agent_not_found, uncaught,
}
use openagent_control.Gateway.Wiring.{resolve_registry_path}
use openagent_control.Text.{◌<>◌, is_truthy as is_truthy_str}
use openagent_control.Gateway.Settings.{IdentityMode, SigningKeyMode, Settings}
use openagent_control.Diagnostics.Checks.{
  Check, Probe, seen, fault, then_, registry_detail, opa_detail, discovery_check, registry_of,
  identity_of, signing_of, listed_agents, len, before_v1, issuer_text, Surroundings, reported,
  schema_check, run_checks, checks, check_registry, check_opa, check_identity, check_database,
  check_redis, check_signing_key,
}

-- A check that a probe gives has that name.
abbrev IsNamed : String → Probe Check → Type 0
IsNamed name (seen check) = check.name ≡ name
IsNamed name (fault type_name message) = Unit

then_-IsNamed :
    {A : Type 0} (name : String) (p : Probe A) (f : A → Probe Check)
    → ((a : A) → IsNamed name (f a))
    → IsNamed name (then_ p f)
then_-IsNamed name (seen a) f h = h a
then_-IsNamed name (fault type_name message) f h = tt

reported-IsNamed :
    (name : String) (p : Probe Check) → IsNamed name p → (reported name p).name ≡ name
unfolding reported
reported-IsNamed name (seen check) h = h
reported-IsNamed name (fault type_name message) h = refl

schema_check-IsNamed : (found : Option String × String) → (schema_check found).name ≡ "database"
unfolding schema_check
schema_check-IsNamed (none, head) = refl
schema_check-IsNamed (some current, head) = elim (Bool-cases (current == head)) [
  | inl e ↦ rw (schema_check, e)
  | inr e ↦ rw (schema_check, e)
]

if-IsNamed :
    {E : Type 0} (name : String) (b : Bool) (x y : Probe Check × E)
    → IsNamed name x.0
    → IsNamed name y.0
    → IsNamed name (if b then x else y).0
if-IsNamed name true x y h k = h
if-IsNamed name false x y h k = k

registry_detail-IsNamed :
    (path : String) (s : Settings) (raw : Probe Json)
    → IsNamed "registry" (registry_detail path s raw)
unfolding registry_detail
registry_detail-IsNamed path s raw = then_-IsNamed "registry" raw _ λ loaded.
    then_-IsNamed "registry" (listed_agents loaded) _
      λ agents. then_-IsNamed "registry" (len agents) _ λ n. refl

registry_path-IsNamed :
    (s : Settings) (load : String → Probe Json) (path : Result String)
    → IsNamed "registry" (registry_of s load path)
unfolding registry_of
registry_path-IsNamed s load (ok path) = registry_detail-IsNamed path s (load path)
registry_path-IsNamed s load (err (uncaught message)) = refl
registry_path-IsNamed s load (err (identity message)) = tt
registry_path-IsNamed s load (err (missing_subject_token message)) = tt
registry_path-IsNamed s load (err (policy_engine_unavailable message)) = tt
registry_path-IsNamed s load (err (token_exchange message)) = tt
registry_path-IsNamed s load (err (upstream message)) = tt
registry_path-IsNamed s load (err (agent_not_found message)) = tt

module _ {E : Type 0} (e : Surroundings E) (s : Settings) (w : E) where
  check_registry-IsNamed : IsNamed "registry" (check_registry e s w).0
  unfolding check_registry
  check_registry-IsNamed =
      if-IsNamed "registry" (is_truthy_str s.database_url) _ _ refl
        (registry_path-IsNamed s (λ path. e.load_yaml path w) (resolve_registry_path e.machine s))

  check_opa-IsNamed : IsNamed "opa" (check_opa e s w).0
  unfolding check_opa opa_detail
  check_opa-IsNamed =
      then_-IsNamed "opa" (e.get (before_v1 s.opa_url <> "/health") w).0 _ (λ response. refl)

  discovery_check-IsNamed : IsNamed "identity" (discovery_check e s w).0
  unfolding discovery_check
  discovery_check-IsNamed = then_-IsNamed "identity" (e.get s.oidc_discovery_url w).0 _ λ response.
      then_-IsNamed "identity" (e.raise_for_status response) _ λ fine.
        then_-IsNamed "identity" (e.json response) _
          λ document. then_-IsNamed "identity" (issuer_text e.repr document) _ λ issuer. refl

  identity_of-IsNamed : (mode : IdentityMode) → IsNamed "identity" (identity_of e s mode w).0
  unfolding identity_of
  identity_of-IsNamed IdentityMode.header = refl
  identity_of-IsNamed IdentityMode.jwt_svid = refl
  identity_of-IsNamed IdentityMode.oidc_jwks = discovery_check-IsNamed

  check_identity-IsNamed : IsNamed "identity" (check_identity e s w).0
  unfolding check_identity
  check_identity-IsNamed = identity_of-IsNamed s.identity_mode

  check_database-IsNamed : IsNamed "database" (check_database e s w).0
  unfolding check_database
  check_database-IsNamed =
      if-IsNamed "database" (is_truthy_str s.database_url) _ _
        (then_-IsNamed "database" (e.revisions s.database_url w).0 _
          λ found. schema_check-IsNamed found)
        refl

  check_redis-IsNamed : IsNamed "redis" (check_redis e s w).0
  unfolding check_redis
  check_redis-IsNamed =
      if-IsNamed "redis" (is_truthy_str s.redis_url) _ _
        (then_-IsNamed "redis" (e.ping s.redis_url w).0 _ λ pong. refl) refl

  signing_of-IsNamed : (mode : SigningKeyMode) → IsNamed "signing_key" (signing_of e s mode w).0
  unfolding signing_of
  signing_of-IsNamed SigningKeyMode.in_process = refl
  signing_of-IsNamed SigningKeyMode.vault_transit =
      then_-IsNamed "signing_key"
        (e.vault_key s.vault_url s.vault_token s.vault_transit_key_name w).0 _ λ raw. refl

  check_signing_key-IsNamed : IsNamed "signing_key" (check_signing_key e s w).0
  unfolding check_signing_key
  check_signing_key-IsNamed = signing_of-IsNamed s.signing_key_mode

-- Each check of a list has its name, whatever the state.
abbrev pub AreNamed : {E : Type 0} → List (String × (E → Probe Check × E)) → Type 0
AreNamed [] = Unit
AreNamed {E} ((name, check) ∷ rest) = ((w : E) → IsNamed name (check w).0) × AreNamed rest

pub run_checks-AreNamed :
    {E : Type 0} (cs : List (String × (E → Probe Check × E)))
    → AreNamed cs
    → (w : E) → map (λ c. c.name) (run_checks cs w).0 ≡ map (λ c. c.0) cs
unfolding run_checks
run_checks-AreNamed [] named w = refl
run_checks-AreNamed ((name, check) ∷ rest) (first, others) w =
    cc (reported-IsNamed name (check w).0 (first w), run_checks-AreNamed rest others (check w).1)

pub checks-AreNamed : {E : Type 0} (e : Surroundings E) (s : Settings) → AreNamed (checks e s)
checks-AreNamed e s = (
  check_registry-IsNamed e s,
  (
    check_opa-IsNamed e s,
    (
      check_identity-IsNamed e s,
      (check_database-IsNamed e s, (check_redis-IsNamed e s, (check_signing_key-IsNamed e s, tt))),
    ),
  ),
)
