-- ===== src/Diagnostics/Checks.antt =====
-- diagnostics.py. What a check looks at is a parameter; an exception is known by its class and text.
use Prim.Native.String.{[] as nothing, ◌∷◌ as char_cons}
use openagent_control.Prelude.{
  ℕ, suc, String, Bool, true, false, Option, none, some, List, [], ◌∷◌, ◌==◌, eqb, if◌then◌else◌,
}
use openagent_control.Text.{◌<>◌, is_truthy as is_truthy_str, decimal, take}
use openagent_control.Json.{Json, str, arr, obj, Items, nil, cons, Fields, end, field}
use openagent_control.Exec.{Result, ok, err, Error, uncaught}
use openagent_control.Http.{Response}
use openagent_control.Identity.Claims.{claim, or_else, to_str, starts_with}
use openagent_control.Gateway.Settings.{IdentityMode, SigningKeyMode, Settings}
use openagent_control.Gateway.Wiring.{Machine, resolve_registry_path}

pub record Check : Type 0 where
  pub name : String
  pub is_ok : Bool
  pub detail : String

-- What a step of a check comes to: a value, or an exception's class and text.
pub data Probe (A : Type 0) : Type 0 where
  seen : A → Probe A
  fault : String → String → Probe A

abbrev pub then_ : {A B : Type 0} → Probe A → (A → Probe B) → Probe B
then_ (seen a) f = f a
then_ (fault type_name message) f = fault type_name message

pub record Surroundings (E : Type 0) : Type 0 where
  pub machine : Machine
  -- `yaml.safe_load(path.read_text())`
  pub load_yaml : String → E → Probe Json
  pub get : String → E → Probe Response × E
  pub raise_for_status : Response → Probe (Unit {0})
  pub json : Response → Probe Json
  -- the current and the head revision of the schema
  pub revisions : String → E → Probe (Option String × String) × E
  pub ping : String → E → Probe (Unit {0}) × E
  -- `public_key().public_bytes_raw().hex()` of a Vault signer
  pub vault_key : String → String → String → E → Probe String × E
  pub repr : Json → String

abbrev pub passed : String → String → Check
passed name detail = record { name = name; is_ok = true; detail = detail }

abbrev pub failing : String → String → Check
failing name detail = record { name = name; is_ok = false; detail = detail }

abbrev count : Items → ℕ
count nil = 0
count (cons x xs) = suc (count xs)

abbrev count_fields : Fields → ℕ
count_fields end = 0
count_fields (field k v d) = suc (count_fields d)

abbrev count_chars : String → ℕ
count_chars nothing = 0
count_chars (char_cons c s) = suc (count_chars s)

-- `len(x)`
unfoldable pub len : Json → Probe ℕ
len (arr xs) = seen (count xs)
len (obj d) = seen (count_fields d)
len (str s) = seen (count_chars s)
len _ = fault "TypeError" "object has no len()"

-- `(raw or {}).get("agents") or []`
unfoldable pub listed_agents : Json → Probe Json
listed_agents raw = elim (or_else raw (obj end)) [
  | obj d ↦ seen (or_else (claim "agents" d) (arr nil))
  | _ ↦ fault "AttributeError" "object has no attribute 'get'"
]

unfoldable pub registry_detail : String → Settings → Probe Json → Probe Check
unfolding len listed_agents
registry_detail path s raw = then_ raw λ loaded. then_ (listed_agents loaded) λ agents.
    then_ (len agents) λ n. seen (
      passed "registry" (
        path
        <> ": "
        <> decimal n
        <> " agent(s)"
        <> (if is_truthy_str s.registry_path
            then ""
            else " — bundled empty starter, every agent will be denied")))

-- `s.split("/v1/")[0]`
unfoldable pub before_v1 : String → String
before_v1 nothing = ""
before_v1 (char_cons c s) =
    let rest = before_v1 s in if starts_with "/v1/" (char_cons c s) then "" else char_cons c rest

unfoldable pub opa_detail : String → Response → Check
opa_detail base r = record {
  name = "opa";
  is_ok = eqb r.status_code 200;
  detail = base <> " -> HTTP " <> decimal r.status_code;
}

-- `response.json().get('issuer')`
unfoldable pub issuer_text : (Json → String) → Json → Probe String
issuer_text repr (obj d) = seen (to_str repr (claim "issuer" d))
issuer_text repr _ = fault "AttributeError" "object has no attribute 'get'"

unfoldable pub schema_check : Option String × String → Check
schema_check (none, head) = failing "database" "no schema — run: openagent-control migrate"
schema_check (some current, head) =
    if current == head
    then passed "database" ("schema at head (" <> head <> ")")
    else failing "database"
        ("schema at " <> current <> ", head is " <> head <> " — run: openagent-control migrate")

-- A failed check, `f"{type(exc).__name__}: {exc}"`.
unfoldable pub reported : String → Probe Check → Check
reported name (seen check) = check
reported name (fault type_name message) = failing name (type_name <> ": " <> message)

-- The exception that resolving the registry's path raises.
abbrev as_fault : Error → Probe Check
as_fault (uncaught message) = seen (failing "registry" message)
as_fault _ = fault "Exception" ""

unfoldable pub registry_of : Settings → (String → Probe Json) → Result String → Probe Check
unfolding registry_detail
registry_of s load (ok path) = registry_detail path s (load path)
registry_of s load (err x) = as_fault x

module _ {E : Type 0} (e : Surroundings E) (s : Settings) where
  unfoldable pub check_registry : E → Probe Check × E
  unfolding registry_of
  check_registry w =
      if is_truthy_str s.database_url
      then (seen (passed "registry" "backed by Postgres (see the database check)"), w)
      else (registry_of s (λ path. e.load_yaml path w) (resolve_registry_path e.machine s), w)

  unfoldable pub check_opa : E → Probe Check × E
  unfolding before_v1 opa_detail
  check_opa w =
      let base = before_v1 s.opa_url in
      let (r, w') = e.get (base <> "/health") w in
      (then_ r λ response. seen (opa_detail base response), w')

  unfoldable pub discovery_check : E → Probe Check × E
  unfolding issuer_text
  discovery_check w =
      let (r, w') = e.get s.oidc_discovery_url w in
      (
        then_ r λ response. then_ (e.raise_for_status response) λ fine.
            then_ (e.json response) λ document.
              then_ (issuer_text e.repr document)
                λ issuer. seen (passed "identity" ("discovery ok, issuer=" <> issuer)),
        w',
      )

  unfoldable pub identity_of : IdentityMode → E → Probe Check × E
  unfolding discovery_check
  identity_of IdentityMode.oidc_jwks w = discovery_check w
  identity_of IdentityMode.header w =
      (seen (passed "identity" "identity_mode=header (no IdP to reach)"), w)
  identity_of IdentityMode.jwt_svid w =
      (seen (passed "identity" "identity_mode=jwt-svid (no IdP to reach)"), w)

  unfoldable pub check_identity : E → Probe Check × E
  unfolding identity_of
  check_identity = identity_of s.identity_mode

  unfoldable pub check_database : E → Probe Check × E
  unfolding schema_check
  check_database w =
      if is_truthy_str s.database_url
      then (let (r, w') = e.revisions s.database_url w in
          (then_ r λ found. seen (schema_check found), w'))
      else (seen (passed "database" "unset — in-process ledger + file registry"), w)

  unfoldable pub check_redis : E → Probe Check × E
  check_redis w =
      if is_truthy_str s.redis_url
      then (let (r, w') = e.ping s.redis_url w in
          (then_ r λ pong. seen (passed "redis" "ping ok"), w'))
      else (seen (passed "redis" "unset — caching disabled"), w)

  unfoldable pub signing_of : SigningKeyMode → E → Probe Check × E
  unfolding take
  signing_of SigningKeyMode.in_process w = (
    seen (
        passed "signing_key"
          "in-process (regenerated on restart, not compliance-grade — see ADR-0013)"),
    w,
  )
  signing_of SigningKeyMode.vault_transit w =
      let (r, w') = e.vault_key s.vault_url s.vault_token s.vault_transit_key_name w in
      (
        then_ r λ raw. seen (
            passed "signing_key" (
              "vault-transit key='"
              <> s.vault_transit_key_name
              <> "' pubkey="
              <> take 16 raw
              <> "…")),
        w',
      )

  unfoldable pub check_signing_key : E → Probe Check × E
  unfolding signing_of
  check_signing_key = signing_of s.signing_key_mode

  -- `_CHECKS`, each with its name
  abbrev pub checks : List (String × (E → Probe Check × E))
  checks =
      ("registry", check_registry)
      ∷ ("opa", check_opa)
      ∷ ("identity", check_identity)
      ∷ ("database", check_database)
      ∷ ("redis", check_redis)
      ∷ ("signing_key", check_signing_key)
      ∷ []

module _ {E : Type 0} where
  -- The loop of `run_all`
  unfoldable pub run_checks : List (String × (E → Probe Check × E)) → E → List Check × E
  unfolding reported
  run_checks [] w = ([], w)
  run_checks ((name, check) ∷ rest) w =
      let (r, w') = check w in
      let (results, v) = run_checks rest w' in (reported name r ∷ results, v)

  -- `run_all`
  unfoldable pub run_all : Surroundings E → Settings → E → List Check × E
  unfolding run_checks
  run_all e s = run_checks (checks e s)
