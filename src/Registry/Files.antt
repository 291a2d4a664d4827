-- ===== src/Registry/Files.antt =====
-- `FileAgentRegistry` (adapters/registry/file.py). The file is part of the environment: its time of
-- change and its text as YAML reads it. pydantic's reading of an entry is a parameter.
use openagent_control.Prelude.{
  ℕ, String, Bool, false, Option, none, some, List, [], ◌∷◌, eqb, foldl, if◌then◌else◌,
}
use openagent_control.Dict
use openagent_control.Dict.{Dict}
use openagent_control.Json.{Json, arr, obj, Items, nil, cons, end, is_truthy, str}
use openagent_control.Exec.{Result, ok, err, uncaught, bind, Exec}
use openagent_control.Access.{get_default}
use openagent_control.Identity.Claims.{or_else}
use openagent_control.Models.{RegisteredAgent}

-- The file system and the parsers.
pub record Source (E : Type 0) : Type 0 where
  -- `path.stat().st_mtime`
  pub mtime : E → Result ℕ
  -- `yaml.safe_load(path.read_text())`
  pub load : E → Result Json
  -- `RegisteredAgent.model_validate`
  pub model_validate : Json → Result RegisteredAgent

-- `_agents` and `_loaded_mtime`
pub record FileAgentRegistry : Type 0 where
  pub agents : Option (Dict RegisteredAgent)
  pub loaded_mtime : Option ℕ

abbrev pub is_at : ℕ → Option ℕ → Bool
is_at mtime none = false
is_at mtime (some n) = eqb mtime n

abbrev by_spiffe_id : List RegisteredAgent → Dict RegisteredAgent
by_spiffe_id = foldl (λ d agent. Dict.insert agent.spiffe_id agent d) []

module _ {E : Type 0} (source : Source E) where
  unfoldable pub validate_entries : Items → Result (List RegisteredAgent)
  validate_entries nil = ok []
  validate_entries (cons entry entries) =
      let rest = validate_entries entries in
      bind (source.model_validate entry) λ agent. bind rest λ agents. ok (agent ∷ agents)

  -- The entries of `raw.get("agents", [])`; an empty dict or text has none, and no entry of another
  -- one is a record.
  unfoldable pub entries_of : Json → Result Items
  entries_of (arr entries) = ok entries
  entries_of (obj end) = ok nil
  entries_of (str s) =
      if is_truthy (str s) then err (uncaught "ValidationError: RegisteredAgent") else ok nil
  entries_of (obj d) = err (uncaught "ValidationError: RegisteredAgent")
  entries_of _ = err (uncaught "TypeError: object is not iterable")

  unfoldable pub parse_agents : Json → Result (Dict RegisteredAgent)
  unfolding validate_entries entries_of get_default Dict.insert
  parse_agents raw = bind (get_default "agents" (arr nil) (or_else raw (obj end))) λ listed.
      bind (entries_of listed)
        λ entries. bind (validate_entries entries) λ agents. ok (by_spiffe_id agents)

  -- What a reload keeps; a failed one keeps what was loaded.
  unfoldable pub keep_loaded :
      ℕ
      → FileAgentRegistry
      → Result (Dict RegisteredAgent)
      → Result (Dict RegisteredAgent) × FileAgentRegistry
  keep_loaded mtime s (ok agents) =
      (ok agents, record { agents = some agents; loaded_mtime = some mtime })
  keep_loaded mtime s (err e) = (err e, s)

  unfoldable pub reload : ℕ → E → Exec FileAgentRegistry (Dict RegisteredAgent)
  unfolding keep_loaded
  reload mtime env s = keep_loaded mtime s (bind (source.load env) parse_agents)

  -- Reads the file if nothing has been loaded or it has changed since.
  unfoldable pub load_kept :
      Option (Dict RegisteredAgent) → Bool → ℕ → E → Exec FileAgentRegistry (Dict RegisteredAgent)
  unfolding reload
  load_kept none is_fresh mtime env s = reload mtime env s
  load_kept (some agents) is_fresh mtime env s =
      if is_fresh then (ok agents, s) else reload mtime env s

  unfoldable pub load_at : Result ℕ → E → Exec FileAgentRegistry (Dict RegisteredAgent)
  unfolding load_kept
  load_at (ok mtime) env s = load_kept s.agents (is_at mtime s.loaded_mtime) mtime env s
  load_at (err e) env s = (err e, s)

  -- `_load`
  unfoldable pub load : E → Exec FileAgentRegistry (Dict RegisteredAgent)
  unfolding load_at
  load env = load_at (source.mtime env) env

  -- `lookup`
  unfoldable pub lookup_in_file : String → E → Exec FileAgentRegistry (Option RegisteredAgent)
  unfolding load Dict.get
  lookup_in_file spiffe_id env s =
      let (r, s') = load env s in (bind r λ agents. ok (Dict.get spiffe_id agents), s')
