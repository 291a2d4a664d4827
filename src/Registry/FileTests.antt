-- ===== src/Registry/FileTests.antt =====
-- The file registry on a file that an editor changes, and the cache in front of a registry.
use openagent_control.Prelude.{ℕ, ◌≡◌, refl, inr, none, some, [], ◌∷◌, eqb, if◌then◌else◌, ap, ◌==◌}
use openagent_control.Dict
use openagent_control.Dict.{Dict}
use openagent_control.Json
use openagent_control.Json.{Json, str, arr, obj, nil, cons, Fields, end, field}
use openagent_control.Exec.{ok}
use openagent_control.Models.{AgentStatus}
use openagent_control.Governed.Demo.{record_of}
use openagent_control.Access.{get_default}
use openagent_control.Registry.Files.{
  Source, FileAgentRegistry, validate_entries, entries_of, parse_agents, keep_loaded, reload,
  load_kept, load_at, load, lookup_in_file,
}
use openagent_control.Registry.Freshness.{read_now, IsVersioned, IsLoaded, lookup_in_file_lem}

abbrev file : ℕ → Json
file n = obj (field "agents" (arr (cons (str (if eqb n 0 then "active" else "suspended")) nil)) end)

-- The state is the time of the last change; it was made active at 0, and is suspended since.
abbrev source : Source ℕ
source = record {
  mtime = λ n. ok n;
  load = λ n. ok (file n);
  model_validate = λ j. elim j [
    | str s ↦ ok (record_of (if s == "active" then AgentStatus.active else AgentStatus.suspended))
    | _ ↦ ok (record_of AgentStatus.suspended)
  ];
}

abbrev empty : FileAgentRegistry
empty = record { agents = none; loaded_mtime = none }

-- What is kept after the file was read at 0.
abbrev kept : FileAgentRegistry
kept = record {
  agents = some (("spiffe://corp/bot", record_of AgentStatus.active) ∷ []);
  loaded_mtime = some 0;
}

versioned : IsVersioned source
versioned env env' mtime h k = let same : env ≡ env' = cc (h, k) in ap (λ n. ok (file n)) same

unfoldable file_run : Unit {0}
unfolding lookup_in_file load load_at load_kept reload keep_loaded parse_agents validate_entries
    entries_of get_default Json.get Dict.get Dict.insert
file_run = tt

first_lookup :
    lookup_in_file source "spiffe://corp/bot" 0 empty
    ≡ (ok (some (record_of AgentStatus.active)), kept)
unfolding file_run
first_lookup = refl

kept-IsLoaded : IsLoaded source kept
unfolding file_run
kept-IsLoaded =
    inr (0, 0, ("spiffe://corp/bot", record_of AgentStatus.active) ∷ [], refl, refl, refl, refl)

lookup_in_file_lem_example :
    ((lookup_in_file source "spiffe://corp/bot" 1 kept).0 ≡ read_now source "spiffe://corp/bot" 1)
    × IsLoaded source (lookup_in_file source "spiffe://corp/bot" 1 kept).1
lookup_in_file_lem_example =
    lookup_in_file_lem source "spiffe://corp/bot" 1 kept versioned kept-IsLoaded

revoked :
    (lookup_in_file source "spiffe://corp/bot" 1 kept).0
    ≡ ok (some (record_of AgentStatus.suspended))
unfolding file_run
revoked = refl
