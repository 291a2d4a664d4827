-- ===== src/Registry/Freshness.antt =====
-- `FileAgentRegistry.lookup` over the states of a registry and its file: proofs about Files.
use openagent_control.Prelude.{
  ℕ, String, ◌≡◌, refl, ◌⊎◌, inl, inr, Bool, true, false, Option, none, some, ap, sym, arith,
}
use openagent_control.Dict
use openagent_control.Dict.{Dict}
use openagent_control.Exec.{Result, ok, err, bind}
use openagent_control.Models.{RegisteredAgent}
use openagent_control.Registry.Files.{
  Source, FileAgentRegistry, is_at, parse_agents, keep_loaded, reload, load_kept, load_at, load,
  lookup_in_file,
}

module _ {E : Type 0} (source : Source E) where
  -- The records of the file at a moment.
  abbrev pub contents : E → Result (Dict RegisteredAgent)
  contents env = bind (source.load env) (parse_agents source)

  -- A lookup that reads the file anew.
  abbrev pub read_now : String → E → Result (Option RegisteredAgent)
  read_now spiffe_id env =
      bind (source.mtime env) λ mtime. bind (contents env) λ agents. ok (Dict.get spiffe_id agents)

  -- A time of change names one state of the file.
  abbrev pub IsVersioned : Type 0
  IsVersioned =
      (env env' : E) (mtime : ℕ)
      → source.mtime env ≡ ok mtime
      → source.mtime env' ≡ ok mtime
      → source.load env ≡ source.load env'

  -- What is kept was read from the file at the kept time of change.
  abbrev pub IsLoaded : FileAgentRegistry → Type 0
  IsLoaded s =
      (s.agents ≡ none)
      ⊎ ((env : E) × (mtime : ℕ) × (agents : Dict RegisteredAgent) × (s.agents ≡ some agents)
          × (s.loaded_mtime ≡ some mtime)
          × (source.mtime env ≡ ok mtime)
          × (contents env ≡ ok agents))

  -- A load at a moment of the file that answers by it, and keeps the invariant.
  abbrev Loads : E → Result (Dict RegisteredAgent) × FileAgentRegistry → Type 0
  Loads env (r, s) = (r ≡ contents env) × IsLoaded s

  keep_loaded-Loads :
      (r : Result (Dict RegisteredAgent)) (mtime : ℕ) (env : E) (s : FileAgentRegistry)
      → r ≡ contents env
      → source.mtime env ≡ ok mtime
      → IsLoaded s
      → Loads env (keep_loaded source mtime s r)
  unfolding keep_loaded
  keep_loaded-Loads (ok agents) mtime env s e at kept =
      (e, inr (env, mtime, agents, refl, refl, at, sym e))
  keep_loaded-Loads (err x) mtime env s e at kept = (e, kept)

  load_kept-Loads :
      (had : Option (Dict RegisteredAgent)) (is_fresh : Bool) (mtime : ℕ) (env : E)
      (s : FileAgentRegistry)
      → ((agents : Dict RegisteredAgent)
          → had ≡ some agents
          → is_fresh ≡ true
          → contents env ≡ ok agents)
      → source.mtime env ≡ ok mtime
      → IsLoaded s
      → Loads env (load_kept source had is_fresh mtime env s)
  unfolding load_kept reload
  load_kept-Loads none is_fresh mtime env s current at kept =
      keep_loaded-Loads (contents env) mtime env s refl at kept
  load_kept-Loads (some agents) true mtime env s current at kept =
      (sym (current agents refl refl), kept)
  load_kept-Loads (some agents) false mtime env s current at kept =
      keep_loaded-Loads (contents env) mtime env s refl at kept

  is_at_yes : (m : ℕ) (o : Option ℕ) → is_at m o ≡ true → o ≡ some m
  is_at_yes m none h = cc
  is_at_yes m (some n) h = ap some (ground arith)

  kept_current :
      (mtime : ℕ) (env : E) (s : FileAgentRegistry) (agents : Dict RegisteredAgent)
      → IsVersioned
      → source.mtime env ≡ ok mtime
      → IsLoaded s
      → s.agents ≡ some agents
      → is_at mtime s.loaded_mtime ≡ true
      → contents env ≡ ok agents
  kept_current mtime env s agents versioned at kept has fresh = elim kept [
    | inl e ↦ cc
    | inr (earlier, m, then_agents, had, was_at, was, read) ↦
        let same : source.mtime earlier ≡ ok mtime =
          cc (was, was_at, is_at_yes mtime s.loaded_mtime fresh) in
        cc (
          ap (λ j. bind j (parse_agents source)) (versioned env earlier mtime at same),
          read,
          had,
          has,
        )
  ]

  load_at-Loads :
      (r : Result ℕ) (spiffe_id : String) (env : E) (s : FileAgentRegistry)
      → IsVersioned
      → source.mtime env ≡ r
      → IsLoaded s
      → (bind (load_at source r env s).0 (λ agents. ok (Dict.get spiffe_id agents))
          ≡ bind r (λ mtime. bind (contents env) λ agents. ok (Dict.get spiffe_id agents)))
        × IsLoaded (load_at source r env s).1
  unfolding load_at
  load_at-Loads (ok mtime) spiffe_id env s versioned at kept =
      let (answer, after) =
        load_kept-Loads s.agents (is_at mtime s.loaded_mtime) mtime env s
          (λ agents has fresh. kept_current mtime env s agents versioned at kept has fresh) at
          kept in
      (ap (λ r. bind r (λ agents. ok (Dict.get spiffe_id agents))) answer, after)
  load_at-Loads (err x) spiffe_id env s versioned at kept = (refl, kept)

  -- If a time of change names one state of the file, `lookup` of a registry that was loaded from the
  -- file, or not yet, answers as if it read the file now: with the record that the file has, with none,
  -- or with the error of reading it. It leaves a registry that was so loaded.
  pub lookup_in_file_lem :
      (spiffe_id : String) (env : E) (s : FileAgentRegistry)
      → IsVersioned
      → IsLoaded s
      → ((lookup_in_file source spiffe_id env s).0 ≡ read_now spiffe_id env)
        × IsLoaded (lookup_in_file source spiffe_id env s).1
  unfolding lookup_in_file load
  lookup_in_file_lem spiffe_id env s versioned kept =
      load_at-Loads (source.mtime env) spiffe_id env s versioned refl kept
