-- ===== src/Registry/Changes.antt =====
-- The registry as a map from identifiers to agents: what `create`, `update` and `set_status` make of
-- it, and their audit trail.
use openagent_control.Prelude.{
  String, ◌≡◌, refl, ap, sym, ◌∙◌, inl, inr, Bool, Option, none, some, List, ◌==◌, All,
  if◌then◌else◌, get_or, Option-cases, subst, Bool-cases,
}
use openagent_control.Json.{Json, arr, Items}
use openagent_control.Ledger.Documents.{array}
use openagent_control.Exec.{ok, bind-eq-ok}
use openagent_control.Models.{
  Instant, RiskTier, AgentStatus, ToolGrant, RegisteredAgent, risk_tier_value,
}
use openagent_control.Registry.Grants.{risk_tier_of, status_of, validate_grants}
use openagent_control.Registry.Tables.{AgentRow, OperatorActionRow, Tables, find_row, to_domain}
use openagent_control.Registry.Directory.{
  AgentPatch, dump_grant_set, row_of, patch_row, status_row, lookup, create, update, set_status,
  commit,
}
use openagent_control.Registry.Reading.{
  IsNamed, ReadsBool, risk_tier_of-risk_tier_value, status_of-status_value,
  validate_grants-dump_grant_set, to_domain-row_of,
}
use openagent_control.Registry.Rows.{find_row-append, find_row-write_row, find_row_key}

-- An agent under a patch, and under a change of status.
abbrev pub patched : Instant → AgentPatch → RegisteredAgent → RegisteredAgent
patched now p agent = record agent {
  display_name = get_or p.display_name agent.display_name;
  purpose = get_or p.purpose agent.purpose;
  owner = get_or p.owner agent.owner;
  risk_tier = get_or p.risk_tier agent.risk_tier;
  granted_tools = get_or p.granted_tools agent.granted_tools;
  updated_at = now;
}

abbrev pub with_status : Instant → AgentStatus → RegisteredAgent → RegisteredAgent
with_status now status agent = record agent {
  status = status;
  status_changed_at = some now;
  updated_at = now;
}

abbrev pub AreNamed : Option (List ToolGrant) → Type 0
AreNamed none = Unit
AreNamed (some gs) = All IsNamed gs

-- What the row, and what was read of its three encoded columns, make an agent.
abbrev read_as : AgentRow → RiskTier → AgentStatus → List ToolGrant → RegisteredAgent
read_as row tier status grants = record {
  spiffe_id = row.spiffe_id;
  display_name = row.display_name;
  purpose = row.purpose;
  owner = row.owner;
  risk_tier = tier;
  status = status;
  granted_tools = grants;
  created_at = row.created_at;
  updated_at = row.updated_at;
  status_changed_at = row.status_changed_at;
}

abbrev Reads : (Json → Option Bool) → AgentRow → RegisteredAgent → Type 0
Reads bool_of row agent =
    (tier : RiskTier) × (status : AgentStatus) × (grants : List ToolGrant) × (risk_tier_of
        row.risk_tier
      ≡ ok tier)
    × (status_of row.status ≡ ok status)
    × (validate_grants bool_of (arr row.granted_tools) ≡ ok grants)
    × (read_as row tier status grants ≡ agent)

-- A row that reads as an agent.
to_domain-Reads :
    (bool_of : Json → Option Bool) (row : AgentRow) (agent : RegisteredAgent)
    → to_domain bool_of row ≡ ok agent
    → Reads bool_of row agent
unfolding to_domain
to_domain-Reads bool_of row agent h =
    let (tier, t, k) = bind-eq-ok (risk_tier_of row.risk_tier) _ h in
    let (status, s, l) = bind-eq-ok (status_of row.status) _ k in
    let (grants, g, m) = bind-eq-ok (validate_grants bool_of (arr row.granted_tools)) _ l in
    (tier, status, grants, t, s, g, cc m)

module _ (bool_of : Json → Option Bool) where
  -- What the registry holds after an agent was written: that agent, and every other as before.
  abbrev pub Holds : RegisteredAgent → Tables → Tables → Type 0
  Holds agent t t' =
      (id : String)
      → lookup bool_of id t'
        ≡ (if agent.spiffe_id == id then ok (some agent) else lookup bool_of id t)

module _ (bool_of : Json → Option Bool) (reads : ReadsBool bool_of) where
  to_domain-status_row :
      (row : AgentRow) (agent : RegisteredAgent) (now : Instant) (status : AgentStatus)
      → to_domain bool_of row ≡ ok agent
      → to_domain bool_of (status_row now status row) ≡ ok (with_status now status agent)
  unfolding status_row to_domain
  to_domain-status_row row agent now status h =
      let (tier, before, grants, t, s, g, e) = to_domain-Reads bool_of row agent h in
      subst (λ a. to_domain bool_of (status_row now status row) ≡ ok (with_status now status a)) e
        (rw (t, status_of-status_value status, g) refl)

  tier_patched :
      (change : Option RiskTier) (column : String) (tier : RiskTier)
      → risk_tier_of column ≡ ok tier
      → risk_tier_of (elim change [ none ↦ column | some new ↦ risk_tier_value new ])
        ≡ ok (get_or change tier)
  tier_patched none column tier h = h
  tier_patched (some new) column tier h = risk_tier_of-risk_tier_value new

  grants_patched :
      (change : Option (List ToolGrant)) (column : Items) (grants : List ToolGrant)
      → AreNamed change
      → validate_grants bool_of (arr column) ≡ ok grants
      → validate_grants bool_of
          (arr (elim change [ none ↦ column | some new ↦ array dump_grant_set new ]))
        ≡ ok (get_or change grants)
  grants_patched none column grants named h = h
  grants_patched (some new) column grants named h =
      validate_grants-dump_grant_set bool_of reads new named

  to_domain-patch_row :
      (row : AgentRow) (agent : RegisteredAgent) (now : Instant) (p : AgentPatch)
      → AreNamed p.granted_tools
      → to_domain bool_of row ≡ ok agent
      → to_domain bool_of (patch_row now p row) ≡ ok (patched now p agent)
  unfolding patch_row to_domain
  to_domain-patch_row row agent now p named h =
      let (tier, status, grants, t, s, g, e) = to_domain-Reads bool_of row agent h in
      subst (λ a. to_domain bool_of (patch_row now p row) ≡ ok (patched now p a)) e
        (rw
          (
            tier_patched p.risk_tier row.risk_tier tier t,
            s,
            grants_patched p.granted_tools row.granted_tools grants named g,
          )
          refl)

  -- One row written in a table of which the rest is kept.
  row-Holds :
      (agent : RegisteredAgent) (row : AgentRow) (t t' : Tables)
      → to_domain bool_of row ≡ ok agent
      → ((id : String)
          → find_row id t'.agents
            ≡ (if agent.spiffe_id == id then some row else find_row id t.agents))
      → Holds bool_of agent t t'
  unfolding lookup
  row-Holds agent row t t' reading found id = elim (Bool-cases (agent.spiffe_id == id)) [
    | inl same ↦ rw (lookup, found id, same, reading) refl
    | inr other ↦ rw (lookup, found id, other) refl
  ]

  -- What `lookup` found.
  pub lookup_ok :
      (id : String) (t : Tables) (agent : RegisteredAgent)
      → lookup bool_of id t ≡ ok (some agent)
      → (row : AgentRow) × (find_row id t.agents ≡ some row)
        × (to_domain bool_of row ≡ ok agent)
        × (agent.spiffe_id ≡ id)
        × (row.spiffe_id ≡ id)
  unfolding lookup
  lookup_ok id t agent h = elim (Option-cases (find_row id t.agents)) [
    | inl missing ↦ cc (rw (lookup, missing) at h)
    | inr (row, found) ↦
        let (read, e, k) = bind-eq-ok (to_domain bool_of row) _ (rw (lookup, found) at h) in
        let (_, _, _, _, _, _, same) = to_domain-Reads bool_of row read e in
        let key = find_row_key id t.agents row found in
        let chosen : read ≡ agent = cc k in
        (row, found, e ∙ ap ok chosen, ap (λ a. a.spiffe_id) (sym (same ∙ chosen)) ∙ key, key)
  ]

  -- The common end of `update` and `set_status`.
  commit-Holds :
      (id : String) (old row : AgentRow) (audit : OperatorActionRow) (t : Tables)
      (agent : RegisteredAgent)
      → find_row id t.agents ≡ some old
      → row.spiffe_id ≡ id
      → agent.spiffe_id ≡ id
      → to_domain bool_of row ≡ ok agent
      → ((commit bool_of id row audit t).0 ≡ ok agent)
        × Holds bool_of agent t (commit bool_of id row audit t).1
  unfolding commit
  commit-Holds id old row audit t agent found key same reading =
      rw (commit, reading)
        (
          refl,
          row-Holds agent row t _ reading
              λ i. rw same (find_row-write_row id i t.agents old row key found),
        )

  -- An agent whose identifier is free, and whose grants name tools, is created: `create` returns it,
  -- and afterwards `lookup` finds it there and every other agent as before.
  pub create-Holds :
      (now : Instant) (agent : RegisteredAgent) (operator : String) (t : Tables)
      → find_row agent.spiffe_id t.agents ≡ none
      → All IsNamed agent.granted_tools
      → ((create bool_of now agent operator t).0 ≡ ok agent)
        × Holds bool_of agent t (create bool_of now agent operator t).1
  unfolding create
  create-Holds now agent operator t free named =
      rw (create, free)
        (
          refl,
          row-Holds agent (row_of agent) t _ (to_domain-row_of bool_of reads agent named)
              λ id. find_row-append id t.agents (row_of agent) free,
        )

  -- If the registry has an agent, `set_status` returns it with the status and both times set, and
  -- afterwards `lookup` finds that there and every other agent as before.
  pub set_status-Holds :
      (now : Instant) (id : String) (status : AgentStatus) (operator : String) (t : Tables)
      (agent : RegisteredAgent)
      → lookup bool_of id t ≡ ok (some agent)
      → ((set_status bool_of now id status operator t).0 ≡ ok (with_status now status agent))
        × Holds bool_of
            (with_status now status agent)
            t
            (set_status bool_of now id status operator t).1
  unfolding set_status
  set_status-Holds now id status operator t agent h =
      let (row, found, reading, same, key) = lookup_ok id t agent h in
      rw (set_status, found)
        (commit-Holds id row (status_row now status row) _ t (with_status now status agent) found
          key same (to_domain-status_row row agent now status reading))

  -- If the registry has an agent, and the grants of a patch name tools, `update` returns the patched
  -- agent, and afterwards `lookup` finds that there and every other agent as before.
  pub update-Holds :
      (now : Instant) (id : String) (p : AgentPatch) (operator : String) (t : Tables)
      (agent : RegisteredAgent)
      → lookup bool_of id t ≡ ok (some agent)
      → AreNamed p.granted_tools
      → ((update bool_of now id p operator t).0 ≡ ok (patched now p agent))
        × Holds bool_of (patched now p agent) t (update bool_of now id p operator t).1
  unfolding update
  update-Holds now id p operator t agent h named =
      let (row, found, reading, same, key) = lookup_ok id t agent h in
      rw (update, found)
        (commit-Holds id row (patch_row now p row) _ t (patched now p agent) found key same
          (to_domain-patch_row row agent now p named reading))
