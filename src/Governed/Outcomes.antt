-- ===== src/Governed/Outcomes.antt =====
-- How `execute` ends once a call is allowed: `_broker_credential`, the forward and their handlers.
use openagent_control.Prelude.{
  String, ◌≡◌, ◌≢◌, ◌⊎◌, inl, inr, true, false, Option, none, some, List, arith, Bool-cases,
}
use openagent_control.Text.{is_truthy as is_truthy_str, partition}
use openagent_control.Json.{get, arr, obj, Json, Items, nil, cons, Fields}
use openagent_control.Exec.{
  Result, ok, err, Error, missing_subject_token, token_exchange, upstream, uncaught, bind-eq-err,
}
use openagent_control.Models.{AgentIdentity, AuthorizationOutcome, ToolCallRequest}
use openagent_control.Governed.Service.{GovernedExecutionService, Headers, World}
use openagent_control.Governed.Subject.{header, is_set, or_empty}
use openagent_control.Governed.Listing.{
  project_tools, project_result, grants_of, filter_listing, keep_granted, is_granted,
}
use openagent_control.Governed.Flow.{
  broker_credential, forward_call, on_upstream, with_credential, run_allowed, respond,
}

abbrev pub IsUncaught : Error → Type 0
IsUncaught e = (message : String) × (e ≡ uncaught message)

-- A delegated call whose request carries no subject token.
abbrev pub IsUnsponsored : AgentIdentity → Headers → Error → Type 0
IsUnsponsored agent headers e =
    (message : String) × (e ≡ missing_subject_token message)
    × (is_set agent.human_sponsor ≡ true)
    × (is_truthy_str (or_empty (header "x-subject-token" headers)) ≡ false)

is_granted_raises :
    (granted : List String) (tool : Json) (e : Error)
    → is_granted granted tool ≡ err e
    → IsUncaught e
is_granted_raises granted tool e h = ground arith

keep_granted_raises :
    (granted : List String) (tools : Items) (e : Error)
    → keep_granted granted tools ≡ err e
    → IsUncaught e
unfolding keep_granted
keep_granted_raises granted nil e h = cc
keep_granted_raises granted (cons tool tools) e h =
    elim (bind-eq-err (is_granted granted tool) _ h) [
      | inl x ↦ is_granted_raises granted tool e x
      | inr (b, y, k) ↦ elim (bind-eq-err (keep_granted granted tools) _ k) [
        | inl x ↦ keep_granted_raises granted tools e x
        | inr (ts, z, l) ↦ cc
      ]
    ]

project_tools_raises :
    (granted : List String) (response result : Fields) (tools : Option Json) (e : Error)
    → project_tools granted response result tools ≡ err e
    → IsUncaught e
project_tools_raises granted response result (some (arr tools)) e h =
    elim (bind-eq-err (keep_granted granted tools) _ h) [
      | inl x ↦ keep_granted_raises granted tools e x
      | inr (kept, y, k) ↦ cc
    ]
project_tools_raises granted response result none e h = cc
project_tools_raises granted response result (some _) e h = cc

project_result_raises :
    (granted : List String) (response : Fields) (result : Option Json) (e : Error)
    → project_result granted response result ≡ err e
    → IsUncaught e
project_result_raises granted response (some (obj result)) e h =
    project_tools_raises granted response result (get "tools" result) e h
project_result_raises granted response none e h = cc
project_result_raises granted response (some _) e h = cc

filter_listing_raises :
    (response : Fields) (call : ToolCallRequest) (e : Error)
    → filter_listing response call ≡ err e
    → IsUncaught e
unfolding filter_listing
filter_listing_raises response call e h =
    ground (
      arith,
      project_result_raises (grants_of call.registration) response (get "result" response) e,
    )

on_upstream_raises :
    {E : Type 0} (s : GovernedExecutionService E) (call : ToolCallRequest) (r : Result Fields)
    (e : Error)
    → on_upstream s call r ≡ err e
    → (r ≡ err e) × ((message : String) → e ≢ upstream message)
unfolding on_upstream
on_upstream_raises s call (ok x) e h = cc
on_upstream_raises s call (err (upstream m)) e h = cc
on_upstream_raises s call (err x) e h = (h, λ m k. cc)

module _ {E : Type 0} (s : GovernedExecutionService E)
    (exchange_raises : (token audience : String) (x : E) (e : Error)
      → (s.exchange token audience x).0 ≡ err e
      → (message : String) × (e ≡ token_exchange message))
    (forward_raises : (call : ToolCallRequest) (credential : String) (x : E) (e : Error)
      → (s.forward call credential x).0 ≡ err e
      → (message : String) × (e ≡ upstream message)) where
  broker_raises :
      (agent : AgentIdentity) (headers : Headers) (w : World E) (e : Error)
      → (broker_credential s agent headers w).0 ≡ err e
      → ((message : String) × (e ≡ token_exchange message)) ⊎ IsUnsponsored agent headers e
  unfolding broker_credential
  broker_raises agent headers w e h =
      let token = or_empty (header "x-subject-token" headers) in
      let bearer = partition (or_empty (header "authorization" headers)) in
      ground (
        arith,
        exchange_raises token s.delegated_audience w.env e,
        exchange_raises bearer.1 s.delegated_audience w.env e,
      )

  forward_call_raises :
      (call : ToolCallRequest) (credential : String) (w : World E) (e : Error)
      → (forward_call s call credential w).0 ≡ err e
      → IsUncaught e
  unfolding forward_call
  forward_call_raises call credential w e h =
      let (raised, other) = on_upstream_raises s call _ e h in
      elim (bind-eq-err (s.forward call credential w.env).0 _ raised) [
        | inl x ↦
            let (message, y) = forward_raises call credential w.env e x in absurd (other message y)
        | inr (response, x, y) ↦ filter_listing_raises response call e y
      ]

  with_credential_raises :
      (call : ToolCallRequest) (r : Result String) (w : World E) (e : Error)
      → (with_credential s call r w).0 ≡ err e
      → IsUncaught e ⊎ ((r ≡ err e) × ((message : String) → e ≢ token_exchange message))
  unfolding with_credential
  with_credential_raises call (ok credential) w e h =
      inl (forward_call_raises call credential w e h)
  with_credential_raises call (err (token_exchange m)) w e h = cc
  with_credential_raises call (err x) w e h = inr (cc, λ m k. cc)

  run_allowed_raises :
      (call : ToolCallRequest) (headers : Headers) (w : World E) (e : Error)
      → (run_allowed s call headers w).0 ≡ err e
      → IsUncaught e ⊎ IsUnsponsored call.agent headers e
  unfolding run_allowed
  run_allowed_raises call headers w e h =
      let (r, v) = broker_credential s call.agent headers w in
      elim (with_credential_raises call r v e h) [
        | inl u ↦ inl u
        | inr (x, other) ↦ elim (broker_raises call.agent headers w e x) [
          | inl (m, y) ↦ absurd (other m y)
          | inr y ↦ inr y
        ]
      ]

  -- Given that the exchange and the upstream raise only the errors of their ports, what `execute` does
  -- after its decision raises either an uncaught Python error or, for an agent with a sponsor whose
  -- request has no subject token, the missing token; no error of the two ports leaves it.
  pub respond_raises :
      (o : AuthorizationOutcome) (headers : Headers) (w : World E) (e : Error)
      → (respond s o headers w).0 ≡ err e
      → IsUncaught e ⊎ IsUnsponsored o.call.agent headers e
  unfolding respond
  respond_raises o headers w e h = elim (Bool-cases o.allowed) [
    | inl a ↦ run_allowed_raises o.call headers w e (rw a at h)
    | inr a ↦ cc (rw a at h)
  ]
