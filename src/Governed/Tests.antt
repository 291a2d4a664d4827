-- ===== src/Governed/Tests.antt =====
-- The gateway's theorems at concrete requests, and runs of it.
use openagent_control.Prelude.{
  inl, ℕ, ◌≡◌, refl, ◌↔◌, inr, Bool, true, false, not, none, some, List, [], ◌∷◌, Any, ◌⊎◌,
}
use openagent_control.Json.{Fields, Items, str, arr, obj, end, field, nil, cons}
use openagent_control.Exec.{
  Error, missing_subject_token, ok, err, uncaught, policy_engine_unavailable,
}
use openagent_control.Models.{
  AgentStatus, SubjectIdentity, text, ToolCallRequest, deny, PolicyDecision, AuthorizationOutcome,
}
use openagent_control.Governed.Service.{
  GovernedExecutionService, observe, strict, Event, identified, looked_up, verified, evaluated,
  recorded, exported, World,
}
use openagent_control.Governed.Subject.{bind_subject}
use openagent_control.Governed.Listing.{filter_listing}
use openagent_control.Governed.Flow.{
  judge, authorize, execute, policy_violation, fail_closed_reason,
}
use openagent_control.Governed.Demo.{
  permits, bot, record_of, alice, receipt_of, tool, listing, gateway, headers, list_request,
  call_request, start, gateway_run,
}
use openagent_control.Governed.Permit.{IsGoverned, execute_request, serve, serve-IsGoverned}
use openagent_control.Governed.Gate.{
  Refused, judge-Gated, judge_outage, IsCoherent, authorize-IsCoherent,
}
use openagent_control.Governed.Effects.{effects, execute_refused}
use openagent_control.Governed.Binding.{Bound, bind_subject_iff, authorize-Bound}
use openagent_control.Governed.Projection.{Narrowed, filter_listing-Narrowed}
use openagent_control.Governed.Returns.{judge_returns}
use openagent_control.Governed.Outcomes.{IsUncaught, IsUnsponsored, respond_raises}

listing_is_narrowed :
    (execute gateway headers list_request start).0
    ≡ ok (
        field "jsonrpc"
          (str "2.0")
          (field "result" (obj (field "tools" (arr (cons (tool "read_query") nil)) end)) end))
unfolding gateway_run
listing_is_narrowed = refl

serve-IsGoverned_example :
    IsGoverned gateway
      (serve gateway
        (execute_request headers list_request ∷ execute_request headers call_request ∷ [])
        start).trace
serve-IsGoverned_example =
    serve-IsGoverned gateway
      (execute_request headers list_request ∷ execute_request headers call_request ∷ []) start tt

abbrev call_by : AgentStatus → ToolCallRequest
call_by status = record {
  method = "tools/call";
  tool_name = some "read_query";
  arguments = end;
  agent = bot;
  registration = some (record_of status);
  subject = none;
  request_id = some (text "1");
}

abbrev outcome_of : ToolCallRequest → PolicyDecision → Bool → AuthorizationOutcome
outcome_of call d shadowed = record {
  allowed = shadowed;
  decision = d;
  receipt = receipt_of 0 d (not shadowed);
  call = call;
  shadowed = shadowed;
}

abbrev after : ToolCallRequest → PolicyDecision → Bool → List Event → World ℕ
after call d shadowed earlier = record {
  env = 1;
  trace =
      exported (receipt_of 0 d (not shadowed)) (ok tt)
      ∷ recorded bot call d (not shadowed) (ok (receipt_of 0 d (not shadowed)))
      ∷ earlier;
}

abbrev suspension : PolicyDecision
suspension = record { decision = deny; reason = "Agent is suspended in the Agent Registry" }

judge-Gated_example :
    Refused gateway
      (call_by AgentStatus.suspended)
      (outcome_of (call_by AgentStatus.suspended) suspension false)
      start
      (after (call_by AgentStatus.suspended) suspension false [])
unfolding gateway_run
judge-Gated_example =
    judge-Gated gateway (call_by AgentStatus.suspended) start
      (after (call_by AgentStatus.suspended) suspension false [])
      (outcome_of (call_by AgentStatus.suspended) suspension false)
      (inr (record_of AgentStatus.suspended, refl, refl)) refl

-- The same gateway in observe mode, before and during an outage of its policy engine.
abbrev observing : GovernedExecutionService ℕ
observing = record gateway { decision_mode = observe }

abbrev offline : GovernedExecutionService ℕ
offline = record gateway {
  decision_mode = observe;
  evaluate = λ call n. (err (policy_engine_unavailable "timeout"), n);
}

abbrev outage : PolicyDecision
outage = record { decision = deny; reason = fail_closed_reason }

judge_outage_example :
    (outage.reason ≡ fail_closed_reason)
    × Refused offline
        (call_by AgentStatus.active)
        (outcome_of (call_by AgentStatus.active) outage false)
        (record {
          env = 0;
          trace =
              evaluated (call_by AgentStatus.active) (err (policy_engine_unavailable "timeout"))
              ∷ [];
        })
        (after
          (call_by AgentStatus.active)
          outage
          false
          (evaluated (call_by AgentStatus.active) (err (policy_engine_unavailable "timeout")) ∷ []))
unfolding gateway_run
judge_outage_example =
    judge_outage offline (call_by AgentStatus.active) (record_of AgentStatus.active) "timeout" start
      (after (call_by AgentStatus.active) outage false
        (evaluated (call_by AgentStatus.active) (err (policy_engine_unavailable "timeout")) ∷ []))
      (outcome_of (call_by AgentStatus.active) outage false) refl refl refl refl

-- The call that `call_request` makes, with the verified subject.
abbrev alices_call : ToolCallRequest
alices_call = record (call_by AgentStatus.active) { subject = some alice; request_id = none }

abbrev denial : PolicyDecision
denial = record { decision = deny; reason = "Denied by policy" }

abbrev alices_events : List Event
alices_events =
    evaluated alices_call (ok denial)
    ∷ verified "alices-token" (ok alice)
    ∷ looked_up "spiffe://corp/bot" (ok (some (record_of AgentStatus.active)))
    ∷ identified headers (ok bot)
    ∷ []

abbrev Coherent : GovernedExecutionService ℕ → AuthorizationOutcome → World ℕ → Type 0
Coherent s o w =
    IsCoherent s o
    × ((earlier : List Event) × (w.trace
          ≡ exported o.receipt (ok tt)
            ∷ recorded o.call.agent o.call o.decision (not o.shadowed) (ok o.receipt)
            ∷ earlier))

shadowed_run :
    authorize observing headers call_request start
    ≡ (ok (outcome_of alices_call denial true), after alices_call denial true alices_events)
unfolding gateway_run
shadowed_run = refl

authorize-IsCoherent_example :
    Coherent observing
      (outcome_of alices_call denial true)
      (after alices_call denial true alices_events)
authorize-IsCoherent_example =
    authorize-IsCoherent observing headers call_request start
      (after alices_call denial true alices_events) (outcome_of alices_call denial true)
      shadowed_run

refused_run :
    authorize gateway headers call_request start
    ≡ (ok (outcome_of alices_call denial false), after alices_call denial false alices_events)
unfolding gateway_run
refused_run = refl

execute_refused_example :
    (execute gateway headers call_request start ≡ (
      ok (policy_violation (outcome_of alices_call denial false)),
      after alices_call denial false alices_events,
    ))
    × (effects (after alices_call denial false alices_events).trace ≡ effects [])
execute_refused_example =
    execute_refused gateway headers call_request start
      (after alices_call denial false alices_events) (outcome_of alices_call denial false)
      refused_run refl

bind_subject_iff_example : (bind_subject bot alice strict ≡ ok tt) ↔ Bound bot alice strict
bind_subject_iff_example = bind_subject_iff bot alice strict

authorize-Bound_example :
    (subject : SubjectIdentity) × (alices_call.subject ≡ some subject)
    × Bound bot subject strict
    × Any
        (λ e. e ≡ verified "alices-token" (ok subject))
        (after alices_call denial false alices_events).trace
unfolding gateway_run
authorize-Bound_example =
    authorize-Bound gateway headers call_request (λ token n. (ok alice, n)) "alices-token" start
      (after alices_call denial false alices_events) (outcome_of alices_call denial false) refl refl
      refl refused_run

abbrev listed_tools : Items
listed_tools = cons (tool "drop_table") (cons (tool "read_query") nil)

abbrev listed_result : Fields
listed_result = field "tools" (arr listed_tools) end

abbrev listing_call : ToolCallRequest
listing_call = record (call_by AgentStatus.active) { method = "tools/list" }

filter_listing-Narrowed_example :
    (out : Fields) × (filter_listing listing listing_call ≡ ok out)
    × Narrowed ("read_query" ∷ []) listing listed_result listed_tools out
unfolding gateway_run
filter_listing-Narrowed_example =
    filter_listing-Narrowed listing listing_call listed_result listed_tools refl refl refl
      (tt, (tt, tt))

-- An upstream that names a tool by a list, which Python cannot hash.
abbrev odd_upstream : GovernedExecutionService ℕ
odd_upstream = record gateway {
  forward = λ call credential n. (
    ok (
        field "result" (obj (field "tools" (arr (cons (obj (field "name" (arr nil) end)) nil)) end))
          end),
    n,
  );
}

odd_listing_raises :
    (execute odd_upstream headers list_request start).0
    ≡ err (uncaught "TypeError: unhashable type: 'list'")
unfolding gateway_run
odd_listing_raises = refl

-- A request without a subject token, at a gateway that has a verifier.
abbrev anonymous_events : List Event
anonymous_events =
    evaluated (call_by AgentStatus.active) (ok denial)
    ∷ looked_up "spiffe://corp/bot" (ok (some (record_of AgentStatus.active)))
    ∷ identified [] (ok bot)
    ∷ []

abbrev anonymous_call : ToolCallRequest
anonymous_call = record (call_by AgentStatus.active) { request_id = none }

anonymous_run : authorize observing [] call_request start ≡ (
  ok (outcome_of anonymous_call denial true),
  after anonymous_call denial true (
      evaluated anonymous_call (ok denial)
      ∷ looked_up "spiffe://corp/bot" (ok (some (record_of AgentStatus.active)))
      ∷ identified [] (ok bot)
      ∷ []),
)
unfolding gateway_run
anonymous_run = refl

-- Observe mode lets that call pass, and only then finds that the agent's sponsor sent no token.
abbrev missing : Error
missing =
    missing_subject_token
      "delegated call for sponsor 'idp#alice' requires a 'x-subject-token' header"

respond_raises_example : IsUncaught missing ⊎ IsUnsponsored bot [] missing
unfolding gateway_run
respond_raises_example =
    respond_raises observing (λ t a x e h. cc) (λ c t x e h. cc)
      (outcome_of anonymous_call denial true) [] start missing refl

judge_returns_example :
    (o : AuthorizationOutcome) × ((judge gateway (call_by AgentStatus.active) start).0 ≡ ok o)
judge_returns_example =
    judge_returns gateway (λ agent call d enforced n. (receipt_of n d enforced, refl))
      (λ receipt n. refl) (λ call n. inl (permits call, refl)) (call_by AgentStatus.active) start
