-- ===== src/Routing/Refresh.antt =====
-- When a fan-out raises, and where a call is routed after it.
use openagent_control.Prelude.{
  ℕ, suc, ◌+◌, ◌<◌, String, ◌≡◌, refl, ap, ◌∙◌, true, false, Option, none, some, List, [], ◌∷◌,
  arith, ◌⊎◌, inl, inr, Bool-cases, if◌then◌else◌, get_or, length, length-append,
}
use openagent_control.Text.{◌<>◌}
use openagent_control.Dict
use openagent_control.Json.{Fields}
use openagent_control.Exec.{upstream, Result, ok, err, Exec, ◌>>=◌}
use openagent_control.Models.{ToolCallRequest}
use openagent_control.Routing.Merge.{Merged, no_get, add_named, add_tools, merge, nothing}
use openagent_control.Routing.Answers.{
  answered, all_dicts, advertised, read_all, merge_dicts, merge_broken,
}
use openagent_control.Routing.Upstream.{
  Routing, Routed, join, listing_request, fan_out, all_failed, install, refresh, is_fresh,
  route_for, call_tool, forward_to, forward_routed,
}
use openagent_control.Routing.FirstWins.{first_advertiser, read_all-first_advertiser}
use openagent_control.Json.{Json, get, str}

abbrev failed : List (String × Result Json) → ℕ
failed [] = 0
failed ((name, ok response) ∷ answers) = failed answers
failed ((name, err e) ∷ answers) = suc (failed answers)

failed_le : (answers : List (String × Result Json)) → failed answers < suc (length answers)
failed_le [] = omega arith
failed_le ((name, ok response) ∷ answers) = omega (arith, failed_le answers)
failed_le ((name, err e) ∷ answers) = omega (arith, failed_le answers)

failed_some :
    (answers : List (String × Result Json))
    → answered answers ≡ true
    → failed answers < length answers
failed_some [] h = cc
failed_some ((name, ok response) ∷ answers) h = omega (arith, failed_le answers)
failed_some ((name, err e) ∷ answers) h = omega (arith, failed_some answers h)

failed_all :
    (answers : List (String × Result Json))
    → answered answers ≡ false
    → failed answers ≡ length answers
failed_all [] h = refl
failed_all ((name, ok response) ∷ answers) h = cc
failed_all ((name, err e) ∷ answers) h = omega (arith, failed_all answers h)

add_named_failures :
    (name : String) (tool : Fields) (named : Option Json) (m : Merged)
    → (add_named name tool named m).failures ≡ m.failures
unfolding add_named
add_named_failures name tool none m = refl
add_named_failures name tool (some (str s)) m = ground arith
add_named_failures name tool (some _) m = refl

add_tools_failures :
    (name : String) (tools : List Fields) (m : Merged)
    → (add_tools name tools m).failures ≡ m.failures
unfolding add_tools
add_tools_failures name [] m = refl
add_tools_failures name (tool ∷ tools) m =
    add_tools_failures name tools _ ∙ add_named_failures name tool (get "name" tool) m

read_all_failures :
    (answers : List (String × Result Json)) (m : Merged)
    → length (read_all answers m).failures ≡ length m.failures + failed answers
read_all_failures [] m = omega arith
read_all_failures ((name, err e) ∷ answers) m =
    omega (arith, read_all_failures answers _, length-append m.failures (_ ∷ []))
read_all_failures ((name, ok response) ∷ answers) m =
    read_all_failures answers _
    ∙ ap (λ fs. length fs + failed answers) (add_tools_failures name (advertised response) m)

-- If nobody answered, nobody answered with other than a dict.
unanswered_dicts :
    (answers : List (String × Result Json)) → answered answers ≡ false → all_dicts answers ≡ true
unanswered_dicts [] h = refl
unanswered_dicts ((name, err e) ∷ answers) h = unanswered_dicts answers h
unanswered_dicts ((name, ok response) ∷ answers) h = cc

module _ {E : Type 0} where
  length-fan_out :
      (us : List (String × (ToolCallRequest → String → Exec E Json))) (request : ToolCallRequest)
      (credential : String) (env : E)
      → length (fan_out us request credential env).0 ≡ length us
  unfolding fan_out
  length-fan_out [] request credential env = refl
  length-fan_out ((name, port) ∷ us) request credential env =
      ap suc (length-fan_out us request credential (port request credential env).1)

module _ {E : Type 0} (s : Routing E) where
  -- The answers to a fan-out, and the environment after it.
  abbrev pub asked : ToolCallRequest → String → Routed E → List (String × Result Json) × E
  asked request credential w = fan_out s.upstreams (listing_request request) credential w.env

  refresh_dicts :
      (request : ToolCallRequest) (credential : String) (w : Routed E)
      → answered (asked request credential w).0 ≡ true
      → all_dicts (asked request credential w).0 ≡ true
      → refresh s request credential w ≡ (
        ok (read_all (asked request credential w).0 nothing).merged,
        record {
          env = (asked request credential w).1;
          routes = (read_all (asked request credential w).0 nothing).routes;
          expire_at = s.monotonic (asked request credential w).1 + s.cache_ttl;
        },
      )
  unfolding refresh install all_failed
  refresh_dicts request credential w a dicts =
      let answers = (asked request credential w).0 in
      rw (merge_dicts answers nothing dicts) (
        ground (
          arith,
          read_all_failures answers nothing,
          length-fan_out s.upstreams (listing_request request) credential w.env,
          failed_some answers a,
        ))

  refresh_broken :
      (request : ToolCallRequest) (credential : String) (w : Routed E)
      → all_dicts (asked request credential w).0 ≡ false
      → refresh s request credential w
        ≡ (err no_get, record w { env = (asked request credential w).1 })
  unfolding refresh
  refresh_broken request credential w broken =
      rw (merge_broken (asked request credential w).0 nothing broken) refl

  -- If one upstream answers a fan-out, and none answers with other than a dict, `_refresh` returns what
  -- those that answered listed, and replaces the routes and the expiry; the upstreams that failed do not
  -- fail it. If one answers with other than a dict, `_refresh` raises an AttributeError and keeps the
  -- routes and the expiry.
  pub refresh_partial :
      (request : ToolCallRequest) (credential : String) (w : Routed E)
      → answered (asked request credential w).0 ≡ true
      → ((all_dicts (asked request credential w).0 ≡ true)
          × ((m : Merged) × (merge (asked request credential w).0 nothing ≡ ok m)
              × (refresh s request credential w ≡ (
                ok m.merged,
                record {
                  env = (asked request credential w).1;
                  routes = m.routes;
                  expire_at = s.monotonic (asked request credential w).1 + s.cache_ttl;
                },
              ))))
        ⊎ ((all_dicts (asked request credential w).0 ≡ false)
            × (refresh s request credential w
                ≡ (err no_get, record w { env = (asked request credential w).1 })))
  refresh_partial request credential w a =
      let answers = (asked request credential w).0 in
      elim (Bool-cases (all_dicts answers)) [
        | inl dicts ↦ inl (
          dicts,
          (
            read_all answers nothing,
            merge_dicts answers nothing dicts,
            refresh_dicts request credential w a dicts,
          ),
        )
        | inr broken ↦ inr (broken, refresh_broken request credential w broken)
      ]

  -- If there are upstreams and none answers a fan-out, `_refresh` raises an upstream error and keeps the
  -- routes and the expiry.
  pub refresh_failed :
      (request : ToolCallRequest) (credential : String) (w : Routed E)
      → 0 < length s.upstreams
      → answered (asked request credential w).0 ≡ false
      → (message : String) × (refresh s request credential w
          ≡ (err (upstream message), record w { env = (asked request credential w).1 }))
  unfolding refresh install all_failed
  refresh_failed request credential w h a =
      let answers = (asked request credential w).0 in
      (
        "every configured upstream failed — " <> join "; " (read_all answers nothing).failures,
        rw (merge_dicts answers nothing (unanswered_dicts answers a)) (
            ground (
              arith,
              read_all_failures answers nothing,
              length-fan_out s.upstreams (listing_request request) credential w.env,
              failed_all answers a,
            )),
      )

  -- A tool whose route is unknown or has expired is routed, provided that some upstream answers the
  -- fan-out: to the first upstream, in configured order, that answers it with a tool of that name, and to
  -- none if there is none; but if one answers with other than a dict, an AttributeError is raised.
  pub route_for_stale :
      (tool_name : String) (request : ToolCallRequest) (credential : String) (w : Routed E)
      → is_fresh s tool_name w ≡ false
      → answered (asked request credential w).0 ≡ true
      → (route_for s tool_name request credential w).0 ≡ (
          if all_dicts (asked request credential w).0
          then ok (first_advertiser tool_name (asked request credential w).0)
          else err no_get)
  unfolding route_for ◌>>=◌
  route_for_stale tool_name request credential w stale a =
      let answers = (asked request credential w).0 in
      elim (Bool-cases (all_dicts answers)) [
        | inl dicts ↦
            rw (stale, refresh_dicts request credential w a dicts, dicts)
              (ap ok (read_all-first_advertiser tool_name answers))
        | inr broken ↦ rw (stale, refresh_broken request credential w broken, broken) refl
      ]

  -- A tool whose route has not expired is called at the upstream of that route, and no other upstream is
  -- asked.
  pub call_tool_fresh :
      (request : ToolCallRequest) (credential name : String) (w : Routed E)
      → is_fresh s (get_or request.tool_name "") w ≡ true
      → Dict.get (get_or request.tool_name "") w.routes ≡ some name
      → call_tool s request credential w ≡ forward_to s name request credential w
  unfolding call_tool route_for forward_routed ◌>>=◌
  call_tool_fresh request credential name w fresh route = rw (fresh, route) refl
