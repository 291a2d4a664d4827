-- ===== src/Routing/Upstream.antt =====
-- `RoutingMCPUpstream`. The upstreams are asked one after the other, in configured order; the lock
-- that serialises refreshes has nothing to do then. `time.monotonic()` reads the environment.
use openagent_control.Prelude.{
  ℕ, ◌+◌, String, Bool, ◌&&◌, Option, none, some, List, [], ◌∷◌, ◌==◌, ltb, eqb, length, is_some,
  if◌then◌else◌, get_or,
}
use openagent_control.Text.{◌<>◌}
use openagent_control.Dict
use openagent_control.Dict.{Dict}
use openagent_control.Json.{Json, str, arr, obj, Items, nil, cons, Fields, end, field}
use openagent_control.Exec.{upstream, uncaught, Result, ok, err, Exec, pure, raise, continue, ◌>>=◌}
use openagent_control.Models.{ToolCallRequest}
use openagent_control.Governed.Flow.{id_json}
use openagent_control.Routing.Merge.{Merged, merge, nothing}

pub record Routing (E : Type 0) : Type 0 where
  pub upstreams : List (String × (ToolCallRequest → String → Exec E Json))
  pub cache_ttl : ℕ
  pub monotonic : E → ℕ

-- `_routes` and `_routes_expire_at`, on the environment of the upstreams.
pub record Routed (E : Type 0) : Type 0 where
  pub env : E
  pub routes : Dict String
  pub expire_at : ℕ

abbrev pub join : String → List String → String
join separator [] = ""
join separator (s ∷ []) = s
join separator (s ∷ t ∷ ss) = s <> (separator <> join separator (t ∷ ss))

abbrev tool_array : List Fields → Items
tool_array [] = nil
tool_array (tool ∷ tools) = cons (obj tool) (tool_array tools)

-- The request that the fan-out sends.
abbrev pub listing_request : ToolCallRequest → ToolCallRequest
listing_request request = record {
  method = "tools/list";
  tool_name = none;
  arguments = end;
  agent = request.agent;
  registration = request.registration;
  subject = none;
  request_id = request.request_id;
}

module _ {E : Type 0} where
  -- The constructor refuses an empty table of upstreams, and starts without routes.
  unfoldable pub start :
      List (String × (ToolCallRequest → String → Exec E Json))
      → ℕ
      → (E → ℕ)
      → E
      → Result (Routing E × Routed E)
  start [] ttl clock env =
      err (uncaught "ValueError: RoutingMCPUpstream requires at least one upstream")
  start (u ∷ us) ttl clock env = ok (
    record { upstreams = u ∷ us; cache_ttl = ttl; monotonic = clock },
    record { env = env; routes = []; expire_at = 0 },
  )

  -- `asyncio.gather(…, return_exceptions=True)`
  unfoldable pub fan_out :
      List (String × (ToolCallRequest → String → Exec E Json))
      → ToolCallRequest
      → String
      → E
      → List (String × Result Json) × E
  fan_out [] request credential env = ([], env)
  fan_out ((name, port) ∷ us) request credential env =
      let (answer, next) = port request credential env in
      let (answers, last) = fan_out us request credential next in ((name, answer) ∷ answers, last)

  abbrev pub port_of :
      List (String × (ToolCallRequest → String → Exec E Json))
      → String
      → Option (ToolCallRequest → String → Exec E Json)
  port_of us name = Dict.get name us

  module _ (s : Routing E) where
    -- `if failures and len(failures) == len(self._upstreams)`
    unfoldable pub all_failed : Merged → Bool
    all_failed m = ltb 0 (length m.failures) && eqb (length m.failures) (length s.upstreams)

    -- What `_refresh` does with the answers: it raises, or it replaces the routes.
    unfoldable pub install : Merged → Exec (Routed E) (List Fields)
    unfolding all_failed
    install m w =
        if all_failed m
        then (err (upstream ("every configured upstream failed — " <> join "; " m.failures)), w)
        else (
          ok m.merged,
          record w { routes = m.routes; expire_at = s.monotonic w.env + s.cache_ttl },
        )

    unfoldable pub refresh : ToolCallRequest → String → Exec (Routed E) (List Fields)
    unfolding fan_out install merge
    refresh request credential w =
        let (answers, env) = fan_out s.upstreams (listing_request request) credential w.env in
        continue (merge answers nothing) install (record w { env = env })

    -- `_list`
    unfoldable pub list_tools : ToolCallRequest → String → Exec (Routed E) Json
    unfolding refresh
    list_tools request credential = do
      tools ← refresh request credential
      pure (
          obj (
            field "jsonrpc" (str "2.0") (
              field "id" (id_json request.request_id)
                (field "result" (obj (field "tools" (arr (tool_array tools)) end)) end))))

    abbrev pub is_fresh : String → Routed E → Bool
    is_fresh tool_name w =
        ltb (s.monotonic w.env) w.expire_at && is_some (Dict.get tool_name w.routes)

    -- `_route_for`
    unfoldable pub route_for : String → ToolCallRequest → String → Exec (Routed E) (Option String)
    unfolding refresh
    route_for tool_name request credential w =
        if is_fresh tool_name w
        then (ok (Dict.get tool_name w.routes), w)
        else (refresh request credential >>= λ tools v. (ok (Dict.get tool_name v.routes), v)) w

    -- `self._upstreams[name].forward(request, credential)`
    unfoldable pub forward_to : String → ToolCallRequest → String → Exec (Routed E) Json
    forward_to name request credential w = elim (port_of s.upstreams name) [
      | none ↦ (err (uncaught "KeyError"), w)
      | some port ↦ (let (r, env) = port request credential w.env in (r, record w { env = env }))
    ]

    abbrev pub names : List (String × (ToolCallRequest → String → Exec E Json)) → List String
    names [] = []
    names ((name, port) ∷ us) = name ∷ names us

    unfoldable pub forward_routed :
        String → ToolCallRequest → String → Option String → Exec (Routed E) Json
    unfolding forward_to
    forward_routed tool_name request credential none = raise (
        upstream (
          "no configured upstream advertises a tool named '"
          <> (tool_name <> ("' (searched: " <> (join ", " (names s.upstreams) <> ")")))))
    forward_routed tool_name request credential (some name) = forward_to name request credential

    -- `_call`
    unfoldable pub call_tool : ToolCallRequest → String → Exec (Routed E) Json
    unfolding route_for forward_routed
    call_tool request credential =
        route_for (get_or request.tool_name "") request credential
        >>= forward_routed (get_or request.tool_name "") request credential

    unfoldable pub forward : ToolCallRequest → String → Exec (Routed E) Json
    unfolding list_tools call_tool
    forward request credential =
        if request.method == "tools/list"
        then list_tools request credential
        else call_tool request credential
