-- ===== src/Routing/Merge.antt =====
-- The merge of the upstreams' listings: `_tools_of` and the loop of `_refresh`.
use openagent_control.Prelude.{String, Option, some, List, [], ◌∷◌, ◌++◌, is_some, if◌then◌else◌}
use openagent_control.Text.{◌<>◌}
use openagent_control.Dict
use openagent_control.Dict.{Dict}
use openagent_control.Json.{Json, str, arr, obj, Items, nil, cons, Fields, get}
use openagent_control.Exec.{
  Error, identity, missing_subject_token, policy_engine_unavailable, token_exchange, upstream,
  agent_not_found, uncaught, Result, ok, err, bind,
}

-- `[tool for tool in tools if isinstance(tool, dict)]`
abbrev pub dicts_of : Items → List Fields
dicts_of nil = []
dicts_of (cons (obj tool) tools) = tool ∷ dicts_of tools
dicts_of (cons _ tools) = dicts_of tools

-- `_tools_of`
unfoldable pub tools_in : Option Json → List Fields
tools_in (some (arr tools)) = dicts_of tools
tools_in _ = []

unfoldable pub tools_under : Option Json → List Fields
unfolding tools_in get
tools_under (some (obj result)) = tools_in (get "tools" result)
tools_under _ = []

-- What `.get` of a value other than a dict raises.
abbrev pub no_get : Error
no_get = uncaught "AttributeError: object has no attribute 'get'"

-- An upstream may answer with any JSON, but the first `.get` is on a dict or raises.
unfoldable pub tools_of : Json → Result (List Fields)
unfolding tools_under get
tools_of (obj response) = ok (tools_under (get "result" response))
tools_of _ = err no_get

-- `str(exc)`
abbrev pub message_of : Error → String
message_of (identity m) = m
message_of (missing_subject_token m) = m
message_of (policy_engine_unavailable m) = m
message_of (token_exchange m) = m
message_of (upstream m) = m
message_of (agent_not_found m) = m
message_of (uncaught m) = m

-- What the loop has built: the listing, the route of each tool's name, and the failures.
pub record Merged : Type 0 where
  pub merged : List Fields
  pub routes : Dict String
  pub failures : List String

-- A tool whose name is a text that has no route yet: the first upstream in configured order wins.
unfoldable pub add_named : String → Fields → Option Json → Merged → Merged
unfolding Dict.get Dict.insert
add_named name tool (some (str tool_name)) m =
    if is_some (Dict.get tool_name m.routes)
    then m
    else record m { merged = m.merged ++ tool ∷ []; routes = Dict.insert tool_name name m.routes }
add_named name tool _ m = m

unfoldable pub add_tools : String → List Fields → Merged → Merged
unfolding add_named get
add_tools name [] m = m
add_tools name (tool ∷ tools) m = add_tools name tools (add_named name tool (get "name" tool) m)

-- One upstream's answer.
unfoldable pub add_answer : String → Result Json → Merged → Result Merged
unfolding add_tools tools_of
add_answer name (err e) m =
    ok (record m { failures = m.failures ++ (name <> (": " <> message_of e)) ∷ [] })
add_answer name (ok response) m = bind (tools_of response) λ tools. ok (add_tools name tools m)

-- The loop: what one answer raises ends it.
unfoldable pub merge : List (String × Result Json) → Merged → Result Merged
unfolding add_answer
merge [] m = ok m
merge ((name, answer) ∷ answers) m = bind (add_answer name answer m) λ next. merge answers next

abbrev pub nothing : Merged
nothing = record { merged = []; routes = []; failures = [] }
