-- ===== src/Governed/Listing.antt =====
-- `_filter_listing`: a `tools/list` answer narrowed to the agent's grants.
use openagent_control.Prelude.{
  String, Bool, true, false, Option, none, some, List, [], ◌==◌, if◌then◌else◌, member,
}
use openagent_control.Json.{Json, str, arr, obj, Items, nil, cons, Fields, get, insert}
use openagent_control.Exec.{Result, ok, err, uncaught, bind}
use openagent_control.Models.{RegisteredAgent, tool_names, ToolCallRequest}

-- `name in granted`, for a set of texts: a list or a dict has no hash, and raises.
abbrev pub name_in : Option Json → List String → Result Bool
name_in none granted = ok false
name_in (some (str s)) granted = ok (member s granted)
name_in (some (arr _)) granted = err (uncaught "TypeError: unhashable type: 'list'")
name_in (some (obj _)) granted = err (uncaught "TypeError: unhashable type: 'dict'")
name_in (some _) granted = ok false

-- `isinstance(tool, dict) and tool.get("name") in granted`
abbrev pub is_granted : List String → Json → Result Bool
is_granted granted (obj tool) = name_in (get "name" tool) granted
is_granted granted _ = ok false

abbrev pub add_if : Json → Bool → Items → Items
add_if tool true tools = cons tool tools
add_if tool false tools = tools

unfoldable pub keep_granted : List String → Items → Result Items
keep_granted granted nil = ok nil
keep_granted granted (cons tool tools) =
    let rest = keep_granted granted tools in
    bind (is_granted granted tool) λ b. bind rest λ ts. ok (add_if tool b ts)

abbrev pub grants_of : Option RegisteredAgent → List String
grants_of none = []
grants_of (some agent) = tool_names agent

abbrev pub project_tools : List String → Fields → Fields → Option Json → Result Fields
project_tools granted response result (some (arr tools)) =
    bind (keep_granted granted tools)
      λ kept. ok (insert "result" (obj (insert "tools" (arr kept) result)) response)
project_tools granted response result _ = ok response

abbrev pub project_result : List String → Fields → Option Json → Result Fields
project_result granted response (some (obj result)) =
    project_tools granted response result (get "tools" result)
project_result granted response _ = ok response

unfoldable pub filter_listing : Fields → ToolCallRequest → Result Fields
filter_listing response call =
    if call.method == "tools/list"
    then project_result (grants_of call.registration) response (get "result" response)
    else ok response
