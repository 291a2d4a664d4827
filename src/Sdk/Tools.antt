-- ===== src/Sdk/Tools.antt =====
-- sdk/langchain.py: the tools that LangChain gets from the gateway's listing. LangChain and pydantic
-- are not modelled: a tool is its name, its description and what is known of its arguments.
use openagent_control.Prelude.{
  String, Bool, true, false, Option, none, some, List, [], ◌∷◌, ◌==◌, if◌then◌else◌, get_or, member,
}
use Prim.Native.String.{[] as nothing, ◌∷◌ as char_cons}
use openagent_control.Text.{is_truthy as is_truthy_str}
use openagent_control.Json.{
  Json, null, str, arr, obj, Items, nil, cons, Fields, end, field, get, is_truthy,
}
use openagent_control.Identity.Claims.{to_str, or_else, claim}
use openagent_control.Sdk.Client.{tool_call_failed, raised, Outcome, returned, failed, then_}

-- The annotation of a field; `any` is `Any`.
pub data Annotation : Type 0 where
  text number integer boolean array object any : Annotation

-- `_JSON_TYPES.get(name, Any)`
unfoldable pub json_type : String → Annotation
json_type name =
    if name == "string"
    then text
    else if name == "number"
    then number
    else if name == "integer"
    then integer
    else if name == "boolean"
    then boolean
    else if name == "array"
    then array
    else if name == "object"
    then object
    else any

-- A field that is not required may be None, which is its default.
pub record ArgField : Type 0 where
  pub name : String
  pub annotation : Annotation
  pub is_required : Bool
  pub description : Json

pub record ProxiedTool : Type 0 where
  pub name : String
  pub description : Json
  pub args_schema : Option (List ArgField)

abbrev pub with_tool : Option ProxiedTool → List ProxiedTool → List ProxiedTool
with_tool none tools = tools
with_tool (some tool) tools = tool ∷ tools

-- `spec if isinstance(spec, dict) else {}`
abbrev pub dict_or_empty : Json → Fields
dict_or_empty (obj d) = d
dict_or_empty _ = end

abbrev is_null : Json → Bool
is_null null = true
is_null _ = false

abbrev keys : Fields → List String
keys end = []
keys (field k v d) = k ∷ keys d

abbrev characters : String → List String
characters nothing = []
characters (char_cons c s) = char_cons c "" ∷ characters s

-- The texts of `set(items)`; a list or a dict in it cannot be hashed.
unfoldable pub texts_in : Items → Outcome (List String)
texts_in nil = returned []
texts_in (cons j items) =
    let rest = texts_in items in
    elim j [
      | str s ↦ then_ rest λ names. returned (s ∷ names)
      | arr xs ↦ failed (raised "TypeError: unhashable type: 'list'")
      | obj d ↦ failed (raised "TypeError: unhashable type: 'dict'")
      | _ ↦ rest
    ]

-- The texts of `set(input_schema.get("required") or [])`
unfoldable pub required_of : Json → Outcome (List String)
unfolding texts_in
required_of value =
    if is_truthy value
    then elim value [
      | arr items ↦ texts_in items
      | str s ↦ returned (characters s)
      | obj d ↦ returned (keys d)
      | _ ↦ failed (raised "TypeError: object is not iterable")
    ]
    else returned []

module _ (repr : Json → String) where
  unfoldable pub arg_field : List String → String → Fields → ArgField
  unfolding json_type
  arg_field required name spec = record {
    name = name;
    annotation = json_type (to_str repr (get_or (get "type" spec) (str "")));
    is_required = member name required;
    description = or_else (claim "description" spec) (str "");
  }

  unfoldable pub arg_fields : List String → Fields → List ArgField
  unfolding arg_field
  arg_fields required end = []
  arg_fields required (field name spec d) =
      arg_field required name (dict_or_empty spec) ∷ arg_fields required d

  -- `_args_model`, with `none` for no model
  unfoldable pub args_model : Fields → Outcome (Option (List ArgField))
  unfolding arg_fields required_of
  args_model input_schema = elim (claim "properties" input_schema) [
    | obj properties ↦
        then_ (required_of (claim "required" input_schema))
          λ required. returned (some (arg_fields required properties))
    | _ ↦ returned none
  ]

  -- One turn of the loop of `proxied_tools`.
  unfoldable pub tool_of : Json → Outcome (Option ProxiedTool)
  unfolding args_model
  tool_of (obj spec) = elim (claim "name" spec) [
    | str name ↦ then_ (args_model (dict_or_empty (claim "inputSchema" spec))) λ schema. returned (
        some (record {
          name = name;
          description = or_else (claim "description" spec) (str name);
          args_schema = schema;
        }))
    | _ ↦ returned none
  ]
  tool_of _ = failed (raised "AttributeError: object has no attribute 'get'")

  unfoldable pub tools_of_specs : Items → Outcome (List ProxiedTool)
  unfolding tool_of
  tools_of_specs nil = returned []
  tools_of_specs (cons spec specs) =
      let rest = tools_of_specs specs in
      then_ (tool_of spec) λ tool. then_ rest λ tools. returned (with_tool tool tools)

  -- `proxied_tools`, of what `client.list_tools()` returned
  unfoldable pub proxied_tools : Json → Outcome (List ProxiedTool)
  unfolding tools_of_specs
  proxied_tools (arr specs) = tools_of_specs specs
  proxied_tools (obj end) = returned []
  proxied_tools (str s) =
      if is_truthy_str s
      then failed (raised "AttributeError: 'str' object has no attribute 'get'")
      else returned []
  proxied_tools _ = failed (raised "TypeError: not a list of dicts")

  -- `{k: v for k, v in arguments.items() if v is not None}`
  unfoldable pub supplied : Fields → Fields
  supplied end = end
  supplied (field k v d) = let rest = supplied d in if is_null v then rest else field k v rest

  -- `except ToolCallFailed`, and `str(result)`
  unfoldable pub tool_output : Outcome Json → Outcome String
  tool_output (returned result) = returned (to_str repr result)
  tool_output (failed (tool_call_failed message)) = returned message
  tool_output (failed e) = failed e

  -- `_proxy_callable`
  unfoldable pub proxy_call :
      {E : Type 0}
      → (String → Option Fields → E → Outcome Json × E)
      → String
      → Fields
      → E
      → Outcome String × E
  unfolding supplied tool_output
  proxy_call call_tool tool_name arguments w =
      let (r, w') = call_tool tool_name (some (supplied arguments)) w in (tool_output r, w')
