-- ===== src/Sdk/Guard.antt =====
-- sdk/decorator.py: `governed`, a decision of the gateway in front of an agent's own function. Python's
-- binding of a call's arguments to the function's signature is a parameter: it gives the bound
-- arguments with the defaults, or `none` where it raises TypeError.
use openagent_control.Prelude.{String, Bool, true, false, Option, none, some, ◌==◌, if◌then◌else◌}
use openagent_control.Text.{◌<>◌}
use openagent_control.Json.{Json, Fields, end, field, is_truthy}
use openagent_control.Governed.Subject.{is_set, or_empty}
use openagent_control.Identity.Claims.{to_str}
use openagent_control.Sdk.Client.{
  AuthorizationResult, tool_call_denied, raised, Outcome, returned, failed, then_,
}

pub data OnDeny : Type 0 where
  raise return : OnDeny

-- `denial_text`
unfoldable pub denial_text : (Json → String) → AuthorizationResult → String → String
denial_text repr result tool =
    let message = "BLOCKED: '" <> tool <> "' denied by policy — " <> to_str repr result.reason in
    if is_truthy result.instruction
    then message <> "\n\n" <> to_str repr result.instruction
    else message

-- `arguments.pop(k, None)`
unfoldable pub remove : String → Fields → Fields
remove k end = end
remove k (field j v d) = let rest = remove k d in if j == k then d else field j v rest

-- `_bind`: what is sent for evaluation
unfoldable pub bind_arguments : Option Fields → Fields → Fields
unfolding remove
bind_arguments none kwargs = kwargs
bind_arguments (some bound) kwargs = remove "self" bound

-- `name or func.__name__`
unfoldable pub tool_name : Option String → String → String
tool_name name func_name = if is_set name then or_empty name else func_name

-- What is decorated, and by which client.
pub record Decorated : Type 0 where
  pub is_function : Bool
  pub is_coroutine : Bool
  pub type_name : String
  pub func_name : String

pub data ClientKind : Type 0 where
  blocking non_blocking : ClientKind

-- `_check_decorable`
unfoldable pub check_decorable : Decorated → Outcome (Unit {0})
check_decorable d =
    if d.is_function
    then returned tt
    else failed (
        raised (
          "TypeError: @governed expects a plain function, got " <> d.type_name
          <> ". If you are wrapping a framework tool, @governed must be the INNER decorator:\n\n    @tool\n    @governed(oac)\n    def my_tool(...): ..."))

unfoldable pub check_client : Bool → ClientKind → String → Outcome (Unit {0})
check_client true non_blocking func_name = returned tt
check_client false blocking func_name = returned tt
check_client true blocking func_name = failed (
    raised (
      "TypeError: @governed on async function '" <> func_name
      <> "' needs an AsyncGovernedClient; a GovernedClient would block the event loop on every authorization call"))
check_client false non_blocking func_name = failed (
    raised (
      "TypeError: @governed on sync function '" <> func_name
      <> "' needs a GovernedClient; an AsyncGovernedClient's authorize() returns a coroutine this wrapper has no running loop to await"))

-- `decorate`, up to the wrapper: the tool that it asks for
unfoldable pub decorate : ClientKind → Option String → Decorated → Outcome String
unfolding check_decorable check_client tool_name
decorate kind name d = then_ (check_decorable d) λ plain.
    then_ (check_client d.is_coroutine kind d.func_name)
      λ paired. returned (tool_name name d.func_name)

-- What a wrapped function gives: the function's own value, or the text of the denial.
pub data Value (A : Type 0) : Type 0 where
  value : A → Value A
  denial : String → Value A

abbrev pub as_value : {A : Type 0} → Outcome A → Outcome (Value A)
as_value (returned a) = returned (value a)
as_value (failed e) = failed e

abbrev pub run_value : {E A : Type 0} → Outcome A × E → Outcome (Value A) × E
run_value (r, w) = (as_value r, w)

-- A call of the wrapped function: its arguments, bound to the signature, and its keywords.
pub record Call (X : Type 0) : Type 0 where
  pub given : X
  pub bound : Option Fields
  pub kwargs : Fields

module _ (repr : Json → String) where
  unfoldable pub deny_call :
      {A : Type 0} → OnDeny → AuthorizationResult → String → Outcome (Value A)
  unfolding denial_text
  deny_call return result tool = returned (denial (denial_text repr result tool))
  deny_call raise result tool = failed (tool_call_denied result tool)

  -- What the wrapper does with a decision: the function runs on an allowed one, and on no other.
  unfoldable pub run_decided :
      {E A : Type 0}
      → OnDeny
      → String
      → (E → Outcome A × E)
      → AuthorizationResult
      → E
      → Outcome (Value A) × E
  unfolding deny_call
  run_decided on_deny tool func result w =
      if result.allowed then run_value (func w) else (deny_call on_deny result tool, w)

  -- An exception of the client leaves the wrapper.
  unfoldable pub run_answered :
      {E A : Type 0}
      → OnDeny
      → String
      → (E → Outcome A × E)
      → Outcome AuthorizationResult
      → E
      → Outcome (Value A) × E
  unfolding run_decided
  run_answered on_deny tool func (returned result) w = run_decided on_deny tool func result w
  run_answered on_deny tool func (failed e) w = (failed e, w)

  -- `wrapper`
  unfoldable pub wrapper :
      {E X A : Type 0}
      → (String → Option Fields → E → Outcome AuthorizationResult × E)
      → OnDeny
      → String
      → (X → E → Outcome A × E)
      → Call X
      → E
      → Outcome (Value A) × E
  unfolding run_answered bind_arguments
  wrapper client on_deny tool func call w =
      let (r, w') = client tool (some (bind_arguments call.bound call.kwargs)) w in
      run_answered on_deny tool (func call.given) r w'
