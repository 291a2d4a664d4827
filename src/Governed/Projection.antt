-- ===== src/Governed/Projection.antt =====
-- `_filter_listing` against what it is to show of an upstream's answer.
use openagent_control.Prelude.{
  ◌==◌, if◌then◌else◌, ◌∙◌, String, ◌≡◌, refl, Bool, false, Option, some, List, eq_iff, arith, keep,
  All, member,
}
use openagent_control.Json.{
  Json, null, str, arr, obj, Items, nil, cons, Fields, get, insert, get-insert, to_list,
}
use openagent_control.Exec.{ok, bind-eq-ok}
use openagent_control.Models.{ToolCallRequest}
use openagent_control.Governed.Listing.{
  project_tools, add_if, is_granted, keep_granted, name_in, grants_of, filter_listing,
}

-- Independent of the code: the tool is a dict whose name is one of the granted texts.
abbrev named : List String → Option Json → Bool
named granted (some (str s)) = member s granted
named granted _ = false

abbrev pub is_shown : List String → Json → Bool
is_shown granted (obj tool) = named granted (get "name" tool)
is_shown granted _ = false

-- A name that Python can hash.
abbrev IsHashable : Option Json → Type 0
IsHashable (some (arr _)) = ⊥
IsHashable (some (obj _)) = ⊥
IsHashable _ = Unit

abbrev pub HasHashableName : Json → Type 0
HasHashableName (obj tool) = IsHashable (get "name" tool)
HasHashableName _ = Unit

name_in_ok :
    (name : Option Json) (granted : List String) (b : Bool)
    → name_in name granted ≡ ok b
    → named granted name ≡ b
name_in_ok name granted b h = ground arith

is_granted_ok :
    (granted : List String) (tool : Json) (b : Bool)
    → is_granted granted tool ≡ ok b
    → is_shown granted tool ≡ b
is_granted_ok granted (obj tool) b h = name_in_ok (get "name" tool) granted b h
is_granted_ok granted null b h = cc
is_granted_ok granted _ b h = cc

is_granted_total :
    (granted : List String) (tool : Json)
    → HasHashableName tool
    → is_granted granted tool ≡ ok (is_shown granted tool)
is_granted_total granted (obj tool) h = ground arith
is_granted_total granted null h = refl
is_granted_total granted _ h = refl

-- What is kept are exactly the shown tools, in the upstream's order.
pub to_list-keep_granted :
    (granted : List String) (tools kept : Items)
    → keep_granted granted tools ≡ ok kept
    → to_list kept ≡ keep (is_shown granted) (to_list tools)
unfolding keep_granted
to_list-keep_granted granted nil kept h = ground arith
to_list-keep_granted granted (cons tool tools) kept h =
    let (b, e, k) = bind-eq-ok (is_granted granted tool) _ h in
    let (rest, f, l) = bind-eq-ok (keep_granted granted tools) _ k in
    ground (arith, is_granted_ok granted tool b e, to_list-keep_granted granted tools rest f)

-- If no tool of a listing has a list or a dict for its name, the projection returns, and what it keeps
-- are exactly the tools whose name is granted, in the upstream's order.
keep_granted_total :
    (granted : List String) (tools : Items)
    → All HasHashableName (to_list tools)
    → (kept : Items) × (keep_granted granted tools ≡ ok kept)
      × (to_list kept ≡ keep (is_shown granted) (to_list tools))
unfolding keep_granted
keep_granted_total granted nil h = (nil, refl, refl)
keep_granted_total granted (cons tool tools) h =
    let (kept, e, _) = keep_granted_total granted tools h.1 in
    let returned : keep_granted granted (cons tool tools)
        ≡ ok (add_if tool (is_shown granted tool) kept) =
      rw (is_granted_total granted tool h.0, e) refl in
    (_, returned, to_list-keep_granted granted (cons tool tools) _ returned)

-- The answer `out` is `response` with the list under result.tools narrowed to what is granted: every
-- other key of the two dicts is as it came.
abbrev pub Narrowed : List String → Fields → Fields → Items → Fields → Type 0
Narrowed granted response result tools out =
    (kept : Items) × (result' : Fields) × (to_list kept ≡ keep (is_shown granted) (to_list tools))
    × ((k : String) → get k out ≡ (if "result" == k then some (obj result') else get k response))
    × ((k : String) → get k result' ≡ (if "tools" == k then some (arr kept) else get k result))

opened :
    (response : Fields) (call : ToolCallRequest) (result : Fields) (tools : Items)
    → call.method ≡ "tools/list"
    → get "result" response ≡ some (obj result)
    → get "tools" result ≡ some (arr tools)
    → filter_listing response call
      ≡ project_tools (grants_of call.registration) response result (some (arr tools))
unfolding filter_listing
opened response call result tools m r t = rw ((eq_iff call.method "tools/list").1 m, r, t) refl

-- If no tool of an upstream's `tools/list` answer has a list or a dict for its name, the projection
-- returns; its listing has exactly the tools whose name is granted to the agent, in the upstream's order,
-- and every other key of the answer and of its result is as it came.
pub filter_listing-Narrowed :
    (response : Fields) (call : ToolCallRequest) (result : Fields) (tools : Items)
    → call.method ≡ "tools/list"
    → get "result" response ≡ some (obj result)
    → get "tools" result ≡ some (arr tools)
    → All HasHashableName (to_list tools)
    → (out : Fields) × (filter_listing response call ≡ ok out)
      × Narrowed (grants_of call.registration) response result tools out
filter_listing-Narrowed response call result tools m r t h =
    let (kept, e, shown) = keep_granted_total (grants_of call.registration) tools h in
    let result' = insert "tools" (arr kept) result in
    (
      insert "result" (obj result') response,
      opened response call result tools m r t ∙ rw e refl,
      (
        kept,
        result',
        shown,
        λ k. get-insert "result" k (obj result') response,
        λ k. get-insert "tools" k (arr kept) result,
      ),
    )
