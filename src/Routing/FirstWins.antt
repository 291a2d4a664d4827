-- ===== src/Routing/FirstWins.antt =====
-- The routes that the loop of `_refresh` builds against an independent reading of the answers.
use openagent_control.Prelude.{
  String, ◌≡◌, ◌∙◌, Bool, true, false, ◌||◌, Option, none, some, List, [], ◌∷◌, ◌==◌, eq_iff, arith,
  if◌then◌else◌,
}
use openagent_control.Dict
use openagent_control.Dict.{Dict, get-insert}
use openagent_control.Json.{Json, str, Fields, get}
use openagent_control.Exec.{Result, ok, err}
use openagent_control.Routing.Merge.{Merged, add_named, add_tools, merge, nothing}
use openagent_control.Routing.Answers.{all_dicts, advertised, read_all, merge_dicts}

abbrev is_named : String → Option Json → Bool
is_named name (some (str s)) = s == name
is_named name _ = false

abbrev pub advertises : String → List Fields → Bool
advertises name [] = false
advertises name (tool ∷ tools) = is_named name (get "name" tool) || advertises name tools

abbrev pub first_advertiser : String → List (String × Result Json) → Option String
first_advertiser name [] = none
first_advertiser name ((upstream, err e) ∷ answers) = first_advertiser name answers
first_advertiser name ((upstream, ok response) ∷ answers) =
    let rest = first_advertiser name answers in
    if advertises name (advertised response) then some upstream else rest

abbrev or_else : Option String → Option String → Option String
or_else none o = o
or_else (some s) o = some s

abbrev when : Bool → String → Option String
when true s = some s
when false s = none

add_named_routes :
    (name upstream : String) (tool : Fields) (named : Option Json) (m : Merged)
    → Dict.get name (add_named upstream tool named m).routes
      ≡ or_else (Dict.get name m.routes) (when (is_named name named) upstream)
unfolding add_named
add_named_routes name upstream tool none m = ground arith
add_named_routes name upstream tool (some (str s)) m =
    ground (arith, eq_iff s name, get-insert s name upstream m.routes)
add_named_routes name upstream tool (some _) m = ground arith

add_tools_routes :
    (name upstream : String) (tools : List Fields) (m : Merged)
    → Dict.get name (add_tools upstream tools m).routes
      ≡ or_else (Dict.get name m.routes) (when (advertises name tools) upstream)
unfolding add_tools
add_tools_routes name upstream [] m = ground arith
add_tools_routes name upstream (tool ∷ tools) m =
    add_tools_routes name upstream tools (add_named upstream tool (get "name" tool) m)
    ∙ rw (add_named_routes name upstream tool (get "name" tool) m) (ground arith)

read_all_routes :
    (name : String) (answers : List (String × Result Json)) (m : Merged)
    → Dict.get name (read_all answers m).routes
      ≡ or_else (Dict.get name m.routes) (first_advertiser name answers)
read_all_routes name [] m = ground arith
read_all_routes name ((upstream, err e) ∷ answers) m = read_all_routes name answers _
read_all_routes name ((upstream, ok response) ∷ answers) m =
    read_all_routes name answers (add_tools upstream (advertised response) m)
    ∙ rw (add_tools_routes name upstream (advertised response) m) (ground arith)

pub read_all-first_advertiser :
    (name : String) (answers : List (String × Result Json))
    → Dict.get name (read_all answers nothing).routes ≡ first_advertiser name answers
unfolding Dict.get
read_all-first_advertiser name answers = read_all_routes name answers nothing

-- If each upstream that answers a fan-out does so with a dict, the merge returns. In its routes a tool's name leads to the first upstream, in configured order,
-- that answered and listed a tool of that name, and to none if there is none.
pub merge-first_advertiser :
    (name : String) (answers : List (String × Result Json))
    → all_dicts answers ≡ true
    → (m : Merged) × (merge answers nothing ≡ ok m)
      × (Dict.get name m.routes ≡ first_advertiser name answers)
merge-first_advertiser name answers h = (
  read_all answers nothing,
  merge_dicts answers nothing h,
  read_all-first_advertiser name answers,
)
