-- ===== src/Routing/Table.antt =====
-- The listing and the routes that the loop of `_refresh` builds, by their names.
use openagent_control.Prelude.{
  String, ◌≡◌, refl, ap, ◌∙◌, false, ◌||◌, Option, none, some, List, [], ◌∷◌, ◌++◌, ◌==◌, eq_iff,
  arith, true, is_some, member, Bool-cases, inl, inr,
}
use openagent_control.Dict
use openagent_control.Dict.{Dict, get-insert}
use openagent_control.Json.{Json, str, Fields, get}
use openagent_control.Exec.{Result, ok, err}
use openagent_control.Routing.Merge.{Merged, add_named, add_tools, merge, nothing}
use openagent_control.Routing.Answers.{all_dicts, advertised, read_all, merge_dicts}

-- The names of a listing, in its order.
abbrev name_of : Option Json → String
name_of (some (str s)) = s
name_of _ = ""

abbrev pub listed : List Fields → List String
listed [] = []
listed (tool ∷ tools) = name_of (get "name" tool) ∷ listed tools

abbrev pub keys : Dict String → List String
keys [] = []
keys ((k, v) ∷ d) = k ∷ keys d

abbrev pub Distinct : List String → Type 0
Distinct [] = Unit
Distinct (x ∷ xs) = (member x xs ≡ false) × Distinct xs

abbrev pub IsTable : Merged → Type 0
IsTable m = (listed m.merged ≡ keys m.routes) × Distinct (keys m.routes)

absent_keys :
    (k : String) (d : Dict String) → is_some (Dict.get k d) ≡ false → member k (keys d) ≡ false
unfolding Dict.get
absent_keys k [] h = refl
absent_keys k ((j, v) ∷ d) h = ground (arith, absent_keys k d, eq_iff j k, eq_iff k j)

keys-insert :
    (k v : String) (d : Dict String)
    → is_some (Dict.get k d) ≡ false
    → keys (Dict.insert k v d) ≡ keys d ++ k ∷ []
unfolding Dict.get Dict.insert
keys-insert k v [] h = refl
keys-insert k v ((j, w) ∷ d) h = ground (arith, keys-insert k v d)

member-append :
    (x k : String) (xs : List String) → member x (xs ++ k ∷ []) ≡ (member x xs || (x == k))
member-append x k [] = ground arith
member-append x k (y ∷ ys) = ground (arith, member-append x k ys)

Distinct-append :
    (k : String) (xs : List String) → member k xs ≡ false → Distinct xs → Distinct (xs ++ k ∷ [])
Distinct-append k [] h d = (refl, _)
Distinct-append k (x ∷ xs) h (absent, d) = (
  member-append x k xs ∙ ground (arith, eq_iff x k, eq_iff k x),
  Distinct-append k xs (ground arith) d,
)

listed-append :
    (tools : List Fields) (tool : Fields)
    → listed (tools ++ tool ∷ []) ≡ listed tools ++ name_of (get "name" tool) ∷ []
listed-append [] tool = refl
listed-append (t ∷ tools) tool = ap (λ ns. name_of (get "name" t) ∷ ns) (listed-append tools tool)

add_named-IsTable :
    (upstream : String) (tool : Fields) (named : Option Json) (m : Merged)
    → get "name" tool ≡ named
    → IsTable m
    → IsTable (add_named upstream tool named m)
unfolding add_named
add_named-IsTable upstream tool none m e h = h
add_named-IsTable upstream tool (some (str s)) m e (same, distinct) =
    elim (Bool-cases (is_some (Dict.get s m.routes))) [
      | inl known ↦ rw known (same, distinct)
      | inr new ↦
          rw (new, keys-insert s upstream m.routes new)
            (
              listed-append m.merged tool ∙ rw (e, same) refl,
              Distinct-append s (keys m.routes) (absent_keys s m.routes new) distinct,
            )
    ]
add_named-IsTable upstream tool (some _) m e h = h

add_tools-IsTable :
    (upstream : String) (tools : List Fields) (m : Merged)
    → IsTable m
    → IsTable (add_tools upstream tools m)
unfolding add_tools
add_tools-IsTable upstream [] m h = h
add_tools-IsTable upstream (tool ∷ tools) m h =
    add_tools-IsTable upstream tools _ (add_named-IsTable upstream tool (get "name" tool) m refl h)

read_all-IsTable :
    (answers : List (String × Result Json)) (m : Merged) → IsTable m → IsTable (read_all answers m)
read_all-IsTable [] m h = h
read_all-IsTable ((upstream, err e) ∷ answers) m h = read_all-IsTable answers _ h
read_all-IsTable ((upstream, ok response) ∷ answers) m h =
    read_all-IsTable answers _ (add_tools-IsTable upstream (advertised response) m h)

-- If each upstream that answers a fan-out does so with a dict, the merge returns. Its listing and its
-- routes have the same names in the same order, and no name twice.
pub merge-IsTable :
    (answers : List (String × Result Json))
    → all_dicts answers ≡ true
    → (m : Merged) × (merge answers nothing ≡ ok m) × IsTable m
merge-IsTable answers h = (
  read_all answers nothing,
  merge_dicts answers nothing h,
  read_all-IsTable answers nothing (refl, _),
)
