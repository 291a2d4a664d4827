-- ===== src/Routing/Answers.antt =====
-- What the upstreams' answers to a fan-out are, and how the loop of `_refresh` ends on them.
use openagent_control.Prelude.{
  String, ◌≡◌, refl, Bool, true, false, if◌then◌else◌, List, [], ◌∷◌, ◌++◌,
}
use openagent_control.Text.{◌<>◌}
use openagent_control.Json.{Json, null, bool, num, str, arr, obj, Fields, get}
use openagent_control.Exec.{Result, ok, err}
use openagent_control.Routing.Merge.{
  Merged, tools_under, tools_of, message_of, no_get, add_tools, add_answer, merge,
}

abbrev pub answered : List (String × Result Json) → Bool
answered [] = false
answered ((name, ok response) ∷ answers) = true
answered ((name, err e) ∷ answers) = answered answers

abbrev pub is_dict : Json → Bool
is_dict (obj d) = true
is_dict _ = false

-- Each upstream that answered did so with a dict.
abbrev pub all_dicts : List (String × Result Json) → Bool
all_dicts [] = true
all_dicts ((name, ok response) ∷ answers) =
    let rest = all_dicts answers in if is_dict response then rest else false
all_dicts ((name, err e) ∷ answers) = all_dicts answers

-- The tools that an answer lists.
abbrev pub advertised : Json → List Fields
advertised (obj d) = tools_under (get "result" d)
advertised _ = []

-- The loop over answers of which each is read.
abbrev pub read_all : List (String × Result Json) → Merged → Merged
read_all [] m = m
read_all ((name, err e) ∷ answers) m =
    read_all answers (record m { failures = m.failures ++ (name <> (": " <> message_of e)) ∷ [] })
read_all ((name, ok response) ∷ answers) m =
    read_all answers (add_tools name (advertised response) m)

-- The loop reads every answer if they are dicts.
pub merge_dicts :
    (answers : List (String × Result Json)) (m : Merged)
    → all_dicts answers ≡ true
    → merge answers m ≡ ok (read_all answers m)
unfolding merge add_answer tools_of
merge_dicts [] m h = refl
merge_dicts ((name, err e) ∷ answers) m h = merge_dicts answers _ h
merge_dicts ((name, ok (obj d)) ∷ answers) m h = merge_dicts answers _ h
merge_dicts ((name, ok null) ∷ answers) m h = cc
merge_dicts ((name, ok (bool b)) ∷ answers) m h = cc
merge_dicts ((name, ok (num n)) ∷ answers) m h = cc
merge_dicts ((name, ok (str s)) ∷ answers) m h = cc
merge_dicts ((name, ok (arr a)) ∷ answers) m h = cc

-- It raises if one of them is no dict.
pub merge_broken :
    (answers : List (String × Result Json)) (m : Merged)
    → all_dicts answers ≡ false
    → merge answers m ≡ err no_get
unfolding merge add_answer tools_of
merge_broken [] m h = cc
merge_broken ((name, err e) ∷ answers) m h = merge_broken answers _ h
merge_broken ((name, ok (obj d)) ∷ answers) m h = merge_broken answers _ h
merge_broken ((name, ok null) ∷ answers) m h = refl
merge_broken ((name, ok (bool b)) ∷ answers) m h = refl
merge_broken ((name, ok (num n)) ∷ answers) m h = refl
merge_broken ((name, ok (str s)) ∷ answers) m h = refl
merge_broken ((name, ok (arr a)) ∷ answers) m h = refl
