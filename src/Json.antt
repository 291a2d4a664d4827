-- ===== src/Json.antt =====
-- Values as `json.loads` returns them: request bodies, claim sets, upstream answers. A dict keeps
-- its insertion order. Numbers are integers: no modelled code computes with a float.
use openagent_control.Prelude.{
  ℕ, String, ◌≡◌, refl, Bool, true, false, not, Option, none, some, List, [], ◌∷◌, arith, ◌==◌,
  eq_iff, eqb, if◌then◌else◌, is_some,
}
use openagent_control.Text.{is_truthy as is_truthy_str}

-- `negsuc n` is -(n + 1).
pub data ℤ : Type 0 where
  pos : ℕ → ℤ
  negsuc : ℕ → ℤ

mutual
  pub data Json : Type 0 where
    null : Json
    bool : Bool → Json
    num : ℤ → Json
    str : String → Json
    arr : Items → Json
    obj : Fields → Json

  pub data Items : Type 0 where
    nil : Items
    cons : Json → Items → Items

  pub data Fields : Type 0 where
    end : Fields
    field : String → Json → Fields → Fields

-- `d.get(k)`, with `none` where the key is absent
unfoldable pub get : String → Fields → Option Json
get k end = none
get k (field j v d) = if j == k then some v else get k d

-- `k in d`
abbrev pub contains : String → Fields → Bool
contains k d = is_some (get k d)

-- `{**d, k: v}`
unfoldable pub insert : String → Json → Fields → Fields
insert k v end = field k v end
insert k v (field j w d) = if j == k then field j v d else field j w (insert k v d)

-- `bool(x)`
abbrev pub is_truthy : Json → Bool
is_truthy null = false
is_truthy (bool b) = b
is_truthy (num (pos n)) = not (eqb n 0)
is_truthy (num (negsuc n)) = true
is_truthy (str s) = is_truthy_str s
is_truthy (arr nil) = false
is_truthy (arr (cons x xs)) = true
is_truthy (obj end) = false
is_truthy (obj (field k v d)) = true

abbrev pub to_list : Items → List Json
to_list nil = []
to_list (cons x xs) = x ∷ to_list xs

pub get-insert :
    (k j : String) (v : Json) (d : Fields)
    → get j (insert k v d) ≡ (if k == j then some v else get j d)
unfolding get insert
get-insert k j v end = refl
get-insert k j v (field i w d) =
    ground (arith, eq_iff k j, eq_iff i k, eq_iff i j, get-insert k j v d)
