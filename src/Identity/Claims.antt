-- ===== src/Identity/Claims.antt =====
-- adapters/claims.py, and what the adapters share that read a bearer token: the header, the token
-- library and Python's `str` of a claim. The library is a parameter: on a token it returns the claims
-- or raises an `InvalidTokenError`, or something else.
use Prim.Native.Char.{code}
use Prim.Native.String.{[], ◌∷◌}
use openagent_control.Prelude.{
  String, Bool, true, false, ◌&&◌, none, some, List, [] as empty, ◌∷◌ as cons_list, ◌==◌, eqb,
  if◌then◌else◌, get_or,
}
use openagent_control.Text.{◌<>◌, is_truthy as is_truthy_str, partition, lower}
use openagent_control.Json.{Json, null, str, obj, Fields, get, is_truthy}
use openagent_control.Exec.{Result, ok, err, identity, uncaught, Exec}
use openagent_control.Governed.Service.{Headers}
use openagent_control.Governed.Subject.{header, or_empty}

pub data Decoded : Type 0 where
  claims : Fields → Decoded
  invalid_token : String → Decoded
  raised : String → Decoded

unfoldable pub claims_of : String → Decoded → Result Fields
claims_of prefix (claims fields) = ok fields
claims_of prefix (invalid_token message) = err (identity (prefix <> message))
claims_of prefix (raised message) = err (uncaught message)

-- `try: claims = self._verify(token) except jwt.InvalidTokenError`, with the text before the message
unfoldable pub read_claims :
    {E : Type 0} → (String → E → Decoded × E) → String → String → Exec E Fields
unfolding claims_of
read_claims decode prefix token w =
    let (decoded, w') = decode token w in (claims_of prefix decoded, w')

-- The token of an `Authorization: Bearer` header, or the error that names what is missing.
unfoldable pub bearer : String → Headers → Result String
bearer missing headers =
    let (scheme, token) = partition (or_empty (header "authorization" headers)) in
    if lower scheme == "bearer" && is_truthy_str token
    then ok token
    else err (identity ("missing 'Authorization: Bearer " <> missing <> "' header"))

-- `s.split(".")`
unfoldable pub split_dots : String → List String
split_dots [] = cons_list "" empty
split_dots (c ∷ s) =
    let rest = split_dots s in
    if eqb (code c) 46 then cons_list "" rest else elim rest [
      | empty ↦ cons_list (c ∷ "") empty
      | cons_list part parts ↦ cons_list (c ∷ part) parts
    ]

unfoldable pub walk : Json → List String → Json
walk value empty = value
walk value (cons_list segment path) = elim value [
  | obj d ↦ elim (get segment d) [ none ↦ null | some v ↦ walk v path ]
  | _ ↦ null
]

unfoldable pub resolve_dotted_claim : Fields → String → Json
unfolding walk split_dots
resolve_dotted_claim d path = walk (obj d) (split_dots path)

-- `claims.get(k)`, which is None where the key is absent
abbrev pub claim : String → Fields → Json
claim k d = get_or (get k d) null

-- `a or b`
abbrev pub or_else : Json → Json → Json
or_else a b = if is_truthy a then a else b

-- `x == s` for a text `s`
abbrev pub is_text : Json → String → Bool
is_text (str s) t = s == t
is_text _ t = false

-- `str(x)`, with the `repr` of whatever is not a text
abbrev pub to_str : (Json → String) → Json → String
to_str repr (str s) = s
to_str repr j = repr j

-- `s.startswith(prefix)`
unfoldable pub starts_with : String → String → Bool
starts_with [] s = true
starts_with (c ∷ p) [] = false
starts_with (c ∷ p) (d ∷ s) = eqb (code c) (code d) && starts_with p s
