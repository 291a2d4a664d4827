-- ===== src/Access.antt =====
-- What Python raises where a value read from JSON has not the shape that the code takes for granted.
use openagent_control.Prelude.{String, none, some, get_or}
use openagent_control.Text.{◌<>◌}
use openagent_control.Json.{Json, obj, get}
use openagent_control.Exec.{Result, ok, err, uncaught}
use openagent_control.Http.{Response}

-- `x[k]` of a value
unfoldable pub subscript : String → Json → Result Json
subscript k (obj d) = elim (get k d) [
  | none ↦ err (uncaught ("KeyError: '" <> k <> "'"))
  | some v ↦ ok v
]
subscript k _ = err (uncaught "TypeError: not a dict")

-- `response.json()`
unfoldable pub body_of : Response → Result Json
body_of r = elim (r.json) [ none ↦ err (uncaught "ValueError: not JSON") | some j ↦ ok j ]

-- `x.get(k, default)` of a value
unfoldable pub get_default : String → Json → Json → Result Json
get_default k default (obj d) = ok (get_or (get k d) default)
get_default k default _ = err (uncaught "AttributeError: object has no attribute 'get'")
