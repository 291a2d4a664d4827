-- ===== src/Identity/Entitlement.antt =====
-- Who the OIDC operator adapter lets in.
use openagent_control.Prelude.{String, ◌≡◌, refl, ◌⊎◌, inl, inr, true, arith, Any, Bool-cases}
use openagent_control.Json.{Json, null, bool, num, str, arr, obj, Items, nil, cons, Fields, to_list}
use openagent_control.Exec.{ok}
use openagent_control.Governed.Service.{Headers}
use openagent_control.Identity.Claims.{
  Decoded, is_text, claim, or_else, to_str, resolve_dotted_claim,
}
use openagent_control.Identity.Discovery.{OidcOperator}
use openagent_control.Identity.Operator.{holds_role, has_role, operator_of, identify_operator}
use openagent_control.Identity.Trust.{is_text_yes, FromToken, by_token_ok}

-- Independent of the code: the claim is the role, or a list with the role in it.
abbrev pub IsEntitled : String → Json → Type 0
IsEntitled role value =
    (value ≡ str role)
    ⊎ ((items : Items) × (value ≡ arr items) × Any (λ j. j ≡ str role) (to_list items))

holds_role-Any :
    (role : String) (items : Items)
    → holds_role role items ≡ true
    → Any (λ j. j ≡ str role) (to_list items)
unfolding holds_role
holds_role-Any role nil h = cc
holds_role-Any role (cons j items) h = elim (Bool-cases (is_text j role)) [
  | inl e ↦ inl (is_text_yes j role e)
  | inr e ↦ inr (holds_role-Any role items (rw e at h))
]

has_role-IsEntitled :
    (role : String) (value : Json) → has_role role value ≡ true → IsEntitled role value
unfolding has_role holds_role
has_role-IsEntitled role (str s) h = inl (is_text_yes (str s) role (ground arith))
has_role-IsEntitled role (arr items) h = inr (items, refl, holds_role-Any role items h)
has_role-IsEntitled role null h = cc
has_role-IsEntitled role (bool b) h = cc
has_role-IsEntitled role (num n) h = cc
has_role-IsEntitled role (obj d) h = cc

module _ (repr : Json → String) where
  operator_of_ok :
      (p : OidcOperator) (fields : Fields) (name : String)
      → operator_of repr p fields ≡ ok name
      → IsEntitled p.required_role (resolve_dotted_claim fields p.role_claim)
        × (name ≡ to_str repr (or_else (claim "preferred_username" fields) (claim "sub" fields)))
  unfolding operator_of
  operator_of_ok p fields name h =
      let value = resolve_dotted_claim fields p.role_claim in
      elim (Bool-cases (has_role p.required_role value)) [
        | inl e ↦ (has_role-IsEntitled p.required_role value e, ground arith)
        | inr e ↦ ground arith
      ]

  -- An operator that the OIDC adapter identifies presented a nonempty bearer token that the token
  -- library accepted, whose claim at the configured path is the required role or a list with it, and is
  -- named by that token's `preferred_username`, or else its `sub`.
  pub identify_operator-IsEntitled :
      {E : Type 0} (decode : String → E → Decoded × E) (p : OidcOperator) (headers : Headers)
      (w w' : E) (name : String)
      → identify_operator repr decode p headers w ≡ (ok name, w')
      → FromToken decode headers w w' λ fields.
        IsEntitled p.required_role (resolve_dotted_claim fields p.role_claim)
        × (name ≡ to_str repr (or_else (claim "preferred_username" fields) (claim "sub" fields)))
  unfolding identify_operator
  identify_operator-IsEntitled decode p headers w w' name h =
      let (token, fields, b, d, k) =
        by_token_ok decode "<access-token>" "invalid OIDC access token: " (operator_of repr p)
          headers w w' name h in
      (token, fields, b, d, operator_of_ok p fields name k)
