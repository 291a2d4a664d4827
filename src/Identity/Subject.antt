-- ===== src/Identity/Subject.antt =====
-- adapters/identity/oidc_subject.py: the verifier of the human subject's token.
use Prim.Native.String.{◌∷◌ as char_cons, [] as nothing}
use openagent_control.Prelude.{
  String, Bool, true, false, Option, none, some, List, [], ◌∷◌, map, if◌then◌else◌,
}
use openagent_control.Text.{◌<>◌, is_truthy as is_truthy_str, is_space}
use openagent_control.Json.{Json, str, arr, obj, Fields, is_truthy, to_list}
use openagent_control.Exec.{Result, ok, err, identity, uncaught, Exec, lift, ◌>>=◌, raise}
use openagent_control.Models.{SubjectIdentity}
use openagent_control.Identity.Claims.{
  Decoded, read_claims, claim, or_else, to_str, resolve_dotted_claim,
}
use openagent_control.Identity.Discovery.{OidcSubject}

-- The words of a text, and whether its first character is in the first of them.
unfoldable pub words_from : String → List String × Bool
words_from nothing = ([], false)
words_from (char_cons c s) =
    let (words, inside) = words_from s in
    if is_space c then (words, false) else elim inside [
      | true ↦ elim words [
        | [] ↦ (char_cons c "" ∷ [], true)
        | word ∷ rest ↦ (char_cons c word ∷ rest, true)
      ]
      | false ↦ (char_cons c "" ∷ words, true)
    ]

-- `s.split()`
abbrev pub split_words : String → List String
split_words s = (words_from s).0

-- `x or None` as a text
unfoldable pub text_or_none : (Json → String) → Json → Option String
text_or_none repr j = if is_truthy j then some (to_str repr j) else none

module _ (repr : Json → String) where
  -- `_string_list`
  unfoldable pub string_list : Json → List String
  unfolding words_from
  string_list (str s) = split_words s
  string_list (arr items) = map (to_str repr) (to_list items)
  string_list _ = []

  -- `_authorized_actor`
  unfoldable pub authorized_actor : Fields → Option String
  unfolding text_or_none
  authorized_actor claims = elim (claim "may_act" claims) [
    | obj may_act ↦ text_or_none repr (or_else (claim "sub" may_act) (claim "client_id" may_act))
    | _ ↦ none
  ]

  -- `issuer: str` of SubjectIdentity, as pydantic validates it
  unfoldable pub issuer_field : Json → Result String
  issuer_field (str s) = ok s
  issuer_field _ = err (uncaught "ValidationError: issuer")

  -- `verify`, after the claims
  unfoldable pub subject_of : OidcSubject → Fields → Result SubjectIdentity
  unfolding string_list authorized_actor issuer_field resolve_dotted_claim text_or_none
  subject_of p claims =
      let subject = claim "sub" claims in
      if is_truthy subject
      then elim (issuer_field p.issuer) [
        | err e ↦ err e
        | ok issuer ↦ ok (record {
          subject_id = to_str repr p.issuer <> "#" <> to_str repr subject;
          issuer = issuer;
          username =
              text_or_none repr
                (or_else (claim "preferred_username" claims) (claim "email" claims));
          roles = string_list (resolve_dotted_claim claims p.role_claim);
          scopes = string_list (claim "scope" claims);
          authorized_actor = authorized_actor claims;
        })
      ]
      else err (identity "subject token has no 'sub' claim")

  -- `OidcSubjectVerifier.verify`
  unfoldable pub verify :
      {E : Type 0} → (String → E → Decoded × E) → OidcSubject → String → Exec E SubjectIdentity
  unfolding subject_of
  verify decode p token =
      if is_truthy_str token
      then (read_claims decode "invalid subject token: " token >>= λ claims.
          lift (subject_of p claims))
      else raise (identity "delegated call is missing a subject token")
