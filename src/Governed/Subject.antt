-- ===== src/Governed/Subject.antt =====
-- `_bind_subject`, and the headers that the service reads.
use openagent_control.Prelude.{
  String, Bool, false, not, ◌&&◌, Option, none, some, foldl, ◌==◌, if◌then◌else◌, get_or, [],
}
use openagent_control.Text.{◌<>◌, is_truthy, lower}
use openagent_control.Dict
use openagent_control.Exec.{Result, ok, err, identity}
use openagent_control.Models.{AgentIdentity, SubjectIdentity}
use openagent_control.Governed.Service.{SubjectBinding, strict, may_act_only, off, Headers}

-- `{k.lower(): v for k, v in headers.items()}`
unfoldable pub normalize : Headers → Headers
unfolding Dict.insert
normalize headers = foldl (λ m (k, v). Dict.insert (lower k) v m) [] headers

abbrev pub header : String → Headers → Option String
header name headers = Dict.get name (normalize headers)

-- `bool(x)` of a `str | None`
abbrev pub is_set : Option String → Bool
is_set none = false
is_set (some s) = is_truthy s

abbrev pub or_empty : Option String → String
or_empty s = get_or s ""

-- The `may_act` branch: the actor that the subject's token names must be the caller.
unfoldable pub check_actor : String → Option String → Result (Unit {0})
check_actor actor client_id =
    if is_set client_id && not (actor == or_empty client_id)
    then err (
        identity (
          "subject token authorizes '"
          <> actor
          <> "' to act, but the caller is '"
          <> or_empty client_id
          <> "' (RFC 8693 may_act mismatch)"))
    else ok tt

-- The fallback: the verified subject must be the sponsor that the call claims.
unfoldable pub check_sponsor : String → Option String → Result (Unit {0})
check_sponsor subject_id human_sponsor =
    if is_set human_sponsor && not (subject_id == or_empty human_sponsor)
    then err (
        identity (
          "subject token does not belong to the sponsor this call claims ('"
          <> or_empty human_sponsor
          <> "'). If this IdP uses pairwise subject identifiers, set OAC_SUBJECT_BINDING=may-act-only."))
    else ok tt

abbrev fallback : AgentIdentity → SubjectIdentity → SubjectBinding → Result (Unit {0})
fallback agent subject may_act_only = ok tt
fallback agent subject strict = check_sponsor subject.subject_id agent.human_sponsor
fallback agent subject off = ok tt

abbrev by_actor :
    AgentIdentity → SubjectIdentity → SubjectBinding → Option String → Result (Unit {0})
by_actor agent subject mode (some actor) = check_actor actor agent.client_id
by_actor agent subject mode none = fallback agent subject mode

unfoldable pub bind_subject : AgentIdentity → SubjectIdentity → SubjectBinding → Result (Unit {0})
bind_subject agent subject off = ok tt
bind_subject agent subject mode = by_actor agent subject mode subject.authorized_actor
