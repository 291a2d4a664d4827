-- ===== src/Identity/SameHuman.antt =====
-- When the strict binding of the OIDC adapters' identities means that they are of one human.
use Prim.Native.String.{[] as nothing, ◌∷◌ as char_cons}
use Prim.Native.String.{char_at}
use text.Mathlib.TextLemmas.{nil-append, cons-append, append_cancel_left}
use openagent_control.Prelude.{String, ◌≡◌, ◌⊎◌, inl, inr, true, Option, none, some, ap, arith, ◌∙◌}
use openagent_control.Text.{◌<>◌, is_truthy as is_truthy_str}
use openagent_control.Json.{Json, Fields, is_truthy}
use openagent_control.Exec.{ok}
use openagent_control.Models.{AgentIdentity, SubjectIdentity}
use openagent_control.Governed.Service.{strict}
use openagent_control.Governed.Subject.{is_set}
use openagent_control.Governed.Binding.{Bound}
use openagent_control.Identity.Claims.{claim, to_str}
use openagent_control.Identity.Discovery.{OidcJwks, OidcSubject}
use openagent_control.Identity.Subject.{subject_of}
use openagent_control.Identity.Trust.{IsProven}

scoped-is_truthy : (s t : String) → is_truthy_str (s <> "#" <> t) ≡ true
scoped-is_truthy nothing t =
    ap is_truthy_str (nil-append ("#" <> t) ∙ cons-append (char_at "#" 0) "" t)
scoped-is_truthy (char_cons c s) t = ap is_truthy_str (cons-append c s ("#" <> t))

-- A sponsor or client with a nonempty text is set.
some-is_set :
    (o : Option String) (s : String) → o ≡ some s → is_truthy_str s ≡ true → is_set o ≡ true
some-is_set o s e t = rw (e, t)

module _ (repr : Json → String) where
  pub subject_of_ok :
      (q : OidcSubject) (fields : Fields) (subject : SubjectIdentity)
      → subject_of repr q fields ≡ ok subject
      → (is_truthy (claim "sub" fields) ≡ true)
        × (subject.subject_id ≡ to_str repr q.issuer <> "#" <> to_str repr (claim "sub" fields))
  unfolding subject_of
  subject_of_ok q fields subject h = (ground arith, ground arith)

  -- Who stands behind a delegated call: the subject's token names the agent's own client, or it names
  -- none and the agent's token has no human, or the same one as the subject's.
  abbrev pub SameHuman : Fields → Fields → AgentIdentity → SubjectIdentity → Type 0
  SameHuman agent_claims subject_claims agent subject =
      ((actor : String) × (subject.authorized_actor ≡ some actor) × (agent.client_id ≡ some actor))
      ⊎ ((subject.authorized_actor ≡ none)
          × ((agent.human_sponsor ≡ none)
              ⊎ (to_str repr (claim "sub" agent_claims)
                  ≡ to_str repr (claim "sub" subject_claims))))

  pub Bound-SameHuman :
      (p : OidcJwks) (q : OidcSubject) (agent_claims subject_claims : Fields)
      (agent : AgentIdentity) (subject : SubjectIdentity)
      → to_str repr p.issuer ≡ to_str repr q.issuer
      → IsProven repr p agent_claims agent
      → subject_of repr q subject_claims ≡ ok subject
      → Bound agent subject strict
      → SameHuman agent_claims subject_claims agent subject
  Bound-SameHuman p q agent_claims subject_claims agent subject same proven of bound =
      let (client, named, filled, claimed, spiffe, sponsor) = proven in
      let who = subject_of_ok q subject_claims subject of in
      elim bound [
        | inl e ↦ cc
        | inr (inl (actor, has, inl unset)) ↦ cc (some-is_set agent.client_id client named filled)
        | inr (inl (actor, has, inr own)) ↦ inl (actor, has, own)
        | inr (inr (has, inl e)) ↦ cc
        | inr (inr (has, inr s)) ↦ elim sponsor [
          | inl (alone, app) ↦ inr (has, inl alone)
          | inr (human, scoped) ↦ inr (
            has,
            elim s [
              | inl unset ↦ cc (
                  some-is_set agent.human_sponsor _ scoped
                    (scoped-is_truthy (to_str repr p.issuer) _))
              | inr e ↦ inr (
                  append_cancel_left "#" _ _
                    (append_cancel_left (to_str repr q.issuer) _ _ (cc (e, scoped, same, who.1))))
            ],
          )
        ]
      ]
