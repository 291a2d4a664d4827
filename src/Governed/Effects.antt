-- ===== src/Governed/Effects.antt =====
-- The events of the upstream and of the token exchange in the trace of a request.
use openagent_control.Prelude.{◌≡◌, refl, false, List, [], ◌∷◌}
use openagent_control.Json.{Fields}
use openagent_control.Exec.{ok, ◌>>=◌}
use openagent_control.Models.{AuthorizationOutcome}
use openagent_control.Governed.Service.{
  GovernedExecutionService, Headers, Event, identified, looked_up, verified, evaluated, recorded,
  exported, exchanged, forwarded, World,
}
use openagent_control.Governed.Flow.{policy_violation, authorize, respond, execute}
use openagent_control.Governed.Keeps.{IsPassive, authorize-Keeps}

-- The exchanges and forwards of a trace.
abbrev pub effects : List Event → List Event
effects [] = []
effects (exchanged token audience r ∷ t) = exchanged token audience r ∷ effects t
effects (forwarded call credential r ∷ t) = forwarded call credential r ∷ effects t
effects (identified h r ∷ t) = effects t
effects (looked_up i r ∷ t) = effects t
effects (verified k r ∷ t) = effects t
effects (evaluated c r ∷ t) = effects t
effects (recorded a c d e r ∷ t) = effects t
effects (exported r x ∷ t) = effects t

module _ {E : Type 0} (s : GovernedExecutionService E) where
  same_effects :
      (before : List Event) (e : Event) (t : List Event)
      → IsPassive e
      → effects t ≡ before
      → effects (e ∷ t) ≡ before
  same_effects before (exchanged token audience r) t p h = absurd p
  same_effects before (forwarded call credential r) t p h = absurd p
  same_effects before _ t p h = h

  -- `authorize` exchanges no credential and forwards no call, whether it returns or raises.
  pub effects-authorize :
      (headers : Headers) (payload : Fields) (w : World E)
      → effects (authorize s headers payload w).1.trace ≡ effects w.trace
  effects-authorize headers payload w =
      (authorize-Keeps s (same_effects (effects w.trace)) headers payload).at w refl

  -- When `authorize` returns an outcome that is not allowed, `execute` returns the policy violation as
  -- a JSON-RPC error in the same state, and no credential was exchanged and no call forwarded.
  pub execute_refused :
      (headers : Headers) (payload : Fields) (w w' : World E) (o : AuthorizationOutcome)
      → authorize s headers payload w ≡ (ok o, w')
      → o.allowed ≡ false
      → (execute s headers payload w ≡ (ok (policy_violation o), w'))
        × (effects w'.trace ≡ effects w.trace)
  unfolding execute respond ◌>>=◌
  execute_refused headers payload w w' o h a =
      (rw (h, a) refl, rw h at (effects-authorize headers payload w))
