-- ===== src/Exec.antt =====
-- Exceptions and state. The error classes of domain/errors.py are the constructors of `Error`, and
-- any other exception (a built-in one, or a library's) is `uncaught`: no handler of the modelled
-- code names it, so it leaves the request. What was done before a raise stays done.
use openagent_control.Prelude.{String, ◌≡◌, refl, ap, ◌⊎◌, inl, inr}

pub data Error : Type 0 where
  identity : String → Error
  missing_subject_token : String → Error
  policy_engine_unavailable : String → Error
  token_exchange : String → Error
  upstream : String → Error
  agent_not_found : String → Error
  uncaught : String → Error

pub data Result (A : Type 0) : Type 0 where
  ok : A → Result A
  err : Error → Result A

module _ {A B : Type 0} where
  abbrev pub bind : Result A → (A → Result B) → Result B
  bind (ok a) f = f a
  bind (err e) f = err e

abbrev pub Exec : Type 0 → Type 0 → Type 0
Exec W A = W → Result A × W

module _ {W A : Type 0} where
  abbrev pub pure : A → Exec W A
  pure a w = (ok a, w)

  abbrev pub raise : Error → Exec W A
  raise e w = (err e, w)

  abbrev pub lift : Result A → Exec W A
  lift r w = (r, w)

module _ {W A B : Type 0} where
  abbrev pub continue : Result A → (A → Exec W B) → Exec W B
  continue (ok a) f w = f a w
  continue (err e) f w = (err e, w)

  infixl 10 ◌>>=◌
  unfoldable pub ◌>>=◌ : Exec W A → (A → Exec W B) → Exec W B
  ◌>>=◌ m f w = let (r, w') = m w in continue r f w'

infixl 10 ◌>>◌
abbrev pub ◌>>◌ : {W B : Type 0} → Exec W (Unit {0}) → Exec W B → Exec W B
m >> k = m >>= λ _. k

module _ {W A B : Type 0} where
  continue-eq-ok :
      (r : Result A) (f : A → Exec W B) (v : W) {b : B} {w : W}
      → continue r f v ≡ (ok b, w)
      → (a : A) × (r ≡ ok a) × (f a v ≡ (ok b, w))
  continue-eq-ok (ok a) f v h = (a, refl, h)
  continue-eq-ok (err e) f v h = cc

  -- Inversion of a bind that returned.
  pub >>=-eq-ok :
      (m : Exec W A) (f : A → Exec W B) (w : W) {b : B} {w' : W}
      → (m >>= f) w ≡ (ok b, w')
      → (a : A) × (v : W) × (m w ≡ (ok a, v)) × (f a v ≡ (ok b, w'))
  unfolding ◌>>=◌
  >>=-eq-ok m f w h =
      let (r, v) = m w in let (a, e, k) = continue-eq-ok r f v h in (a, v, ap (λ q. (q, v)) e, k)

-- Inversion of a bind of results.
pub bind-eq-ok :
    {A B : Type 0} (r : Result A) (f : A → Result B) {b : B}
    → bind r f ≡ ok b
    → (a : A) × (r ≡ ok a) × (f a ≡ ok b)
bind-eq-ok (ok a) f h = (a, refl, h)
bind-eq-ok (err e) f h = cc

pub bind-eq-err :
    {A B : Type 0} (r : Result A) (f : A → Result B) {e : Error}
    → bind r f ≡ err e
    → (r ≡ err e) ⊎ ((a : A) × (r ≡ ok a) × (f a ≡ err e))
bind-eq-err (ok a) f h = inr (a, refl, h)
bind-eq-err (err e) f h = inl (cc)

pub Result-cases :
    {A : Type 0} (r : Result A) → ((a : A) × (r ≡ ok a)) ⊎ ((e : Error) × (r ≡ err e))
Result-cases (ok a) = inl (a, refl)
Result-cases (err e) = inr (e, refl)
