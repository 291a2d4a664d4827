-- ===== src/Caching/Freshness.antt =====
-- What the cache in front of a token exchange holds, and what it serves.
use text.Mathlib.TextLemmas.{append_cancel_left}
use openagent_control.Prelude.{
  ℕ, ◌+◌, ◌≤◌, ◌<◌, String, ◌≡◌, refl, ap, ◌⊎◌, inl, inr, Option, none, some, true, false, ltb,
  arith, if◌then◌else◌, Bool-cases, Option-cases, ◌==◌, eq_iff,
}
use openagent_control.Json.{pos}
use openagent_control.Exec.{Result, ok, err, Result-cases}
use openagent_control.Caching.Tokens.{TokenCache, ttl_from_token, cache_key, store, fetch, exchange}
use openagent_control.Caching.Lifetime.{ttl_from_token_bounds}
use openagent_control.Caching.Keys.{has_colon, colon_parts}

-- What the cache relies on: `entry` is what a key was last set to and the instant until which that may
-- be read. Redis may drop an entry at any time, and serves none from that instant on; a lifetime of no
-- time is an error, of which nothing is known. The adapter leaves the cache alone, and no two texts have
-- the same SHA-256.
pub record Cached {E : Type 0} (s : TokenCache E) : Type 0 where
  pub entry : String → E → Option (String × ℕ)
  pub get-some :
      (key value : String) (w : E)
      → (s.redis_get key w).0 ≡ some value
      → (x : ℕ) × (entry key w ≡ some (value, x)) × (s.time w < x)
  pub entry-get : (j key : String) (w : E) → entry j (s.redis_get key w).1 ≡ entry j w
  pub entry-set :
      (j key value : String) (ttl : ℕ) (w : E)
      → 0 < ttl
      → entry j (s.redis_set key value ttl w)
        ≡ (if j == key then some (value, s.time w + ttl) else entry j w)
  pub entry-inner :
      (j token audience : String) (w : E) → entry j (s.inner token audience w).1 ≡ entry j w
  pub hexdigest-injective : (a b : String) → s.hexdigest a ≡ s.hexdigest b → a ≡ b

module _ {E : Type 0} (s : TokenCache E) where
  -- A credential that the adapter returned for that token and audience, and that may be served until `x`:
  -- the safety margin before its expiry at the latest, and for no longer than the maximum; if no expiry
  -- can be read, for the safety margin.
  abbrev pub Minted : String → String → String → ℕ → Type 0
  Minted token audience credential x =
      (u : E) × (u' : E) × (s.inner token audience u ≡ (ok credential, u'))
      × (((s.exp_of credential ≡ none) × (x ≡ s.time u' + s.safety_margin))
          ⊎ ((n : ℕ) × (s.exp_of credential ≡ some (pos n))
              × (x + s.safety_margin ≤ n)
              × (x ≤ s.time u' + s.max_ttl)))

  abbrev pub Holds : String → String → Option (String × ℕ) → Type 0
  Holds token audience none = Unit
  Holds token audience (some (credential, x)) = Minted token audience credential x

  -- What the cache holds under the key of a token and an audience was minted for these two.
  abbrev pub IsHonest : Cached s → E → Type 0
  IsHonest r w =
      (token audience : String)
      → (has_colon token ≡ true) ⊎ Holds token audience (r.entry (cache_key s token audience) w)

  -- A call's outcome: a credential from the cache, before the end of its time, or what the adapter says.
  abbrev pub Fresh : String → String → E → Result String → Type 0
  Fresh token audience w (ok credential) =
      ((x : ℕ) × (s.time w < x) × Minted token audience credential x)
      ⊎ ((s.inner token audience (s.redis_get (cache_key s token audience) w).1).0 ≡ ok credential)
  Fresh token audience w (err e) =
      (s.inner token audience (s.redis_get (cache_key s token audience) w).1).0 ≡ err e

  abbrev ttl_of : String → E → ℕ
  ttl_of credential w = ttl_from_token (s.exp_of credential) (s.time w) s.max_ttl s.safety_margin

  ttl_of-Minted :
      (token audience credential : String) (u w : E)
      → s.inner token audience u ≡ (ok credential, w)
      → 0 < ttl_of credential w
      → Minted token audience credential (s.time w + ttl_of credential w)
  unfolding ttl_from_token
  ttl_of-Minted token audience credential u w minted positive = (
    u,
    w,
    minted,
    elim (Option-cases (s.exp_of credential)) [
      | inl e ↦ inl (e, rw e refl)
      | inr (exp, e) ↦
          let (capped, (n, named, left)) =
            ttl_from_token_bounds exp (s.time w) s.max_ttl s.safety_margin (rw e at positive) in
          inr (n, cc (e, named), rw e (omega (arith, left)), rw e (omega (arith, capped)))
    ],
  )

  module _ (r : Cached s) where
    -- Two exchanges of tokens without a colon that share a key are of one token and one audience.
    cache_key-injective :
        (t a token audience : String)
        → has_colon t ≡ false
        → has_colon token ≡ false
        → cache_key s t a ≡ cache_key s token audience
        → (t ≡ token) × (a ≡ audience)
    cache_key-injective t a token audience h k e =
        colon_parts t token a audience h k
          (r.hexdigest-injective _ _ (append_cancel_left "oac:token-exchange:" _ _ e))

    -- What a stored credential is known to be, under every key that it may be read from.
    store-Holds :
        (t a token audience credential : String) (u w : E)
        → s.inner token audience u ≡ (ok credential, w)
        → has_colon t ≡ false
        → has_colon token ≡ false
        → Holds t a (r.entry (cache_key s t a) w)
        → Holds t a (r.entry (cache_key s t a) (store s (cache_key s token audience) credential w))
    unfolding store
    store-Holds t a token audience credential u w minted h k held =
        let key = cache_key s token audience in
        elim (Bool-cases (ltb 0 (ttl_of credential w))) [
          | inr none_left ↦ rw (store, none_left) held
          | inl some_left ↦
              let positive : 0 < ttl_of credential w = ground arith in
              elim (Bool-cases (cache_key s t a == key)) [
                | inr other ↦
                    rw
                      (
                        store,
                        some_left,
                        r.entry-set (cache_key s t a) key credential _ w positive,
                        other,
                      )
                      held
                | inl same ↦
                    let (tokens, audiences) =
                      cache_key-injective t a token audience h k
                        ((eq_iff (cache_key s t a) key).0 same) in
                    rw
                      (
                        store,
                        some_left,
                        r.entry-set (cache_key s t a) key credential _ w positive,
                        same,
                      )
                      (ttl_of-Minted t a credential u w (rw (tokens, audiences) minted) positive)
              ]
        ]

    frame : (w v : E) → ((j : String) → r.entry j v ≡ r.entry j w) → IsHonest r w → IsHonest r v
    frame w v same honest t a = rw (same (cache_key s t a)) (honest t a)

    store-IsHonest :
        (token audience credential : String) (u w : E)
        → s.inner token audience u ≡ (ok credential, w)
        → has_colon token ≡ false
        → IsHonest r w
        → IsHonest r (store s (cache_key s token audience) credential w)
    store-IsHonest token audience credential u w minted k honest t a =
        elim (Bool-cases (has_colon t)) [
          | inl h ↦ inl h
          | inr h ↦ elim (honest t a) [
            | inl colon ↦ inl colon
            | inr held ↦ inr (store-Holds t a token audience credential u w minted h k held)
          ]
        ]

    -- A credential that the cache gives.
    served :
        (token audience credential : String) (w : E)
        → has_colon token ≡ false
        → (s.redis_get (cache_key s token audience) w).0 ≡ some credential
        → IsHonest r w
        → Fresh token audience w (ok credential)
    served token audience credential w k hit honest =
        let (x, stored, early) = r.get-some (cache_key s token audience) credential w hit in
        elim (honest token audience) [
          | inl colon ↦ cc
          | inr held ↦ inl (x, early, rw stored at held)
        ]

    -- Let Redis serve only what a key was last set to and before its time is over, the adapter leave
    -- Redis alone, and no two texts have the same SHA-256. Let the cache hold, under the key of a
    -- token without a colon and an audience, only a credential that the adapter returned for these
    -- two, until a time that is the safety margin before its expiry at the latest and no more than
    -- the maximum after it was returned (or, if no expiry can be read, the safety margin after
    -- that). After a call of `exchange` for a token without a colon that still holds, and the call
    -- serves such a credential before that time, or what the adapter returns or raises now.
    pub exchange-IsHonest :
        (token audience : String) (w : E)
        → has_colon token ≡ false
        → IsHonest r w
        → Fresh token audience w (exchange s token audience w).0
          × IsHonest r (exchange s token audience w).1
    unfolding exchange fetch
    exchange-IsHonest token audience w k honest =
        let key = cache_key s token audience in
        let next = (s.redis_get key w).1 in
        let last = (s.inner token audience next).1 in
        let kept = frame w next (λ j. r.entry-get j key w) honest in
        let left = frame next last (λ j. r.entry-inner j token audience next) kept in
        elim (Option-cases (s.redis_get key w).0) [
          | inr (credential, hit) ↦
              rw (exchange, hit) (served token audience credential w k hit honest, kept)
          | inl miss ↦ elim (Result-cases (s.inner token audience next).0) [
            | inr (e, a) ↦ rw (exchange, miss, fetch, a) (a, left)
            | inl (credential, a) ↦
                rw (exchange, miss, fetch, a)
                  (
                    inr a,
                    store-IsHonest token audience credential next last (ap (λ q. (q, last)) a) k
                        left,
                  )
          ]
        ]
