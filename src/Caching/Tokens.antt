-- ===== src/Caching/Tokens.antt =====
-- `CachingTokenExchange` and its `_ttl_from_token`. Redis, SHA-256, the token library and the clock are
-- fields of a record; times are in whole seconds.
use openagent_control.Prelude.{ℕ, ◌-◌, min, String, Option, none, some, ltb, if◌then◌else◌}
use openagent_control.Text.{◌<>◌}
use openagent_control.Json.{ℤ, pos, negsuc}
use openagent_control.Exec.{ok, err, Exec}

pub record TokenCache (E : Type 0) : Type 0 where
  -- the wrapped adapter
  pub inner : String → String → Exec E String
  -- `redis.get`, and `redis.set` with `ex`
  pub redis_get : String → E → Option String × E
  pub redis_set : String → String → ℕ → E → E
  pub hexdigest : String → String
  -- `int(claims["exp"])` of a token; `none` where decoding it or reading that raises
  pub exp_of : String → Option ℤ
  pub time : E → ℕ
  pub max_ttl : ℕ
  pub safety_margin : ℕ

-- `max(0, min(exp - now - safety_margin, max_ttl))`: a difference of naturals stops at 0.
unfoldable pub remaining : ℤ → ℕ → ℕ → ℕ → ℕ
remaining (pos exp) now margin max_ttl = min (exp - now - margin) max_ttl
remaining (negsuc exp) now margin max_ttl = 0

-- `_ttl_from_token`
unfoldable pub ttl_from_token : Option ℤ → ℕ → ℕ → ℕ → ℕ
unfolding remaining
ttl_from_token none now max_ttl margin = margin
ttl_from_token (some exp) now max_ttl margin = remaining exp now margin max_ttl

module _ {E : Type 0} (s : TokenCache E) where
  -- `_cache_key`
  abbrev pub cache_key : String → String → String
  cache_key token audience = "oac:token-exchange:" <> s.hexdigest (token <> (":" <> audience))

  -- The credential, stored for as long as it may be used; nothing is stored for no time at all.
  unfoldable pub store : String → String → E → E
  unfolding ttl_from_token
  store key token env =
      let ttl = ttl_from_token (s.exp_of token) (s.time env) s.max_ttl s.safety_margin in
      if ltb 0 ttl then s.redis_set key token ttl env else env

  unfoldable pub fetch : String → String → String → Exec E String
  unfolding store
  fetch key token audience env =
      let (r, next) = s.inner token audience env in
      elim r [ err e ↦ (err e, next) | ok credential ↦ (ok credential, store key credential next) ]

  unfoldable pub exchange : String → String → Exec E String
  unfolding fetch
  exchange token audience env =
      let (cached, next) = s.redis_get (cache_key token audience) env in
      elim cached [
        | some credential ↦ (ok credential, next)
        | none ↦ fetch (cache_key token audience) token audience next
      ]
