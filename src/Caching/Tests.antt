-- ===== src/Caching/Tests.antt =====
-- The token cache at a store of one credential.
use openagent_control.Prelude.{
  inr, ◌<◌, ltb, ◌==◌, if◌then◌else◌, ℕ, ◌+◌, ◌≤◌, String, ◌≡◌, refl, none, some, Option, arith,
}
use openagent_control.Json.{pos}
use openagent_control.Exec.{ok}
use openagent_control.Caching.Tokens.{
  TokenCache, remaining, ttl_from_token, store, fetch, exchange, cache_key,
}
use openagent_control.Caching.Lifetime.{ttl_from_token_bounds}
use openagent_control.Caching.Freshness.{Cached, Fresh, IsHonest, exchange-IsHonest}

unfoldable cache_run : Unit {0}
unfolding exchange fetch store ttl_from_token remaining
cache_run = tt

-- A store that maps a key to what it was set to and the instant of its end.
abbrev Store : Type 0
Store = String → Option (String × ℕ)

abbrev unexpired : Option (String × ℕ) → Option String
unexpired none = none
unexpired (some (value, x)) = if ltb 900 x then some value else none

abbrev cache : TokenCache Store
cache = record {
  inner = λ token audience stored. (ok "minted", stored);
  redis_get = λ key stored. (unexpired (stored key), stored);
  redis_set = λ key value ttl stored. (λ j. if j == key then some (value, 900 + ttl) else stored j);
  hexdigest = λ s. s;
  exp_of = λ token. some (pos 1000);
  time = λ stored. 900;
  max_ttl = 300;
  safety_margin = 30;
}

abbrev empty : Store
empty = λ key. none

unexpired-some :
    (o : Option (String × ℕ)) (value : String)
    → unexpired o ≡ some value
    → (x : ℕ) × (o ≡ some (value, x)) × (900 < x)
unexpired-some none value h = cc
unexpired-some (some (v, x)) value h = (x, ground arith, ground arith)

abbrev cached : Cached cache
cached = record {
  entry = λ key stored. stored key;
  get-some = λ key value stored h. unexpired-some (stored key) value h;
  entry-get = λ j key stored. refl;
  entry-set = λ j key value ttl stored positive. refl;
  entry-inner = λ j token audience stored. refl;
  hexdigest-injective = λ a b h. h;
}

ttl_from_token_bounds_example :
    (ttl_from_token (some (pos 1000)) 900 300 30 ≤ 300)
    × ((n : ℕ) × (pos 1000 ≡ pos n) × (900 + ttl_from_token (some (pos 1000)) 900 300 30 + 30 ≤ n))
unfolding cache_run
ttl_from_token_bounds_example = ttl_from_token_bounds (pos 1000) 900 300 30 (omega arith)

exchange-IsHonest_example :
    Fresh cache "alices-token" "upstream" empty (exchange cache "alices-token" "upstream" empty).0
    × IsHonest cache cached (exchange cache "alices-token" "upstream" empty).1
exchange-IsHonest_example =
    exchange-IsHonest cache cached "alices-token" "upstream" empty refl (λ t a. inr tt)

-- Where a token has a colon, two exchanges may share a key, and the second is served the first's
-- credential.
colons_collide : cache_key cache "a:b" "c" ≡ cache_key cache "a" "b:c"
colons_collide = refl

second_exchange_is_served :
    (exchange cache "alices-token" "upstream" (exchange cache "alices-token" "upstream" empty).1).0
    ≡ ok "minted"
unfolding cache_run
second_exchange_is_served = refl

-- A token whose expiry cannot be read is cached for the safety margin, whatever the maximum is.
opaque_is_cached : ttl_from_token none 900 10 30 ≡ 30
unfolding cache_run
opaque_is_cached = refl
