-- ===== src/Caching/Lifetime.antt =====
-- How long a credential is cached: `_ttl_from_token`.
use openagent_control.Prelude.{ℕ, ◌+◌, ◌≤◌, ◌<◌, ◌≡◌, refl, some, arith}
use openagent_control.Json.{ℤ, pos, negsuc}
use openagent_control.Caching.Tokens.{remaining, ttl_from_token}

-- A token with an expiry that can be read, and that is given any time at all, is given no more than the
-- maximum, and at the end of it the safety margin is still left before the expiry.
pub ttl_from_token_bounds :
    (exp : ℤ) (now max_ttl margin : ℕ)
    → 0 < ttl_from_token (some exp) now max_ttl margin
    → (ttl_from_token (some exp) now max_ttl margin ≤ max_ttl)
      × ((n : ℕ) × (exp ≡ pos n)
          × (now + ttl_from_token (some exp) now max_ttl margin + margin ≤ n))
unfolding ttl_from_token remaining
ttl_from_token_bounds (pos n) now max_ttl margin h = (omega arith, (n, refl, omega arith))
ttl_from_token_bounds (negsuc n) now max_ttl margin h = absurd (omega arith)
