-- ===== src/Registry/Cached.antt =====
-- `CachingAgentRegistry` (adapters/registry/caching.py). Redis is a parameter, and so are the JSON text
-- of a record and pydantic's reading of it.
use openagent_control.Prelude.{ℕ, String, Option, none, some, if◌then◌else◌}
use openagent_control.Text.{◌<>◌, is_truthy as is_truthy_str}
use openagent_control.Exec.{Result, ok, err, Exec}
use openagent_control.Models.{RegisteredAgent}

pub record CachingAgentRegistry (E : Type 0) : Type 0 where
  pub inner : String → Exec E (Option RegisteredAgent)
  -- `redis.get`, and `redis.set` with `ex`
  pub redis_get : String → E → Option String × E
  pub redis_set : String → String → ℕ → E → E
  pub ttl_seconds : ℕ
  -- `model_dump_json` and `model_validate_json`
  pub dump_json : RegisteredAgent → String
  pub validate_json : String → Result RegisteredAgent

abbrev pub as_found : Result RegisteredAgent → Result (Option RegisteredAgent)
as_found (ok agent) = ok (some agent)
as_found (err e) = err e

module _ {E : Type 0} (s : CachingAgentRegistry E) where
  -- What a cached text stands for; the empty one is an agent that was not there.
  unfoldable pub read_cached : String → Result (Option RegisteredAgent)
  read_cached cached = if is_truthy_str cached then as_found (s.validate_json cached) else ok none

  -- What is stored for a looked up agent.
  unfoldable pub marker : Option RegisteredAgent → String
  marker none = ""
  marker (some agent) = s.dump_json agent

  unfoldable pub fetch_agent : String → String → Exec E (Option RegisteredAgent)
  unfolding marker
  fetch_agent key spiffe_id w =
      let (r, w') = s.inner spiffe_id w in
      elim r [
        | err e ↦ (err e, w')
        | ok agent ↦ (ok agent, s.redis_set key (marker agent) s.ttl_seconds w')
      ]

  -- `lookup`
  unfoldable pub lookup_cached : String → Exec E (Option RegisteredAgent)
  unfolding read_cached fetch_agent
  lookup_cached spiffe_id w =
      let key = "oac:registry:" <> spiffe_id in
      let (cached, w') = s.redis_get key w in
      elim cached [ some text ↦ (read_cached text, w') | none ↦ fetch_agent key spiffe_id w' ]
