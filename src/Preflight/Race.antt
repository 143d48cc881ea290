-- ===== src/Preflight/Race.antt =====
-- src/wire_preflight.rs: `add_agent` drops the lock of the agents before it takes that of the bytes.
use h2hc_linker.Base.{String, ◌∙◌, inl, inr, ℕ, ◌≡◌, refl, true, List, [], ◌∷◌, nat_eq}
use h2hc_linker.Host.{ok, Fallible-cases}
use h2hc_linker.Preflight.{
  AgentInfoSigned, Codec, PreflightCache, default, update_agents, write_preflight, encoded, is_kept,
}

-- Two calls at once: the second one runs between the two locks of the first.
abbrev pub interleaved :
    Codec → ℕ → AgentInfoSigned → AgentInfoSigned → PreflightCache → PreflightCache
interleaved codec now a b cache =
    let (texts_a, cache_a) = update_agents codec now a cache in
    let (texts_b, cache_b) = update_agents codec now b cache_a in
    write_preflight codec texts_a (write_preflight codec texts_b cache_b)

agents-write_preflight :
    (codec : Codec) (texts : List String) (cache : PreflightCache)
    → (write_preflight codec texts cache).agents ≡ cache.agents
unfolding write_preflight
agents-write_preflight codec texts cache =
    elim (Fallible-cases (codec.encode (record { compat = cache.compat; agents = texts }))) [
      | inl (bytes, e) ↦ rw (e, write_preflight) refl
      | inr (x, e) ↦ rw (e, write_preflight) refl
    ]

-- Two agents that are published at once to an empty cache: both are in the cache, and the bytes for
-- the peers are those of the first alone.
pub add_agent_race :
    (codec : Codec) (now : ℕ) (a b : AgentInfoSigned) (before bytes bytes' : List ℕ)
    → is_kept now b a ≡ true
    → codec.encode (record { compat = default; agents = encoded codec (a ∷ []) }) ≡ ok bytes
    → codec.encode (record { compat = default; agents = encoded codec (a ∷ b ∷ []) }) ≡ ok bytes'
    → let cache =
        interleaved codec now a b (record { preflight = before; compat = default; agents = [] }) in
      (cache.agents ≡ a ∷ b ∷ []) × (cache.preflight ≡ bytes)
unfolding update_agents write_preflight
add_agent_race codec now a b before bytes bytes' kept e e' =
    let empty : PreflightCache = record { preflight = before; compat = default; agents = [] } in
    let (texts, first) = update_agents codec now a empty in
    let (texts', second) = update_agents codec now b first in
    (
      agents-write_preflight codec texts (write_preflight codec texts' second)
          ∙ agents-write_preflight codec texts' second
          ∙ rw kept refl,
      rw (kept, e', write_preflight, e) refl,
    )
