-- ===== src/Preflight.antt =====
-- src/wire_preflight.rs, and the preflight handlers of `KitsuneProxy` in src/gateway_kitsune.rs: the
-- cache of the agents that the gateway presents to a peer, and the check of what a peer presents.
pub mod Cache
pub mod Race
use Prim.Native.String.{◌++◌ as ◌^◌}
use h2hc_linker.Base.{
  ℕ, String, Bool, not, ◌&&◌, ◌||◌, List, [], ◌∷◌, ◌++◌, Option, none, some, if◌then◌else◌, ltb,
  ◌==◌, nat_eq,
}
use h2hc_linker.Base.Lists.{filter}
use h2hc_linker.Ids.{AgentPubKey, DnaHash}
use h2hc_linker.Host.{Fallible, ok, err, with_error}

abbrev pub hcp2p_proto_ver : ℕ
hcp2p_proto_ver = 2

pub record NetworkCompatParams : Type 0 where
  pub proto_ver : ℕ

pub record WirePreflightMessage : Type 0 where
  pub compat : NetworkCompatParams
  pub agents : List String

-- What the cache reads of an `AgentInfoSigned`.
pub record AgentInfoSigned : Type 0 where
  pub agent : AgentPubKey
  pub space : DnaHash
  pub expires_at : ℕ

-- kitsune2's encoding of an agent, MessagePack, and the texts of a URL and a number.
pub record Codec : Type 0 where
  pub encode_agent : AgentInfoSigned → Fallible String
  pub encode : WirePreflightMessage → Fallible (List ℕ)
  pub decode : List ℕ → Fallible WirePreflightMessage
  pub url_text : ℕ → String
  pub number_text : ℕ → String

pub record PreflightCache : Type 0 where
  pub preflight : List ℕ
  pub compat : NetworkCompatParams
  pub agents : List AgentInfoSigned

abbrev pub default : NetworkCompatParams
default = record { proto_ver = hcp2p_proto_ver }

abbrev pub is_kept : ℕ → AgentInfoSigned → AgentInfoSigned → Bool
is_kept now info cached =
    not (ltb cached.expires_at now || (cached.agent == info.agent && cached.space == info.space))

module _ (codec : Codec) where
  -- `none` where the code panics.
  unfoldable pub new : Option PreflightCache
  new = elim (codec.encode (record { compat = default; agents = [] })) [
    | err e ↦ none
    | ok initial ↦ some (record { preflight = initial; compat = default; agents = [] })
  ]

  -- The texts of the agents that can be encoded.
  abbrev pub push_text : Fallible String → List String → List String
  push_text (ok s) rest = s ∷ rest
  push_text (err e) rest = rest

  abbrev pub encoded : List AgentInfoSigned → List String
  encoded [] = []
  encoded (info ∷ infos) = push_text (codec.encode_agent info) (encoded infos)

  -- The part of `add_agent` under the lock of the agents, with the texts that it gives.
  unfoldable pub update_agents : ℕ → AgentInfoSigned → PreflightCache → List String × PreflightCache
  update_agents now info cache =
      let agents = filter (is_kept now info) cache.agents ++ info ∷ [] in
      (encoded agents, record cache { agents = agents })

  -- The part under the lock of the preflight.
  unfoldable pub write_preflight : List String → PreflightCache → PreflightCache
  write_preflight texts cache =
      elim (codec.encode (record { compat = cache.compat; agents = texts })) [
        | err e ↦ cache
        | ok preflight_bytes ↦ record cache { preflight = preflight_bytes }
      ]

  unfoldable pub add_agent : ℕ → AgentInfoSigned → PreflightCache → PreflightCache
  add_agent now info cache =
      let (texts, updated) = update_agents now info cache in write_preflight texts updated

  -- `BootstrapWrapper::put`; the wrapped module gets the info as well.
  unfoldable pub put : ℕ → AgentInfoSigned → PreflightCache → PreflightCache × AgentInfoSigned
  put now info cache = (add_agent now info cache, info)

  unfoldable pub preflight_gather_outgoing : PreflightCache → Fallible (List ℕ)
  preflight_gather_outgoing cache = ok cache.preflight

  abbrev incompatible : ℕ → ℕ → String
  incompatible peer_url ver =
      "Incompatible protocol version from "
      ^ codec.url_text peer_url
      ^ ": expected 2, got "
      ^ codec.number_text ver

  unfoldable pub preflight_validate_incoming : ℕ → List ℕ → Fallible (Unit {0})
  preflight_validate_incoming peer_url data_bytes = elim (codec.decode data_bytes) [
    | err e ↦ err (with_error "Invalid preflight from peer: " e)
    | ok preflight ↦
        if not (preflight.compat.proto_ver == 2)
        then err (incompatible peer_url preflight.compat.proto_ver)
        else ok tt
  ]
