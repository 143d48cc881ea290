-- ===== src/Kitsune.antt =====
-- What the program takes from kitsune2: its answers to the calls of one operation of the gateway. A
-- space, an op id and a URL are only compared and handed back, so each is a number.
use h2hc_linker.Base.{ℕ, Bool, List, Option}
use h2hc_linker.Ids.{AgentPubKey, DnaHash}
use h2hc_linker.Host.{Fallible}

abbrev pub DynSpace : Type 0
DynSpace = ℕ

abbrev pub Url : Type 0
Url = ℕ

abbrev pub OpId : Type 0
OpId = ℕ

-- An `AgentInfoSigned`; `storage_arc` is the test `contains` of the arc.
pub record PeerInfo : Type 0 where
  pub agent : AgentPubKey
  pub url : Option Url
  pub is_tombstone : Bool
  pub storage_arc : ℕ → Bool

pub record Kitsune : Type 0 where
  -- `kitsune.space(dna_hash.to_k2_space(), None)`
  pub space : DnaHash → Fallible DynSpace
  pub local_agent_join : DynSpace → AgentPubKey → Fallible (Unit {0})
  -- `peer_store().get`, `peer_store().get_all`, `local_agent_store().get_all`
  pub peer : DynSpace → AgentPubKey → Fallible (Option PeerInfo)
  pub all_peers : DynSpace → Fallible (List PeerInfo)
  pub local_agents : DynSpace → Fallible (List AgentPubKey)
  -- `get_responsive_remote_agents_near_location` at a location, with its limit
  pub responsive_agents : DynSpace → ℕ → ℕ → Fallible (List PeerInfo)
  -- `remote_signal_evt` with a signature of 64 bytes, and `encode_batch`
  pub signature_of_slice : List ℕ → Fallible (List ℕ)
  pub encode_signal : AgentPubKey → List ℕ → List ℕ → Fallible (List ℕ)
  pub send_notify : DynSpace → Url → List ℕ → Fallible (Unit {0})
  pub publish_ops : DynSpace → List OpId → Url → Fallible (Unit {0})
