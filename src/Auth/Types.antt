-- ===== src/Auth/Types.antt =====
-- src/auth/types.rs: the data of the authentication layer. A `HashSet` is a list of distinct items.
use h2hc_linker.Base.{String, ◌≡◌, ◌↔◌, Bool, true, false, List, Option, arith, HashEq, nat_eq}
use h2hc_linker.Base.Lists.{contains}
use h2hc_linker.Ids.{AgentPubKey, DnaHash}

pub data Capability : Type 0 where
  dht_read dht_write k2 : Capability

abbrev pub cap_beq : Capability → Capability → Bool
cap_beq dht_read dht_read = true
cap_beq dht_write dht_write = true
cap_beq k2 k2 = true
cap_beq _ _ = false

pub cap_beq_iff : (a b : Capability) → (cap_beq a b ≡ true) ↔ (a ≡ b)
cap_beq_iff a b = (λ h. ground arith, λ h. ground arith)

instance abbrev pub cap_eq : HashEq Capability
cap_eq = record { same = cap_beq; same_iff = cap_beq_iff }

pub record AllowedAgent : Type 0 where
  pub agent_pubkey : AgentPubKey
  pub capabilities : List Capability
  pub label : Option String

-- The text of a token; `generate` draws it at random, so its value is an argument where it is made.
pub record SessionToken : Type 0 where
  pub text : String

pub record SessionInfo : Type 0 where
  pub agent_pubkey : AgentPubKey
  pub capabilities : List Capability
  pub registered_dnas : List DnaHash

unfoldable pub has_capability : SessionInfo → Capability → Bool
has_capability s cap = contains s.capabilities cap

pub record AuthContext : Type 0 where
  pub agent_pubkey : AgentPubKey
  pub capabilities : List Capability
  pub registered_dnas : List DnaHash

unfoldable pub has_dna : AuthContext → DnaHash → Bool
has_dna ctx dna = contains ctx.registered_dnas dna
