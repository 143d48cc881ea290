-- ===== src/Dht/Routes.antt =====
-- src/routes/dht.rs: the parsing of the paths and queries, and the handlers. An answer that is JSON
-- null is `none`. The exchanges with the peers (`ask`) and the locations of the hashes are arguments,
-- as in `Query`.
use h2hc_linker.Base.{ℕ, String, Bool, Option, none, some, string_eq}
use h2hc_linker.Ids.{AgentPubKey, DnaHash}
use h2hc_linker.Host.{Host, Fallible, ok, err, with_error}
use h2hc_linker.Error.{request_malformed, LinkerResult, done, failure, ◌>>=◌}
use h2hc_linker.Dht.{LinkTag, LinksQuery, LinkTypeFilter, type_query}

-- The library's functions on hashes: the parsers, the conversions into the sums `AnyDhtHash` and
-- `AnyLinkableHash`, and the locations.
pub record HashHost : Type 0 where
  pub parse_entry : String → Fallible ℕ
  pub parse_action : String → Fallible ℕ
  pub parse_external : String → Fallible ℕ
  pub dht_of_entry : ℕ → ℕ
  pub dht_of_action : ℕ → ℕ
  pub linkable_of_agent : AgentPubKey → ℕ
  pub linkable_of_entry : ℕ → ℕ
  pub linkable_of_action : ℕ → ℕ
  pub linkable_of_external : ℕ → ℕ
  pub dht_loc : ℕ → ℕ
  pub linkable_loc : ℕ → ℕ
  pub agent_loc : AgentPubKey → ℕ

pub record RecordPath : Type 0 where
  pub dna_hash : String
  pub hash : String

pub record LinksPath : Type 0 where
  pub dna_hash : String

pub record AgentActivityPath : Type 0 where
  pub dna_hash : String
  pub agent_hash : String

pub record AgentActivityQuery : Type 0 where
  pub request : Option String

pub record MustGetAgentActivityBody : Type 0 where
  pub agent : String
  pub chain_top : String
  pub include_cached_entries : Bool

pub record GetActivityOptions : Type 0 where
  pub include_valid_activity : Bool
  pub include_rejected_activity : Bool
  pub include_warrants : Bool
  pub include_full_records : Bool

-- The limit of the walk is always the genesis.
pub record ChainFilter : Type 0 where
  pub chain_top : ℕ
  pub include_cached_entries : Bool

-- What both link routes ask for.
pub record LinkKey : Type 0 where
  pub base : ℕ
  pub filter_of : LinkTypeFilter
  pub tag : Option LinkTag

-- `map_err(|_| RequestMalformed(..))`
abbrev pub parsed : {A : Type 0} → String → Fallible A → LinkerResult A
parsed text (ok a) = done a
parsed text (err e) = failure (request_malformed text)

module _ (host : Host) (hashes : HashHost) where
  unfoldable pub parse_dna_hash : String → LinkerResult DnaHash
  parse_dna_hash s = parsed (with_error "Invalid DNA hash: " s) (host.parse_dna s)

  unfoldable pub parse_any_dht_hash : String → LinkerResult ℕ
  parse_any_dht_hash s = elim (hashes.parse_entry s) [
    | ok hash ↦ done (hashes.dht_of_entry hash)
    | err _ ↦ elim (hashes.parse_action s) [
      | ok hash ↦ done (hashes.dht_of_action hash)
      | err _ ↦ failure (request_malformed (with_error "Invalid DHT hash: " s))
    ]
  ]

  unfoldable pub parse_any_linkable_hash : String → LinkerResult ℕ
  parse_any_linkable_hash s = elim (host.parse_agent s) [
    | ok hash ↦ done (hashes.linkable_of_agent hash)
    | err _ ↦ elim (hashes.parse_entry s) [
      | ok hash ↦ done (hashes.linkable_of_entry hash)
      | err _ ↦ elim (hashes.parse_action s) [
        | ok hash ↦ done (hashes.linkable_of_action hash)
        | err _ ↦ elim (hashes.parse_external s) [
          | ok hash ↦ done (hashes.linkable_of_external hash)
          | err _ ↦ failure (request_malformed (with_error "Invalid linkable hash: " s))
        ]
      ]
    ]
  ]

  unfoldable pub parse_agent_pubkey : String → LinkerResult AgentPubKey
  parse_agent_pubkey s = parsed (with_error "Invalid agent pubkey: " s) (host.parse_agent s)

  unfoldable pub parse_action_hash : String → LinkerResult ℕ
  parse_action_hash s = parsed (with_error "Invalid action hash: " s) (hashes.parse_action s)

  abbrev pub parse_tag : Option String → LinkerResult (Option LinkTag)
  parse_tag none = done none
  parse_tag (some tag_str) = do
    bytes ← parsed "Invalid tag encoding" (host.b64_decode tag_str)
    done (some bytes)

  unfoldable pub record_request : RecordPath → LinkerResult (DnaHash × ℕ)
  unfolding parse_dna_hash parse_any_dht_hash
  record_request path = do
    dna ← parse_dna_hash path.dna_hash
    hash ← parse_any_dht_hash path.hash
    done (dna, hash)

  unfoldable pub links_request : LinksPath → LinksQuery → LinkerResult (DnaHash × LinkKey)
  unfolding parse_dna_hash parse_any_linkable_hash type_query
  links_request path query = do
    dna ← parse_dna_hash path.dna_hash
    base ← parse_any_linkable_hash query.base
    tag ← parse_tag query.tag
    filter_of ← type_query query
    done (dna, record { base = base; filter_of = filter_of; tag = tag })

  unfoldable pub activity_request : AgentActivityPath → LinkerResult (DnaHash × AgentPubKey)
  unfolding parse_dna_hash parse_agent_pubkey
  activity_request path = do
    dna ← parse_dna_hash path.dna_hash
    agent ← parse_agent_pubkey path.agent_hash
    done (dna, agent)

  unfoldable pub must_get_request :
      LinksPath → MustGetAgentActivityBody → LinkerResult (DnaHash × AgentPubKey × ChainFilter)
  unfolding parse_dna_hash parse_agent_pubkey parse_action_hash
  must_get_request path body = do
    dna ← parse_dna_hash path.dna_hash
    agent ← parse_agent_pubkey body.agent
    chain_top ← parse_action_hash body.chain_top
    done (
      dna,
      agent,
      record { chain_top = chain_top; include_cached_entries = body.include_cached_entries },
    )
