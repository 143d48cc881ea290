-- ===== src/Dht/Handlers.antt =====
-- src/routes/dht.rs: the handlers of the DHT routes over the queries of `DhtQuery`, of which the
-- gateway is the state; `none` if there is no `DhtQuery`.
use h2hc_linker.Base.{ℕ, String, Bool, true, not, List, [], Option, none, some, ◌==◌, string_eq}
use h2hc_linker.Ids.{AgentPubKey, DnaHash}
use h2hc_linker.Host.{Host}
use h2hc_linker.Error.{internal, LinkerResult, done, failure, ◌>>=◌}
use h2hc_linker.Kitsune.{DynSpace, Url, Kitsune}
use h2hc_linker.Gateway.{GatewayKitsune}
use h2hc_linker.Query
use h2hc_linker.Query.{Task, AgentActivityResponse, MustGetAgentActivityResponse}
use h2hc_linker.Dht.{
  WireOps, WireLinkOps, Hasher, Record, LinksQuery, CreateLink, Link, wire_link_ops_to_links,
}
use h2hc_linker.Dht.Records.{Details, wire_ops_to_record_json, wire_ops_to_details_json}
use h2hc_linker.Dht.Routes.{
  HashHost, RecordPath, LinksPath, AgentActivityPath, AgentActivityQuery, MustGetAgentActivityBody,
  GetActivityOptions, ChainFilter, LinkKey, record_request, links_request, activity_request,
  must_get_request,
}

-- The exchange with a peer, for each kind of request.
pub record Asks : Type 0 where
  pub ask_get : ℕ → DynSpace → AgentPubKey × Url → Task WireOps
  pub ask_links : LinkKey → DynSpace → AgentPubKey × Url → Task WireLinkOps
  pub ask_count : LinkKey → DynSpace → AgentPubKey × Url → Task ℕ
  pub ask_activity :
      AgentPubKey → GetActivityOptions → DynSpace → AgentPubKey × Url → Task AgentActivityResponse
  pub ask_must_get :
      AgentPubKey → ChainFilter → DynSpace → AgentPubKey × Url → Task MustGetAgentActivityResponse

abbrev pub DhtState : Type 0
DhtState = Option GatewayKitsune

-- The shape of every handler: the `DhtQuery`, the parsed request, the query and its answer.
abbrev pub answer_with :
    {P A B : Type 0}
    → LinkerResult P
    → (P → GatewayKitsune → LinkerResult A × GatewayKitsune)
    → (P → A → B)
    → DhtState
    → LinkerResult B × DhtState
answer_with request query convert none = (failure (internal "DHT queries not available"), none)
answer_with request query convert (some g) = elim request [
  | failure e ↦ (failure e, some g)
  | done p ↦ let result = query p g in (result.0 >>= λ a. done (convert p a), some result.1)
]

-- `None` is the JSON null, or the empty answer of the link routes.
abbrev pub or_null : {A B : Type 0} → (A → Option B) → Option A → Option B
or_null convert none = none
or_null convert (some a) = convert a

abbrev pub or_default : {A B : Type 0} → B → (A → B) → Option A → B
or_default empty convert none = empty
or_default empty convert (some a) = convert a

abbrev pub activity_options : Bool → GetActivityOptions
activity_options is_full = record {
  include_valid_activity = is_full;
  include_rejected_activity = is_full;
  include_warrants = true;
  include_full_records = Bool.false;
}

-- `request.as_deref() != Some("status")`
abbrev pub is_full : Option String → Bool
is_full none = true
is_full (some request) = not (request == "status")

module _ (host : Host) (hashes : HashHost) (hasher : Hasher) (to_hash : CreateLink → ℕ)
    (k : Kitsune) (asks : Asks) where
  abbrev pub get_query :
      DnaHash × ℕ → GatewayKitsune → LinkerResult (Option WireOps) × GatewayKitsune
  get_query (dna, hash) g = Query.get k (asks.ask_get hash) dna (hashes.dht_loc hash) g

  unfoldable pub dht_get_record : RecordPath → DhtState → LinkerResult (Option Record) × DhtState
  dht_get_record path =
      answer_with (record_request host hashes path) get_query
        (λ p. or_null (wire_ops_to_record_json hasher))

  unfoldable pub dht_get_details : RecordPath → DhtState → LinkerResult (Option Details) × DhtState
  dht_get_details path =
      answer_with (record_request host hashes path) get_query
        (λ p. or_null (wire_ops_to_details_json hasher))

  unfoldable pub dht_get_links :
      LinksPath → LinksQuery → DhtState → LinkerResult (List Link) × DhtState
  dht_get_links path query =
      answer_with (links_request host hashes path query)
        (λ p g. Query.get_links k (asks.ask_links p.1) p.0 (hashes.linkable_loc p.1.base) g)
        (λ p. or_default [] (λ ops. wire_link_ops_to_links to_hash ops.creates p.1.base p.1.tag))

  unfoldable pub dht_count_links : LinksPath → LinksQuery → DhtState → LinkerResult ℕ × DhtState
  dht_count_links path query =
      answer_with (links_request host hashes path query)
        (λ p g. Query.count_links k (asks.ask_count p.1) p.0 (hashes.linkable_loc p.1.base) g)
        (λ p. or_default 0 (λ n. n))

  unfoldable pub dht_get_agent_activity :
      AgentActivityPath
      → AgentActivityQuery
      → DhtState
      → LinkerResult (Option AgentActivityResponse) × DhtState
  dht_get_agent_activity path query =
      answer_with (activity_request host hashes path)
        (λ p g.
          Query.get_agent_activity k
            (asks.ask_activity p.1 (activity_options (is_full query.request))) p.0
            (hashes.agent_loc p.1) g)
        (λ p. or_null some)

  unfoldable pub dht_must_get_agent_activity :
      LinksPath
      → MustGetAgentActivityBody
      → DhtState
      → LinkerResult (Option MustGetAgentActivityResponse) × DhtState
  dht_must_get_agent_activity path body =
      answer_with (must_get_request host hashes path body)
        (λ p g.
          Query.must_get_agent_activity k (asks.ask_must_get p.1 p.2) p.0 (hashes.agent_loc p.1) g)
        (λ p. or_null some)
