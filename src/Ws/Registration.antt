-- ===== src/Ws/Registration.antt =====
-- src/routes/websocket.rs: the `Register` and `Unregister` messages.
use h2hc_linker.Base.{
  String, Bool, false, not, List, [], ◌∷◌, ◌++◌, Option, none, some, if◌then◌else◌, ◌==◌, nat_eq,
  pair_eq,
}
use h2hc_linker.Base.Lists.{filter, contains}
use h2hc_linker.Ids.{AgentPubKey, DnaHash, WsSender}
use h2hc_linker.Host.{Host, ok, err, with_error}
use h2hc_linker.Kitsune.{Kitsune}
use h2hc_linker.Auth.SessionStore.{SessionStore}
use h2hc_linker.Auth.Store.{AuthStore, register_dna_for_agent}
use h2hc_linker.Proxy
use h2hc_linker.Gateway.{GatewayKitsune, agent_join, agent_leave}
use h2hc_linker.Ws.Messages.{registered, unregistered, error}
use h2hc_linker.Ws.State.{Pair, ConnectionState, AppState, WsEnv, Reply, answer}

abbrev pub push_registration : Pair → List Pair → List Pair
push_registration key pairs = if contains pairs key then pairs else pairs ++ key ∷ []

abbrev pub joined : Kitsune → DnaHash → AgentPubKey → Option GatewayKitsune → Option GatewayKitsune
joined k dna agent none = none
joined k dna agent (some g) = some (agent_join k dna agent g).1

abbrev pub left : DnaHash → AgentPubKey → Option GatewayKitsune → Option GatewayKitsune
left dna agent none = none
left dna agent (some g) = some (agent_leave dna agent g).1

module _ {S : Type 0} ⦃st : SessionStore S⦄ where
  -- The two parses at the start of `Register` and `Unregister`, and what follows them.
  abbrev pub with_pair :
      Host
      → String
      → String
      → ConnectionState
      → AppState S
      → (DnaHash → AgentPubKey → Reply S)
      → Reply S
  with_pair host dna_hash agent_pubkey conn app rest = elim (host.parse_dna dna_hash) [
    | err e ↦ answer (error (with_error "Invalid DNA hash: " e)) conn app
    | ok dna ↦ elim (host.parse_agent agent_pubkey) [
      | err e ↦ answer (error (with_error "Invalid agent pubkey: " e)) conn app
      | ok agent ↦ rest dna agent
    ]
  ]

  -- With authentication on, only the authenticated agent may be registered.
  abbrev pub is_other_agent : Option (AuthStore S) → Option AgentPubKey → AgentPubKey → Bool
  is_other_agent none auth_agent agent = false
  is_other_agent (some auth_store) none agent = false
  is_other_agent (some auth_store) (some auth_agent) agent = not (agent == auth_agent)

  abbrev pub scoped : DnaHash → AgentPubKey → Option (AuthStore S) → Option (AuthStore S)
  scoped dna agent none = none
  scoped dna agent (some auth_store) = some (register_dna_for_agent agent dna auth_store)

  -- The registration proper: in the connection, the proxy manager, the sessions and the space.
  unfoldable pub register_pair :
      WsEnv
      → WsSender
      → DnaHash
      → AgentPubKey
      → ConnectionState
      → AppState S
      → ConnectionState × AppState S
  register_pair env sender dna agent conn app = (
    record conn { registrations = push_registration (dna, agent) conn.registrations },
    record {
      auth_store = scoped dna agent app.auth_store;
      agent_proxy = Proxy.register dna agent sender app.agent_proxy;
      gateway_kitsune = joined env.kitsune dna agent app.gateway_kitsune;
    },
  )

  unfoldable pub handle_register :
      WsEnv → WsSender → String → String → ConnectionState → AppState S → Reply S
  unfolding register_pair
  handle_register env sender dna_hash agent_pubkey conn app =
      if not conn.authenticated
      then answer (error "Not authenticated") conn app
      else with_pair env.host dna_hash agent_pubkey conn app λ dna agent.
        if is_other_agent app.auth_store conn.authenticated_agent agent
        then answer (error "Cannot register a different agent than authenticated") conn app
        else let (conn', app') = register_pair env sender dna agent conn app in
          answer (registered dna_hash agent_pubkey) conn' app'

  unfoldable pub unregister_pair :
      DnaHash → AgentPubKey → ConnectionState → AppState S → ConnectionState × AppState S
  unregister_pair dna agent conn app =
      let key : Pair = (dna, agent) in
      (
        record conn { registrations = filter (λ r. not (r == key)) conn.registrations },
        record app {
          agent_proxy = Proxy.unregister dna agent app.agent_proxy;
          gateway_kitsune = left dna agent app.gateway_kitsune;
        },
      )

  unfoldable pub handle_unregister :
      WsEnv → String → String → ConnectionState → AppState S → Reply S
  unfolding unregister_pair
  handle_unregister env dna_hash agent_pubkey conn app =
      if not conn.authenticated
      then answer (error "Not authenticated") conn app
      else with_pair env.host dna_hash agent_pubkey conn app λ dna agent.
        let (conn', app') = unregister_pair dna agent conn app in
        answer (unregistered dna_hash agent_pubkey) conn' app'
