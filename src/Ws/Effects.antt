-- ===== src/Ws/Effects.antt =====
-- src/routes/websocket.rs: what a registration and the end of a connection do to the shared state.
use h2hc_linker.Base.{
  String, ◌≡◌, ◌≢◌, refl, true, false, List, [], ◌∷◌, ◌++◌, Option, none, some, arith, is_some,
  Bool-cases, ◌⊎◌, inl, inr, nat_eq, pair_eq, nat_beq_iff, ◌||◌, ==_refl, HashEq,
}
use h2hc_linker.Base.Lists.{contains}
use h2hc_linker.Base.Maps.{lookup-insert}
use h2hc_linker.Ids.{AgentPubKey, DnaHash, WsSender}
use h2hc_linker.Host.{ok, err, Fallible-cases}
use h2hc_linker.Auth.SessionStore.{SessionStore}
use h2hc_linker.Auth.Store.{AuthStore, register_dna_for_agent}
use h2hc_linker.Kitsune.{Kitsune}
use h2hc_linker.Gateway.{Key, GatewayKitsune, agent_join, is_agent_joined}
use h2hc_linker.Gateway.Joined.{agent_join_lem}
use h2hc_linker.Proxy
use h2hc_linker.Proxy.{TrySend, registration_eq}
use h2hc_linker.Proxy.Routing.{target, key_of}
use h2hc_linker.Ws.Messages.{ClientMessage, ServerMessage, registered}
use h2hc_linker.Ws.Messages
use h2hc_linker.Ws.State.{Pair, ConnectionState, AppState, WsEnv, message}
use h2hc_linker.Ws.Registration.{push_registration, is_other_agent, scoped, joined, register_pair}
use h2hc_linker.Ws.Guarded.{IsValid}
use h2hc_linker.Ws.Connection.{handle_client_message}

contains-append :
    {A : Type 0} ⦃e : HashEq A⦄
    → (xs ys : List A) (a : A) → contains (xs ++ ys) a ≡ (contains xs a || contains ys a)
contains-append [] ys a = refl
contains-append (x ∷ xs) ys a = ground (arith, contains-append xs ys a)

contains-push_registration :
    (p : Pair) (ps : List Pair) → contains (push_registration p ps) p ≡ true
contains-push_registration p ps = elim (Bool-cases (contains ps p)) [
  | inl e ↦ rw (e, e) refl
  | inr e ↦ rw e (rw (contains-append ps (p ∷ []) p) (rw (e, ==_refl p) refl))
]

target-register :
    (dna : DnaHash) (agent : AgentPubKey) (sender : WsSender) (m : Proxy.AgentProxyManager)
    → target dna agent (Proxy.register dna agent sender m) ≡ some sender
unfolding Proxy.register
target-register dna agent sender m =
    rw (lookup-insert (key_of dna agent) (key_of dna agent) sender m.registrations)
      (rw (==_refl (key_of dna agent)) refl)

-- The gateway after a join: the agent is joined unless the join failed; nothing else changes.
abbrev pub Joined :
    Kitsune → DnaHash → AgentPubKey → Option GatewayKitsune → Option GatewayKitsune → Type 0
Joined k dna agent none o = o ≡ none
Joined k dna agent (some g) o =
    (g' : GatewayKitsune) × (o ≡ some g')
    × ((agent_join k dna agent g).0 ≡ ok tt → is_agent_joined dna agent g' ≡ true)
    × ((d : DnaHash) (a : AgentPubKey)
        → ◌≢◌ {A = Key} (dna, agent) (d, a)
        → is_agent_joined d a g' ≡ is_agent_joined d a g)

joined-Joined :
    (k : Kitsune) (dna : DnaHash) (agent : AgentPubKey) (o : Option GatewayKitsune)
    → Joined k dna agent o (joined k dna agent o)
joined-Joined k dna agent none = refl
joined-Joined k dna agent (some g) =
    let (there, kept, others) = agent_join_lem k dna agent g in
    ((agent_join k dna agent g).1, refl, there, others)

-- The store after the sessions of the agent were given the DNA.
abbrev pub Scoped :
    {S : Type 0} ⦃st : SessionStore S⦄
    → DnaHash
    → AgentPubKey
    → Option (AuthStore S)
    → Option (AuthStore S)
    → Type 0
Scoped dna agent none o = o ≡ none
Scoped {S} ⦃st⦄ dna agent (some s) o =
    (s' : AuthStore S) × (o ≡ some s')
    × (s'.store ≡ (st.register_dna_for_agent agent dna s.store).1)
    × (s'.ws_senders ≡ s.ws_senders)

scoped-Scoped :
    {S : Type 0} ⦃st : SessionStore S⦄ (dna : DnaHash) (agent : AgentPubKey)
    (o : Option (AuthStore S))
    → Scoped dna agent o (scoped dna agent o)
unfolding register_dna_for_agent
scoped-Scoped dna agent none = refl
scoped-Scoped dna agent (some s) = (_, refl, refl, refl)

module _ {S : Type 0} ⦃st : SessionStore S⦄ where
  same_agent :
      (o : Option (AuthStore S)) (p : Option AgentPubKey) (agent : AgentPubKey)
      → is_some o ≡ true
      → is_some p ≡ true
      → is_other_agent o p agent ≡ false
      → p ≡ some agent
  same_agent none p agent h i e = absurd (ground arith)
  same_agent (some s) none agent h i e = absurd (ground arith)
  same_agent (some s) (some k) agent h i e = ground (arith, nat_beq_iff agent k, e)

  registered_cases :
      (env : WsEnv) (sender : WsSender) (d a : String) (conn : ConnectionState) (app : AppState S)
      (dna : DnaHash) (agent : AgentPubKey)
      → env.host.parse_dna d ≡ ok dna
      → env.host.parse_agent a ≡ ok agent
      → let r = handle_client_message env sender (Messages.register d a) conn app in
        r.response ≡ message (registered d a)
        → let (conn', app') = register_pair env sender dna agent conn app in
          (conn.authenticated ≡ true)
          × (is_other_agent app.auth_store conn.authenticated_agent agent ≡ false)
          × (r.conn ≡ conn')
          × (r.app ≡ app')
  unfolding handle_client_message
  registered_cases env sender d a conn app dna agent p q h =
      let on : conn.authenticated ≡ true = ground (arith, p, q, h) in
      elim (Bool-cases (is_other_agent app.auth_store conn.authenticated_agent agent)) [
        | inl own ↦ absurd (ground (arith, p, q, h, on, own))
        | inr own ↦ (on, own, ground (arith, p, q, on, own), ground (arith, p, q, on, own))
      ]

  unparsed :
      (env : WsEnv) (sender : WsSender) (d a : String) (conn : ConnectionState) (app : AppState S)
      → ((e : String) × (env.host.parse_dna d ≡ err e))
        ⊎ ((e : String) × (env.host.parse_agent a ≡ err e))
      → (handle_client_message env sender (Messages.register d a) conn app).response
        ≢ message (registered d a)
  unfolding handle_client_message
  unparsed env sender d a conn app (inl (e, p)) h = ground (arith, p, h)
  unparsed env sender d a conn app (inr (e, p)) h = ground (arith, p, h)

  -- In a state of the invariant: a registration that is answered by `Registered` was sent on an
  -- authenticated connection, and with authentication on for the agent that the connection is
  -- authenticated as. Afterwards the pair is among the registrations of the connection, signals for
  -- the pair go to this connection, the session store is as its operation leaves it that gives the
  -- sessions of the agent the DNA, whatever that answers, and the agent is joined in the space of the
  -- DNA unless `agent_join` fails, as is any other agent exactly if it was before.
  pub registered_effects :
      (env : WsEnv) (sender : WsSender) (d a : String) (conn : ConnectionState) (app : AppState S)
      → IsValid conn app
      → let r = handle_client_message env sender (Messages.register d a) conn app in
        r.response ≡ message (registered d a)
        → (dna : DnaHash) × (agent : AgentPubKey) × (env.host.parse_dna d ≡ ok dna)
          × (env.host.parse_agent a ≡ ok agent)
          × (conn.authenticated ≡ true)
          × (is_some app.auth_store ≡ true → conn.authenticated_agent ≡ some agent)
          × (contains r.conn.registrations (dna, agent) ≡ true)
          × (target dna agent r.app.agent_proxy ≡ some sender)
          × Scoped dna agent app.auth_store r.app.auth_store
          × Joined env.kitsune dna agent app.gateway_kitsune r.app.gateway_kitsune
  unfolding register_pair
  registered_effects env sender d a conn app v h = elim (Fallible-cases (env.host.parse_dna d)) [
    | inr (e, p) ↦ absurd (unparsed env sender d a conn app (inl (e, p)) h)
    | inl (dna, p) ↦ elim (Fallible-cases (env.host.parse_agent a)) [
      | inr (e, q) ↦ absurd (unparsed env sender d a conn app (inr (e, q)) h)
      | inl (agent, q) ↦
          let (on, own, same_conn, same_app) =
            registered_cases env sender d a conn app dna agent p q h in
          (
            dna,
            agent,
            p,
            q,
            on,
            λ x. same_agent app.auth_store conn.authenticated_agent agent x (v.identified on) own,
            rw same_conn (contains-push_registration (dna, agent) conn.registrations),
            rw same_app (target-register dna agent sender app.agent_proxy),
            rw same_app (scoped-Scoped dna agent app.auth_store),
            rw same_app (joined-Joined env.kitsune dna agent app.gateway_kitsune),
          )
    ]
  ]
