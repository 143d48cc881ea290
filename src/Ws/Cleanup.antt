-- ===== src/Ws/Cleanup.antt =====
-- src/routes/websocket.rs: what an `Unregister` and the end of a connection take away.
use h2hc_linker.Base.{
  String, ◌≡◌, ◌≢◌, refl, Bool, true, false, List, [], ◌∷◌, Option, none, some, arith, Bool-cases,
  ◌⊎◌, inl, inr, nat_eq, pair_eq, nat_beq_iff, pair_beq_iff, ◌==◌, ==_refl, not, if◌then◌else◌, ◌∙◌,
}
use h2hc_linker.Base.Lists.{contains, filter}
use h2hc_linker.Base.Maps.{Map, Unique, lookup, keep_if, remove, lookup-remove}
use h2hc_linker.Ids.{AgentPubKey, DnaHash, WsSender}
use h2hc_linker.Host.{ok}
use h2hc_linker.Auth.SessionStore.{SessionStore}
use h2hc_linker.Auth.Store.{AuthStore, validate_session, unregister_ws_sender}
use h2hc_linker.Proxy
use h2hc_linker.Proxy.{TrySend, registration_eq}
use h2hc_linker.Proxy.Routing.{target, key_of, target-unregister_all}
use h2hc_linker.Gateway.{GatewayKitsune, agent_leave, is_agent_joined}
use h2hc_linker.Gateway.Left.{agents-agent_leave}
use h2hc_linker.Ws.Messages.{ClientMessage, ServerMessage, unregistered}
use h2hc_linker.Ws.Messages
use h2hc_linker.Ws.State.{Pair, ConnectionState, AppState, WsEnv, message}
use h2hc_linker.Ws.Registration.{unregister_pair, left}
use h2hc_linker.Ws.Connection.{leave_pairs, drop_sender, handle_client_message, cleanup}

-- Whether an agent is joined at the gateway.
abbrev pub joined_at : DnaHash → AgentPubKey → Option GatewayKitsune → Bool
joined_at dna agent none = false
joined_at dna agent (some g) = is_agent_joined dna agent g

leave_pairs_gone :
    (ps : List Pair) (d : DnaHash) (a : AgentPubKey) (o : Option GatewayKitsune)
    → (contains ps (d, a) ≡ true) ⊎ (joined_at d a o ≡ false)
    → joined_at d a (leave_pairs ps o) ≡ false
unfolding is_agent_joined
leave_pairs_gone ps d a none h = ground arith
leave_pairs_gone [] d a (some g) h = ground arith
leave_pairs_gone ((e, b) ∷ ps) d a (some g) h =
    leave_pairs_gone ps d a (some (agent_leave e b g).1) (
      rw (agents-agent_leave e b g)
        (ground (arith, lookup-remove (e, b) (d, a) g.agents, pair_beq_iff (e, b) (d, a))))

leave_pairs_kept :
    (ps : List Pair) (d : DnaHash) (a : AgentPubKey) (o : Option GatewayKitsune)
    → contains ps (d, a) ≡ false
    → joined_at d a (leave_pairs ps o) ≡ joined_at d a o
unfolding is_agent_joined
leave_pairs_kept ps d a none h = ground arith
leave_pairs_kept [] d a (some g) h = refl
leave_pairs_kept ((e, b) ∷ ps) d a (some g) h =
    let ne : ◌==◌ {K = Pair} (e, b) (d, a) ≡ false = ground arith in
    leave_pairs_kept ps d a (some (agent_leave e b g).1) (ground arith)
    ∙ rw (agents-agent_leave e b g) (rw (lookup-remove (e, b) (d, a) g.agents) (rw ne refl))

target-removed :
    (dna : DnaHash) (agent : AgentPubKey) (m : Map Proxy.AgentRegistration WsSender)
    → lookup (key_of dna agent) (remove (key_of dna agent) m) ≡ none
target-removed dna agent m =
    rw (lookup-remove (key_of dna agent) (key_of dna agent) m)
      (rw (==_refl (key_of dna agent)) refl)

contains-filter : (p : Pair) (ps : List Pair) → contains (filter (λ r. not (r == p)) ps) p ≡ false
contains-filter p [] = refl
contains-filter p (q ∷ ps) = ground (arith, contains-filter p ps)

left_gone :
    (d : DnaHash) (a : AgentPubKey) (o : Option GatewayKitsune) → joined_at d a (left d a o) ≡ false
unfolding is_agent_joined
left_gone d a none = refl
left_gone d a (some g) =
    rw (agents-agent_leave d a g)
      (rw (lookup-remove (d, a) (d, a) g.agents) (rw (==_refl {A = Pair} (d, a)) refl))

kept_sender :
    (sender : WsSender) (o : Option WsSender) → keep_if (λ s. not (s == sender)) o ≢ some sender
kept_sender sender none h = ground (arith, h)
kept_sender sender (some s) h = ground (arith, h, nat_beq_iff s sender)

other_sender :
    (sender : WsSender) (o : Option WsSender)
    → o ≢ some sender
    → keep_if (λ s. not (s == sender)) o ≡ o
other_sender sender none h = refl
other_sender sender (some s) h = ground (arith, h, nat_beq_iff s sender)

module _ {S : Type 0} ⦃st : SessionStore S⦄ where
  drop_sender_sessions :
      (sender : WsSender) (o : Option (AuthStore S)) (p : Option AgentPubKey) (s : AuthStore S)
      → o ≡ some s
      → (s' : AuthStore S) × (drop_sender sender o p ≡ some s')
        × ((t : String) → validate_session t s' ≡ validate_session t s)
  unfolding unregister_ws_sender validate_session
  drop_sender_sessions sender o none s h = (s, rw h refl, λ t. refl)
  drop_sender_sessions sender o (some k) s h =
      (unregister_ws_sender k sender s, rw h refl, λ t. refl)

  -- With distinct keys among the registrations: when a connection ends, no signal is routed to it
  -- any more, and one for a pair that is registered at another connection is routed as before; each
  -- pair among its registrations has left the space, also one that another connection has
  -- registered since, and every other pair is joined as before; and every session validates as
  -- before: disconnecting ends no session.
  pub cleanup_lem :
      (sender : WsSender) (conn : ConnectionState) (app : AppState S)
      → Unique app.agent_proxy.registrations
      → let app' = cleanup sender conn app in
        ((d : DnaHash) (a : AgentPubKey) → target d a app'.agent_proxy ≢ some sender)
        × ((d : DnaHash) (a : AgentPubKey)
            → target d a app.agent_proxy ≢ some sender
            → target d a app'.agent_proxy ≡ target d a app.agent_proxy)
        × ((d : DnaHash) (a : AgentPubKey)
            → joined_at d a app'.gateway_kitsune ≡ (
                if contains conn.registrations (d, a)
                then false
                else joined_at d a app.gateway_kitsune))
        × ((s : AuthStore S)
            → app.auth_store ≡ some s
            → (s' : AuthStore S) × (app'.auth_store ≡ some s')
              × ((t : String) → validate_session t s' ≡ validate_session t s))
  unfolding cleanup
  cleanup_lem sender conn app u = (
    λ d a.
        rw (target-unregister_all sender d a app.agent_proxy u)
          (kept_sender sender (target d a app.agent_proxy)),
    λ d a ne.
        rw (target-unregister_all sender d a app.agent_proxy u)
          (other_sender sender (target d a app.agent_proxy) ne),
    λ d a. elim (Bool-cases (contains conn.registrations (d, a))) [
      | inl e ↦ rw e (leave_pairs_gone conn.registrations d a app.gateway_kitsune (inl e))
      | inr e ↦ rw e (leave_pairs_kept conn.registrations d a app.gateway_kitsune e)
    ],
    λ s h. drop_sender_sessions sender app.auth_store conn.authenticated_agent s h,
  )

  -- The DNA and the agent of an `Unregister`: on an authenticated connection, whatever agent that
  -- connection is authenticated as, the pair is afterwards registered at no connection, is not among
  -- the registrations of this one, and has left its space.
  pub unregister_any_agent :
      (env : WsEnv) (sender : WsSender) (d a : String) (dna : DnaHash) (agent : AgentPubKey)
      (conn : ConnectionState) (app : AppState S)
      → conn.authenticated ≡ true
      → env.host.parse_dna d ≡ ok dna
      → env.host.parse_agent a ≡ ok agent
      → let r = handle_client_message env sender (Messages.unregister d a) conn app in
        (r.response ≡ message (unregistered d a))
        × (target dna agent r.app.agent_proxy ≡ none)
        × (contains r.conn.registrations (dna, agent) ≡ false)
        × (joined_at dna agent r.app.gateway_kitsune ≡ false)
  unfolding handle_client_message Proxy.unregister
  unregister_any_agent env sender d a dna agent conn app on p q =
      let same_conn : (handle_client_message env sender (Messages.unregister d a) conn app).conn
          ≡ (unregister_pair dna agent conn app).0 =
        ground (arith, on, p, q) in
      let same_app : (handle_client_message env sender (Messages.unregister d a) conn app).app
          ≡ (unregister_pair dna agent conn app).1 =
        ground (arith, on, p, q) in
      (
        ground (arith, on, p, q),
        rw same_app (target-removed dna agent app.agent_proxy.registrations),
        rw same_conn (contains-filter (dna, agent) conn.registrations),
        rw same_app (left_gone dna agent app.gateway_kitsune),
      )
