-- ===== src/Tests/Connections.antt =====
-- The theorems on the WebSocket connections.
use h2hc_linker.Base.{◌≡◌, refl, true, false, [], ◌∷◌, none, some, is_some, nat_eq, pair_eq}
use h2hc_linker.Base.Lists.{contains}
use h2hc_linker.Ids.{AgentPubKey, DnaHash}
use h2hc_linker.Host.{ok}
use h2hc_linker.Auth.Memory
use h2hc_linker.Auth.Memory.{MemoryStoreInner, memory_store}
use h2hc_linker.Auth.Store.{is_agent_allowed, create_session}
use h2hc_linker.Proxy.Routing.{target}
use h2hc_linker.Ws.Messages.{
  ClientMessage, ServerMessage, error, auth_error, registered, unregistered,
}
use h2hc_linker.Ws.Messages
use h2hc_linker.Ws.State.{ConnectionState, message, default}
use h2hc_linker.Ws.Login.{handle_auth, handle_auth_challenge_response, check_signature, finish_auth}
use h2hc_linker.Ws.Registration.{handle_register, register_pair}
use h2hc_linker.Ws.Connection.{handle_client_message, cleanup}
use h2hc_linker.Ws.Guarded.{IsValid}
use h2hc_linker.Ws.Authenticated.{Event, LoggedIn, conn_after, authenticated-LoggedIn}
use h2hc_linker.Ws.Effects.{Scoped, Joined, registered_effects}
use h2hc_linker.Ws.Cleanup.{joined_at, cleanup_lem, unregister_any_agent}
use h2hc_linker.Tests.Fixtures.{host, kitsune, env, app, conn}

conn-IsValid : IsValid conn app
conn-IsValid = record { paired = refl; configured = λ h. refl; identified = λ h. refl }

abbrev fresh : ConnectionState
fresh = record conn { authenticated = false }

abbrev challenged : ConnectionState
challenged = record fresh { pending_auth_agent = some 1; pending_challenge = some (1 ∷ 2 ∷ 3 ∷ []) }

abbrev event : ClientMessage → Event MemoryStoreInner
event m = record { env = env; sender = 30; msg = m; app = app }

authenticated-LoggedIn_example :
    (agent : AgentPubKey) × ((conn_after (
        event (Messages.auth_challenge_response "sig")
        ∷ event (Messages.auth "alice")
        ∷ [])).authenticated_agent
      ≡ some agent)
    × LoggedIn agent
        (event (Messages.auth_challenge_response "sig") ∷ event (Messages.auth "alice") ∷ [])
unfolding conn_after default handle_client_message handle_auth handle_auth_challenge_response
    check_signature finish_auth is_agent_allowed create_session Memory.is_agent_allowed
    Memory.create_session Memory.create_session_read Memory.create_session_write
authenticated-LoggedIn_example =
    authenticated-LoggedIn
      (event (Messages.auth_challenge_response "sig") ∷ event (Messages.auth "alice") ∷ [])
      (refl, (refl, tt)) refl

registered_effects_example :
    let r = handle_client_message env 21 (Messages.register "dna" "bob") conn app in
    (dna : DnaHash) × (agent : AgentPubKey) × (host.parse_dna "dna" ≡ ok dna)
    × (host.parse_agent "bob" ≡ ok agent)
    × (conn.authenticated ≡ true)
    × (is_some app.auth_store ≡ true → conn.authenticated_agent ≡ some agent)
    × (contains r.conn.registrations (dna, agent) ≡ true)
    × (target dna agent r.app.agent_proxy ≡ some 21)
    × Scoped dna agent app.auth_store r.app.auth_store
    × Joined kitsune dna agent app.gateway_kitsune r.app.gateway_kitsune
unfolding handle_client_message handle_register register_pair
registered_effects_example = registered_effects env 21 "dna" "bob" conn app conn-IsValid refl

cleanup_lem_example : joined_at 5 2 (cleanup 20 conn app).gateway_kitsune ≡ false
cleanup_lem_example = (cleanup_lem 20 conn app (refl, (refl, tt))).2 5 2

unregister_any_agent_example :
    let r = handle_client_message env 20 (Messages.unregister "dna" "alice") conn app in
    (r.response ≡ message (unregistered "dna" "alice"))
    × (target 5 1 r.app.agent_proxy ≡ none)
    × (contains r.conn.registrations (5, 1) ≡ false)
    × (joined_at 5 1 r.app.gateway_kitsune ≡ false)
unregister_any_agent_example = unregister_any_agent env 20 "dna" "alice" 5 1 conn app refl refl refl
