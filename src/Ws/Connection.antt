-- ===== src/Ws/Connection.antt =====
-- src/routes/websocket.rs: the remaining messages, the dispatch on a client's message, and the
-- clean-up when the connection ends.
use h2hc_linker.Base.{
  ℕ, String, not, List, [], ◌∷◌, Option, none, some, if◌then◌else◌, nat_eq, pair_eq,
}
use h2hc_linker.Ids.{AgentPubKey, WsSender}
use h2hc_linker.Host.{Host, ok, err, with_error}
use h2hc_linker.Kitsune.{Kitsune}
use h2hc_linker.Auth.SessionStore.{SessionStore}
use h2hc_linker.Auth.Store.{AuthStore, unregister_ws_sender}
use h2hc_linker.Proxy.{SignResult, deliver_signature, unregister_all}
use h2hc_linker.Gateway.{GatewayKitsune, agent_leave, peer_count, send_remote_signals}
use h2hc_linker.Ws.Messages.{SignedRemoteSignalInput, ClientMessage, pong, error}
use h2hc_linker.Ws.Messages
use h2hc_linker.Ws.State.{Pair, ConnectionState, AppState, WsEnv, Reply, silent, answer}
use h2hc_linker.Ws.Login.{handle_auth, handle_auth_challenge_response}
use h2hc_linker.Ws.Registration.{handle_register, handle_unregister}

abbrev pub leave_pairs : List Pair → Option GatewayKitsune → Option GatewayKitsune
leave_pairs pairs none = none
leave_pairs [] (some g) = some g
leave_pairs ((dna, agent) ∷ pairs) (some g) = leave_pairs pairs (some (agent_leave dna agent g).1)

-- The result that a `SignResponse` delivers.
unfoldable pub sign_result : Host → Option String → Option String → SignResult
sign_result host (some sig_b64) e = elim (host.b64_decode sig_b64) [
  | ok sig_bytes ↦ ok sig_bytes
  | err e ↦ err (with_error "Invalid signature encoding: " e)
]
sign_result host none (some e) = err e
sign_result host none none = err "No signature or error provided"

abbrev pub peers : Kitsune → Option GatewayKitsune → ℕ
peers k none = 0
peers k (some g) = peer_count k g

module _ {S : Type 0} ⦃st : SessionStore S⦄ where
  unfoldable pub handle_sign_response :
      WsEnv → String → Option String → Option String → ConnectionState → AppState S → Reply S
  handle_sign_response env request_id signature e conn app = record {
    response = silent;
    conn = conn;
    app = record app {
      agent_proxy =
          (deliver_signature request_id (sign_result env.host signature e) app.agent_proxy).1;
    };
  }

  unfoldable pub handle_send_remote_signal :
      WsEnv → String → List SignedRemoteSignalInput → ConnectionState → AppState S → Reply S
  handle_send_remote_signal env dna_hash signals conn app =
      if not conn.authenticated
      then answer (error "Must authenticate before sending signals") conn app
      else elim app.gateway_kitsune [
        | none ↦ answer (error "Remote signals not available (kitsune2 not enabled)") conn app
        | some g ↦ elim (env.host.parse_dna dna_hash) [
          | err e ↦ answer (error (with_error "Invalid DNA hash: " e)) conn app
          | ok dna ↦ record {
            response = silent;
            conn = conn;
            app = record app {
              gateway_kitsune =
                  some
                    (send_remote_signals env.host env.kitsune env.try_send app.agent_proxy dna
                      signals g).1;
            };
          }
        ]
      ]

  -- `match msg`.
  unfoldable pub handle_client_message :
      WsEnv → WsSender → ClientMessage → ConnectionState → AppState S → Reply S
  unfolding handle_auth handle_auth_challenge_response handle_register handle_unregister
  handle_client_message env sender (Messages.auth a) conn app = handle_auth env a conn app
  handle_client_message env sender (Messages.auth_challenge_response s) conn app =
      handle_auth_challenge_response env sender s conn app
  handle_client_message env sender (Messages.register d a) conn app =
      handle_register env sender d a conn app
  handle_client_message env sender (Messages.unregister d a) conn app =
      handle_unregister env d a conn app
  handle_client_message env sender Messages.ping conn app =
      answer (pong (peers env.kitsune app.gateway_kitsune)) conn app
  handle_client_message env sender (Messages.sign_response id s e) conn app =
      handle_sign_response env id s e conn app
  handle_client_message env sender (Messages.send_remote_signal d ss) conn app =
      handle_send_remote_signal env d ss conn app

  abbrev pub drop_sender :
      WsSender → Option (AuthStore S) → Option AgentPubKey → Option (AuthStore S)
  drop_sender sender none agent = none
  drop_sender sender (some s) none = some s
  drop_sender sender (some s) (some agent) = some (unregister_ws_sender agent sender s)

  -- What `handle_socket` does after its loop.
  unfoldable pub cleanup : WsSender → ConnectionState → AppState S → AppState S
  cleanup sender conn app = record {
    auth_store = drop_sender sender app.auth_store conn.authenticated_agent;
    agent_proxy = unregister_all sender app.agent_proxy;
    gateway_kitsune = leave_pairs conn.registrations app.gateway_kitsune;
  }
