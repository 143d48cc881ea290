-- ===== src/Ws/Guarded.antt =====
-- src/routes/websocket.rs: the invariant of a connection, what an unauthenticated client may do, and
-- that a challenge serves once.
use h2hc_linker.Base.{String, ◌≡◌, ◌≢◌, true, false, none, arith, is_some}
use h2hc_linker.Ids.{WsSender}
use h2hc_linker.Auth.SessionStore.{SessionStore}
use h2hc_linker.Ws.Messages.{
  SignedRemoteSignalInput, ClientMessage, ServerMessage, auth_error, error,
}
use h2hc_linker.Ws.Messages
use h2hc_linker.Ws.State.{ConnectionState, AppState, WsEnv, message, panic}
use h2hc_linker.Ws.Connection.{
  handle_client_message, handle_sign_response, handle_send_remote_signal,
}

-- The agent and the nonce of a challenge are pending together, and only with authentication on; an
-- authenticated connection has an agent.
pub record IsValid {S : Type 0} (conn : ConnectionState) (app : AppState S) : Type 0 where
  pub paired : is_some conn.pending_auth_agent ≡ is_some conn.pending_challenge
  pub configured : is_some conn.pending_auth_agent ≡ true → is_some app.auth_store ≡ true
  pub identified : conn.authenticated ≡ true → is_some conn.authenticated_agent ≡ true

-- The messages that want an authenticated client.
abbrev pub WantsAuth : ClientMessage → Type 0
WantsAuth (Messages.register d a) = Unit
WantsAuth (Messages.unregister d a) = Unit
WantsAuth (Messages.send_remote_signal d ss) = Unit
WantsAuth _ = ⊥

module _ {S : Type 0} ⦃st : SessionStore S⦄ where
  -- In a state of the invariant no message makes a handler panic, and every message keeps the
  -- invariant.
  pub handle_client_message-IsValid :
      (env : WsEnv) (sender : WsSender) (msg : ClientMessage) (conn : ConnectionState)
      (app : AppState S)
      → IsValid conn app
      → let r = handle_client_message env sender msg conn app in
        (r.response ≢ panic) × IsValid r.conn r.app
  unfolding handle_client_message handle_sign_response handle_send_remote_signal
  handle_client_message-IsValid env sender (Messages.auth a) conn app v = ground arith
  handle_client_message-IsValid env sender (Messages.auth_challenge_response s) conn app v =
      ground arith
  handle_client_message-IsValid env sender (Messages.register d a) conn app v = ground arith
  handle_client_message-IsValid env sender (Messages.unregister d a) conn app v = ground arith
  handle_client_message-IsValid env sender Messages.ping conn app v = ground arith
  handle_client_message-IsValid env sender (Messages.sign_response i s e) conn app v = ground arith
  handle_client_message-IsValid env sender (Messages.send_remote_signal d ss) conn app v =
      ground arith

  -- A client that is not authenticated cannot register, unregister or send a signal: the answer is
  -- an error, and neither the connection nor any shared state changes.
  pub unauthenticated_refused :
      (env : WsEnv) (sender : WsSender) (msg : ClientMessage) (conn : ConnectionState)
      (app : AppState S)
      → conn.authenticated ≡ false
      → WantsAuth msg
      → let r = handle_client_message env sender msg conn app in
        ((text : String) × (r.response ≡ message (error text))) × (r.conn ≡ conn) × (r.app ≡ app)
  unfolding handle_client_message handle_send_remote_signal
  unauthenticated_refused env sender (Messages.register d a) conn app h w =
      (("Not authenticated", ground arith), ground arith, ground arith)
  unauthenticated_refused env sender (Messages.unregister d a) conn app h w =
      (("Not authenticated", ground arith), ground arith, ground arith)
  unauthenticated_refused env sender (Messages.send_remote_signal d ss) conn app h w =
      (("Must authenticate before sending signals", ground arith), ground arith, ground arith)
  unauthenticated_refused env sender (Messages.auth a) conn app h w = absurd w
  unauthenticated_refused env sender (Messages.auth_challenge_response s) conn app h w = absurd w
  unauthenticated_refused env sender Messages.ping conn app h w = absurd w
  unauthenticated_refused env sender (Messages.sign_response i s e) conn app h w = absurd w

  -- A challenge serves once: after any response to it, right or wrong, a further response is
  -- answered by an error and leaves the connection and the shared state alone.
  pub challenge_used_once :
      (env env' : WsEnv) (sender : WsSender) (s s' : String) (conn : ConnectionState)
      (app app' : AppState S)
      → let r = handle_client_message env sender (Messages.auth_challenge_response s) conn app in
        let r' =
          handle_client_message env' sender (Messages.auth_challenge_response s') r.conn app' in
        (r.conn.pending_auth_agent ≡ none)
        × (r'.response ≡ message (auth_error "No pending auth challenge"))
        × (r'.conn ≡ r.conn)
        × (r'.app ≡ app')
  unfolding handle_client_message
  challenge_used_once env env' sender s s' conn app app' =
      let taken : (handle_client_message env sender (Messages.auth_challenge_response s) conn
            app).conn.pending_auth_agent
          ≡ none =
        ground arith in
      (taken, ground (arith, taken), ground (arith, taken), ground (arith, taken))
