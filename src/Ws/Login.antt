-- ===== src/Ws/Login.antt =====
-- src/routes/websocket.rs: `handle_auth` and `handle_auth_challenge_response`.
use h2hc_linker.Base.{ℕ, String, true, List, none, some, if◌then◌else◌, ◌==◌, nat_eq, pair_eq}
use h2hc_linker.Base.Lists.{length}
use h2hc_linker.Ids.{AgentPubKey, WsSender}
use h2hc_linker.Host.{Host, Fallible, ok, err, with_error}
use h2hc_linker.Auth.SessionStore.{SessionStore}
use h2hc_linker.Auth.Store.{AuthStore, is_agent_allowed, create_session, register_ws_sender}
use h2hc_linker.Gateway.{zeros}
use h2hc_linker.Ws.Messages.{auth_ok, auth_challenge, auth_error}
use h2hc_linker.Ws.State.{ConnectionState, AppState, WsEnv, Reply, panic, answer}

module _ {S : Type 0} ⦃st : SessionStore S⦄ where
  unfoldable pub handle_auth : WsEnv → String → ConnectionState → AppState S → Reply S
  handle_auth env agent_pubkey_str conn app = elim (env.host.parse_agent agent_pubkey_str) [
    | err e ↦ answer (auth_error (with_error "Invalid agent pubkey: " e)) conn app
    | ok agent ↦ elim app.auth_store [
      | none ↦
          answer (auth_ok "")
            (record conn { authenticated = true; authenticated_agent = some agent }) app
      | some auth_store ↦
          if is_agent_allowed agent auth_store
          then answer (auth_challenge (env.host.hex_encode env.challenge))
              (record conn {
                pending_auth_agent = some agent;
                pending_challenge = some env.challenge;
              })
              app
          else answer (auth_error "Agent not allowed") conn app
    ]
  ]

-- The bytes of the key for the check: 32 zeros if the library gives another length.
abbrev pub key_bytes : List ℕ → List ℕ
key_bytes raw = if length raw == 32 then raw else zeros 32

-- The checks of `handle_auth_challenge_response`, from the base64 text to the verification.
unfoldable pub check_signature : Host → AgentPubKey → List ℕ → String → Fallible (Unit {0})
check_signature host agent challenge signature_b64 = elim (host.b64_decode signature_b64) [
  | err e ↦ err (with_error "Invalid signature encoding: " e)
  | ok sig_bytes ↦ elim (host.signature_of_slice sig_bytes) [
    | err e ↦ err (with_error "Invalid signature format: " e)
    | ok signature ↦ elim (host.verifying_key_of_bytes (key_bytes (host.raw_32 agent))) [
      | err e ↦ err (with_error "Invalid agent public key for verification: " e)
      | ok verifying_key ↦
          if host.verify verifying_key challenge signature
          then ok tt
          else err "Signature verification failed"
    ]
  ]
]

module _ {S : Type 0} ⦃st : SessionStore S⦄ where
  -- From the success of the checks on: the session, the sender and the state of the connection.
  unfoldable pub finish_auth :
      WsEnv → WsSender → AgentPubKey → AuthStore S → ConnectionState → AppState S → Reply S
  finish_auth env sender agent auth_store conn app =
      let made = create_session env.token agent auth_store in
      elim made.0 [
        | none ↦
            answer (auth_error "Failed to create session") conn
              (record app { auth_store = some made.1 })
        | some session_token ↦
            answer (auth_ok session_token.text)
              (record conn { authenticated = true; authenticated_agent = some agent })
              (record app { auth_store = some (register_ws_sender agent sender made.1) })
      ]

  -- `auth_store.as_ref().unwrap()` panics without a store.
  unfoldable pub handle_auth_challenge_response :
      WsEnv → WsSender → String → ConnectionState → AppState S → Reply S
  unfolding finish_auth
  handle_auth_challenge_response env sender signature_b64 conn app =
      let taken_agent = record conn { pending_auth_agent = none } in
      let taken = record taken_agent { pending_challenge = none } in
      elim conn.pending_auth_agent [
        | none ↦ answer (auth_error "No pending auth challenge") taken_agent app
        | some agent ↦ elim conn.pending_challenge [
          | none ↦ answer (auth_error "No pending auth challenge") taken app
          | some challenge ↦ elim (check_signature env.host agent challenge signature_b64) [
            | err text ↦ answer (auth_error text) taken app
            | ok _ ↦ elim app.auth_store [
              | none ↦ record { response = panic; conn = taken; app = app }
              | some auth_store ↦ finish_auth env sender agent auth_store taken app
            ]
          ]
        ]
      ]
