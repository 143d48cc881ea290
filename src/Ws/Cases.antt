-- ===== src/Ws/Cases.antt =====
-- src/routes/websocket.rs: what each message can do to the login state of a connection.
use h2hc_linker.Base.{
  ℕ, String, ◌≡◌, ◌≢◌, refl, true, List, none, some, arith, is_some, Option-cases, Bool-cases, ◌⊎◌,
  inl, inr,
}
use h2hc_linker.Ids.{AgentPubKey, WsSender}
use h2hc_linker.Host.{Host, ok, Fallible-cases}
use h2hc_linker.Auth.SessionStore.{SessionStore}
use h2hc_linker.Auth.Store.{AuthStore, is_agent_allowed, create_session}
use h2hc_linker.Ws.Messages.{ClientMessage}
use h2hc_linker.Ws.Messages
use h2hc_linker.Ws.State.{ConnectionState, AppState, WsEnv}
use h2hc_linker.Ws.Login.{key_bytes, check_signature, finish_auth, handle_auth_challenge_response}
use h2hc_linker.Ws.Connection.{
  handle_client_message, handle_sign_response, handle_send_remote_signal,
}

-- A signature that passes the checks is one that the library verifies over the challenge, with the
-- agent's key.
pub check_signature_sound :
    (host : Host) (agent : AgentPubKey) (challenge : List ℕ) (text : String)
    → check_signature host agent challenge text ≡ ok tt
    → (bytes : List ℕ) × (signature : List ℕ) × (key : List ℕ) × (host.b64_decode text ≡ ok bytes)
      × (host.signature_of_slice bytes ≡ ok signature)
      × (host.verifying_key_of_bytes (key_bytes (host.raw_32 agent)) ≡ ok key)
      × (host.verify key challenge signature ≡ true)
unfolding check_signature
check_signature_sound host agent challenge text h = elim (Fallible-cases (host.b64_decode text)) [
  | inr (e, b) ↦ absurd (ground (arith, b, h))
  | inl (bytes, b) ↦ elim (Fallible-cases (host.signature_of_slice bytes)) [
    | inr (e, s) ↦ absurd (ground (arith, b, s, h))
    | inl (signature, s) ↦
        elim (Fallible-cases (host.verifying_key_of_bytes (key_bytes (host.raw_32 agent)))) [
          | inr (e, k) ↦ absurd (ground (arith, b, s, k, h))
          | inl (key, k) ↦ (bytes, signature, key, b, s, k, ground (arith, b, s, k, h))
        ]
  ]
]

module _ {S : Type 0} ⦃st : SessionStore S⦄ where
  pub auth_cases :
      (env : WsEnv) (sender : WsSender) (text : String) (conn : ConnectionState) (app : AppState S)
      (s : AuthStore S)
      → app.auth_store ≡ some s
      → let conn' = (handle_client_message env sender (Messages.auth text) conn app).conn in
        (conn' ≡ conn)
        ⊎ ((agent : AgentPubKey) × (env.host.parse_agent text ≡ ok agent)
            × (is_agent_allowed agent s ≡ true)
            × (conn' ≡ record conn {
              pending_auth_agent = some agent;
              pending_challenge = some env.challenge;
            }))
  unfolding handle_client_message
  auth_cases env sender text conn app s on = elim (Fallible-cases (env.host.parse_agent text)) [
    | inr (e, p) ↦ inl (ground (arith, p))
    | inl (agent, p) ↦ elim (Bool-cases (is_agent_allowed agent s)) [
      | inl a ↦ inr (agent, p, a, ground (arith, p, on, a))
      | inr a ↦ inl (ground (arith, p, on, a))
    ]
  ]

  -- A response either leaves the identity alone and clears a challenge, or logs in.
  pub response_cases :
      (env : WsEnv) (sender : WsSender) (text : String) (conn : ConnectionState) (app : AppState S)
      (s : AuthStore S)
      → app.auth_store ≡ some s
      → let conn' =
          (handle_client_message env sender
            (Messages.auth_challenge_response text)
            conn
            app).conn in
        (conn'.pending_auth_agent ≡ none)
        × (((conn'.authenticated ≡ conn.authenticated)
              × (conn'.authenticated_agent ≡ conn.authenticated_agent))
            ⊎ ((agent : AgentPubKey) × (nonce : List ℕ) × (conn.pending_auth_agent ≡ some agent)
                × (conn.pending_challenge ≡ some nonce)
                × (check_signature env.host agent nonce text ≡ ok tt)
                × (is_some (create_session env.token agent s).0 ≡ true)
                × (conn'.authenticated_agent ≡ some agent)))
  unfolding handle_auth_challenge_response finish_auth handle_client_message
  response_cases env sender text conn app s on = elim (Option-cases conn.pending_auth_agent) [
    | inl a ↦ (ground (arith, a), inl (ground (arith, a), ground (arith, a)))
    | inr (agent, a) ↦ elim (Option-cases conn.pending_challenge) [
      | inl c ↦ (ground (arith, a, c), inl (ground (arith, a, c), ground (arith, a, c)))
      | inr (nonce, c) ↦ elim (Fallible-cases (check_signature env.host agent nonce text)) [
        | inr (e, v) ↦
            (ground (arith, a, c, v), inl (ground (arith, a, c, v), ground (arith, a, c, v)))
        | inl (u, v) ↦ elim (Option-cases (create_session env.token agent s).0) [
          | inl m ↦ (
            ground (arith, a, c, v, on, m),
            inl (ground (arith, a, c, v, on, m), ground (arith, a, c, v, on, m)),
          )
          | inr (token, m) ↦ (
            ground (arith, a, c, v, on, m),
            inr (agent, nonce, a, c, v, ground (arith, m), ground (arith, a, c, v, on, m)),
          )
        ]
      ]
    ]
  ]

  pub response_flag :
      (env : WsEnv) (sender : WsSender) (text : String) (conn : ConnectionState) (app : AppState S)
      → (conn.authenticated ≡ true → is_some conn.authenticated_agent ≡ true)
      → let conn' =
          (handle_client_message env sender
            (Messages.auth_challenge_response text)
            conn
            app).conn in
        conn'.authenticated ≡ true → is_some conn'.authenticated_agent ≡ true
  unfolding handle_client_message
  response_flag env sender text conn app f h = ground arith

  -- A message that neither asks for a challenge nor answers one leaves the login state alone.
  pub other_message :
      (env : WsEnv) (sender : WsSender) (msg : ClientMessage) (conn : ConnectionState)
      (app : AppState S)
      → ((a : String) → msg ≢ Messages.auth a)
      → ((s : String) → msg ≢ Messages.auth_challenge_response s)
      → let conn' = (handle_client_message env sender msg conn app).conn in
        (conn'.authenticated ≡ conn.authenticated)
        × (conn'.pending_auth_agent ≡ conn.pending_auth_agent)
        × (conn'.pending_challenge ≡ conn.pending_challenge)
        × (conn'.authenticated_agent ≡ conn.authenticated_agent)
  unfolding handle_client_message handle_sign_response handle_send_remote_signal
  other_message env sender (Messages.auth a) conn app n m = absurd (n a refl)
  other_message env sender (Messages.auth_challenge_response s) conn app n m = absurd (m s refl)
  other_message env sender (Messages.register d a) conn app n m = ground arith
  other_message env sender (Messages.unregister d a) conn app n m = ground arith
  other_message env sender Messages.ping conn app n m = ground arith
  other_message env sender (Messages.sign_response i s e) conn app n m = ground arith
  other_message env sender (Messages.send_remote_signal d ss) conn app n m = ground arith
