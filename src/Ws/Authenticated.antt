-- ===== src/Ws/Authenticated.antt =====
-- src/routes/websocket.rs: how a connection comes to be authenticated, over all its messages and
-- whatever other connections do to the shared state between them.
use h2hc_linker.Base.{
  ℕ, String, ◌≡◌, ◌≢◌, refl, subst, true, List, [], ◌∷◌, some, arith, is_some, Option-cases, ◌⊎◌,
  inl, inr, sym, ◌∙◌,
}
use h2hc_linker.Ids.{AgentPubKey, WsSender}
use h2hc_linker.Host.{ok}
use h2hc_linker.Auth.SessionStore.{SessionStore}
use h2hc_linker.Auth.Store.{AuthStore, is_agent_allowed, create_session}
use h2hc_linker.Ws.Messages.{ClientMessage}
use h2hc_linker.Ws.Messages
use h2hc_linker.Ws.State.{ConnectionState, AppState, WsEnv, default}
use h2hc_linker.Ws.Login.{check_signature}
use h2hc_linker.Ws.Connection.{handle_client_message}
use h2hc_linker.Ws.Cases.{auth_cases, response_cases, response_flag, other_message}

-- A message that a connection handles, with what the call meets and the shared state that it finds.
pub record Event (S : Type 0) : Type 0 where
  pub env : WsEnv
  pub sender : WsSender
  pub msg : ClientMessage
  pub app : AppState S

-- Authentication is on, at each event.
abbrev pub IsGuarded : {S : Type 0} → List (Event S) → Type 0
IsGuarded [] = Unit
IsGuarded (e ∷ earlier) = (is_some e.app.auth_store ≡ true) × IsGuarded earlier

-- The agent was challenged with this nonce: it asked, and was in the allowlist then.
abbrev pub Challenged :
    {S : Type 0} ⦃st : SessionStore S⦄ → AgentPubKey → List ℕ → List (Event S) → Type 0
Challenged agent nonce [] = ⊥
Challenged agent nonce (e ∷ earlier) =
    ((text : String) × (auth_store : AuthStore _) × (e.msg ≡ Messages.auth text)
      × (e.env.host.parse_agent text ≡ ok agent)
      × (e.env.challenge ≡ nonce)
      × (e.app.auth_store ≡ some auth_store)
      × (is_agent_allowed agent auth_store ≡ true))
    ⊎ Challenged agent nonce earlier

-- The agent answered an earlier challenge by a signature that verifies, and got a session.
abbrev pub LoggedIn : {S : Type 0} ⦃st : SessionStore S⦄ → AgentPubKey → List (Event S) → Type 0
LoggedIn agent [] = ⊥
LoggedIn agent (e ∷ earlier) =
    ((text : String) × (nonce : List ℕ) × (auth_store : AuthStore _) × (e.msg
        ≡ Messages.auth_challenge_response text)
      × (check_signature e.env.host agent nonce text ≡ ok tt)
      × (e.app.auth_store ≡ some auth_store)
      × (is_some (create_session e.env.token agent auth_store).0 ≡ true)
      × Challenged agent nonce earlier)
    ⊎ LoggedIn agent earlier

module _ {S : Type 0} ⦃st : SessionStore S⦄ where
  -- The state of a connection after its messages, the latest first.
  unfoldable pub conn_after : List (Event S) → ConnectionState
  conn_after [] = default
  conn_after (e ∷ earlier) =
      (handle_client_message e.env e.sender e.msg (conn_after earlier) e.app).conn

  -- What a connection knows is backed by its history.
  pub record Backed (conn : ConnectionState) (h : List (Event S)) : Type 0 where
    pub challenge :
        (agent : AgentPubKey) (nonce : List ℕ)
        → conn.pending_auth_agent ≡ some agent
        → conn.pending_challenge ≡ some nonce
        → Challenged agent nonce h
    pub login : (agent : AgentPubKey) → conn.authenticated_agent ≡ some agent → LoggedIn agent h
    pub flag : conn.authenticated ≡ true → is_some conn.authenticated_agent ≡ true

  -- A message that leaves the login state alone keeps it backed.
  keep :
      (e : Event S) (h : List (Event S)) (conn conn' : ConnectionState)
      → conn'.authenticated ≡ conn.authenticated
      → conn'.pending_auth_agent ≡ conn.pending_auth_agent
      → conn'.pending_challenge ≡ conn.pending_challenge
      → conn'.authenticated_agent ≡ conn.authenticated_agent
      → Backed conn h
      → Backed conn' (e ∷ h)
  keep e h conn conn' p q r s b = record {
    challenge = λ a n x y. inr (b.challenge a n (sym q ∙ x) (sym r ∙ y));
    login = λ a x. inr (b.login a (sym s ∙ x));
    flag = λ x. rw s (b.flag (sym p ∙ x));
  }

  auth-Backed :
      (env : WsEnv) (sender : WsSender) (text : String) (app : AppState S) (h : List (Event S))
      (conn : ConnectionState)
      → is_some app.auth_store ≡ true
      → Backed conn h
      → Backed
          (handle_client_message env sender (Messages.auth text) conn app).conn
          (record { env = env; sender = sender; msg = Messages.auth text; app = app } ∷ h)
  auth-Backed env sender text app h conn g b = elim (Option-cases app.auth_store) [
    | inl n ↦ absurd (ground (arith, n, g))
    | inr (s, on) ↦ elim (auth_cases env sender text conn app s on) [
      | inl same ↦ rw same (keep _ h conn conn refl refl refl refl b)
      | inr (agent, p, allowed, same) ↦ rw same record {
        challenge = λ a n x y.
            let same_agent : agent ≡ a = ground (arith, x) in
            let same_nonce : env.challenge ≡ n = ground (arith, y) in
            inl (
              text,
              s,
              refl,
              subst (λ k. env.host.parse_agent text ≡ ok k) same_agent p,
              same_nonce,
              on,
              subst (λ k. is_agent_allowed k s ≡ true) same_agent allowed,
            );
        login = λ a x. inr (b.login a x);
        flag = b.flag;
      }
    ]
  ]

  response-Backed :
      (env : WsEnv) (sender : WsSender) (text : String) (app : AppState S) (h : List (Event S))
      (conn : ConnectionState)
      → is_some app.auth_store ≡ true
      → Backed conn h
      → Backed
          (handle_client_message env sender (Messages.auth_challenge_response text) conn app).conn
          (record {
            env = env;
            sender = sender;
            msg = Messages.auth_challenge_response text;
            app = app;
          }
            ∷ h)
  response-Backed env sender text app h conn g b = elim (Option-cases app.auth_store) [
    | inl n ↦ absurd (ground (arith, n, g))
    | inr (s, on) ↦
        let (taken, result) = response_cases env sender text conn app s on in
        record {
          challenge = λ a n x y. absurd (ground (arith, taken, x));
          login = λ a x. elim result [
            | inl (flag, same) ↦ inr (b.login a (sym same ∙ x))
            | inr (agent, nonce, p, c, v, made, now) ↦
                let same_agent : agent ≡ a = ground (arith, now, x) in
                subst
                  (λ k. LoggedIn {S = S} k (
                    record {
                      env = env;
                      sender = sender;
                      msg = Messages.auth_challenge_response text;
                      app = app;
                    }
                    ∷ h))
                  same_agent (inl (text, nonce, s, refl, v, on, made, b.challenge agent nonce p c))
          ];
          flag = response_flag env sender text conn app b.flag;
        }
  ]

  step-Backed :
      (e : Event S) (h : List (Event S)) (conn : ConnectionState)
      → is_some e.app.auth_store ≡ true
      → Backed conn h
      → Backed (handle_client_message e.env e.sender e.msg conn e.app).conn (e ∷ h)
  step-Backed e h conn g b = go e.msg
    where
      other :
          (m : ClientMessage)
          → ((a : String) → m ≢ Messages.auth a)
          → ((s : String) → m ≢ Messages.auth_challenge_response s)
          → Backed
              (handle_client_message e.env e.sender m conn e.app).conn
              (record { env = e.env; sender = e.sender; msg = m; app = e.app } ∷ h)
      other m p q =
          let (r, s, t, u) = other_message e.env e.sender m conn e.app p q in
          keep _ h conn _ r s t u b

      go :
          (m : ClientMessage)
          → Backed
              (handle_client_message e.env e.sender m conn e.app).conn
              (record { env = e.env; sender = e.sender; msg = m; app = e.app } ∷ h)
      go (Messages.auth a) = auth-Backed e.env e.sender a e.app h conn g b
      go (Messages.auth_challenge_response s) = response-Backed e.env e.sender s e.app h conn g b
      go (Messages.register d a) = other _ (λ k x. ground (arith, x)) (λ k x. ground (arith, x))
      go (Messages.unregister d a) = other _ (λ k x. ground (arith, x)) (λ k x. ground (arith, x))
      go Messages.ping = other _ (λ k x. ground (arith, x)) (λ k x. ground (arith, x))
      go (Messages.sign_response i s x) =
          other _ (λ k x. ground (arith, x)) (λ k x. ground (arith, x))
      go (Messages.send_remote_signal d s) =
          other _ (λ k x. ground (arith, x)) (λ k x. ground (arith, x))

  after-Backed : (h : List (Event S)) → IsGuarded h → Backed (conn_after h) h
  unfolding conn_after default
  after-Backed [] g = record {
    challenge = λ a n x y. absurd (ground (arith, x));
    login = λ a x. absurd (ground (arith, x));
    flag = λ x. absurd (ground (arith, x));
  }
  after-Backed (e ∷ h) g = step-Backed e h (conn_after h) g.0 (after-Backed h g.1)

  -- With authentication on, and whatever other connections did to the shared state between its
  -- messages, a connection that counts as authenticated has an agent that it logged in as: the agent
  -- asked while it was in the allowlist, and later answered the nonce that it was given then by a
  -- text that passed the checks of the signature against that nonce and that agent's key, and a
  -- session was made.
  pub authenticated-LoggedIn :
      (h : List (Event S))
      → IsGuarded h
      → (conn_after h).authenticated ≡ true
      → (agent : AgentPubKey) × ((conn_after h).authenticated_agent ≡ some agent) × LoggedIn agent h
  authenticated-LoggedIn h g on =
      let b = after-Backed h g in
      elim (Option-cases (conn_after h).authenticated_agent) [
        | inl n ↦ absurd (ground (arith, n, b.flag on))
        | inr (agent, a) ↦ (agent, a, b.login agent a)
      ]
