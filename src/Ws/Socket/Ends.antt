-- ===== src/Ws/Socket/Ends.antt =====
-- src/routes/websocket.rs: what the loop keeps of its state, whatever the client sends and the other
-- tasks do, and what is left of a connection after it.
use h2hc_linker.Base.{
  ℕ, ◌≡◌, ◌≢◌, refl, Bool, true, false, List, [], ◌∷◌, some, arith, is_some, inl, inr, nat_eq,
  nat_beq_iff, ◌==◌, Bool-cases, pair_eq,
}
use h2hc_linker.Base.Lists.{contains}
use h2hc_linker.Base.Maps.{Unique, insert-Unique, remove-Unique}
use h2hc_linker.Config.{WebSocketConfig}
use h2hc_linker.Ids.{AgentPubKey, DnaHash, WsSender}
use h2hc_linker.Host.{Fallible, ok, err, Fallible-cases}
use h2hc_linker.Auth.SessionStore.{SessionStore}
use h2hc_linker.Proxy
use h2hc_linker.Proxy.{registration_eq, deliver_signature}
use h2hc_linker.Proxy.Routing.{target, key_of}
use h2hc_linker.Ws.Messages.{ClientMessage}
use h2hc_linker.Ws.Messages
use h2hc_linker.Ws.State.{ConnectionState, AppState, WsEnv, Answer, message, silent, panic, default}
use h2hc_linker.Ws.Registration.{register_pair, unregister_pair}
use h2hc_linker.Ws.Connection.{
  handle_client_message, handle_sign_response, handle_send_remote_signal,
}
use h2hc_linker.Ws.Guarded.{IsValid, handle_client_message-IsValid}
use h2hc_linker.Ws.Cleanup.{joined_at, cleanup_lem}
use h2hc_linker.Ws.Socket.{
  Socket, Incoming, Turn, Outcome, text, pong_frame, close_frame, stream_error, ended, other, tick,
  running, closed, panicked, reached, alive, respond, handle_text, handle_turn, run, opened, finish,
  handle_socket, is_expired,
}

-- What holds of the shared state: whether authentication is on does not change, and the keys of the
-- registrations are distinct.
abbrev pub IsShared : {S : Type 0} → Bool → AppState S → Type 0
IsShared on app = (is_some app.auth_store ≡ on) × Unique app.agent_proxy.registrations

-- The other tasks keep that.
abbrev pub AllFair : {S : Type 0} → Bool → List (Turn S) → Type 0
AllFair on [] = Unit
AllFair {S = S} on (t ∷ ts) =
    ((app : AppState S) → IsShared on app → IsShared on (t.meanwhile app)) × AllFair on ts

abbrev pub Holds : {S : Type 0} → Bool → Socket S → Type 0
Holds on s = IsValid s.conn s.app × IsShared on s.app

-- No panic, and the state holds.
abbrev pub Good : {S : Type 0} → Bool → Outcome S → Type 0
Good on (running s) = Holds on s
Good on (closed s) = Holds on s
Good on (panicked s) = ⊥

module _ {S : Type 0} ⦃st : SessionStore S⦄ where
  handle_client_message-IsShared :
      (env : WsEnv) (sender : WsSender) (msg : ClientMessage) (conn : ConnectionState)
      (app : AppState S) (on : Bool)
      → IsShared on app
      → IsShared on (handle_client_message env sender msg conn app).app
  unfolding handle_client_message handle_sign_response handle_send_remote_signal register_pair
      unregister_pair Proxy.register Proxy.unregister deliver_signature
  handle_client_message-IsShared env sender (Messages.auth a) conn app on h =
      (ground (arith, h), ground (arith, h))
  handle_client_message-IsShared env sender (Messages.auth_challenge_response s) conn app on h =
      ground (arith, h)
  handle_client_message-IsShared env sender (Messages.register d a) conn app on h =
      elim (Fallible-cases (env.host.parse_dna d)) [
        | inr (e, p) ↦ ground (arith, h, p)
        | inl (dna, p) ↦ elim (Fallible-cases (env.host.parse_agent a)) [
          | inr (e, q) ↦ ground (arith, h, p, q)
          | inl (agent, q) ↦ ground (
            arith,
            h,
            p,
            q,
            insert-Unique (key_of dna agent) sender app.agent_proxy.registrations h.1,
          )
        ]
      ]
  handle_client_message-IsShared env sender (Messages.unregister d a) conn app on h =
      elim (Fallible-cases (env.host.parse_dna d)) [
        | inr (e, p) ↦ ground (arith, h, p)
        | inl (dna, p) ↦ elim (Fallible-cases (env.host.parse_agent a)) [
          | inr (e, q) ↦ ground (arith, h, p, q)
          | inl (agent, q) ↦
              ground
                (arith, h, p, q, remove-Unique (key_of dna agent) app.agent_proxy.registrations h.1)
        ]
      ]
  handle_client_message-IsShared env sender Messages.ping conn app on h = h
  handle_client_message-IsShared env sender (Messages.sign_response i s e) conn app on h =
      ground (arith, h)
  handle_client_message-IsShared env sender (Messages.send_remote_signal d ss) conn app on h =
      ground (arith, h)

  pub default-IsValid : (app : AppState S) → IsValid default app
  unfolding default
  default-IsValid app = record {
    paired = refl;
    configured = λ h. absurd (ground (arith, h));
    identified = λ h. absurd (ground (arith, h));
  }

  -- Another task's steps between two turns.
  reached-Holds :
      (on : Bool) (t : Turn S) (s : Socket S)
      → ((app : AppState S) → IsShared on app → IsShared on (t.meanwhile app))
      → Holds on s
      → Holds on (reached t s)
  reached-Holds on t s fair h =
      let shared = fair s.app h.1 in
      (
        record {
          paired = h.0.paired;
          configured = λ x. rw shared.0 (ground (arith, h.1.0, h.0.configured x));
          identified = h.0.identified;
        },
        shared,
      )

  respond-Good :
      (on tx_open : Bool) (answer : Answer) (s : Socket S)
      → answer ≢ panic
      → Holds on s
      → Good on (respond tx_open answer s)
  respond-Good on true (message m) s p h = h
  respond-Good on false (message m) s p h = h
  respond-Good on tx_open silent s p h = h
  respond-Good on tx_open panic s p h = absurd (p refl)

  handle_text-Good :
      (on : Bool) (sender : WsSender) (env : WsEnv) (tx_open : Bool)
      (parsed : Fallible ClientMessage) (s : Socket S)
      → Holds on s
      → Good on (handle_text sender env tx_open parsed s)
  unfolding handle_text
  handle_text-Good on sender env true (err e) s h = h
  handle_text-Good on sender env false (err e) s h = h
  handle_text-Good on sender env tx_open (ok msg) s h =
      let valid = handle_client_message-IsValid env sender msg s.conn s.app h.0 in
      let reply = handle_client_message env sender msg s.conn s.app in
      respond-Good on tx_open reply.response (record s { conn = reply.conn; app = reply.app })
        valid.0 (valid.1, handle_client_message-IsShared env sender msg s.conn s.app on h.1)

  pub handle_turn-Good :
      (on : Bool) (cfg : WebSocketConfig) (sender : WsSender) (t : Turn S) (s : Socket S)
      → ((app : AppState S) → IsShared on app → IsShared on (t.meanwhile app))
      → Holds on s
      → Good on (handle_turn cfg sender t s)
  unfolding handle_turn
  handle_turn-Good on cfg sender t s fair h = go t.incoming
    where
      there : Holds on (reached t s)
      there = reached-Holds on t s fair h

      go : (i : Incoming) → Good on (handle_turn cfg sender (record t { incoming = i }) s)
      go (text parsed) =
          handle_text-Good on sender t.env t.tx_open parsed (alive t.now (reached t s)) there
      go pong_frame = there
      go close_frame = there
      go stream_error = there
      go ended = there
      go other = there
      go tick = elim (Bool-cases (is_expired cfg t.now s.last_pong s.last_activity)) [
        | inl e ↦ rw e there
        | inr e ↦ rw e there
      ]

  run-Good :
      (on : Bool) (cfg : WebSocketConfig) (sender : WsSender) (ts : List (Turn S)) (s : Socket S)
      → AllFair on ts
      → Holds on s
      → Good on (run cfg sender ts s)
  unfolding run
  run-Good on cfg sender [] s fair h = h
  run-Good on cfg sender (t ∷ ts) s fair h =
      next (λ s' g. run-Good on cfg sender ts s' fair.1 g) (handle_turn cfg sender t s)
        (handle_turn-Good on cfg sender t s fair.0 h)
    where
      next :
          ((s' : Socket S) → Holds on s' → Good on (run cfg sender ts s'))
          → (o : Outcome S) → Good on o
          → Good on (elim o [
            | running s' ↦ run cfg sender ts s'
            | closed s' ↦ closed s'
            | panicked s' ↦ panicked s'
          ])
      next rest (running s') g = rest s' g
      next rest (closed s') g = g
      next rest (panicked s') g = g

  -- What is left of a connection that has ended.
  abbrev pub IsCleared : WsSender → Socket S → Type 0
  IsCleared sender s =
      ((d : DnaHash) (a : AgentPubKey) → target d a s.app.agent_proxy ≢ some sender)
      × ((d : DnaHash) (a : AgentPubKey)
          → contains s.conn.registrations (d, a) ≡ true
          → joined_at d a s.app.gateway_kitsune ≡ false)

  abbrev pub EndsClear : Bool → WsSender → Outcome S → Type 0
  EndsClear on sender (running s) = Holds on s
  EndsClear on sender (closed s) = IsCleared sender s
  EndsClear on sender (panicked s) = ⊥

  finish-EndsClear :
      (on : Bool) (sender : WsSender) (o : Outcome S)
      → Good on o
      → EndsClear on sender (finish sender o)
  unfolding finish
  finish-EndsClear on sender (running s) g = g
  finish-EndsClear on sender (closed s) g =
      let after = cleanup_lem sender s.conn s.app g.1.1 in
      (after.0, λ d a e. rw (after.2 d a) (rw e refl))
  finish-EndsClear on sender (panicked s) g = g

  -- With an interval of the heartbeat that is not 0, distinct keys among the registrations at the
  -- start, and other tasks that neither switch authentication on or off nor make a key occur twice:
  -- over any frames of the client, any ticks and any steps of the other tasks the connection never
  -- panics; while it runs, its state keeps the invariant; and if it ends, then no signal is routed
  -- to it any more, and every pair among its registrations has left its space.
  pub handle_socket-EndsClear :
      (on : Bool) (cfg : WebSocketConfig) (sender : WsSender) (now : ℕ) (app : AppState S)
      (turns : List (Turn S))
      → cfg.heartbeat_interval ≢ 0
      → IsShared on app
      → AllFair on turns
      → EndsClear on sender (handle_socket cfg sender now app turns)
  unfolding handle_socket opened
  handle_socket-EndsClear on cfg sender now app turns p h fair =
      let z : (cfg.heartbeat_interval == 0) ≡ false =
        ground (arith, p, nat_beq_iff cfg.heartbeat_interval 0) in
      rw z (
        finish-EndsClear on sender (run cfg sender turns (opened now app))
          (run-Good on cfg sender turns (opened now app) fair (default-IsValid app, h)))
