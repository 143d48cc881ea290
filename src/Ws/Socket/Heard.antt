-- ===== src/Ws/Socket/Heard.antt =====
-- src/routes/websocket.rs: a client that is heard from in time keeps its connection.
use h2hc_linker.Base.{
  ℕ, ◌+◌, ◌≤◌, ◌≡◌, ◌≢◌, refl, Bool, true, false, List, [], ◌∷◌, arith, nat_eq, nat_beq_iff, ◌==◌,
}
use h2hc_linker.Config.{WebSocketConfig}
use h2hc_linker.Ids.{WsSender}
use h2hc_linker.Auth.SessionStore.{SessionStore}
use h2hc_linker.Ws.State.{AppState, message, silent, panic}
use h2hc_linker.Ws.Connection.{handle_client_message}
use h2hc_linker.Host.{Fallible, ok, err}
use h2hc_linker.Ws.Messages.{ClientMessage}
use h2hc_linker.Ws.State.{WsEnv, Answer}
use h2hc_linker.Ws.Socket.{
  Socket, Incoming, Turn, Outcome, text, pong_frame, close_frame, stream_error, ended, other, tick,
  running, closed, panicked, reached, alive, respond, is_expired, handle_text, handle_turn, run,
  opened, finish, handle_socket,
}
use h2hc_linker.Ws.Socket.Ends.{IsShared, AllFair, Holds, Good, handle_turn-Good, default-IsValid}

-- From the time `last` on, no tick comes later than the timeouts after the latest text or pong, the
-- client neither closes nor fails, and the channel to it is open.
abbrev pub HeardInTime : {S : Type 0} → WebSocketConfig → ℕ → List (Turn S) → Type 0
HeardInTime cfg last [] = Unit
HeardInTime cfg last (t ∷ ts) = elim t.incoming [
  | text parsed ↦ (t.tx_open ≡ true) × HeardInTime cfg t.now ts
  | pong_frame ↦ HeardInTime cfg t.now ts
  | close_frame ↦ ⊥
  | stream_error ↦ ⊥
  | ended ↦ ⊥
  | other ↦ HeardInTime cfg last ts
  | tick ↦
      (t.now ≤ last + (cfg.heartbeat_interval + cfg.heartbeat_timeout))
      × (t.now ≤ last + cfg.idle_timeout)
      × HeardInTime cfg last ts
]

-- The loop goes on, both clocks at the same time, from which the client is heard in time.
abbrev pub GoesOn : {S : Type 0} → WebSocketConfig → List (Turn S) → Outcome S → Type 0
GoesOn cfg ts (running s) = (s.last_activity ≡ s.last_pong) × HeardInTime cfg s.last_pong ts
GoesOn cfg ts _ = ⊥

in_time-is_expired :
    (cfg : WebSocketConfig) (now last act : ℕ)
    → act ≡ last
    → now ≤ last + (cfg.heartbeat_interval + cfg.heartbeat_timeout)
    → now ≤ last + cfg.idle_timeout
    → is_expired cfg now last act ≡ false
unfolding is_expired
in_time-is_expired cfg now last act e p q = ground (arith, e)

module _ {S : Type 0} ⦃st : SessionStore S⦄ where
  respond-GoesOn :
      (on : Bool) (cfg : WebSocketConfig) (ts : List (Turn S)) (answer : Answer) (s : Socket S)
      → Good on (respond true answer s)
      → s.last_activity ≡ s.last_pong
      → HeardInTime cfg s.last_pong ts
      → GoesOn cfg ts (respond true answer s)
  respond-GoesOn on cfg ts (message m) s g e h = (e, h)
  respond-GoesOn on cfg ts silent s g e h = (e, h)
  respond-GoesOn on cfg ts panic s g e h = absurd g

  handle_text-GoesOn :
      (on : Bool) (cfg : WebSocketConfig) (sender : WsSender) (env : WsEnv) (ts : List (Turn S))
      (parsed : Fallible ClientMessage) (s : Socket S)
      → Good on (handle_text sender env true parsed s)
      → s.last_activity ≡ s.last_pong
      → HeardInTime cfg s.last_pong ts
      → GoesOn cfg ts (handle_text sender env true parsed s)
  unfolding handle_text
  handle_text-GoesOn on cfg sender env ts (err e) s g c h = (c, h)
  handle_text-GoesOn on cfg sender env ts (ok msg) s g c h =
      let reply = handle_client_message env sender msg s.conn s.app in
      respond-GoesOn on cfg ts reply.response (record s { conn = reply.conn; app = reply.app }) g c
        h

  handle_turn-GoesOn :
      (on : Bool) (cfg : WebSocketConfig) (sender : WsSender) (t : Turn S) (ts : List (Turn S))
      (s : Socket S)
      → Good on (handle_turn cfg sender t s)
      → s.last_activity ≡ s.last_pong
      → HeardInTime cfg s.last_pong (t ∷ ts)
      → GoesOn cfg ts (handle_turn cfg sender t s)
  unfolding handle_turn
  handle_turn-GoesOn on cfg sender t ts s g c h = go t.incoming t.tx_open g h
    where
      go :
          (i : Incoming) (tx : Bool)
          → Good on (handle_turn cfg sender (record t { incoming = i; tx_open = tx }) s)
          → HeardInTime cfg s.last_pong (record t { incoming = i; tx_open = tx } ∷ ts)
          → GoesOn cfg ts (handle_turn cfg sender (record t { incoming = i; tx_open = tx }) s)
      go (text parsed) true g h =
          handle_text-GoesOn on cfg sender t.env ts parsed (alive t.now (reached t s)) g refl h.1
      go (text parsed) false g h = absurd (ground (arith, h.0))
      go pong_frame tx g h = (refl, h)
      go close_frame tx g h = absurd h
      go stream_error tx g h = absurd h
      go ended tx g h = absurd h
      go other tx g h = (c, h)
      go tick tx g h =
          rw (in_time-is_expired cfg t.now s.last_pong s.last_activity c h.0 h.1) (c, h.2)

  heard_run :
      (on : Bool) (cfg : WebSocketConfig) (sender : WsSender) (ts : List (Turn S)) (s : Socket S)
      → AllFair on ts
      → Holds on s
      → s.last_activity ≡ s.last_pong
      → HeardInTime cfg s.last_pong ts
      → (s' : Socket S) × (run cfg sender ts s ≡ running s')
  unfolding run
  heard_run on cfg sender [] s fair g c h = (s, refl)
  heard_run on cfg sender (t ∷ ts) s fair g c h =
      let good = handle_turn-Good on cfg sender t s fair.0 g in
      next (λ s' x y z. heard_run on cfg sender ts s' fair.1 x y z) (handle_turn cfg sender t s)
        good (handle_turn-GoesOn on cfg sender t ts s good c h)
    where
      next :
          ((s' : Socket S)
            → Holds on s'
            → s'.last_activity ≡ s'.last_pong
            → HeardInTime cfg s'.last_pong ts
            → (s'' : Socket S) × (run cfg sender ts s' ≡ running s''))
          → (o : Outcome S) → Good on o
          → GoesOn cfg ts o
          → (s'' : Socket S) × (elim o [
            | running s' ↦ run cfg sender ts s'
            | closed s' ↦ closed s'
            | panicked s' ↦ panicked s'
          ]
              ≡ running s'')
      next rest (running s') good x = rest s' good x.0 x.1
      next rest (closed s') good x = absurd x
      next rest (panicked s') good x = absurd x

  -- With an interval that is not 0, and other tasks that keep the shared state in order: a client
  -- whose latest text or pong is at every tick within both timeouts, that neither closes nor fails,
  -- and whose channel is open at its texts, keeps its connection, whatever its texts say, also when
  -- they are malformed.
  pub heard_client_kept :
      (on : Bool) (cfg : WebSocketConfig) (sender : WsSender) (now : ℕ) (app : AppState S)
      (turns : List (Turn S))
      → cfg.heartbeat_interval ≢ 0
      → IsShared on app
      → AllFair on turns
      → HeardInTime cfg now turns
      → (s : Socket S) × (handle_socket cfg sender now app turns ≡ running s)
  unfolding handle_socket opened finish
  heard_client_kept on cfg sender now app turns p shared fair h =
      let z : (cfg.heartbeat_interval == 0) ≡ false =
        ground (arith, p, nat_beq_iff cfg.heartbeat_interval 0) in
      let (s, e) =
        heard_run on cfg sender turns (opened now app) fair (default-IsValid app, shared) refl h in
      (s, rw z (rw e refl))
