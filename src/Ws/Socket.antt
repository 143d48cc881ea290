-- ===== src/Ws/Socket.antt =====
-- src/routes/websocket.rs: `handle_socket`, the loop around the handlers. A turn of the loop is what
-- one `select!` finds: a frame of the client or a tick of the heartbeat. Between the turns of one
-- connection the tasks of the others run on the shared state.
pub mod Ends
pub mod Silence
pub mod Heard
use h2hc_linker.Base.{
  ℕ, zero, ◌+◌, ◌-◌, String, Bool, true, false, List, [], ◌∷◌, ◌++◌, if◌then◌else◌, ltb, ◌||◌, ◌==◌,
  nat_eq,
}
use h2hc_linker.Ids.{WsSender}
use h2hc_linker.Host.{Fallible, ok, err, with_error}
use h2hc_linker.Config.{WebSocketConfig}
use h2hc_linker.Auth.SessionStore.{SessionStore}
use h2hc_linker.Ws.Messages.{ClientMessage, ServerMessage, error}
use h2hc_linker.Ws.State.{
  ConnectionState, AppState, WsEnv, Answer, message, silent, panic, Reply, default,
}
use h2hc_linker.Ws.Connection.{handle_client_message, cleanup}

-- The variables of the loop, times in milliseconds. `replies` has the messages that the loop itself
-- pushes into `tx`; the signals and sign requests that other tasks push through their clones of `tx`
-- (src/agent_proxy.rs) are in the operations of these tasks.
pub record Socket (S : Type 0) : Type 0 where
  pub conn : ConnectionState
  pub last_activity : ℕ
  pub last_pong : ℕ
  pub app : AppState S
  pub replies : List ServerMessage

-- What a `select!` finds; of a text, what `serde_json` makes of it. `other` is a binary frame or a
-- ping of the client.
pub data Incoming : Type 0 where
  text : Fallible ClientMessage → Incoming
  pong_frame close_frame stream_error ended other tick : Incoming

-- One turn: its time, what the handlers meet outside, whether the channel to the client still has
-- its receiver, and what the other tasks have done to the shared state since the turn before.
pub record Turn (S : Type 0) : Type 0 where
  pub now : ℕ
  pub env : WsEnv
  pub tx_open : Bool
  pub meanwhile : AppState S → AppState S
  pub incoming : Incoming

-- The loop goes on, was left by a `break`, or a handler panicked.
pub data Outcome (S : Type 0) : Type 0 where
  running closed panicked : Socket S → Outcome S

-- The two checks at a tick, of the times of the last pong and of the last activity;
-- `Instant::elapsed` is 0 for a time that lies ahead.
unfoldable pub is_expired : WebSocketConfig → ℕ → ℕ → ℕ → Bool
is_expired cfg now last_pong last_activity =
    ltb (cfg.heartbeat_interval + cfg.heartbeat_timeout) (now - last_pong)
    || ltb cfg.idle_timeout (now - last_activity)

module _ {S : Type 0} where
  unfoldable pub socket_of : Outcome S → Socket S
  socket_of (running s) = s
  socket_of (closed s) = s
  socket_of (panicked s) = s

  -- `tx.send(message).await`, without a look at the result.
  abbrev pub pushed : Bool → ServerMessage → Socket S → Socket S
  pushed tx_open m s = if tx_open then record s { replies = s.replies ++ m ∷ [] } else s

  -- `if let Some(resp) = response { if tx.send(resp).await.is_err() { break; } }`
  abbrev pub respond : Bool → Answer → Socket S → Outcome S
  respond tx_open (message m) s =
      if tx_open then running (record s { replies = s.replies ++ m ∷ [] }) else closed s
  respond tx_open silent s = running s
  respond tx_open panic s = panicked s

  abbrev pub alive : ℕ → Socket S → Socket S
  alive now s = record s { last_activity = now; last_pong = now }

  -- The state that a turn finds.
  abbrev pub reached : Turn S → Socket S → Socket S
  reached t s = record s { app = t.meanwhile s.app }

module _ {S : Type 0} ⦃st : SessionStore S⦄ where
  unfoldable pub handle_text :
      WsSender → WsEnv → Bool → Fallible ClientMessage → Socket S → Outcome S
  handle_text sender env tx_open (err e) s =
      running (pushed tx_open (error (with_error "Invalid message format: " e)) s)
  handle_text sender env tx_open (ok msg) s =
      let reply = handle_client_message env sender msg s.conn s.app in
      respond tx_open reply.response (record s { conn = reply.conn; app = reply.app })

  -- One pass through the loop.
  unfoldable pub handle_turn : WebSocketConfig → WsSender → Turn S → Socket S → Outcome S
  unfolding handle_text
  handle_turn cfg sender t before =
      let s = reached t before in
      elim t.incoming [
        | text parsed ↦ handle_text sender t.env t.tx_open parsed (alive t.now s)
        | pong_frame ↦ running (alive t.now s)
        | close_frame ↦ closed s
        | stream_error ↦ closed s
        | ended ↦ closed s
        | other ↦ running s
        | tick ↦ if is_expired cfg t.now s.last_pong s.last_activity then closed s else running s
      ]

  unfoldable pub run : WebSocketConfig → WsSender → List (Turn S) → Socket S → Outcome S
  run cfg sender [] s = running s
  run cfg sender (t ∷ ts) s = elim (handle_turn cfg sender t s) [
    | running s' ↦ run cfg sender ts s'
    | closed s' ↦ closed s'
    | panicked s' ↦ panicked s'
  ]

  unfoldable pub opened : ℕ → AppState S → Socket S
  opened now app = record {
    conn = default;
    last_activity = now;
    last_pong = now;
    app = app;
    replies = [];
  }

  -- After the loop.
  unfoldable pub finish : WsSender → Outcome S → Outcome S
  finish sender (running s) = running s
  finish sender (closed s) = closed (record s { app = cleanup sender s.conn s.app })
  finish sender (panicked s) = panicked s

  -- The timer of the heartbeat refuses an interval of 0 by a panic.
  unfoldable pub handle_socket :
      WebSocketConfig → WsSender → ℕ → AppState S → List (Turn S) → Outcome S
  handle_socket cfg sender now app turns =
      if cfg.heartbeat_interval == 0
      then panicked (opened now app)
      else finish sender (run cfg sender turns (opened now app))
