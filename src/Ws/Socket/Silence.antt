-- ===== src/Ws/Socket/Silence.antt =====
-- src/routes/websocket.rs: the timeouts of a connection, for a client that falls silent and for one
-- that is heard from in time.
use h2hc_linker.Base.{
  ℕ, zero, suc, ◌+◌, ◌≤◌, ◌<◌, ◌≡◌, refl, Bool, true, false, not, List, [], ◌∷◌, arith, ◌&&◌, ◌⊎◌,
  inl, inr, Bool-cases, ◌∙◌, if◌then◌else◌,
}
use h2hc_linker.Base.Ticks.{later, every, past_limit}
use h2hc_linker.Config.{WebSocketConfig}
use h2hc_linker.Ids.{WsSender}
use h2hc_linker.Auth.SessionStore.{SessionStore}
use h2hc_linker.Ws.Socket.{
  Socket, Incoming, Turn, Outcome, text, pong_frame, close_frame, stream_error, ended, other, tick,
  running, closed, panicked, socket_of, is_expired, handle_turn, run, reached,
}

-- Nothing by which the client is heard: ticks, and the frames that the loop passes over.
abbrev pub IsQuiet : Incoming → Type 0
IsQuiet tick = Unit
IsQuiet other = Unit
IsQuiet _ = ⊥

abbrev pub AllQuiet : {S : Type 0} → List (Turn S) → Type 0
AllQuiet [] = Unit
AllQuiet (t ∷ ts) = IsQuiet t.incoming × AllQuiet ts

-- The times of the ticks.
abbrev pub with_tick : ℕ → Incoming → List ℕ → List ℕ
with_tick now tick times = now ∷ times
with_tick now _ times = times

abbrev pub tick_times : {S : Type 0} → List (Turn S) → List ℕ
tick_times [] = []
tick_times (t ∷ ts) = with_tick t.now t.incoming (tick_times ts)

-- Whether no time of the list is past the client's timeouts.
abbrev pub in_time : WebSocketConfig → ℕ → ℕ → List ℕ → Bool
in_time cfg pong act [] = true
in_time cfg pong act (now ∷ times) = not (is_expired cfg now pong act) && in_time cfg pong act times

abbrev pub is_running : {S : Type 0} → Outcome S → Bool
is_running (running s) = true
is_running _ = false

abbrev pub is_closed : {S : Type 0} → Outcome S → Bool
is_closed (closed s) = true
is_closed _ = false

quiet_cases : (i : Incoming) → IsQuiet i → (i ≡ other) ⊎ (i ≡ tick)
quiet_cases other q = inl refl
quiet_cases tick q = inr refl
quiet_cases (text p) q = absurd q
quiet_cases pong_frame q = absurd q
quiet_cases close_frame q = absurd q
quiet_cases stream_error q = absurd q
quiet_cases ended q = absurd q

in_time-last :
    (cfg : WebSocketConfig) (pong act first n : ℕ)
    → pong + (cfg.heartbeat_interval + cfg.heartbeat_timeout) < later cfg.heartbeat_interval first n
    → in_time cfg pong act (every cfg.heartbeat_interval first n) ≡ false
unfolding is_expired
in_time-last cfg pong act first zero h = ground arith
in_time-last cfg pong act first (suc n) h =
    ground (arith, in_time-last cfg pong act (first + cfg.heartbeat_interval) n h)

closed-socket_of : {S : Type 0} (o : Outcome S) → is_closed o ≡ true → o ≡ closed (socket_of o)
unfolding socket_of
closed-socket_of (closed s) h = refl
closed-socket_of (running s) h = absurd (ground (arith, h))
closed-socket_of (panicked s) h = absurd (ground (arith, h))

module _ {S : Type 0} ⦃st : SessionStore S⦄ (cfg : WebSocketConfig) (sender : WsSender) where
  turn-other :
      (t : Turn S) (s : Socket S)
      → t.incoming ≡ other
      → handle_turn cfg sender t s ≡ running (reached t s)
  unfolding handle_turn
  turn-other t s e = ground (arith, e)

  turn-tick :
      (t : Turn S) (s : Socket S)
      → t.incoming ≡ tick
      → handle_turn cfg sender t s ≡ (
          if is_expired cfg t.now s.last_pong s.last_activity
          then closed (reached t s)
          else running (reached t s))
  unfolding handle_turn
  turn-tick t s e = ground (arith, e)

  quiet_run :
      (ts : List (Turn S)) (s : Socket S)
      → AllQuiet ts
      → let o = run cfg sender ts s in
        (is_running o ≡ in_time cfg s.last_pong s.last_activity (tick_times ts))
        × (is_closed o ≡ not (is_running o))
        × ((socket_of o).replies ≡ s.replies)
        × ((socket_of o).conn ≡ s.conn)
  unfolding run socket_of
  quiet_run [] s q = (refl, refl, refl, refl)
  quiet_run (t ∷ ts) s q =
      let rest = quiet_run ts (reached t s) q.1 in
      elim (quiet_cases t.incoming q.0) [
        | inl e ↦ rw (run, turn-other t s e, e) (rest.0, rest.1, rest.2, rest.3)
        | inr e ↦ elim (Bool-cases (is_expired cfg t.now s.last_pong s.last_activity)) [
          | inl late ↦ rw (run, turn-tick t s e, e, late) (refl, refl, refl, refl)
          | inr soon ↦ rw (run, turn-tick t s e, e, soon) (rest.0, rest.1, rest.2, rest.3)
        ]
      ]

  -- A client from which neither a text nor a pong comes any more, whatever else comes and whatever
  -- the other connections do to the shared state, is dropped: among the ticks, the first of which is
  -- no later than the limit and an interval, there is one no later than two intervals and the
  -- timeout of the heartbeat after the last pong, and at the latest there the loop has ended by a
  -- `break`, its connection as it was. Until then the loop itself pushes no message to the client;
  -- what other tasks push through their clones of the channel is not counted.
  pub silent_dropped :
      (s : Socket S) (first : ℕ)
      → 0 < cfg.heartbeat_interval
      → first
        ≤ s.last_pong + (cfg.heartbeat_interval + cfg.heartbeat_timeout) + cfg.heartbeat_interval
      → (n : ℕ) × (later cfg.heartbeat_interval first n
          ≤ s.last_pong + (cfg.heartbeat_interval + cfg.heartbeat_timeout) + cfg.heartbeat_interval)
        × ((ts : List (Turn S))
            → AllQuiet ts
            → tick_times ts ≡ every cfg.heartbeat_interval first n
            → (s' : Socket S) × (run cfg sender ts s ≡ closed s')
              × (s'.replies ≡ s.replies)
              × (s'.conn ≡ s.conn))
  silent_dropped s first p h =
      let limit = s.last_pong + (cfg.heartbeat_interval + cfg.heartbeat_timeout) in
      let (n, lo, hi) =
        past_limit cfg.heartbeat_interval limit (suc limit) first (omega arith) p h in
      (
        n,
        hi,
        λ ts q e.
            let (on, off, replies, conn) = quiet_run ts s q in
            let out = in_time-last cfg s.last_pong s.last_activity first n lo in
            let over : in_time cfg s.last_pong s.last_activity (tick_times ts) ≡ false = rw e out in
            (
              socket_of (run cfg sender ts s),
              closed-socket_of (run cfg sender ts s) (off ∙ rw (on, over) refl),
              replies,
              conn,
            ),
      )
