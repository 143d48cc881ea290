-- ===== src/Tests/Sockets.antt =====
-- The theorems on the loop of a WebSocket connection.
use h2hc_linker.Base.{ℕ, ◌+◌, ◌≤◌, ◌≡◌, refl, true, List, [], ◌∷◌, arith}
use h2hc_linker.Base.Ticks.{later, every}
use h2hc_linker.Config.{WebSocketConfig, websocket_default}
use h2hc_linker.Host.{ok, err}
use h2hc_linker.Auth.Memory.{MemoryStoreInner, memory_store}
use h2hc_linker.Ws.Messages
use h2hc_linker.Ws.State.{default}
use h2hc_linker.Ws.Socket.{
  Socket, Incoming, Turn, text, pong_frame, close_frame, other, tick, closed, running, run,
  handle_socket, opened, handle_turn, is_expired,
}
use h2hc_linker.Ws.Socket.Ends.{EndsClear, handle_socket-EndsClear}
use h2hc_linker.Ws.Socket.Silence.{AllQuiet, tick_times, silent_dropped}
use h2hc_linker.Ws.Socket.Heard.{heard_client_kept}
use h2hc_linker.Tests.Fixtures.{env, app}

-- The times that `WebSocketConfig::default` has.
abbrev cfg : WebSocketConfig
cfg = websocket_default

abbrev turn : ℕ → Incoming → Turn MemoryStoreInner
turn now i = record { now = now; env = env; tx_open = true; meanwhile = λ a. a; incoming = i }

abbrev visit : List (Turn MemoryStoreInner)
visit =
    turn 10 (text (ok (Messages.auth "alice")))
    ∷ turn 20 (text (err "no type"))
    ∷ turn 30000 tick
    ∷ turn 35000 other
    ∷ turn 60000 tick
    ∷ turn 60001 close_frame
    ∷ []

handle_socket-EndsClear_example : EndsClear true 20 (handle_socket cfg 20 0 app visit)
handle_socket-EndsClear_example =
    handle_socket-EndsClear true cfg 20 0 app visit (λ e. ground (arith, e))
      (refl, (refl, (refl, tt)))
      (λ a h. h, (λ a h. h, (λ a h. h, (λ a h. h, (λ a h. h, (λ a h. h, tt))))))

abbrev calm : List (Turn MemoryStoreInner)
calm =
    turn 10 (text (ok Messages.ping))
    ∷ turn 30000 tick
    ∷ turn 40000 pong_frame
    ∷ turn 60000 tick
    ∷ []

heard_client_kept_example :
    (s : Socket MemoryStoreInner) × (handle_socket cfg 20 0 app calm ≡ running s)
heard_client_kept_example =
    heard_client_kept true cfg 20 0 app calm (λ e. ground (arith, e)) (refl, (refl, (refl, tt)))
      (λ a h. h, (λ a h. h, (λ a h. h, (λ a h. h, tt))))
      (refl, (ground arith, ground arith, (ground arith, ground arith, tt)))

silent_dropped_example :
    let s = opened 5 app in
    (n : ℕ) × (later 30000 30000 n ≤ 5 + (30000 + 10000) + 30000)
    × ((ts : List (Turn MemoryStoreInner))
        → AllQuiet ts
        → tick_times ts ≡ every 30000 30000 n
        → (s' : Socket MemoryStoreInner) × (run cfg 20 ts s ≡ closed s')
          × (s'.replies ≡ s.replies)
          × (s'.conn ≡ s.conn))
unfolding opened
silent_dropped_example = silent_dropped cfg 20 (opened 5 app) 30000 (ground arith) (ground arith)

-- A silent client at concrete times.
dropped_at_60000 :
    run cfg 20 (turn 30000 tick ∷ turn 31000 other ∷ turn 60000 tick ∷ []) (opened 5 app)
    ≡ closed (opened 5 app)
unfolding run handle_turn is_expired opened default
dropped_at_60000 = refl
