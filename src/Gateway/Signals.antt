-- ===== src/Gateway/Signals.antt =====
-- src/gateway_kitsune.rs: what `send_remote_signals` counts, and where a signal goes.
use h2hc_linker.Base.{ℕ, ◌+◌, ◌≡◌, refl, true, List, [], ◌∷◌, some, arith, nat_eq}
use h2hc_linker.Base.Lists.{length}
use h2hc_linker.Ids.{AgentPubKey, DnaHash, WsSender}
use h2hc_linker.Host.{Host, ok}
use h2hc_linker.Kitsune.{DynSpace, Url, Kitsune}
use h2hc_linker.Ws.Messages.{SignedRemoteSignalInput, ServerMessage, signal}
use h2hc_linker.Proxy.{AgentProxyManager, TrySend, is_queued, is_registered}
use h2hc_linker.Proxy.Routing.{target}
use h2hc_linker.Gateway.{
  GatewayKitsune, delivered, notified, deliver_to_browser, send_remote_signal, send_remote_signals,
}
use h2hc_linker.Gateway.Joined.{IsValid, get_or_create_space-IsValid}

module _ (host : Host) (k : Kitsune) (try_send : WsSender → ServerMessage → TrySend)
    (proxy : AgentProxyManager) (dna : DnaHash) where
  send_remote_signal-IsValid :
      (s : SignedRemoteSignalInput) (g : GatewayKitsune)
      → IsValid g
      → IsValid (send_remote_signal host k try_send proxy dna s g).1
  unfolding send_remote_signal
  send_remote_signal-IsValid s g v = ground (arith, get_or_create_space-IsValid k dna g v, v)

  -- From a state of the invariant: every signal of the list is counted once, as a success or as a
  -- failure, and the invariant of the gateway is kept.
  pub send_remote_signals_counts :
      (signals : List SignedRemoteSignalInput) (g : GatewayKitsune)
      → IsValid g
      → let (counts, g') = send_remote_signals host k try_send proxy dna signals g in
        (counts.0 + counts.1 ≡ length signals) × IsValid g'
  unfolding send_remote_signals
  send_remote_signals_counts [] g v = (refl, v)
  send_remote_signals_counts (s ∷ signals) g v =
      let g' = (send_remote_signal host k try_send proxy dna s g).1 in
      let rest = send_remote_signals_counts signals g' (send_remote_signal-IsValid s g v) in
      ground (arith, rest)

  to_browser :
      (s : SignedRemoteSignalInput) (g : GatewayKitsune) (agent : AgentPubKey)
      → host.agent_of_raw_39 s.target_agent ≡ ok agent
      → is_registered dna agent proxy ≡ true
      → send_remote_signal host k try_send proxy dna s g
        ≡ (deliver_to_browser host try_send proxy dna agent s, g)
  unfolding send_remote_signal
  to_browser s g agent p r = ground (arith, p, r)

  delivered_lem :
      (agent : AgentPubKey) (s : SignedRemoteSignalInput) (c : WsSender) (m : ServerMessage)
      → deliver_to_browser host try_send proxy dna agent s ≡ delivered (c, m)
      → (target dna agent proxy ≡ some c)
        × (is_queued (try_send c m) ≡ true)
        × (m
            ≡ signal
                (host.dna_text dna)
                (host.agent_text agent)
                "remote"
                "recv_remote_signal"
                (host.b64_encode s.zome_call_params))
  unfolding deliver_to_browser
  delivered_lem agent s c m h = ground arith

  not_notified_lem :
      (agent : AgentPubKey) (s : SignedRemoteSignalInput) (space : DynSpace) (url : Url)
      (bytes : List ℕ)
      → deliver_to_browser host try_send proxy dna agent s ≡ notified space url bytes
      → ⊥
  unfolding deliver_to_browser
  not_notified_lem agent s space url bytes h = ground arith

  -- A signal for an agent that is registered for the DNA goes to the agent's connection or
  -- nowhere: it leaves the gateway as it was, is never sent to a peer, and when it counts as
  -- delivered, it was queued at the connection that the agent is registered at.
  pub send_remote_signal_local :
      (s : SignedRemoteSignalInput) (g : GatewayKitsune) (agent : AgentPubKey)
      → host.agent_of_raw_39 s.target_agent ≡ ok agent
      → is_registered dna agent proxy ≡ true
      → let (sent, g') = send_remote_signal host k try_send proxy dna s g in
        (g' ≡ g)
        × ((space : DynSpace) (url : Url) (bytes : List ℕ) → sent ≡ notified space url bytes → ⊥)
        × ((c : WsSender) (m : ServerMessage)
            → sent ≡ delivered (c, m)
            → (target dna agent proxy ≡ some c)
              × (is_queued (try_send c m) ≡ true)
              × (m
                  ≡ signal
                      (host.dna_text dna)
                      (host.agent_text agent)
                      "remote"
                      "recv_remote_signal"
                      (host.b64_encode s.zome_call_params)))
  send_remote_signal_local s g agent p r =
      rw (to_browser s g agent p r)
        (refl, not_notified_lem agent s, λ c m h. delivered_lem agent s c m h)
