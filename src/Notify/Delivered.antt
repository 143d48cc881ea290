-- ===== src/Notify/Delivered.antt =====
-- src/gateway_kitsune.rs, `ProxySpaceHandler`: which browsers get the remote signals of a
-- notification.
use h2hc_linker.Base.{
  ℕ, ◌≡◌, refl, sym, ap, ◌∙◌, subst, ◌⊎◌, inl, inr, ◌≢◌, Bool, true, false, List, [], ◌∷◌, Option,
  none, some, arith, Option-cases,
}
use h2hc_linker.Base.Maps.{lookup}
use h2hc_linker.Ids.{AgentPubKey, WsSender}
use h2hc_linker.Host.{Host, ok, Fallible-cases}
use h2hc_linker.Ws.Messages.{ServerMessage}
use h2hc_linker.Proxy.{
  AgentProxyManager, AgentRegistration, TrySend, queued, send_signal, registration_eq,
}
use h2hc_linker.Query.{PendingDhtResponses, route_response}
use h2hc_linker.Notify.{
  WireMessage, remote_signal_evt, get_res, get_links_res, count_links_res, get_agent_activity_res,
  must_get_agent_activity_res, error_res, other_message, Wire, ProxySpaceHandler, server_msg,
  handle_wire_message, handle_all, recv_notify, push_some, run_tasks,
}

abbrev pub Among : {A : Type 0} → A → List A → Type 0
Among a [] = ⊥
Among a (b ∷ bs) = (b ≡ a) ⊎ Among a bs

abbrev is_signal : WireMessage → Bool
is_signal (remote_signal_evt k params) = true
is_signal _ = false

true≢false : true ≢ false
true≢false e = ground (arith, e)

module _ (host : Host) (wire : Wire) (try_send : WsSender → ServerMessage → TrySend)
    (m : AgentProxyManager) where
  -- The connection `c` is the agent's in the space, and has room for the message of the signal.
  abbrev pub Reaches : ProxySpaceHandler → WsSender → ServerMessage → AgentPubKey → List ℕ → Type 0
  Reaches self c sm to_agent params =
      let dna_hash = wire.from_k2_space self.space_id in
      (lookup (record { dna_hash = dna_hash; agent_pubkey = to_agent }) m.registrations ≡ some c)
      × (sm ≡ server_msg host wire dna_hash to_agent params)
      × (try_send c sm ≡ queued)

  abbrev pub Evented : ProxySpaceHandler → WsSender → ServerMessage → List WireMessage → Type 0
  Evented self c sm messages =
      (to_agent : AgentPubKey) × ((params : List ℕ) × Among (remote_signal_evt to_agent params)
          messages
        × Reaches self c sm to_agent params)

  later :
      (self : ProxySpaceHandler) (c : WsSender) (sm : ServerMessage) (msg : WireMessage)
      (messages : List WireMessage)
      → Evented self c sm messages
      → Evented self c sm (msg ∷ messages)
  later self c sm msg messages (k, (params, among, reaches)) = (k, (params, inr among, reaches))

  abbrev routed_pending : WireMessage → PendingDhtResponses → PendingDhtResponses
  routed_pending msg p = (route_response (wire.get_msg_id msg) p).1

  send_signal-queued :
      (dna k : ℕ) (sm sm' : ServerMessage) (c : WsSender)
      → (send_signal try_send dna k sm m).1 ≡ some (c, sm')
      → (lookup (record { dna_hash = dna; agent_pubkey = k }) m.registrations ≡ some c)
        × (sm' ≡ sm)
        × (try_send c sm' ≡ queued)
  unfolding send_signal
  send_signal-queued dna k sm sm' c h =
      let key : AgentRegistration = record { dna_hash = dna; agent_pubkey = k } in
      ground (arith, h, lookup key m.registrations)

  handle_all-signals :
      (self : ProxySpaceHandler) (messages : List WireMessage) (p : PendingDhtResponses)
      (c : WsSender) (sm : ServerMessage)
      → Among (c, sm) (run_tasks wire try_send m (handle_all host wire self messages) p).signals
      → Evented self c sm messages
  unfolding run_tasks handle_wire_message
  handle_all-signals self [] p c sm h = absurd h
  handle_all-signals self (remote_signal_evt k params ∷ messages) p c sm h =
      let dna = wire.from_k2_space self.space_id in
      let msg = server_msg host wire dna k params in
      let sent = (send_signal try_send dna k msg m).1 in
      elim (Option-cases sent) [
        | inl e ↦
            later self c sm (remote_signal_evt k params) messages
              (handle_all-signals self messages p c sm (ground (arith, h, e)))
        | inr ((c', sm'), e) ↦
            let rest = (run_tasks wire try_send m (handle_all host wire self messages) p).signals in
            elim (subst (λ o. Among (c, sm) (push_some o rest)) e h) [
              | inl same ↦
                  (k, (params, inl refl, send_signal-queued dna k msg sm c (e ∙ ap some same)))
              | inr among ↦
                  later self c sm (remote_signal_evt k params) messages
                    (handle_all-signals self messages p c sm among)
            ]
      ]
  handle_all-signals self (get_res id r ∷ messages) p c sm h =
      later self c sm (get_res id r) messages
        (handle_all-signals self messages (routed_pending (get_res id r) p) c sm h)
  handle_all-signals self (get_links_res id r ∷ messages) p c sm h =
      later self c sm (get_links_res id r) messages
        (handle_all-signals self messages (routed_pending (get_links_res id r) p) c sm h)
  handle_all-signals self (count_links_res id r ∷ messages) p c sm h =
      later self c sm (count_links_res id r) messages
        (handle_all-signals self messages (routed_pending (count_links_res id r) p) c sm h)
  handle_all-signals self (get_agent_activity_res id r ∷ messages) p c sm h =
      later self c sm (get_agent_activity_res id r) messages
        (handle_all-signals self messages (routed_pending (get_agent_activity_res id r) p) c sm h)
  handle_all-signals self (must_get_agent_activity_res id r ∷ messages) p c sm h =
      later self c sm (must_get_agent_activity_res id r) messages (
        handle_all-signals self messages (routed_pending (must_get_agent_activity_res id r) p) c sm
          h)
  handle_all-signals self (error_res id e ∷ messages) p c sm h =
      later self c sm (error_res id e) messages
        (handle_all-signals self messages (routed_pending (error_res id e) p) c sm h)
  handle_all-signals self (other_message r ∷ messages) p c sm h =
      later self c sm (other_message r) messages (handle_all-signals self messages p c sm h)

  Among-push_some :
      {A : Type 0} (a : A) (o : Option A) (rest : List A)
      → Among a rest
      → Among a (push_some o rest)
  Among-push_some a none rest h = h
  Among-push_some a (some b) rest h = inr h

  send_signal_reaches :
      (dna k : ℕ) (sm : ServerMessage) (c : WsSender)
      → lookup (record { dna_hash = dna; agent_pubkey = k }) m.registrations ≡ some c
      → try_send c sm ≡ queued
      → (send_signal try_send dna k sm m).1 ≡ some (c, sm)
  unfolding send_signal
  send_signal_reaches dna k sm c e q = ground (arith, e, q)

  earlier :
      (self : ProxySpaceHandler) (c : WsSender) (sm : ServerMessage) (msg : WireMessage)
      (messages : List WireMessage)
      → is_signal msg ≡ false
      → Evented self c sm (msg ∷ messages)
      → Evented self c sm messages
  earlier self c sm msg messages n (k, (params, inl e, reaches)) =
      absurd (true≢false (sym (ap is_signal e) ∙ n))
  earlier self c sm msg messages n (k, (params, inr among, reaches)) = (k, (params, among, reaches))

  handle_all-reaches :
      (self : ProxySpaceHandler) (messages : List WireMessage) (p : PendingDhtResponses)
      (c : WsSender) (sm : ServerMessage)
      → Evented self c sm messages
      → Among (c, sm) (run_tasks wire try_send m (handle_all host wire self messages) p).signals
  unfolding run_tasks handle_wire_message
  handle_all-reaches self [] p c sm (k, (params, h, _)) = absurd h
  handle_all-reaches self (remote_signal_evt k params ∷ messages) p c sm
        (j, (params', inr among, reaches)) =
      let dna = wire.from_k2_space self.space_id in
      Among-push_some (c, sm) (send_signal try_send dna k (server_msg host wire dna k params) m).1
        (run_tasks wire try_send m (handle_all host wire self messages) p).signals
        (handle_all-reaches self messages p c sm (j, (params', among, reaches)))
  handle_all-reaches self (remote_signal_evt k params ∷ messages) p c sm
        (j, (params', inl e, reaches)) =
      let dna = wire.from_k2_space self.space_id in
      let msg = server_msg host wire dna k params in
      let rest = (run_tasks wire try_send m (handle_all host wire self messages) p).signals in
      let (found, is_msg, room) = reaches in
      let same_k : k ≡ j = ground (arith, e) in
      let same_params : params ≡ params' = ground (arith, e) in
      let same_msg : msg ≡ sm = ground (arith, same_k, same_params, is_msg) in
      let found_k : lookup (record { dna_hash = dna; agent_pubkey = k }) m.registrations ≡ some c =
        ground (arith, found, same_k) in
      let sent : (send_signal try_send dna k msg m).1 ≡ some (c, sm) =
        send_signal_reaches dna k msg c found_k (ground (arith, room, same_msg))
        ∙ ap (λ x. some (c, x)) same_msg in
      subst (λ o. Among (c, sm) (push_some o rest)) (sym sent) (inl refl)
  handle_all-reaches self (get_res id r ∷ messages) p c sm v =
      handle_all-reaches self messages (routed_pending (get_res id r) p) c sm
        (earlier self c sm (get_res id r) messages refl v)
  handle_all-reaches self (get_links_res id r ∷ messages) p c sm v =
      handle_all-reaches self messages (routed_pending (get_links_res id r) p) c sm
        (earlier self c sm (get_links_res id r) messages refl v)
  handle_all-reaches self (count_links_res id r ∷ messages) p c sm v =
      handle_all-reaches self messages (routed_pending (count_links_res id r) p) c sm
        (earlier self c sm (count_links_res id r) messages refl v)
  handle_all-reaches self (get_agent_activity_res id r ∷ messages) p c sm v =
      handle_all-reaches self messages (routed_pending (get_agent_activity_res id r) p) c sm
        (earlier self c sm (get_agent_activity_res id r) messages refl v)
  handle_all-reaches self (must_get_agent_activity_res id r ∷ messages) p c sm v =
      handle_all-reaches self messages (routed_pending (must_get_agent_activity_res id r) p) c sm
        (earlier self c sm (must_get_agent_activity_res id r) messages refl v)
  handle_all-reaches self (error_res id e ∷ messages) p c sm v =
      handle_all-reaches self messages (routed_pending (error_res id e) p) c sm
        (earlier self c sm (error_res id e) messages refl v)
  handle_all-reaches self (other_message r ∷ messages) p c sm v =
      handle_all-reaches self messages p c sm (earlier self c sm (other_message r) messages refl v)

  -- After a notification a connection gets a message exactly if it is that of a remote signal of the
  -- notification to an agent that the connection has registered in this space, and there is room;
  -- a notification that cannot be decoded reaches nobody.
  pub recv_notify_lem :
      (self : ProxySpaceHandler) (bytes : List ℕ) (p : PendingDhtResponses) (c : WsSender)
      (sm : ServerMessage)
      → let signals = (run_tasks wire try_send m (recv_notify host wire self bytes) p).signals in
        (Among (c, sm) signals
          → (messages : List WireMessage) × (wire.decode_batch bytes ≡ ok messages)
            × Evented self c sm messages)
        × ((messages : List WireMessage)
            → wire.decode_batch bytes ≡ ok messages
            → Evented self c sm messages
            → Among (c, sm) signals)
  unfolding recv_notify run_tasks
  recv_notify_lem self bytes p c sm = elim (Fallible-cases (wire.decode_batch bytes)) [
    | inr (x, e) ↦ rw (e, recv_notify) (λ h. absurd h, λ messages f v. absurd (ground (arith, f)))
    | inl (messages, e) ↦
        rw (e, recv_notify)
          (
            λ h. (messages, refl, handle_all-signals self messages p c sm h),
            λ messages' f v.
                handle_all-reaches self messages p c sm
                  (subst (λ x. Evented self c sm x) (ground (arith, f)) v),
          )
  ]
