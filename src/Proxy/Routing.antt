-- ===== src/Proxy/Routing.antt =====
-- src/agent_proxy.rs: where a signal goes after registrations, and after a connection closes.
use h2hc_linker.Base.{
  ◌≡◌, ◌≢◌, refl, inl, inr, Bool, true, false, not, [], ◌∷◌, Option, none, some, arith,
  if◌then◌else◌, ◌==◌, nat_eq, nat_beq_iff, Option-cases, Bool-cases,
}
use h2hc_linker.Base.Maps.{
  Map, Unique, lookup, keep_if, lookup-insert, lookup-remove, lookup-retain,
}
use h2hc_linker.Ids.{AgentPubKey, DnaHash, WsSender}
use h2hc_linker.Ws.Messages.{ServerMessage}
use h2hc_linker.Proxy.{
  AgentRegistration, registration_eq, AgentProxyManager, TrySend, is_queued, register, unregister,
  unregister_all, send_signal, is_registered, first_sender, find_sender_for_agent,
}

abbrev pub key_of : DnaHash → AgentPubKey → AgentRegistration
key_of dna agent = record { dna_hash = dna; agent_pubkey = agent }

-- The connection that an agent is registered at for a DNA.
abbrev pub target : DnaHash → AgentPubKey → AgentProxyManager → Option WsSender
target dna agent m = lookup (key_of dna agent) m.registrations

-- The outcome of a signal for that connection.
abbrev pub outcome :
    (WsSender → ServerMessage → TrySend)
    → ServerMessage
    → Option WsSender
    → Bool × Option (WsSender × ServerMessage)
outcome try_send message none = (false, none)
outcome try_send message (some s) =
    if is_queued (try_send s message) then (true, some (s, message)) else (false, none)

pub send_signal-outcome :
    (try_send : WsSender → ServerMessage → TrySend) (dna : DnaHash) (agent : AgentPubKey)
    (message : ServerMessage) (m : AgentProxyManager)
    → send_signal try_send dna agent message m ≡ outcome try_send message (target dna agent m)
unfolding send_signal
send_signal-outcome try_send dna agent message m = ground arith

pub target-unregister_all :
    (sender : WsSender) (d : DnaHash) (a : AgentPubKey) (m : AgentProxyManager)
    → Unique m.registrations
    → target d a (unregister_all sender m) ≡ keep_if (λ s. not (s == sender)) (target d a m)
unfolding unregister_all
target-unregister_all sender d a m u = lookup-retain _ (key_of d a) m.registrations u

module _ (try_send : WsSender → ServerMessage → TrySend) (message : ServerMessage)
    (m : AgentProxyManager) where
  -- After `register`, a signal for the registered pair is offered to the new connection, and a
  -- signal for any other pair has the outcome that it had; after `unregister`, a signal for the
  -- pair is offered to no connection, and for any other pair it has the outcome that it had.
  pub send_signal-register :
      (dna : DnaHash) (agent : AgentPubKey) (sender : WsSender) (d : DnaHash) (a : AgentPubKey)
      → (send_signal try_send d a message (register dna agent sender m) ≡ (
          if key_of dna agent == key_of d a
          then outcome try_send message (some sender)
          else send_signal try_send d a message m))
        × (send_signal try_send d a message (unregister dna agent m) ≡ (
            if key_of dna agent == key_of d a
            then (false, none)
            else send_signal try_send d a message m))
  unfolding register unregister
  send_signal-register dna agent sender d a = (
    simp (send_signal-outcome, lookup-insert) (ground arith),
    simp (send_signal-outcome, lookup-remove) (ground arith),
  )

  -- With distinct keys: after a connection closes, no signal is handed to it any more, and a signal
  -- for a pair that is registered elsewhere has the outcome that it had.
  pub send_signal-unregister_all :
      (sender : WsSender) (d : DnaHash) (a : AgentPubKey)
      → Unique m.registrations
      → let m' = unregister_all sender m in
        ((s : WsSender) (msg : ServerMessage)
          → (send_signal try_send d a message m').1 ≡ some (s, msg)
          → s ≢ sender)
        × (target d a m ≢ some sender
            → send_signal try_send d a message m' ≡ send_signal try_send d a message m)
  send_signal-unregister_all sender d a u =
      let same = target-unregister_all sender d a m u in
      let after = send_signal-outcome try_send d a message (unregister_all sender m) in
      let before = send_signal-outcome try_send d a message m in
      elim (Option-cases (target d a m)) [
        | inl e ↦ (
          λ s msg h _. ground (arith, same, after, e),
          λ _. ground (arith, same, after, before, e),
        )
        | inr (s₀, e) ↦ (
          λ s msg h q. ground (arith, same, after, e, nat_beq_iff s₀ sender),
          λ q. ground (arith, same, after, before, e, nat_beq_iff s₀ sender),
        )
      ]

first_sender_sound :
    (agent : AgentPubKey) (m : Map AgentRegistration WsSender) (s : WsSender)
    → first_sender agent m ≡ some s
    → (d : DnaHash) × (lookup (key_of d agent) m ≡ some s)
first_sender_sound agent [] s h = absurd (cc)
first_sender_sound agent ((key, sender) ∷ m) s h = elim (Bool-cases (key.agent_pubkey == agent)) [
  | inl e ↦ (key.dna_hash, ground (arith, e, nat_beq_iff key.agent_pubkey agent, h))
  | inr e ↦
      let (d, found) = first_sender_sound agent m s (rw e at h) in (d, ground (arith, e, found))
]

first_sender_complete :
    (agent : AgentPubKey) (m : Map AgentRegistration WsSender) (d : DnaHash)
    → first_sender agent m ≡ none
    → lookup (key_of d agent) m ≡ none
first_sender_complete agent [] d h = refl
first_sender_complete agent ((key, sender) ∷ m) d h =
    ground (arith, first_sender_complete agent m d, nat_beq_iff key.agent_pubkey agent)

-- `find_sender_for_agent` finds a connection exactly if the agent is registered for some DNA, and
-- the connection that it finds is one where the agent is registered.
pub find_sender_for_agent_lem :
    (agent : AgentPubKey) (m : AgentProxyManager)
    → ((s : WsSender)
        → find_sender_for_agent agent m ≡ some s
        → (d : DnaHash) × (target d agent m ≡ some s))
      × (find_sender_for_agent agent m ≡ none → (d : DnaHash) → is_registered d agent m ≡ false)
unfolding find_sender_for_agent is_registered
find_sender_for_agent_lem agent m = (
  first_sender_sound agent m.registrations,
  λ h d. rw (first_sender_complete agent m.registrations d h) refl,
)
