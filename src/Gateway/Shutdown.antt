-- ===== src/Gateway/Shutdown.antt =====
-- src/gateway_kitsune.rs: `shutdown`.
use h2hc_linker.Base.{
  ◌≡◌, refl, true, false, List, [], ◌∷◌, none, arith, nat_eq, pair_eq, pair_beq_iff, ◌⊎◌, inl,
}
use h2hc_linker.Base.Lists.{contains}
use h2hc_linker.Base.Maps.{Map, lookup, lookup-remove}
use h2hc_linker.Ids.{AgentPubKey, DnaHash}
use h2hc_linker.Gateway.{Key, GatewayKitsune, is_agent_joined, keys, leave_all, shutdown}
use h2hc_linker.Gateway.Joined.{IsValid}
use h2hc_linker.Gateway.Left.{agents-agent_leave, agent_leave-IsValid}

leave_all-IsValid : (ks : List Key) (g : GatewayKitsune) → IsValid g → IsValid (leave_all ks g)
leave_all-IsValid [] g v = v
leave_all-IsValid (key ∷ ks) g v = leave_all-IsValid ks _ (agent_leave-IsValid key.0 key.1 g v)

-- An agent that is in the list, or was not joined, is not joined after the list has left.
leave_all_gone :
    (ks : List Key) (key : Key) (g : GatewayKitsune)
    → (contains ks key ≡ true) ⊎ (lookup key g.agents ≡ none)
    → lookup key (leave_all ks g).agents ≡ none
leave_all_gone [] key g h = ground arith
leave_all_gone (k ∷ ks) key g h = leave_all_gone ks key _ (
    rw (agents-agent_leave k.0 k.1 g)
      (ground (arith, lookup-remove k key g.agents, pair_beq_iff k key)))

contains-keys :
    (key : Key) (m : Map Key AgentPubKey) → lookup key m ≡ none ⊎ (contains (keys m) key ≡ true)
contains-keys key [] = inl refl
contains-keys key ((k, a) ∷ m) = ground (arith, contains-keys key m)

shutdown-none : (key : Key) (g : GatewayKitsune) → lookup key (shutdown g).agents ≡ none
unfolding shutdown
shutdown-none key g =
    leave_all_gone (keys g.agents) key g (ground (arith, contains-keys key g.agents))

-- From a state of the invariant: after `shutdown` no agent is joined to any space, and the
-- invariant holds.
pub shutdown_lem :
    (g : GatewayKitsune)
    → IsValid g
    → ((d : DnaHash) (a : AgentPubKey) → is_agent_joined d a (shutdown g) ≡ false)
      × IsValid (shutdown g)
unfolding is_agent_joined shutdown
shutdown_lem g v = (λ d a. rw (shutdown-none (d, a) g) refl, leave_all-IsValid (keys g.agents) g v)
