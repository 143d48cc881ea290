-- ===== src/Gateway/Left.antt =====
-- src/gateway_kitsune.rs: leaving a space, and the clean-up of a space that nobody is in.
use h2hc_linker.Base.{
  ◌≡◌, ◌≢◌, refl, true, false, none, arith, if◌then◌else◌, ◌==◌, nat_eq, nat_beq_iff, pair_eq,
  pair_beq_iff, is_some, Option-cases, Bool-cases, ◌⊎◌, inl, inr,
}
use h2hc_linker.Base.Maps.{lookup, remove, lookup-remove, remove-Unique}
use h2hc_linker.Ids.{AgentPubKey, DnaHash}
use h2hc_linker.Gateway.{
  Key, GatewayKitsune, has_agents, maybe_cleanup_space, agent_leave, is_agent_joined,
}
use h2hc_linker.Gateway.Joined.{IsValid, has_agents-false}

remove_agent-IsValid :
    (d : DnaHash) (a : AgentPubKey) (g : GatewayKitsune)
    → IsValid g
    → IsValid (record g { agents = remove (d, a) g.agents })
unfolding is_agent_joined
remove_agent-IsValid d a g v = record {
  spaces_unique = v.spaces_unique;
  agents_unique = remove-Unique (d, a) g.agents v.agents_unique;
  has_space = λ e b h. ground (arith, lookup-remove (d, a) (e, b) g.agents, v.has_space e b);
}

maybe_cleanup_space-IsValid :
    (d : DnaHash) (g : GatewayKitsune) → IsValid g → IsValid (maybe_cleanup_space d g)
unfolding maybe_cleanup_space is_agent_joined
maybe_cleanup_space-IsValid d g v = elim (Bool-cases (has_agents d g.agents)) [
  | inl e ↦ rw e v
  | inr e ↦ rw e record {
    spaces_unique = remove-Unique d g.spaces v.spaces_unique;
    agents_unique = v.agents_unique;
    has_space = λ f b h. ground (
      arith,
      lookup-remove d f g.spaces,
      has_agents-false d b g.agents e,
      nat_beq_iff d f,
      v.has_space f b h,
    );
  }
]

agent_leave_cases :
    (d : DnaHash) (a : AgentPubKey) (g : GatewayKitsune)
    → let rest = record g { agents = remove (d, a) g.agents } in
      ((is_agent_joined d a g ≡ false) × (agent_leave d a g ≡ (none, rest)))
      ⊎ ((is_agent_joined d a g ≡ true)
          × (agent_leave d a g ≡ (lookup d g.spaces, maybe_cleanup_space d rest)))
unfolding agent_leave is_agent_joined
agent_leave_cases d a g = elim (Option-cases (lookup (d, a) g.agents)) [
  | inl e ↦ inl (ground (arith, e), ground (arith, e))
  | inr (b, e) ↦ inr (ground (arith, e), ground (arith, e))
]

-- Leaving keeps the invariant.
pub agent_leave-IsValid :
    (d : DnaHash) (a : AgentPubKey) (g : GatewayKitsune) → IsValid g → IsValid (agent_leave d a g).1
agent_leave-IsValid d a g v =
    let v' = remove_agent-IsValid d a g v in
    elim (agent_leave_cases d a g) [
      | inl (_, e) ↦ rw e v'
      | inr (_, e) ↦ rw e (maybe_cleanup_space-IsValid d _ v')
    ]

agents-maybe_cleanup_space :
    (d : DnaHash) (g : GatewayKitsune) → (maybe_cleanup_space d g).agents ≡ g.agents
unfolding maybe_cleanup_space
agents-maybe_cleanup_space d g = ground arith

pub agents-agent_leave :
    (d : DnaHash) (a : AgentPubKey) (g : GatewayKitsune)
    → (agent_leave d a g).1.agents ≡ remove (d, a) g.agents
agents-agent_leave d a g = elim (agent_leave_cases d a g) [
  | inl (_, e) ↦ rw e refl
  | inr (_, e) ↦ rw (e, agents-maybe_cleanup_space) refl
]

spaces-maybe_cleanup_space :
    (d e : DnaHash) (g : GatewayKitsune)
    → lookup e (maybe_cleanup_space d g).spaces ≡ (
        if d == e
        then (if has_agents d g.agents then lookup e g.spaces else none)
        else lookup e g.spaces)
unfolding maybe_cleanup_space
spaces-maybe_cleanup_space d e g = ground (arith, lookup-remove d e g.spaces)

-- From a state of the invariant: after an agent left, it is not joined, and every other agent is
-- joined exactly if it was. If it was joined, its space published the tombstone, and is kept
-- exactly if another agent is in it; all other spaces are kept. If it was not joined, no tombstone
-- is published and all spaces are kept.
pub agent_leave_lem :
    (d : DnaHash) (a : AgentPubKey) (g : GatewayKitsune)
    → IsValid g
    → let (tombstone, g') = agent_leave d a g in
      (is_agent_joined d a g' ≡ false)
      × ((d' : DnaHash) (a' : AgentPubKey)
          → ◌≢◌ {A = Key} (d, a) (d', a')
          → is_agent_joined d' a' g' ≡ is_agent_joined d' a' g)
      × (is_agent_joined d a g ≡ true
          → (is_some tombstone ≡ true)
            × (tombstone ≡ lookup d g.spaces)
            × (is_some (lookup d g'.spaces) ≡ has_agents d g'.agents))
      × (is_agent_joined d a g ≡ false → (tombstone ≡ none) × (g'.spaces ≡ g.spaces))
      × ((e : DnaHash) → d ≢ e → lookup e g'.spaces ≡ lookup e g.spaces)
unfolding is_agent_joined
agent_leave_lem d a g v =
    let rest : GatewayKitsune = record g { agents = remove (d, a) g.agents } in
    let gone = lookup-remove (d, a) (d, a) g.agents in
    (
      rw (agents-agent_leave d a g) (ground (arith, gone, nat_beq_iff d d, nat_beq_iff a a)),
      λ d' a' ne. rw (agents-agent_leave d a g) (
          ground (arith, lookup-remove (d, a) (d', a') g.agents, pair_beq_iff (d, a) (d', a'), ne)),
      λ j. elim (agent_leave_cases d a g) [
        | inl (n, e) ↦ absurd (ground (arith, j, n))
        | inr (_, e) ↦ rw e (
          v.has_space d a j,
          refl,
          ground (
            arith,
            spaces-maybe_cleanup_space d d rest,
            nat_beq_iff d d,
            agents-maybe_cleanup_space d rest,
            v.has_space d a j,
          ),
        )
      ],
      λ j. elim (agent_leave_cases d a g) [
        | inl (_, e) ↦ rw e (refl, refl)
        | inr (n, e) ↦ absurd (ground (arith, j, n))
      ],
      λ f ne. elim (agent_leave_cases d a g) [
        | inl (_, e) ↦ rw e refl
        | inr (_, e) ↦
            rw e (ground (arith, spaces-maybe_cleanup_space d f rest, nat_beq_iff d f, ne))
      ],
    )
