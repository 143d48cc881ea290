-- ===== src/Gateway/Joined.antt =====
-- src/gateway_kitsune.rs: joining and leaving keep a space for every joined agent, and change
-- nothing about any other agent.
use h2hc_linker.Base.{
  String, ◌≡◌, ◌≢◌, refl, true, false, [], ◌∷◌, none, some, arith, ◌==◌, nat_eq, nat_beq_iff,
  pair_eq, pair_beq_iff, is_some, Option-cases, Bool-cases, ◌⊎◌, inl, inr,
}
use h2hc_linker.Base.Maps.{Map, Unique, lookup, has_key, insert, lookup-insert, insert-Unique}
use h2hc_linker.Ids.{AgentPubKey, DnaHash}
use h2hc_linker.Host.{ok, err, with_error, Fallible-cases}
use h2hc_linker.Kitsune.{DynSpace, Kitsune}
use h2hc_linker.Gateway.{
  Key, GatewayKitsune, new, get_or_create_space, agent_join, has_agents, is_agent_joined,
}

-- Distinct keys, and a space for the DNA of each joined agent.
pub record IsValid (g : GatewayKitsune) : Type 0 where
  pub spaces_unique : Unique g.spaces
  pub agents_unique : Unique g.agents
  pub has_space :
      (d : DnaHash) (a : AgentPubKey)
      → is_agent_joined d a g ≡ true
      → is_some (lookup d g.spaces) ≡ true

pub new-IsValid : IsValid new
unfolding new is_agent_joined
new-IsValid = record { spaces_unique = tt; agents_unique = tt; has_space = λ d a h. cc }

-- A space that is there is answered as it is; a new one is stored, if the library opens it.
pub get_or_create_space_lem :
    (k : Kitsune) (d : DnaHash) (g : GatewayKitsune)
    → (((get_or_create_space k d g).1 ≡ g)
        × ((s : DynSpace) → (get_or_create_space k d g).0 ≡ ok s → lookup d g.spaces ≡ some s))
      ⊎ ((s : DynSpace) × (lookup d g.spaces ≡ none)
          × (get_or_create_space k d g ≡ (ok s, record g { spaces = insert d s g.spaces })))
unfolding get_or_create_space
get_or_create_space_lem k d g = elim (Option-cases (lookup d g.spaces)) [
  | inr (s, e) ↦ inl (ground (arith, e), λ s' h. ground (arith, e, h))
  | inl e ↦ elim (Fallible-cases (k.space d)) [
    | inl (s, o) ↦ inr (s, e, ground (arith, e, o))
    | inr (m, o) ↦ inl (ground (arith, e, o), λ s h. absurd (ground (arith, e, o, h)))
  ]
]

insert_space-IsValid :
    (d : DnaHash) (s : DynSpace) (g : GatewayKitsune)
    → IsValid g
    → IsValid (record g { spaces = insert d s g.spaces })
unfolding is_agent_joined
insert_space-IsValid d s g v = record {
  spaces_unique = insert-Unique d s g.spaces v.spaces_unique;
  agents_unique = v.agents_unique;
  has_space = λ e a h. ground (arith, lookup-insert d e s g.spaces, v.has_space e a h);
}

pub get_or_create_space-IsValid :
    (k : Kitsune) (d : DnaHash) (g : GatewayKitsune)
    → IsValid g
    → IsValid (get_or_create_space k d g).1
get_or_create_space-IsValid k d g v = elim (get_or_create_space_lem k d g) [
  | inl (same, _) ↦ rw same v
  | inr (s, _, made) ↦ rw made (insert_space-IsValid d s g v)
]

pub has_agents-false :
    (d : DnaHash) (a : AgentPubKey) (m : Map Key AgentPubKey)
    → has_agents d m ≡ false
    → lookup (d, a) m ≡ none
has_agents-false d a [] h = refl
has_agents-false d a ((key, b) ∷ m) h = ground (arith, has_agents-false d a m)

pub has_agents-true :
    (d : DnaHash) (m : Map Key AgentPubKey)
    → has_agents d m ≡ true
    → (a : AgentPubKey) × (is_some (lookup (d, a) m) ≡ true)
has_agents-true d [] h = absurd (cc)
has_agents-true d ((key, b) ∷ m) h = elim (Bool-cases (key.0 == d)) [
  | inl e ↦ (key.1, ground (arith, e))
  | inr e ↦ let (a, found) = has_agents-true d m (rw e at h) in (a, ground (arith, e, found))
]

insert_agent-IsValid :
    (d : DnaHash) (a : AgentPubKey) (g : GatewayKitsune)
    → is_some (lookup d g.spaces) ≡ true
    → IsValid g
    → IsValid (record g { agents = insert (d, a) a g.agents })
unfolding is_agent_joined
insert_agent-IsValid d a g there v = record {
  spaces_unique = v.spaces_unique;
  agents_unique = insert-Unique (d, a) a g.agents v.agents_unique;
  has_space = λ e b h.
      ground (arith, lookup-insert (d, a) (e, b) a g.agents, v.has_space e b, nat_beq_iff d e);
}

-- How a join ends: it was joined, or the space is there and the agent is stored, or it failed and
-- only a space may be new.
agent_join_cases :
    (k : Kitsune) (d : DnaHash) (a : AgentPubKey) (g : GatewayKitsune)
    → let g₁ = (get_or_create_space k d g).1 in
      ((is_agent_joined d a g ≡ true) × (agent_join k d a g ≡ (ok tt, g)))
      ⊎ ((is_some (lookup d g₁.spaces) ≡ true)
          × (agent_join k d a g ≡ (ok tt, record g₁ { agents = insert (d, a) a g₁.agents })))
      ⊎ ((e : String) × (agent_join k d a g ≡ (err e, g₁)))
unfolding agent_join is_agent_joined get_or_create_space
agent_join_cases k d a g = elim (Bool-cases (has_key (d, a) g.agents)) [
  | inl e ↦ inl (e, ground (arith, e))
  | inr e ↦ elim (Option-cases (lookup d g.spaces)) [
    | inr (s, o) ↦ elim (Fallible-cases (k.local_agent_join s a)) [
      | inl (u, j) ↦ inr (inl (ground (arith, e, o, j), ground (arith, e, o, j)))
      | inr (m, j) ↦
          inr (inr (with_error "Failed to join agent to space: " m, ground (arith, e, o, j)))
    ]
    | inl o ↦ elim (Fallible-cases (k.space d)) [
      | inr (m, c) ↦ inr (inr (with_error "Failed to create space: " m, ground (arith, e, o, c)))
      | inl (s, c) ↦ elim (Fallible-cases (k.local_agent_join s a)) [
        | inl (u, j) ↦
            let there = lookup-insert d d s g.spaces in
            let same = nat_beq_iff d d in
            inr (inl (ground (arith, e, o, c, j, there, same), ground (arith, e, o, c, j)))
        | inr (m, j) ↦
            inr (inr (with_error "Failed to join agent to space: " m, ground (arith, e, o, c, j)))
      ]
    ]
  ]
]

-- A join, successful or not, keeps the invariant.
pub agent_join-IsValid :
    (k : Kitsune) (d : DnaHash) (a : AgentPubKey) (g : GatewayKitsune)
    → IsValid g
    → IsValid (agent_join k d a g).1
agent_join-IsValid k d a g v =
    let v₁ = get_or_create_space-IsValid k d g v in
    elim (agent_join_cases k d a g) [
      | inl (_, e) ↦ rw e v
      | inr (inl (there, e)) ↦ rw e (insert_agent-IsValid d a _ there v₁)
      | inr (inr (m, e)) ↦ rw e v₁
    ]

agents-get_or_create_space :
    (k : Kitsune) (d : DnaHash) (g : GatewayKitsune)
    → (get_or_create_space k d g).1.agents ≡ g.agents
agents-get_or_create_space k d g = elim (get_or_create_space_lem k d g) [
  | inl (same, _) ↦ rw same refl
  | inr (s, _, made) ↦ rw made refl
]

-- After a join that answers Ok the agent is joined; after one that fails no agent is joined that was
-- not; in both cases every other agent of every space is joined exactly if it was.
pub agent_join_lem :
    (k : Kitsune) (d : DnaHash) (a : AgentPubKey) (g : GatewayKitsune)
    → let (r, g') = agent_join k d a g in
      (r ≡ ok tt → is_agent_joined d a g' ≡ true)
      × ((e : String) → r ≡ err e → g'.agents ≡ g.agents)
      × ((d' : DnaHash) (a' : AgentPubKey)
          → ◌≢◌ {A = Key} (d, a) (d', a')
          → is_agent_joined d' a' g' ≡ is_agent_joined d' a' g)
unfolding is_agent_joined
agent_join_lem k d a g =
    let same = agents-get_or_create_space k d g in
    elim (agent_join_cases k d a g) [
      | inl (there, e) ↦ rw e (λ _. there, λ m p. refl, λ d' a' ne. refl)
      | inr (inl (_, e)) ↦
          rw (e, same)
            (
              λ _.
                  ground (
                    arith,
                    lookup-insert (d, a) (d, a) a g.agents,
                    nat_beq_iff a a,
                    nat_beq_iff d d,
                  ),
              λ m p. absurd (cc),
              λ d' a' ne. ground (
                arith,
                lookup-insert (d, a) (d', a') a g.agents,
                pair_beq_iff (d, a) (d', a'),
                ne,
              ),
            )
      | inr (inr (m, e)) ↦ rw (e, same) (λ p. absurd (cc), λ m' p. refl, λ d' a' ne. refl)
    ]
