-- ===== src/Auth/Memory/Laws.antt =====
-- src/auth/memory_store.rs: the backend in memory refines the abstract store.
use h2hc_linker.Base.{
  String, ◌≡◌, refl, true, none, some, arith, is_some, nat_eq, string_eq, Option-cases, inl, inr,
}
use h2hc_linker.Base.Maps.{
  Unique, lookup, lookup-insert, lookup-remove, lookup-retain, lookup-map_values, insert-Unique,
  remove-Unique, retain-Unique, map_values-Unique,
}
use h2hc_linker.Ids.{AgentPubKey, DnaHash}
use h2hc_linker.Auth.Types.{AllowedAgent, SessionInfo}
use h2hc_linker.Auth.SessionStore.Spec.{
  Abstract, is_foreign, without_agent, grant_dna, new_session, spec_add_agent, spec_remove_agent,
  spec_create_session, spec_revoke_session, spec_register_dna, spec_revoke_sessions,
}
use h2hc_linker.Auth.SessionStore.Refine.{Writes, Reads, Refines, forget}
use h2hc_linker.Auth.Memory.{
  MemoryStoreInner, new, add_agent, remove_agent, create_session, create_session_read,
  create_session_write, revoke_session, register_dna_for_agent, revoke_sessions_for_agent,
  is_agent_allowed, get_agent, validate_session, memory_store,
}

abbrev pub view : MemoryStoreInner → Abstract
view s = record { agent = λ k. lookup k s.allowed_agents; session = λ t. lookup t s.sessions }

-- Distinct keys, agents under their own keys, and no session of an agent that is not allowed.
pub record IsValid (s : MemoryStoreInner) : Type 0 where
  pub agents_unique : Unique s.allowed_agents
  pub sessions_unique : Unique s.sessions
  pub sessions_allowed :
      (t : String) (i : SessionInfo)
      → lookup t s.sessions ≡ some i
      → is_some (lookup i.agent_pubkey s.allowed_agents) ≡ true

pub new-IsValid : IsValid new
unfolding new
new-IsValid = record { agents_unique = tt; sessions_unique = tt; sessions_allowed = λ t i h. cc }

add_agent-IsValid :
    (a : AllowedAgent) (s : MemoryStoreInner) → IsValid s → IsValid (add_agent a s).1
unfolding add_agent
add_agent-IsValid a s v = record {
  agents_unique = insert-Unique a.agent_pubkey a s.allowed_agents v.agents_unique;
  sessions_unique = v.sessions_unique;
  sessions_allowed = λ t i h. ground (
    arith,
    lookup-insert a.agent_pubkey i.agent_pubkey a s.allowed_agents,
    v.sessions_allowed t i h,
  );
}

add_agent-Writes :
    (a : AllowedAgent) (s : MemoryStoreInner)
    → IsValid s
    → Writes IsValid view s (spec_add_agent a (view s)) (add_agent a s)
unfolding add_agent
add_agent-Writes a s v = (
  add_agent-IsValid a s v,
  refl,
  λ j. record {
    agent = λ k. lookup-insert a.agent_pubkey k a s.allowed_agents j;
    session = λ t. lookup t s.sessions;
  },
)

-- Dropping the sessions of an agent that has none changes nothing.
without_agent-absent :
    (k : AgentPubKey) (s : MemoryStoreInner) (t : String)
    → IsValid s
    → lookup k s.allowed_agents ≡ none
    → lookup t s.sessions ≡ without_agent k (λ u. lookup u s.sessions) t
without_agent-absent k s t v gone = elim (Option-cases (lookup t s.sessions)) [
  | inl e ↦ rw e
  | inr (i, e) ↦ ground (arith, e, v.sessions_allowed t i e)
]

remove_agent-IsValid :
    (k : AgentPubKey) (s : MemoryStoreInner) → IsValid s → IsValid (remove_agent k s).1
unfolding remove_agent
remove_agent-IsValid k s v = elim (Option-cases (lookup k s.allowed_agents)) [
  | inl e ↦ rw e record {
    agents_unique = remove-Unique k s.allowed_agents v.agents_unique;
    sessions_unique = v.sessions_unique;
    sessions_allowed = λ t i h. ground (
      arith,
      lookup-remove k i.agent_pubkey s.allowed_agents,
      without_agent-absent k s t v e,
      v.sessions_allowed t i h,
    );
  }
  | inr (a, e) ↦ rw e record {
    agents_unique = remove-Unique k s.allowed_agents v.agents_unique;
    sessions_unique = retain-Unique (is_foreign k) s.sessions v.sessions_unique;
    sessions_allowed = λ t i h. ground (
      arith,
      lookup-remove k i.agent_pubkey s.allowed_agents,
      lookup-retain (is_foreign k) t s.sessions v.sessions_unique,
      v.sessions_allowed t i,
    );
  }
]

remove_agent-Writes :
    (k : AgentPubKey) (s : MemoryStoreInner)
    → IsValid s
    → Writes IsValid view s (spec_remove_agent k (view s)) (remove_agent k s)
unfolding remove_agent
remove_agent-Writes k s v = elim (Option-cases (lookup k s.allowed_agents)) [
  | inl e ↦ (
    remove_agent-IsValid k s v,
    refl,
    rw e λ j. record {
      agent = λ a. lookup-remove k a s.allowed_agents j;
      session = λ t. without_agent-absent k s t v e j;
    },
  )
  | inr (a, e) ↦ (
    remove_agent-IsValid k s v,
    refl,
    rw e λ j. record {
      agent = λ b. lookup-remove k b s.allowed_agents j;
      session = λ t. lookup-retain (is_foreign k) t s.sessions v.sessions_unique j;
    },
  )
]

create_session-Writes :
    (t : String) (k : AgentPubKey) (s : MemoryStoreInner)
    → IsValid s
    → Writes IsValid view s (spec_create_session t k (view s)) (create_session t k s)
unfolding create_session create_session_read create_session_write
create_session-Writes t k s v = elim (Option-cases (lookup k s.allowed_agents)) [
  | inl e ↦ rw (e, create_session) (v, refl, refl)
  | inr (a, e) ↦
      rw (e, create_session)
        (
          record {
            agents_unique = v.agents_unique;
            sessions_unique = insert-Unique t (new_session a k) s.sessions v.sessions_unique;
            sessions_allowed = λ u i h.
                ground (
                  arith,
                  e,
                  lookup-insert t u (new_session a k) s.sessions,
                  v.sessions_allowed u i,
                );
          },
          refl,
          λ j. record {
            agent = λ b. lookup b s.allowed_agents;
            session = λ u. lookup-insert t u (new_session a k) s.sessions j;
          },
        )
]

is_agent_allowed-Reads :
    (k : AgentPubKey) (s : MemoryStoreInner)
    → IsValid s
    → Reads (is_some (lookup k s.allowed_agents)) (is_agent_allowed k s)
unfolding is_agent_allowed
is_agent_allowed-Reads k s v = refl

get_agent-Reads :
    (k : AgentPubKey) (s : MemoryStoreInner)
    → IsValid s
    → Reads (lookup k s.allowed_agents) (get_agent k s)
unfolding get_agent
get_agent-Reads k s v = refl

validate_session-Reads :
    (t : String) (s : MemoryStoreInner)
    → IsValid s
    → Reads (lookup t s.sessions) (validate_session t s)
unfolding validate_session
validate_session-Reads t s v = refl

revoke_session-Writes :
    (t : String) (s : MemoryStoreInner)
    → IsValid s
    → Writes IsValid view s (spec_revoke_session t (view s)) (revoke_session t s)
unfolding revoke_session
revoke_session-Writes t s v = (
  record {
    agents_unique = v.agents_unique;
    sessions_unique = remove-Unique t s.sessions v.sessions_unique;
    sessions_allowed =
        λ u i h. ground (arith, lookup-remove t u s.sessions, v.sessions_allowed u i);
  },
  refl,
  λ j. record {
    agent = λ b. lookup b s.allowed_agents;
    session = λ u. lookup-remove t u s.sessions j;
  },
)

agent_pubkey-grant_dna :
    (k : AgentPubKey) (dna : DnaHash) (i : SessionInfo)
    → (grant_dna k dna i).agent_pubkey ≡ i.agent_pubkey
agent_pubkey-grant_dna k dna i = ground arith

register_dna-Writes :
    (k : AgentPubKey) (dna : DnaHash) (s : MemoryStoreInner)
    → IsValid s
    → Writes IsValid view s (spec_register_dna k dna (view s)) (register_dna_for_agent k dna s)
unfolding register_dna_for_agent
register_dna-Writes k dna s v = (
  record {
    agents_unique = v.agents_unique;
    sessions_unique = map_values-Unique (grant_dna k dna) s.sessions v.sessions_unique;
    sessions_allowed = λ u i h. elim (Option-cases (lookup u s.sessions)) [
      | inl e ↦ absurd (ground (arith, e, lookup-map_values (grant_dna k dna) u s.sessions, h))
      | inr (i₀, e) ↦ ground (
        arith,
        e,
        h,
        lookup-map_values (grant_dna k dna) u s.sessions,
        agent_pubkey-grant_dna k dna i₀,
        v.sessions_allowed u i₀ e,
      )
    ];
  },
  refl,
  λ j. record {
    agent = λ b. lookup b s.allowed_agents;
    session = λ u. lookup-map_values (grant_dna k dna) u s.sessions j;
  },
)

revoke_sessions-Writes :
    (k : AgentPubKey) (s : MemoryStoreInner)
    → IsValid s
    → Writes IsValid view s
        (tt, spec_revoke_sessions k (view s))
        (forget (revoke_sessions_for_agent k s))
unfolding revoke_sessions_for_agent
revoke_sessions-Writes k s v = (
  record {
    agents_unique = v.agents_unique;
    sessions_unique = retain-Unique (is_foreign k) s.sessions v.sessions_unique;
    sessions_allowed = λ u i h. ground (
      arith,
      lookup-retain (is_foreign k) u s.sessions v.sessions_unique,
      v.sessions_allowed u i,
    );
  },
  refl,
  λ j. record {
    agent = λ b. lookup b s.allowed_agents;
    session = λ u. lookup-retain (is_foreign k) u s.sessions v.sessions_unique j;
  },
)

pub memory_store-Refines : Refines memory_store IsValid view
memory_store-Refines = record {
  add_agent_lem = add_agent-Writes;
  remove_agent_lem = remove_agent-Writes;
  is_agent_allowed_lem = is_agent_allowed-Reads;
  get_agent_lem = get_agent-Reads;
  create_session_lem = create_session-Writes;
  validate_session_lem = validate_session-Reads;
  revoke_session_lem = revoke_session-Writes;
  register_dna_lem = register_dna-Writes;
  revoke_sessions_lem = revoke_sessions-Writes;
}
