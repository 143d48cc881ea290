-- ===== src/Auth/Memory/Race.antt =====
-- src/auth/memory_store.rs: `create_session` drops the read lock before it takes the write lock;
-- what may happen in between.
use h2hc_linker.Base.{
  String, ◌≡◌, true, false, List, [], some, arith, Option-cases, inl, inr, ==_refl, nat_eq,
  string_eq, refl,
}
use h2hc_linker.Base.Maps.{lookup, lookup-insert, lookup-remove}
use h2hc_linker.Ids.{AgentPubKey}
use h2hc_linker.Auth.Types.{Capability, SessionInfo}
use h2hc_linker.Auth.SessionStore.{ok}
use h2hc_linker.Auth.Memory.{
  MemoryStoreInner, remove_agent, is_agent_allowed, create_session_read, create_session_write,
  validate_session,
}

written :
    (t : String) (k : AgentPubKey) (caps : List Capability) (s : MemoryStoreInner)
    → validate_session t (create_session_write t k caps s).1
      ≡ ok (some (record { agent_pubkey = k; capabilities = caps; registered_dnas = [] }))
unfolding validate_session create_session_write
written t k caps s =
    let info : SessionInfo = record {
      agent_pubkey = k;
      capabilities = caps;
      registered_dnas = [];
    } in
    rw (lookup-insert t t info s.sessions) (rw (==_refl t) refl)

removed_stays :
    (t : String) (k : AgentPubKey) (caps : List Capability) (s : MemoryStoreInner)
    → is_agent_allowed k (create_session_write t k caps (remove_agent k s).1).1 ≡ ok false
unfolding is_agent_allowed create_session_write remove_agent
removed_stays t k caps s = ground (arith, lookup-remove k k s.allowed_agents, ==_refl k)

-- When an agent is removed between the two critical sections of a `create_session` that found it
-- allowed, the session is made all the same: its token validates to the agent, with the
-- capabilities that it had, although the agent is not allowed any more.
pub create_session_race :
    (t : String) (k : AgentPubKey) (caps : List Capability) (s : MemoryStoreInner)
    → create_session_read k s ≡ some caps
    → let removed = remove_agent k s in
      let s' = (create_session_write t k caps removed.1).1 in
      (removed.0 ≡ ok true)
      × (validate_session t s'
          ≡ ok (some (record { agent_pubkey = k; capabilities = caps; registered_dnas = [] })))
      × (is_agent_allowed k s' ≡ ok false)
unfolding create_session_read remove_agent
create_session_race t k caps s h = elim (Option-cases (lookup k s.allowed_agents)) [
  | inl e ↦ absurd (ground (arith, e, h))
  | inr (a, e) ↦
      (ground (arith, e), written t k caps (remove_agent k s).1, removed_stays t k caps s)
]
