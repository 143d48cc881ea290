-- ===== src/Auth/Memory.antt =====
-- src/auth/memory_store.rs: the backend in memory. Each operation holds one lock from start to end
-- and is one step, but `create_session`, which is the sequence of its two critical sections.
pub mod Laws
pub mod Race
use h2hc_linker.Base.{
  ℕ, ◌-◌, String, Bool, List, [], ◌∷◌, Option, none, some, if◌then◌else◌, ◌==◌, is_some, not,
  nat_eq, string_eq,
}
use h2hc_linker.Base.Lists.{length, set_insert}
use h2hc_linker.Base.Maps.{Map, lookup, has_key, insert, remove, retain, map_values}
use h2hc_linker.Ids.{AgentPubKey, DnaHash}
use h2hc_linker.Auth.Types.{Capability, AllowedAgent, SessionInfo, SessionToken}
use h2hc_linker.Auth.SessionStore.{SessionStore, SessionStoreResult, ok}

pub record MemoryStoreInner : Type 0 where
  pub allowed_agents : Map AgentPubKey AllowedAgent
  pub sessions : Map String SessionInfo

unfoldable pub new : MemoryStoreInner
new = record { allowed_agents = []; sessions = [] }

unfoldable pub add_agent :
    AllowedAgent → MemoryStoreInner → SessionStoreResult (Unit {0}) × MemoryStoreInner
add_agent agent inner =
    (ok tt, record inner { allowed_agents = insert agent.agent_pubkey agent inner.allowed_agents })

-- The sessions of other agents than `agent_pubkey`.
abbrev pub drop_sessions : AgentPubKey → Map String SessionInfo → Map String SessionInfo
drop_sessions agent_pubkey = retain λ s. not (s.agent_pubkey == agent_pubkey)

unfoldable pub remove_agent :
    AgentPubKey → MemoryStoreInner → SessionStoreResult Bool × MemoryStoreInner
remove_agent agent_pubkey inner =
    let removed = has_key agent_pubkey inner.allowed_agents in
    let rest = record inner { allowed_agents = remove agent_pubkey inner.allowed_agents } in
    (
      ok removed,
      if removed then record rest { sessions = drop_sessions agent_pubkey rest.sessions } else rest,
    )

abbrev values : Map AgentPubKey AllowedAgent → List AllowedAgent
values [] = []
values ((k, a) ∷ m) = a ∷ values m

unfoldable pub list_agents : MemoryStoreInner → SessionStoreResult (List AllowedAgent)
list_agents inner = ok (values inner.allowed_agents)

unfoldable pub is_agent_allowed : AgentPubKey → MemoryStoreInner → SessionStoreResult Bool
is_agent_allowed agent_pubkey inner = ok (has_key agent_pubkey inner.allowed_agents)

unfoldable pub get_agent : AgentPubKey → MemoryStoreInner → SessionStoreResult (Option AllowedAgent)
get_agent agent_pubkey inner = ok (lookup agent_pubkey inner.allowed_agents)

-- The first critical section of `create_session`, under the read lock.
unfoldable pub create_session_read : AgentPubKey → MemoryStoreInner → Option (List Capability)
create_session_read agent_pubkey inner = elim (lookup agent_pubkey inner.allowed_agents) [
  | none ↦ none
  | some allowed ↦ some allowed.capabilities
]

-- The second, under the write lock, with the token that was drawn in between.
unfoldable pub create_session_write :
    String
    → AgentPubKey
    → List Capability
    → MemoryStoreInner
    → SessionStoreResult (Option SessionToken) × MemoryStoreInner
create_session_write token agent_pubkey capabilities inner =
    let info : SessionInfo = record {
      agent_pubkey = agent_pubkey;
      capabilities = capabilities;
      registered_dnas = [];
    } in
    (
      ok (some (record { text = token })),
      record inner { sessions = insert token info inner.sessions },
    )

unfoldable pub create_session :
    String
    → AgentPubKey
    → MemoryStoreInner
    → SessionStoreResult (Option SessionToken) × MemoryStoreInner
unfolding create_session_read create_session_write
create_session token agent_pubkey inner = elim (create_session_read agent_pubkey inner) [
  | none ↦ (ok none, inner)
  | some capabilities ↦ create_session_write token agent_pubkey capabilities inner
]

unfoldable pub validate_session :
    String → MemoryStoreInner → SessionStoreResult (Option SessionInfo)
validate_session token inner = ok (lookup token inner.sessions)

unfoldable pub revoke_session :
    String → MemoryStoreInner → SessionStoreResult Bool × MemoryStoreInner
revoke_session token inner =
    (ok (has_key token inner.sessions), record inner { sessions = remove token inner.sessions })

-- What the loop over `values_mut` does to one session.
abbrev pub register_dna : AgentPubKey → DnaHash → SessionInfo → SessionInfo
register_dna agent_pubkey dna session =
    if session.agent_pubkey == agent_pubkey
    then record session { registered_dnas = set_insert dna session.registered_dnas }
    else session

unfoldable pub register_dna_for_agent :
    AgentPubKey → DnaHash → MemoryStoreInner → SessionStoreResult (Unit {0}) × MemoryStoreInner
register_dna_for_agent agent_pubkey dna inner =
    (ok tt, record inner { sessions = map_values (register_dna agent_pubkey dna) inner.sessions })

-- `before - len` cannot go below zero, since `retain` only removes.
unfoldable pub revoke_sessions_for_agent :
    AgentPubKey → MemoryStoreInner → SessionStoreResult ℕ × MemoryStoreInner
revoke_sessions_for_agent agent_pubkey inner =
    let kept = drop_sessions agent_pubkey inner.sessions in
    (ok (length inner.sessions - length kept), record inner { sessions = kept })

unfoldable pub session_count : MemoryStoreInner → SessionStoreResult ℕ
session_count inner = ok (length inner.sessions)

-- `impl SessionStore for MemorySessionStore`
instance abbrev pub memory_store : SessionStore MemoryStoreInner
memory_store = record {
  add_agent = add_agent;
  remove_agent = remove_agent;
  list_agents = list_agents;
  is_agent_allowed = is_agent_allowed;
  get_agent = get_agent;
  create_session = create_session;
  validate_session = validate_session;
  revoke_session = revoke_session;
  register_dna_for_agent = register_dna_for_agent;
  revoke_sessions_for_agent = revoke_sessions_for_agent;
  session_count = session_count;
}
