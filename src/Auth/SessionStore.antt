-- ===== src/Auth/SessionStore.antt =====
-- src/auth/session_store.rs: the trait that the backends implement, as a record of operations.
-- An operation that writes returns its result with the new state.
use h2hc_linker.Base.{ℕ, String, Bool, List, Option}
use h2hc_linker.Ids.{AgentPubKey, DnaHash}
use h2hc_linker.Auth.Types.{AllowedAgent, SessionInfo, SessionToken}
pub mod Spec
pub mod Refine

pub data SessionStoreError : Type 0 where
  database : String → SessionStoreError

pub data SessionStoreResult (A : Type 0) : Type 0 where
  ok : A → SessionStoreResult A
  err : SessionStoreError → SessionStoreResult A

-- `create_session` takes the text that `SessionToken::generate` draws.
pub record SessionStore (S : Type 0) : Type 0 where
  pub add_agent : AllowedAgent → S → SessionStoreResult (Unit {0}) × S
  pub remove_agent : AgentPubKey → S → SessionStoreResult Bool × S
  pub list_agents : S → SessionStoreResult (List AllowedAgent)
  pub is_agent_allowed : AgentPubKey → S → SessionStoreResult Bool
  pub get_agent : AgentPubKey → S → SessionStoreResult (Option AllowedAgent)
  pub create_session : String → AgentPubKey → S → SessionStoreResult (Option SessionToken) × S
  pub validate_session : String → S → SessionStoreResult (Option SessionInfo)
  pub revoke_session : String → S → SessionStoreResult Bool × S
  pub register_dna_for_agent : AgentPubKey → DnaHash → S → SessionStoreResult (Unit {0}) × S
  pub revoke_sessions_for_agent : AgentPubKey → S → SessionStoreResult ℕ × S
  pub session_count : S → SessionStoreResult ℕ
