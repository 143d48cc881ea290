-- ===== src/Auth/Store.antt =====
-- src/auth/store.rs: the shared authentication store, a session store behind the trait and the
-- senders of the open WebSocket connections. An error of the backend is logged and answered by the
-- default, as `unwrap_or_else` does.
pub mod Revocation
pub mod Reach
use h2hc_linker.Base.{
  ℕ, String, Bool, true, false, not, List, [], ◌∷◌, ◌++◌, Option, none, some, if◌then◌else◌, ◌==◌,
  nat_eq,
}
use h2hc_linker.Base.Lists.{length, filter}
use h2hc_linker.Base.Maps.{Map, lookup, insert, remove}
use h2hc_linker.Ids.{AgentPubKey, DnaHash, WsSender}
use h2hc_linker.Auth.Types.{AllowedAgent, SessionInfo, SessionToken}
use h2hc_linker.Auth.SessionStore.{SessionStore, SessionStoreResult, ok, err}

pub record AuthStore (S : Type 0) : Type 0 where
  pub store : S
  pub ws_senders : Map AgentPubKey (List WsSender)

-- `unwrap_or_else` with a default.
abbrev pub unwrap_or : {A : Type 0} → A → SessionStoreResult A → A
unwrap_or d (ok a) = a
unwrap_or d (err e) = d

unfoldable pub with_store : {S : Type 0} → S → AuthStore S
with_store store = record { store = store; ws_senders = [] }

-- The senders of an agent; a missing entry is an empty one (`or_default`).
abbrev pub senders_or_empty : Option (List WsSender) → List WsSender
senders_or_empty none = []
senders_or_empty (some senders) = senders

module _ {S : Type 0} ⦃st : SessionStore S⦄ where
  unfoldable pub add_agent : AllowedAgent → AuthStore S → AuthStore S
  add_agent agent s = record s { store = (st.add_agent agent s.store).1 }

  -- The `match` of `remove_agent` on the backend's answer.
  abbrev pub removed_agent :
      AgentPubKey → AuthStore S → SessionStoreResult Bool → Bool × AuthStore S
  removed_agent k s (ok true) = (true, record s { ws_senders = remove k s.ws_senders })
  removed_agent k s (ok false) = (false, s)
  removed_agent k s (err e) = (false, s)

  unfoldable pub remove_agent : AgentPubKey → AuthStore S → Bool × AuthStore S
  remove_agent k s =
      let answer = st.remove_agent k s.store in
      removed_agent k (record s { store = answer.1 }) answer.0

  unfoldable pub list_agents : AuthStore S → List AllowedAgent
  list_agents s = unwrap_or [] (st.list_agents s.store)

  unfoldable pub is_agent_allowed : AgentPubKey → AuthStore S → Bool
  is_agent_allowed k s = unwrap_or false (st.is_agent_allowed k s.store)

  unfoldable pub get_agent : AgentPubKey → AuthStore S → Option AllowedAgent
  get_agent k s = unwrap_or none (st.get_agent k s.store)

  unfoldable pub create_session :
      String → AgentPubKey → AuthStore S → Option SessionToken × AuthStore S
  create_session drawn k s =
      let answer = st.create_session drawn k s.store in
      (unwrap_or none answer.0, record s { store = answer.1 })

  unfoldable pub validate_session : String → AuthStore S → Option SessionInfo
  validate_session token s = unwrap_or none (st.validate_session token s.store)

  unfoldable pub revoke_session : String → AuthStore S → Bool × AuthStore S
  revoke_session token s =
      let answer = st.revoke_session token s.store in
      (unwrap_or false answer.0, record s { store = answer.1 })

  unfoldable pub register_dna_for_agent : AgentPubKey → DnaHash → AuthStore S → AuthStore S
  register_dna_for_agent k dna s = record s { store = (st.register_dna_for_agent k dna s.store).1 }

  unfoldable pub revoke_sessions_for_agent : AgentPubKey → AuthStore S → ℕ × AuthStore S
  revoke_sessions_for_agent k s =
      let answer = st.revoke_sessions_for_agent k s.store in
      (unwrap_or 0 answer.0, record s { store = answer.1 })

  unfoldable pub session_count : AuthStore S → ℕ
  session_count s = unwrap_or 0 (st.session_count s.store)

abbrev pub is_empty : List WsSender → Bool
is_empty [] = true
is_empty (x ∷ xs) = false

-- The body of `if let Some(senders)`.
abbrev pub unregistered :
    AgentPubKey
    → WsSender
    → Map AgentPubKey (List WsSender)
    → Option (List WsSender)
    → Map AgentPubKey (List WsSender)
unregistered k sender ws none = ws
unregistered k sender ws (some senders) =
    let kept = filter (λ s. not (s == sender)) senders in
    if is_empty kept then remove k ws else insert k kept ws

module _ {S : Type 0} where
  unfoldable pub register_ws_sender : AgentPubKey → WsSender → AuthStore S → AuthStore S
  register_ws_sender k sender s = record s {
    ws_senders = insert k (senders_or_empty (lookup k s.ws_senders) ++ sender ∷ []) s.ws_senders;
  }

  unfoldable pub unregister_ws_sender : AgentPubKey → WsSender → AuthStore S → AuthStore S
  unregister_ws_sender k sender s = record s {
    ws_senders = unregistered k sender s.ws_senders (lookup k s.ws_senders);
  }

  unfoldable pub ws_connection_count : AgentPubKey → AuthStore S → ℕ
  ws_connection_count k s = length (senders_or_empty (lookup k s.ws_senders))
