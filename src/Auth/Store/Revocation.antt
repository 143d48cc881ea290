-- ===== src/Auth/Store/Revocation.antt =====
-- src/auth/store.rs: what a validated session means, and what removing an agent takes away, for
-- every backend that refines the abstract store.
use h2hc_linker.Base.{
  String, ◌≡◌, ◌≢◌, refl, inl, inr, true, false, none, some, arith, Option-cases, nat_eq, string_eq,
  nat_beq_iff, ==_false, List, ==_refl, eq_iff,
}
use h2hc_linker.Base.Maps.{Map, lookup-remove, remove}
use h2hc_linker.Ids.{AgentPubKey, WsSender}
use h2hc_linker.Auth.Types.{AllowedAgent, SessionInfo, SessionToken}
use h2hc_linker.Auth.SessionStore.{SessionStore}
use h2hc_linker.Auth.SessionStore.Spec.{
  Abstract, new_session, spec_remove_agent, spec_create_session,
}
use h2hc_linker.Auth.SessionStore.Refine.{Refines}
use h2hc_linker.Auth.Store.{
  AuthStore, remove_agent, is_agent_allowed, create_session, validate_session, ws_connection_count,
}

module _ {S : Type 0} ⦃st : SessionStore S⦄ {valid : S → Type 0} {view : S → Abstract}
    (laws : Refines st valid view) where
  -- A session that validates is a session of the store: a backend's error only denies.
  pub validate_session_sound :
      (t : String) (s : AuthStore S) (i : SessionInfo)
      → valid s.store
      → validate_session t s ≡ some i
      → (view s.store).session t ≡ some i
  unfolding validate_session
  validate_session_sound t s i v h = ground (arith, laws.validate_session_lem t s.store v)

  removed-spec :
      (k : AgentPubKey) (s : AuthStore S)
      → valid s.store
      → (remove_agent k s).0 ≡ true
      → (view (remove_agent k s).1.store ≡ (spec_remove_agent k (view s.store)).1)
        × valid (remove_agent k s).1.store
        × ((remove_agent k s).1.ws_senders ≡ remove k s.ws_senders)
  unfolding remove_agent
  removed-spec k s v h = ground (arith, laws.remove_agent_lem k s.store v)

  is_agent_allowed_none :
      (k : AgentPubKey) (s : AuthStore S)
      → valid s.store
      → (view s.store).agent k ≡ none
      → is_agent_allowed k s ≡ false
  unfolding is_agent_allowed
  is_agent_allowed_none k s v h = ground (arith, laws.is_agent_allowed_lem k s.store v)

  -- An agent that is not allowed gets no session.
  pub create_session_none :
      (t : String) (k : AgentPubKey) (s : AuthStore S)
      → valid s.store
      → (view s.store).agent k ≡ none
      → (create_session t k s).0 ≡ none
  unfolding create_session
  create_session_none t k s v h = ground (arith, laws.create_session_lem t k s.store v)

  ws_connection_count_removed :
      (k : AgentPubKey) (s : AuthStore S) (ws : Map AgentPubKey (List WsSender))
      → s.ws_senders ≡ remove k ws
      → ws_connection_count k s ≡ 0
  unfolding ws_connection_count
  ws_connection_count_removed k s ws h = rw h (rw (lookup-remove k k ws) (rw (==_refl k) refl))

  -- In a valid state of any backend that refines the abstract store: when `remove_agent` answers
  -- true, no session of the agent validates any more, the agent is not allowed, has no tracked
  -- connection and gets no new session, and the sessions of all other agents are in the store as
  -- before.
  pub remove_agent_revokes :
      (k : AgentPubKey) (s : AuthStore S)
      → valid s.store
      → (remove_agent k s).0 ≡ true
      → let s' = (remove_agent k s).1 in
        ((t : String) (i : SessionInfo) → validate_session t s' ≡ some i → i.agent_pubkey ≢ k)
        × (is_agent_allowed k s' ≡ false)
        × (ws_connection_count k s' ≡ 0)
        × ((t : String) → (create_session t k s').0 ≡ none)
        × ((t : String) (i : SessionInfo)
            → (view s.store).session t ≡ some i
            → i.agent_pubkey ≢ k
            → (view s'.store).session t ≡ some i)
  remove_agent_revokes k s v h =
      let (same, v', ws) = removed-spec k s v h in
      let s' = (remove_agent k s).1 in
      let gone : (view s'.store).agent k ≡ none = rw same (rw (==_refl k) refl) in
      (
        λ t i p e.
            ground (arith, same, validate_session_sound t s' i v' p, nat_beq_iff i.agent_pubkey k),
        is_agent_allowed_none k s' v' gone,
        ws_connection_count_removed k s' s.ws_senders ws,
        λ t. create_session_none t k s' v' gone,
        λ t i p ne. rw same (rw p (rw (==_false i.agent_pubkey k ne) refl)),
      )

  created-spec :
      (t : String) (k : AgentPubKey) (s : AuthStore S) (token : SessionToken) (a : AllowedAgent)
      → valid s.store
      → (view s.store).agent k ≡ some a
      → (create_session t k s).0 ≡ some token
      → (token.text ≡ t)
        × valid (create_session t k s).1.store
        × (view (create_session t k s).1.store ≡ (spec_create_session t k (view s.store)).1)
  unfolding create_session
  created-spec t k s token a v e h = ground (arith, laws.create_session_lem t k s.store v)

  -- In a valid state of any backend that refines the abstract store: a session that
  -- `create_session` returns carries the drawn token, belongs to an agent of the allowlist, and
  -- validates, if at all, to that agent with its capabilities and no DNA; every other token has the
  -- session that it had.
  pub create_session_lem :
      (t : String) (k : AgentPubKey) (s : AuthStore S) (token : SessionToken)
      → valid s.store
      → (create_session t k s).0 ≡ some token
      → let s' = (create_session t k s).1 in
        (a : AllowedAgent) × ((view s.store).agent k ≡ some a)
        × (token.text ≡ t)
        × ((i : SessionInfo) → validate_session t s' ≡ some i → i ≡ new_session a k)
        × ((u : String) → u ≢ t → (view s'.store).session u ≡ (view s.store).session u)
  create_session_lem t k s token v h = elim (Option-cases ((view s.store).agent k)) [
    | inl e ↦ absurd (ground (arith, h, create_session_none t k s v e))
    | inr (a, e) ↦
        let (text, v', same) = created-spec t k s token a v e h in
        (
          a,
          e,
          text,
          λ i p.
              ground (
                arith,
                same,
                e,
                ==_refl t,
                validate_session_sound t (create_session t k s).1 i v' p,
              ),
          λ u ne. rw (same, e) (ground (arith, eq_iff t u, ne)),
        )
  ]
