-- ===== src/Auth/SessionStore/Refine.antt =====
-- The contract of src/auth/session_store.rs: a backend's operations refine those of the abstract
-- store.
use h2hc_linker.Base.{String, ◌≡◌, ◌⊎◌, true, some, is_some, nat_eq}
use h2hc_linker.Base.Lists.{contains}
use h2hc_linker.Ids.{AgentPubKey, DnaHash}
use h2hc_linker.Auth.Types.{AllowedAgent, SessionInfo}
use h2hc_linker.Auth.SessionStore.{SessionStore, SessionStoreError, SessionStoreResult, ok, err}
use h2hc_linker.Auth.SessionStore.Spec.{
  Abstract, spec_add_agent, spec_remove_agent, spec_create_session, spec_revoke_session,
  spec_register_dna, spec_revoke_sessions,
}

-- What an operation that failed may leave: the same agents, and no session that was not there with
-- the same agent and capabilities and at least the same DNAs.
pub record Below (w v : Abstract) : Type 0 where
  pub agents : w.agent ≡ v.agent
  pub sessions :
      (t : String) (i : SessionInfo)
      → w.session t ≡ some i
      → (i₀ : SessionInfo) × (v.session t ≡ some i₀)
        × (i₀.agent_pubkey ≡ i.agent_pubkey)
        × (i₀.capabilities ≡ i.capabilities)
        × ((dna : DnaHash)
            → contains i.registered_dnas dna ≡ true
            → contains i₀.registered_dnas dna ≡ true)

-- The outcome of a write from the state `s`, against the abstract outcome.
abbrev pub Writes :
    {A S : Type 0}
    → (S → Type 0)
    → (S → Abstract)
    → S
    → A × Abstract
    → SessionStoreResult A × S
    → Type 0
Writes valid view s (r, v) (ok a, s') = valid s' × (a ≡ r) × (view s' ≡ v)
Writes valid view s (r, v) (err e, s') = valid s' × Below (view s') (view s)

-- The outcome of a read.
abbrev pub Reads : {A : Type 0} → A → SessionStoreResult A → Type 0
Reads r (ok a) = a ≡ r
Reads r (err e) = Unit

-- A write whose result the abstract store does not determine, such as a count.
abbrev pub forget : {A S : Type 0} → SessionStoreResult A × S → SessionStoreResult (Unit {0}) × S
forget (ok a, s) = (ok tt, s)
forget (err e, s) = (err e, s)

-- A backend that refines the abstract store through `view`, in the states of its invariant `valid`.
pub record Refines {S : Type 0} (st : SessionStore S) (valid : S → Type 0) (view : S → Abstract)
    : Type 0 where
  pub add_agent_lem :
      (a : AllowedAgent) (s : S)
      → valid s
      → Writes valid view s (spec_add_agent a (view s)) (st.add_agent a s)
  pub remove_agent_lem :
      (k : AgentPubKey) (s : S)
      → valid s
      → Writes valid view s (spec_remove_agent k (view s)) (st.remove_agent k s)
  pub is_agent_allowed_lem :
      (k : AgentPubKey) (s : S)
      → valid s
      → Reads (is_some ((view s).agent k)) (st.is_agent_allowed k s)
  pub get_agent_lem :
      (k : AgentPubKey) (s : S) → valid s → Reads ((view s).agent k) (st.get_agent k s)
  pub create_session_lem :
      (t : String) (k : AgentPubKey) (s : S)
      → valid s
      → Writes valid view s (spec_create_session t k (view s)) (st.create_session t k s)
  pub validate_session_lem :
      (t : String) (s : S) → valid s → Reads ((view s).session t) (st.validate_session t s)
  pub revoke_session_lem :
      (t : String) (s : S)
      → valid s
      → Writes valid view s (spec_revoke_session t (view s)) (st.revoke_session t s)
  pub register_dna_lem :
      (k : AgentPubKey) (dna : DnaHash) (s : S)
      → valid s
      → Writes valid view s (spec_register_dna k dna (view s)) (st.register_dna_for_agent k dna s)
  pub revoke_sessions_lem :
      (k : AgentPubKey) (s : S)
      → valid s
      → Writes valid view s
          (tt, spec_revoke_sessions k (view s))
          (forget (st.revoke_sessions_for_agent k s))

-- Each error of an operation has a cause in the state: one that any operation may meet, or, for a new
-- session, that its token is taken. A failed operation leaves the state as `Kept` says; of a removal,
-- which takes several steps, nothing is said.
pub record Failures {S : Type 0} (st : SessionStore S) (Cause : S → SessionStoreError → Type 0)
    (Taken : String → S → Type 0) (Kept : S → S → Type 0) : Type 0 where
  pub add_agent_err :
      (a : AllowedAgent) (s : S) (e : SessionStoreError)
      → (st.add_agent a s).0 ≡ err e
      → Cause s e × Kept s (st.add_agent a s).1
  pub remove_agent_err :
      (k : AgentPubKey) (s : S) (e : SessionStoreError)
      → (st.remove_agent k s).0 ≡ err e
      → Cause s e
  pub list_agents_err : (s : S) (e : SessionStoreError) → st.list_agents s ≡ err e → Cause s e
  pub is_agent_allowed_err :
      (k : AgentPubKey) (s : S) (e : SessionStoreError)
      → st.is_agent_allowed k s ≡ err e
      → Cause s e
  pub get_agent_err :
      (k : AgentPubKey) (s : S) (e : SessionStoreError) → st.get_agent k s ≡ err e → Cause s e
  pub create_session_err :
      (t : String) (k : AgentPubKey) (s : S) (e : SessionStoreError)
      → (st.create_session t k s).0 ≡ err e
      → (Cause s e ⊎ Taken t s) × Kept s (st.create_session t k s).1
  pub validate_session_err :
      (t : String) (s : S) (e : SessionStoreError) → st.validate_session t s ≡ err e → Cause s e
  pub revoke_session_err :
      (t : String) (s : S) (e : SessionStoreError)
      → (st.revoke_session t s).0 ≡ err e
      → Cause s e × Kept s (st.revoke_session t s).1
  pub register_dna_err :
      (k : AgentPubKey) (dna : DnaHash) (s : S) (e : SessionStoreError)
      → (st.register_dna_for_agent k dna s).0 ≡ err e
      → Cause s e × Kept s (st.register_dna_for_agent k dna s).1
  pub revoke_sessions_err :
      (k : AgentPubKey) (s : S) (e : SessionStoreError)
      → (st.revoke_sessions_for_agent k s).0 ≡ err e
      → Cause s e × Kept s (st.revoke_sessions_for_agent k s).1
  pub session_count_err : (s : S) (e : SessionStoreError) → st.session_count s ≡ err e → Cause s e
