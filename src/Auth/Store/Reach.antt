-- ===== src/Auth/Store/Reach.antt =====
-- src/auth/store.rs: the histories of the authentication store, over a backend that refines the
-- abstract store, and where the sessions that validate after a history come from.
use h2hc_linker.Base.{
  String, ◌≡◌, refl, subst, ◌⊎◌, inl, inr, true, none, some, List, [], ◌∷◌, arith, is_some,
  Option-cases, Bool-cases, ◌==◌, nat_eq, string_eq, nat_beq_iff, eq_iff,
}
use h2hc_linker.Base.Lists.{contains, contains-set_insert}
use h2hc_linker.Ids.{AgentPubKey, DnaHash, WsSender}
use h2hc_linker.Auth.Types.{AllowedAgent, SessionInfo}
use h2hc_linker.Auth.SessionStore.{SessionStore}
use h2hc_linker.Auth.SessionStore.Spec.{
  Abstract, spec_add_agent, spec_remove_agent, spec_create_session, spec_revoke_session,
  spec_register_dna, spec_revoke_sessions,
}
use h2hc_linker.Auth.SessionStore.Refine.{Below, Refines}
use h2hc_linker.Auth.Store.{
  AuthStore, add_agent, remove_agent, create_session, revoke_session, register_dna_for_agent,
  revoke_sessions_for_agent, register_ws_sender, unregister_ws_sender, validate_session,
}
use h2hc_linker.Auth.Store.Revocation.{validate_session_sound}

-- The calls that may change the store, with the token that a new session draws.
pub data Call : Type 0 where
  adds : AllowedAgent → Call
  removes : AgentPubKey → Call
  creates : String → AgentPubKey → Call
  revokes : String → Call
  registers : AgentPubKey → DnaHash → Call
  revokes_all : AgentPubKey → Call
  connects disconnects : AgentPubKey → WsSender → Call

module _ {S : Type 0} ⦃st : SessionStore S⦄ where
  unfoldable pub step : Call → AuthStore S → AuthStore S
  step (adds a) s = add_agent a s
  step (removes k) s = (remove_agent k s).1
  step (creates t k) s = (create_session t k s).1
  step (revokes t) s = (revoke_session t s).1
  step (registers k dna) s = register_dna_for_agent k dna s
  step (revokes_all k) s = (revoke_sessions_for_agent k s).1
  step (connects k sender) s = register_ws_sender k sender s
  step (disconnects k sender) s = unregister_ws_sender k sender s

  -- The state after a history; its latest call stands first.
  unfoldable pub after : List Call → AuthStore S → AuthStore S
  after [] s = s
  after (c ∷ earlier) s = step c (after earlier s)

abbrev pub Occurs : Call → List Call → Type 0
Occurs c [] = ⊥
Occurs c (d ∷ earlier) = (d ≡ c) ⊎ Occurs c earlier

-- No session of an agent that is not allowed.
abbrev pub IsGuarded : Abstract → Type 0
IsGuarded v =
    (t : String) (i : SessionInfo) → v.session t ≡ some i → is_some (v.agent i.agent_pubkey) ≡ true

-- What a call does to the abstract store.
abbrev spec_step : Call → Abstract → Abstract
spec_step (adds a) v = (spec_add_agent a v).1
spec_step (removes k) v = (spec_remove_agent k v).1
spec_step (creates t k) v = (spec_create_session t k v).1
spec_step (revokes t) v = (spec_revoke_session t v).1
spec_step (registers k dna) v = (spec_register_dna k dna v).1
spec_step (revokes_all k) v = spec_revoke_sessions k v
spec_step (connects k sender) v = v
spec_step (disconnects k sender) v = v

spec_step-IsGuarded : (c : Call) (v : Abstract) → IsGuarded v → IsGuarded (spec_step c v)
spec_step-IsGuarded (adds a) v g t i h = ground (arith, g t i)
spec_step-IsGuarded (removes k) v g t i h = ground (arith, g t i)
spec_step-IsGuarded (creates u k) v g t i h = ground (arith, g t i)
spec_step-IsGuarded (revokes u) v g t i h = ground (arith, g t i)
spec_step-IsGuarded (registers k dna) v g t i h = elim (Option-cases (v.session t)) [
  | inl e ↦ absurd (ground (arith, e))
  | inr (i₀, e) ↦ ground (arith, e, g t i₀ e)
]
spec_step-IsGuarded (revokes_all k) v g t i h = ground (arith, g t i)
spec_step-IsGuarded (connects k sender) v g t i h = g t i h
spec_step-IsGuarded (disconnects k sender) v g t i h = g t i h

Below-IsGuarded : (w v : Abstract) → Below w v → IsGuarded v → IsGuarded w
Below-IsGuarded w v b g t i h =
    let (i₀, old, same, _, _) = b.sessions t i h in
    rw b.agents (subst (λ k. is_some (v.agent k) ≡ true) same (g t i₀ old))

-- The session `i` of a token after the call `c` is new, or was there with the same agent and, but
-- for a DNA that `c` registers for this agent, with the same DNAs.
abbrev Origin : Call → Abstract → String → SessionInfo → Type 0
Origin c v t i =
    ((c ≡ creates t i.agent_pubkey) × (i.registered_dnas ≡ []))
    ⊎ ((i₀ : SessionInfo) × (v.session t ≡ some i₀)
        × (i₀.agent_pubkey ≡ i.agent_pubkey)
        × ((dna : DnaHash)
            → contains i.registered_dnas dna ≡ true
            → (contains i₀.registered_dnas dna ≡ true) ⊎ (c ≡ registers i.agent_pubkey dna)))

unchanged :
    (c : Call) (v : Abstract) (t : String) (i : SessionInfo) → v.session t ≡ some i → Origin c v t i
unchanged c v t i h = inr (i, h, refl, λ dna e. inl e)

spec_step-Origin :
    (c : Call) (v : Abstract) (t : String) (i : SessionInfo)
    → (spec_step c v).session t ≡ some i
    → Origin c v t i
spec_step-Origin (adds a) v t i h = unchanged _ v t i h
spec_step-Origin (removes k) v t i h = unchanged _ v t i (ground arith)
spec_step-Origin (creates u k) v t i h = elim (Option-cases (v.agent k)) [
  | inl e ↦ unchanged _ v t i (ground (arith, e))
  | inr (a, e) ↦ elim (Bool-cases (u == t)) [
    | inl q ↦ inl (ground (arith, e, q, eq_iff u t), ground (arith, e, q))
    | inr q ↦ unchanged _ v t i (ground (arith, e, q))
  ]
]
spec_step-Origin (revokes u) v t i h = unchanged _ v t i (ground arith)
spec_step-Origin (registers k dna) v t i h = elim (Option-cases (v.session t)) [
  | inl e ↦ absurd (ground (arith, e))
  | inr (i₀, e) ↦ inr (
    i₀,
    e,
    ground (arith, e),
    λ d m. ground (
      arith,
      e,
      nat_beq_iff dna d,
      nat_beq_iff i₀.agent_pubkey k,
      contains-set_insert dna d i₀.registered_dnas,
    ),
  )
]
spec_step-Origin (revokes_all k) v t i h = unchanged _ v t i (ground arith)
spec_step-Origin (connects k sender) v t i h = unchanged _ v t i h
spec_step-Origin (disconnects k sender) v t i h = unchanged _ v t i h

module _ {S : Type 0} ⦃st : SessionStore S⦄ {valid : S → Type 0} {view : S → Abstract}
    (laws : Refines st valid view) where
  step-valid : (c : Call) (s : AuthStore S) → valid s.store → valid (step c s).store
  unfolding step add_agent remove_agent create_session revoke_session register_dna_for_agent
      revoke_sessions_for_agent register_ws_sender unregister_ws_sender
  step-valid (adds a) s v = ground (arith, laws.add_agent_lem a s.store v)
  step-valid (removes k) s v = ground (arith, laws.remove_agent_lem k s.store v)
  step-valid (creates t k) s v = ground (arith, laws.create_session_lem t k s.store v)
  step-valid (revokes t) s v = ground (arith, laws.revoke_session_lem t s.store v)
  step-valid (registers k dna) s v = ground (arith, laws.register_dna_lem k dna s.store v)
  step-valid (revokes_all k) s v = ground (arith, laws.revoke_sessions_lem k s.store v)
  step-valid (connects k sender) s v = v
  step-valid (disconnects k sender) s v = v

  -- A call does what the abstract store does, or fails and leaves no session that was not there.
  step-spec :
      (c : Call) (s : AuthStore S)
      → valid s.store
      → (view (step c s).store ≡ spec_step c (view s.store))
        ⊎ Below (view (step c s).store) (view s.store)
  unfolding step add_agent remove_agent create_session revoke_session register_dna_for_agent
      revoke_sessions_for_agent register_ws_sender unregister_ws_sender
  step-spec (adds a) s v = ground (arith, laws.add_agent_lem a s.store v)
  step-spec (removes k) s v = ground (arith, laws.remove_agent_lem k s.store v)
  step-spec (creates t k) s v = ground (arith, laws.create_session_lem t k s.store v)
  step-spec (revokes t) s v = ground (arith, laws.revoke_session_lem t s.store v)
  step-spec (registers k dna) s v = ground (arith, laws.register_dna_lem k dna s.store v)
  step-spec (revokes_all k) s v = ground (arith, laws.revoke_sessions_lem k s.store v)
  step-spec (connects k sender) s v = inl refl
  step-spec (disconnects k sender) s v = inl refl

  pub after-valid : (h : List Call) (s : AuthStore S) → valid s.store → valid (after h s).store
  unfolding after
  after-valid [] s v = v
  after-valid (c ∷ h) s v = step-valid c (after h s) (after-valid h s v)

  after-IsGuarded :
      (h : List Call) (s : AuthStore S)
      → valid s.store
      → IsGuarded (view s.store)
      → IsGuarded (view (after h s).store)
  unfolding after
  after-IsGuarded [] s v g = g
  after-IsGuarded (c ∷ h) s v g =
      let before = after-IsGuarded h s v g in
      elim (step-spec c (after h s) (after-valid h s v)) [
        | inl same ↦ rw same (spec_step-IsGuarded c (view (after h s).store) before)
        | inr below ↦ Below-IsGuarded _ (view (after h s).store) below before
      ]

  -- For any backend that refines the abstract store, from a valid state with no session of an agent
  -- that is not allowed: after any history, a session that validates belongs to an agent that is in
  -- the allowlist then.
  pub validated_allowed :
      (h : List Call) (s : AuthStore S) (t : String) (i : SessionInfo)
      → valid s.store
      → IsGuarded (view s.store)
      → validate_session t (after h s) ≡ some i
      → is_some ((view (after h s).store).agent i.agent_pubkey) ≡ true
  validated_allowed h s t i v g p =
      after-IsGuarded h s v g t i
        (validate_session_sound laws t (after h s) i (after-valid h s v) p)

  step-Origin :
      (c : Call) (s : AuthStore S) (t : String) (i : SessionInfo)
      → valid s.store
      → (view (step c s).store).session t ≡ some i
      → Origin c (view s.store) t i
  step-Origin c s t i v p = elim (step-spec c s v) [
    | inl same ↦ spec_step-Origin c (view s.store) t i (rw same at p)
    | inr below ↦
        (let (i₀, old, same, _, dnas) = below.sessions t i p in
          inr (i₀, old, same, λ dna m. inl (dnas dna m)))
  ]

  after-Origin :
      (h : List Call) (s : AuthStore S) (t : String) (i : SessionInfo)
      → valid s.store
      → ((u : String) → (view s.store).session u ≡ none)
      → (view (after h s).store).session t ≡ some i
      → Occurs (creates t i.agent_pubkey) h
        × ((dna : DnaHash)
            → contains i.registered_dnas dna ≡ true
            → Occurs (registers i.agent_pubkey dna) h)
  unfolding after
  after-Origin [] s t i v empty p = absurd (ground (arith, empty t, p))
  after-Origin (c ∷ h) s t i v empty p =
      elim (step-Origin c (after h s) t i (after-valid h s v) p) [
        | inl (made, no_dnas) ↦ (inl made, λ dna m. absurd (ground (arith, no_dnas, m)))
        | inr (i₀, old, same, dnas) ↦
            let (made, registered) = after-Origin h s t i₀ v empty old in
            (
              inr (subst (λ k. Occurs (creates t k) h) same made),
              λ dna m. elim (dnas dna m) [
                | inl m₀ ↦ inr (subst (λ k. Occurs (registers k dna) h) same (registered dna m₀))
                | inr now ↦ inl now
              ],
            )
      ]

  -- For any backend that refines the abstract store: after a history from a valid state with no
  -- session, a token that validates was created for the agent
  -- that it validates to, and each DNA of its scope was registered for this agent.
  pub validated_origin :
      (h : List Call) (s : AuthStore S) (t : String) (i : SessionInfo)
      → valid s.store
      → ((u : String) → (view s.store).session u ≡ none)
      → validate_session t (after h s) ≡ some i
      → Occurs (creates t i.agent_pubkey) h
        × ((dna : DnaHash)
            → contains i.registered_dnas dna ≡ true
            → Occurs (registers i.agent_pubkey dna) h)
  validated_origin h s t i v empty p =
      after-Origin h s t i v empty
        (validate_session_sound laws t (after h s) i (after-valid h s v) p)
