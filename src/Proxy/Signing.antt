-- ===== src/Proxy/Signing.antt =====
-- src/agent_proxy.rs: the life of a request for a signature.
use h2hc_linker.Base.{
  ℕ, ◌+◌, ◌<◌, String, ◌≡◌, ◌≢◌, refl, none, some, arith, ◌==◌, string_eq, eq_iff, ==_refl,
  Bool-cases, Option-cases, inl, inr,
}
use h2hc_linker.Base.Maps.{lookup, insert, lookup-insert, lookup-remove}
use h2hc_linker.Ids.{AgentPubKey, WsSender}
use h2hc_linker.Host.{Host, ok, err, with_error}
use h2hc_linker.Proxy.{
  AgentProxyManager, PendingSign, SignResult, SignEnv, u64_mod, forget_pending, open_request,
  request_agent_info_signature, find_sender_for_agent, deliver_signature,
}

-- The texts of two ids agree only if their counters do: `sign-{counter}-{millis}`.
abbrev pub IsInjective : (ℕ → ℕ → String) → Type 0
IsInjective format_id = (a x b y : ℕ) → format_id a x ≡ format_id b y → a ≡ b

-- Each pending request was numbered before the counter.
abbrev pub IsNumbered : (ℕ → ℕ → String) → AgentProxyManager → Type 0
IsNumbered format_id m =
    (id : String) (c : PendingSign)
    → lookup id m.pending_signs ≡ some c
    → (k : ℕ) × (millis : ℕ) × (id ≡ format_id k millis) × (k < m.request_counter)

deliver_signature_lem :
    (id : String) (result : SignResult) (m : AgentProxyManager) (c : PendingSign)
    → lookup id m.pending_signs ≡ some c
    → deliver_signature id result m ≡ (some (c, result), forget_pending id m)
unfolding deliver_signature
deliver_signature_lem id result m c e = ground (arith, e)

deliver_signature-none :
    (id : String) (result : SignResult) (m : AgentProxyManager)
    → lookup id m.pending_signs ≡ none
    → (deliver_signature id result m).0 ≡ none
unfolding deliver_signature
deliver_signature-none id result m e = ground (arith, e)

lookup-forget_pending :
    (id : String) (m : AgentProxyManager) → lookup id (forget_pending id m).pending_signs ≡ none
lookup-forget_pending id m = ground (arith, lookup-remove id id m.pending_signs, ==_refl id)

opened_pending :
    (env : SignEnv) (m : AgentProxyManager)
    → lookup (open_request env m).0 (open_request env m).1.pending_signs ≡ some env.channel
unfolding open_request
opened_pending env m =
    let id = env.format_id m.request_counter env.now_millis in
    ground (arith, lookup-insert id id env.channel m.pending_signs, ==_refl id)

-- Removing the new id again leaves what was pending before.
opened_forgotten :
    (env : SignEnv) (m : AgentProxyManager) (j : String)
    → lookup (open_request env m).0 m.pending_signs ≡ none
    → lookup j (forget_pending (open_request env m).0 (open_request env m).1).pending_signs
      ≡ lookup j m.pending_signs
unfolding open_request
opened_forgotten env m j fresh =
    let id = env.format_id m.request_counter env.now_millis in
    ground (
      arith,
      lookup-remove id j (insert id env.channel m.pending_signs),
      lookup-insert id j env.channel m.pending_signs,
      eq_iff id j,
      fresh,
    )

module _ (env : SignEnv) (inj : IsInjective env.format_id) (m : AgentProxyManager) where
  fresh_id : IsNumbered env.format_id m → lookup (open_request env m).0 m.pending_signs ≡ none
  unfolding open_request
  fresh_id n =
      elim (Option-cases
        (lookup (env.format_id m.request_counter env.now_millis) m.pending_signs)) [
          | inl e ↦ e
          | inr (c, e) ↦
              let (k, millis, same, below) = n _ c e in
              absurd (omega (arith, inj m.request_counter env.now_millis k millis same))
        ]

  -- Where ids tell their counters apart and each pending id was numbered before the counter, and as
  -- long as the counter does not wrap: a new request gets an id that no pending request has, all
  -- pending requests keep their responders, and ids stay numbered.
  pub open_request_fresh :
      IsNumbered env.format_id m
      → m.request_counter + 1 < u64_mod
      → let (id, m') = open_request env m in
        (lookup id m.pending_signs ≡ none)
        × (lookup id m'.pending_signs ≡ some env.channel)
        × ((j : String) → j ≢ id → lookup j m'.pending_signs ≡ lookup j m.pending_signs)
        × IsNumbered env.format_id m'
  unfolding open_request
  open_request_fresh n small =
      let id = env.format_id m.request_counter env.now_millis in
      let inserted = λ (j : String). lookup-insert id j env.channel m.pending_signs in
      (
        fresh_id n,
        ground (arith, inserted id, ==_refl id),
        λ j ne. ground (arith, inserted j, eq_iff id j, ne),
        λ j c h. elim (Bool-cases (id == j)) [
          | inl e ↦ (m.request_counter, env.now_millis, ground (arith, eq_iff id j, e), omega arith)
          | inr e ↦
              let (k, millis, same, below) = n j c (ground (arith, inserted j, e, h)) in
              (k, millis, same, omega arith)
        ],
      )

  -- Where ids tell their counters apart and each pending id was numbered before the counter: a
  -- response that arrives for a new request goes to the responder of this request and no other,
  -- and leaves every other request pending as before; a second response goes nowhere.
  pub deliver_signature-open_request :
      (result second : SignResult)
      → IsNumbered env.format_id m
      → let (id, m') = open_request env m in
        let (sent, m'') = deliver_signature id result m' in
        (sent ≡ some (env.channel, result))
        × ((j : String) → lookup j m''.pending_signs ≡ lookup j m.pending_signs)
        × ((deliver_signature id second m'').0 ≡ none)
  deliver_signature-open_request result second n =
      let (id, m') = open_request env m in
      rw (deliver_signature_lem id result m' env.channel (opened_pending env m)) (
        refl,
        λ j. opened_forgotten env m j (fresh_id n),
        deliver_signature-none id second (forget_pending id m') (lookup-forget_pending id m'),
      )

module _ (host : Host) (env : SignEnv) (agent : AgentPubKey) (m : AgentProxyManager) where
  -- A request leaves no pending entry of its own, whatever other tasks did while it waited and
  -- however the wait ended, provided that the agent info could be serialised.
  pub request_cleans_up :
      (value : String)
      → env.agent_info ≡ ok value
      → (sender : WsSender) → find_sender_for_agent agent m ≡ some sender
      → lookup
          (open_request env m).0
          (request_agent_info_signature host env agent m).1.pending_signs
        ≡ none
  unfolding request_agent_info_signature
  request_cleans_up value e sender found =
      let (id, m') = open_request env m in
      ground
        (arith, e, found, lookup-forget_pending id m', lookup-forget_pending id (env.others m'))

  -- When the agent info of a registered agent cannot be serialised, the request fails and its
  -- entry stays pending.
  pub request_leaks_pending :
      (e : String)
      → env.agent_info ≡ err e
      → (sender : WsSender) → find_sender_for_agent agent m ≡ some sender
      → (request_agent_info_signature host env agent m
          ≡ (err (with_error "Failed to serialize agent info: " e), (open_request env m).1))
        × (lookup
              (open_request env m).0
              (request_agent_info_signature host env agent m).1.pending_signs
            ≡ some env.channel)
  unfolding request_agent_info_signature
  request_leaks_pending e h sender found =
      (ground (arith, h, found), ground (arith, h, found, opened_pending env m))
