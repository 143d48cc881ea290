-- ===== src/Auth/Admin/Removal.antt =====
-- src/auth/admin.rs: what the removal of an agent by the admin route takes, and what it leaves.
use h2hc_linker.Base.{
  String, ◌≡◌, ◌≢◌, true, false, some, arith, Option-cases, Bool-cases, inl, inr, string_eq, eq_iff,
  ◌==◌,
}
use h2hc_linker.Ids.{AgentPubKey}
use h2hc_linker.Host.{Fallible, ok, Fallible-cases}
use h2hc_linker.Auth.Types.{SessionInfo}
use h2hc_linker.Auth.SessionStore.{SessionStore}
use h2hc_linker.Auth.SessionStore.Spec.{Abstract}
use h2hc_linker.Auth.SessionStore.Refine.{Refines}
use h2hc_linker.Auth.Store
use h2hc_linker.Auth.Store.{AuthStore, validate_session, is_agent_allowed}
use h2hc_linker.Auth.Store.Revocation.{remove_agent_revokes}
use h2hc_linker.Auth.Middleware.{
  Request, no_content, Response, handled, GuardState, extract_bearer_token, require_admin_secret,
}
use h2hc_linker.Auth.Admin.{status, remove_agent, remove_route}

-- The admin guard lets a request through only with the configured secret as its bearer token.
require_admin_secret_handled :
    {S A : Type 0} ⦃st : SessionStore S⦄ (state : GuardState S) (req : Request)
    (next : Request → Response A) (a : A)
    → require_admin_secret state req next ≡ handled a
    → (secret : String) × (state.admin_secret ≡ some secret)
      × (extract_bearer_token req ≡ some secret)
      × (next req ≡ handled a)
unfolding require_admin_secret
require_admin_secret_handled state req next a h = elim (Option-cases (extract_bearer_token req)) [
  | inl b ↦ absurd (ground (arith, b, h))
  | inr (token, b) ↦ elim (Option-cases state.admin_secret) [
    | inl s ↦ absurd (ground (arith, b, s, h))
    | inr (secret, s) ↦ elim (Bool-cases (token == secret)) [
      | inl e ↦ (secret, s, ground (arith, b, e, eq_iff token secret), ground (arith, b, s, e, h))
      | inr e ↦ absurd (ground (arith, b, s, e, h))
    ]
  ]
]

removed_lem :
    {S : Type 0} ⦃st : SessionStore S⦄ (parse : String → Fallible AgentPubKey) (text why : String)
    (state state' : GuardState S)
    → remove_agent parse text state ≡ (status no_content why, state')
    → (s : AuthStore S) × (k : AgentPubKey) × (state.auth_store ≡ some s)
      × (parse text ≡ ok k)
      × ((Store.remove_agent k s).0 ≡ true)
      × (state'.auth_store ≡ some (Store.remove_agent k s).1)
unfolding remove_agent
removed_lem parse text why state state' h = elim (Option-cases state.auth_store) [
  | inl a ↦ absurd (ground (arith, a, h))
  | inr (s, a) ↦ elim (Fallible-cases (parse text)) [
    | inr (e, p) ↦ absurd (ground (arith, a, p, h))
    | inl (k, p) ↦ (s, k, a, p, ground (arith, a, p, h), ground (arith, a, p, h))
  ]
]

module _ {S : Type 0} ⦃st : SessionStore S⦄ {valid : S → Type 0} {view : S → Abstract}
    (laws : Refines st valid view) (parse : String → Fallible AgentPubKey) where
  -- Over a backend that refines the abstract store, in a valid state: when the `DELETE` route of
  -- the admin API answers 204, the request carried the configured secret, and in the store that it
  -- leaves the named agent is not allowed and no session of it validates.
  pub remove_route_revokes :
      (text why : String) (state state' : GuardState S) (req : Request)
      → ((s : AuthStore S) → state.auth_store ≡ some s → valid s.store)
      → remove_route parse text state req ≡ handled (status no_content why, state')
      → (secret : String) × (s' : AuthStore S) × (k : AgentPubKey) × (state.admin_secret
          ≡ some secret)
        × (extract_bearer_token req ≡ some secret)
        × (parse text ≡ ok k)
        × (state'.auth_store ≡ some s')
        × (is_agent_allowed k s' ≡ false)
        × ((t : String) (i : SessionInfo) → validate_session t s' ≡ some i → i.agent_pubkey ≢ k)
  unfolding remove_route
  remove_route_revokes text why state state' req v h =
      let (secret, configured, bearer, ran) =
        require_admin_secret_handled state req (λ r. handled (remove_agent parse text state))
          (status no_content why, state') h in
      let (s, k, on, parsed, removed, after) =
        removed_lem parse text why state state' (ground (arith, ran)) in
      let gone = remove_agent_revokes laws k s (v s on) removed in
      (secret, (Store.remove_agent k s).1, k, configured, bearer, parsed, after, gone.1, gone.0)
