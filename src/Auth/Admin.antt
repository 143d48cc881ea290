-- ===== src/Auth/Admin.antt =====
-- src/auth/admin.rs: the handlers of the admin routes, behind `require_admin_secret` as
-- src/router.rs layers them.
pub mod Removal
use h2hc_linker.Base.{String, Bool, true, false, List, [], ◌∷◌, Option, none, some, if◌then◌else◌}
use h2hc_linker.Base.Lists.{collect_set}
use h2hc_linker.Ids.{AgentPubKey}
use h2hc_linker.Host.{Fallible, ok, err, with_error}
use h2hc_linker.Auth.Types.{Capability, cap_eq, AllowedAgent}
use h2hc_linker.Auth.SessionStore.{SessionStore}
use h2hc_linker.Auth.Store
use h2hc_linker.Auth.Store.{AuthStore}
use h2hc_linker.Auth.Middleware.{
  Request, StatusCode, no_content, bad_request, not_found, internal_server_error, Response, handled,
  GuardState, require_admin_secret,
}

pub record AddAgentRequest : Type 0 where
  pub agent_pubkey : String
  pub capabilities : List Capability
  pub label : Option String

-- The status and the text of an answer.
pub data Answer : Type 0 where
  status : StatusCode → String → Answer
  agents : List AllowedAgent → Answer

module _ {S : Type 0} ⦃st : SessionStore S⦄ (parse : String → Fallible AgentPubKey) where
  abbrev with_auth : GuardState S → AuthStore S → GuardState S
  with_auth state s = record state { auth_store = some s }

  unfoldable pub add_agent : AddAgentRequest → GuardState S → Answer × GuardState S
  add_agent body state = elim state.auth_store [
    | none ↦ (status internal_server_error "Auth not configured", state)
    | some auth_store ↦ elim (parse body.agent_pubkey) [
      | err e ↦ (status bad_request (with_error "Invalid agent_pubkey: " e), state)
      | ok agent_pubkey ↦
          let agent : AllowedAgent = record {
            agent_pubkey = agent_pubkey;
            capabilities = collect_set body.capabilities;
            label = body.label;
          } in
          (status no_content "", with_auth state (Store.add_agent agent auth_store))
    ]
  ]

  unfoldable pub remove_agent : String → GuardState S → Answer × GuardState S
  remove_agent text state = elim state.auth_store [
    | none ↦ (status internal_server_error "Auth not configured", state)
    | some auth_store ↦ elim (parse text) [
      | err e ↦ (status bad_request (with_error "Invalid agent_pubkey: " e), state)
      | ok agent_pubkey ↦
          let (removed, auth_store') = Store.remove_agent agent_pubkey auth_store in
          (
            if removed then status no_content "" else status not_found "Agent not found",
            with_auth state auth_store',
          )
    ]
  ]

  -- The `DELETE` route, with the state that it leaves.
  unfoldable pub remove_route : String → GuardState S → Request → Response (Answer × GuardState S)
  unfolding remove_agent require_admin_secret
  remove_route text state req =
      require_admin_secret state req λ r. handled (remove_agent text state)

module _ {S : Type 0} ⦃st : SessionStore S⦄ where
  unfoldable pub list_agents : GuardState S → Answer
  list_agents state = elim state.auth_store [
    | none ↦ status internal_server_error "Auth not configured"
    | some auth_store ↦ agents (Store.list_agents auth_store)
  ]
