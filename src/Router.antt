-- ===== src/Router.antt =====
-- src/router.rs: which route leads through which guards to its handler, with and without
-- authentication. Matching a path is the library's: a request comes with its route. The layers for
-- CORS and the size of the body have no counterpart.
pub mod Guarded
use h2hc_linker.Base.{String, Option, none, some}
use h2hc_linker.Ids.{DnaHash}
use h2hc_linker.Auth.SessionStore.{SessionStore}
use h2hc_linker.Auth.Middleware.{
  Request, Response, reply, handled, not_found, GuardState, require_k2, require_admin_secret,
  dht_read_route, dht_write_route,
}

pub data DhtRoute : Type 0 where
  record_route details_route links_route count_links_route : DhtRoute
  agent_activity_route must_get_agent_activity_route : DhtRoute

pub data K2Route : Type 0 where
  status_route peers_route space_status_route space_peers_route : K2Route
  local_agents_route transport_stats_route : K2Route

pub data AdminRoute : Type 0 where
  add_agent_route remove_agent_route list_agents_route : AdminRoute

pub data Route : Type 0 where
  health ws test_signal zome_call publish : Route
  dht : DhtRoute → Route
  k2_api : K2Route → Route
  admin : AdminRoute → Route

-- The admin routes are not mounted.
unfoldable pub create_open_router :
    {A : Type 0} → (Route → Request → A) → Route → Request → Response A
create_open_router handle (admin r) req = reply not_found ""
create_open_router handle health req = handled (handle health req)
create_open_router handle ws req = handled (handle ws req)
create_open_router handle test_signal req = handled (handle test_signal req)
create_open_router handle zome_call req = handled (handle zome_call req)
create_open_router handle publish req = handled (handle publish req)
create_open_router handle (dht r) req = handled (handle (dht r) req)
create_open_router handle (k2_api r) req = handled (handle (k2_api r) req)

-- `parse_dna` is `DnaHash::try_from` of the library, `handle` the handlers of the routes.
module _ {S A : Type 0} ⦃st : SessionStore S⦄ (parse_dna : String → Option DnaHash)
    (handle : Route → Request → A) where
  unfoldable pub create_authenticated_router : GuardState S → Route → Request → Response A
  unfolding dht_read_route dht_write_route require_k2 require_admin_secret
  create_authenticated_router state health req = handled (handle health req)
  create_authenticated_router state ws req = handled (handle ws req)
  create_authenticated_router state test_signal req = handled (handle test_signal req)
  create_authenticated_router state zome_call req = handled (handle zome_call req)
  create_authenticated_router state publish req =
      dht_write_route parse_dna state req λ r. handled (handle publish r)
  create_authenticated_router state (dht r) req =
      dht_read_route parse_dna state req λ q. handled (handle (dht r) q)
  create_authenticated_router state (k2_api r) req =
      require_k2 state req λ q. handled (handle (k2_api r) q)
  create_authenticated_router state (admin r) req =
      require_admin_secret state req λ q. handled (handle (admin r) q)

  unfoldable pub create_router : GuardState S → Route → Request → Response A
  unfolding create_open_router create_authenticated_router
  create_router state route req = elim state.auth_store [
    | none ↦ create_open_router handle route req
    | some auth_store ↦ create_authenticated_router state route req
  ]
