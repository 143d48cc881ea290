-- ===== src/Tests/NetworkApi.antt =====
-- The theorems on the routes that show the network.
use h2hc_linker.Base.{◌≡◌, refl, true, false, [], ◌∷◌, none, some, nat_eq}
use h2hc_linker.Base.Lists.{length}
use h2hc_linker.Host.{ok, err}
use h2hc_linker.NetworkApi.{
  arc, u32_max, AgentInfo, KitsuneApi, KitsuneState, get_network_status, get_all_peers,
  get_space_status, get_space_peers, get_local_agents,
}
use h2hc_linker.NetworkApi.Counts.{get_network_status_lem}
use h2hc_linker.NetworkApi.Spaces.{Together, space_routes-Together}

abbrev full_peer : AgentInfo
full_peer = record {
  agent = 1;
  space = 5 ∷ [];
  created_at = 10;
  expires_at = 20;
  is_tombstone = false;
  url = some 80;
  storage_arc = arc 0 u32_max;
}

abbrev pub api : KitsuneApi
api = record {
  list_spaces = (5 ∷ []) ∷ (6 ∷ []) ∷ [];
  space_if_exists = λ id. some 5;
  all_peers = λ space. ok (full_peer ∷ record full_peer { agent = 2; storage_arc = arc 7 9 } ∷ []);
  local_agents = λ space. err "store";
  transport = err "no transport";
  dump_network_stats = λ t. err "no stats";
}

abbrev state : KitsuneState
state = record { enabled = true; bootstrap_url = some "b"; relay_url = none; kitsune = some api }

get_network_status_lem_example :
    (get_network_status state).total_peers ≡ length (get_all_peers state)
get_network_status_lem_example = (get_network_status_lem state).0

-- Four peers, two of them with full arcs.
four_peers :
    ((get_network_status state).total_peers ≡ 4)
    × ((get_network_status state).full_arc_peers ≡ 2)
    × ((get_network_status state).ready ≡ true)
unfolding get_network_status
four_peers = (refl, refl, refl)

space_routes-Together_example :
    Together
      (get_space_status (λ s. ok (5 ∷ [])) "BQ" state)
      (get_space_peers (λ s. ok (5 ∷ [])) "BQ" state)
      (get_local_agents (λ s. ok (5 ∷ [])) "BQ" state)
space_routes-Together_example = space_routes-Together (λ s. ok (5 ∷ [])) "BQ" state
