-- ===== src/Tests/Spaces.antt =====
-- The theorems on the spaces and the remote signals of the gateway.
use h2hc_linker.Base.{◌≡◌, refl, true, false, List, [], ◌∷◌, nat_eq, pair_eq}
use h2hc_linker.Base.Lists.{contains, length}
use h2hc_linker.Host.{ok}
use h2hc_linker.Kitsune.{DynSpace, Url, PeerInfo}
use h2hc_linker.Gateway.{
  agent_leave, is_agent_joined, get_or_create_space, publish_ops, is_ok, usize_max,
}
use h2hc_linker.Gateway.Left.{agent_leave_lem}
use h2hc_linker.Gateway.Publish.{Reachable, Distinct, publish_ops_lem}
use h2hc_linker.Ws.Messages.{SignedRemoteSignalInput}
use h2hc_linker.Tests.Fixtures.{kitsune, gateway, gateway-IsValid}

agent_leave_lem_example : is_agent_joined 5 1 (agent_leave 5 1 gateway).1 ≡ false
agent_leave_lem_example = (agent_leave_lem 5 1 gateway gateway-IsValid).0

abbrev to_bob : SignedRemoteSignalInput
to_bob = record { target_agent = 1 ∷ 2 ∷ []; zome_call_params = 9 ∷ []; signature = [] }

abbrev to_alice : SignedRemoteSignalInput
to_alice = record { target_agent = 1 ∷ []; zome_call_params = 9 ∷ []; signature = [] }

publish_ops_lem_example :
    (space : DynSpace) × (infos : List PeerInfo) × (urls : List Url) × ((get_or_create_space kitsune
        5 gateway).0
      ≡ ok space)
    × (kitsune.responsive_agents space 3 usize_max ≡ ok infos)
    × (1 ≡ length urls)
    × Distinct urls
    × ((url : Url)
        → contains urls url ≡ true
        → Reachable url infos × (is_ok (kitsune.publish_ops space (8 ∷ []) url) ≡ true))
    × ((url : Url)
        → Reachable url infos
        → is_ok (kitsune.publish_ops space (8 ∷ []) url) ≡ true
        → contains urls url ≡ true)
unfolding publish_ops get_or_create_space
publish_ops_lem_example = publish_ops_lem kitsune 5 (8 ∷ []) 3 1 gateway refl
