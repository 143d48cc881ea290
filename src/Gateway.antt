-- ===== src/Gateway.antt =====
-- src/gateway_kitsune.rs: the spaces and the agents of the gateway (`GatewayKitsune`).
pub mod Joined
pub mod Left
pub mod Shutdown
pub mod Signals
pub mod Publish
use h2hc_linker.Base.{
  ℕ, ◌+◌, String, Bool, true, false, ◌||◌, List, [], ◌∷◌, Option, none, some, if◌then◌else◌, ◌==◌,
  is_some, nat_eq, pair_eq,
}
use h2hc_linker.Base.Lists.{length, collect_set}
use h2hc_linker.Base.Maps.{Map, lookup, has_key, insert, remove}
use h2hc_linker.Ids.{AgentPubKey, DnaHash, WsSender}
use h2hc_linker.Host.{Host, Fallible, ok, err, with_error}
use h2hc_linker.Kitsune.{DynSpace, Url, OpId, PeerInfo, Kitsune}
use h2hc_linker.Ws.Messages.{SignedRemoteSignalInput, ServerMessage, signal}
use h2hc_linker.Proxy.{AgentProxyManager, TrySend, is_registered, send_signal}

abbrev pub Key : Type 0
Key = DnaHash × AgentPubKey

-- A joined agent's value is its proxy agent, which is made from the key.
pub record GatewayKitsune : Type 0 where
  pub spaces : Map DnaHash DynSpace
  pub agents : Map Key AgentPubKey

unfoldable pub new : GatewayKitsune
new = record { spaces = []; agents = [] }

unfoldable pub get_or_create_space :
    Kitsune → DnaHash → GatewayKitsune → Fallible DynSpace × GatewayKitsune
get_or_create_space k dna_hash g = elim (lookup dna_hash g.spaces) [
  | some space ↦ (ok space, g)
  | none ↦ elim (k.space dna_hash) [
    | err e ↦ (err (with_error "Failed to create space: " e), g)
    | ok space ↦ (ok space, record g { spaces = insert dna_hash space g.spaces })
  ]
]

-- `agent_join` from the space on.
abbrev pub join_space :
    Kitsune → Key → Fallible DynSpace × GatewayKitsune → Fallible (Unit {0}) × GatewayKitsune
join_space k key (err e, g) = (err e, g)
join_space k key (ok space, g) = elim (k.local_agent_join space key.1) [
  | err e ↦ (err (with_error "Failed to join agent to space: " e), g)
  | ok _ ↦ (ok tt, record g { agents = insert key key.1 g.agents })
]

unfoldable pub agent_join :
    Kitsune → DnaHash → AgentPubKey → GatewayKitsune → Fallible (Unit {0}) × GatewayKitsune
unfolding get_or_create_space
agent_join k dna_hash agent_pubkey g =
    let key : Key = (dna_hash, agent_pubkey) in
    if has_key key g.agents then (ok tt, g) else join_space k key (get_or_create_space k dna_hash g)

-- `agents.keys().any(|(dna, _)| dna == dna_hash)`
abbrev pub has_agents : DnaHash → Map Key AgentPubKey → Bool
has_agents dna_hash [] = false
has_agents dna_hash ((key, a) ∷ m) = (key.0 == dna_hash) || has_agents dna_hash m

unfoldable pub maybe_cleanup_space : DnaHash → GatewayKitsune → GatewayKitsune
maybe_cleanup_space dna_hash g =
    if has_agents dna_hash g.agents then g else record g { spaces = remove dna_hash g.spaces }

-- With the space that published the tombstone (`local_agent_leave`), if there was one.
unfoldable pub agent_leave :
    DnaHash → AgentPubKey → GatewayKitsune → Option DynSpace × GatewayKitsune
unfolding maybe_cleanup_space
agent_leave dna_hash agent_pubkey g =
    let key : Key = (dna_hash, agent_pubkey) in
    let rest = record g { agents = remove key g.agents } in
    elim (lookup key g.agents) [
      | none ↦ (none, rest)
      | some proxy_agent ↦ (lookup dna_hash rest.spaces, maybe_cleanup_space dna_hash rest)
    ]

abbrev pub keys : Map Key AgentPubKey → List Key
keys [] = []
keys ((key, a) ∷ m) = key ∷ keys m

abbrev pub leave_all : List Key → GatewayKitsune → GatewayKitsune
leave_all [] g = g
leave_all (key ∷ rest) g = leave_all rest (agent_leave key.0 key.1 g).1

unfoldable pub shutdown : GatewayKitsune → GatewayKitsune
unfolding agent_leave
shutdown g = leave_all (keys g.agents) g

unfoldable pub agent_count : GatewayKitsune → ℕ
agent_count g = length g.agents

unfoldable pub space_count : GatewayKitsune → ℕ
space_count g = length g.spaces

abbrev peers_of : Fallible (List PeerInfo) → ℕ
peers_of (ok peers) = length peers
peers_of (err e) = 0

abbrev count_peers : Kitsune → Map DnaHash DynSpace → ℕ
count_peers k [] = 0
count_peers k ((dna, space) ∷ m) = peers_of (k.all_peers space) + count_peers k m

unfoldable pub peer_count : Kitsune → GatewayKitsune → ℕ
peer_count k g = count_peers k g.spaces

unfoldable pub is_agent_joined : DnaHash → AgentPubKey → GatewayKitsune → Bool
is_agent_joined dna_hash agent_pubkey g =
    let key : Key = (dna_hash, agent_pubkey) in has_key key g.agents

-- What happened to one signal of `send_remote_signals`.
pub data Sent : Type 0 where
  invalid_target : Sent
  delivered : WsSender × ServerMessage → Sent
  not_delivered : Sent
  no_space : Sent
  no_peer : Sent
  not_encoded : Sent
  notified : DynSpace → Url → List ℕ → Sent
  not_notified : Sent

abbrev pub is_success : Sent → Bool
is_success (delivered m) = true
is_success (notified s u b) = true
is_success _ = false

-- The URL of a peer that the store answers.
abbrev pub url_of : Fallible (Option PeerInfo) → Option Url
url_of (ok (some info)) = info.url
url_of (ok none) = none
url_of (err e) = none

-- `unwrap_or_else` with 64 zero bytes.
abbrev pub signature_or_zero : List ℕ → Fallible (List ℕ) → List ℕ
signature_or_zero zeros (ok s) = s
signature_or_zero zeros (err e) = zeros

abbrev pub zeros : ℕ → List ℕ
zeros ℕ.zero = []
zeros (ℕ.suc n) = 0 ∷ zeros n

abbrev pub delivery : Bool × Option (WsSender × ServerMessage) → Sent
delivery (true, some m) = delivered m
delivery (true, none) = not_delivered
delivery (false, m) = not_delivered

-- The signal to a registered browser agent.
unfoldable pub deliver_to_browser :
    Host
    → (WsSender → ServerMessage → TrySend)
    → AgentProxyManager
    → DnaHash
    → AgentPubKey
    → SignedRemoteSignalInput
    → Sent
unfolding send_signal
deliver_to_browser host try_send proxy dna_hash target_agent s =
    let server_msg =
      signal (host.dna_text dna_hash) (host.agent_text target_agent) "remote" "recv_remote_signal"
        (host.b64_encode s.zome_call_params) in
    delivery (send_signal try_send dna_hash target_agent server_msg proxy)

-- The signal to a peer, from its space on.
abbrev pub send_to_peer : Kitsune → AgentPubKey → SignedRemoteSignalInput → DynSpace → Sent
send_to_peer k target_agent s space = elim (url_of (k.peer space target_agent)) [
  | none ↦ no_peer
  | some to_url ↦
      elim (k.encode_signal target_agent s.zome_call_params
        (signature_or_zero (zeros 64) (k.signature_of_slice s.signature))) [
          | err e ↦ not_encoded
          | ok encoded ↦ elim (k.send_notify space to_url encoded) [
            | err e ↦ not_notified
            | ok _ ↦ notified space to_url encoded
          ]
        ]
]

abbrev pub sent_by_space :
    Kitsune
    → AgentPubKey
    → SignedRemoteSignalInput
    → Fallible DynSpace × GatewayKitsune
    → Sent × GatewayKitsune
sent_by_space k target_agent s (err e, g) = (no_space, g)
sent_by_space k target_agent s (ok space, g) = (send_to_peer k target_agent s space, g)

-- One round of the loop of `send_remote_signals`.
unfoldable pub send_remote_signal :
    Host
    → Kitsune
    → (WsSender → ServerMessage → TrySend)
    → AgentProxyManager
    → DnaHash
    → SignedRemoteSignalInput
    → GatewayKitsune
    → Sent × GatewayKitsune
unfolding get_or_create_space deliver_to_browser is_registered
send_remote_signal host k try_send proxy dna_hash s g = elim (host.agent_of_raw_39 s.target_agent) [
  | err e ↦ (invalid_target, g)
  | ok target_agent ↦
      if is_registered dna_hash target_agent proxy
      then (deliver_to_browser host try_send proxy dna_hash target_agent s, g)
      else sent_by_space k target_agent s (get_or_create_space k dna_hash g)
]

-- The counts of successes and failures, with the new state.
unfoldable pub send_remote_signals :
    Host
    → Kitsune
    → (WsSender → ServerMessage → TrySend)
    → AgentProxyManager
    → DnaHash
    → List SignedRemoteSignalInput
    → GatewayKitsune
    → (ℕ × ℕ) × GatewayKitsune
unfolding send_remote_signal
send_remote_signals host k try_send proxy dna_hash [] g = ((0, 0), g)
send_remote_signals host k try_send proxy dna_hash (s ∷ signals) g =
    let (sent, g') = send_remote_signal host k try_send proxy dna_hash s g in
    let (counts, g'') = send_remote_signals host k try_send proxy dna_hash signals g' in
    (if is_success sent then (counts.0 + 1, counts.1) else (counts.0, counts.1 + 1), g'')

abbrev add_url : PeerInfo → List Url → List Url
add_url info rest = elim info.url [
  | none ↦ rest
  | some url ↦ if info.is_tombstone then rest else url ∷ rest
]

-- The `filter_map` of `publish_ops`.
abbrev pub live_urls : List PeerInfo → List Url
live_urls [] = []
live_urls (info ∷ infos) = add_url info (live_urls infos)

abbrev pub is_ok : {A : Type 0} → Fallible A → Bool
is_ok (ok a) = true
is_ok (err e) = false

-- The loop over the URLs, with the URLs that took the ops.
abbrev pub published_to : (Url → Fallible (Unit {0})) → List Url → List Url
published_to publish [] = []
published_to publish (url ∷ urls) =
    let rest = published_to publish urls in if is_ok (publish url) then url ∷ rest else rest

abbrev pub usize_max : ℕ
usize_max = 18446744073709551615

-- The URLs that took the ops, from the space on; the code answers their number.
abbrev pub publish_at : Kitsune → List OpId → ℕ → DynSpace → Fallible (List Url)
publish_at k op_ids basis_loc space = elim (k.all_peers space) [
  | err e ↦ err (with_error "Failed to get all peers: " e)
  | ok _ ↦ elim (k.local_agents space) [
    | err e ↦ err (with_error "Failed to get local agents: " e)
    | ok _ ↦ elim (k.responsive_agents space basis_loc usize_max) [
      | err e ↦ err (with_error "Failed to find peers: " e)
      | ok agents ↦ ok (published_to (k.publish_ops space op_ids) (collect_set (live_urls agents)))
    ]
  ]
]

abbrev pub publish_in :
    Kitsune
    → List OpId
    → ℕ
    → Fallible DynSpace × GatewayKitsune
    → Fallible (List Url) × GatewayKitsune
publish_in k op_ids basis_loc (err e, g) = (err e, g)
publish_in k op_ids basis_loc (ok space, g) = (publish_at k op_ids basis_loc space, g)

abbrev pub count_of : Fallible (List Url) → Fallible ℕ
count_of (ok urls) = ok (length urls)
count_of (err e) = err e

unfoldable pub publish_ops :
    Kitsune → DnaHash → List OpId → ℕ → GatewayKitsune → Fallible ℕ × GatewayKitsune
unfolding get_or_create_space
publish_ops k dna_hash op_ids basis_loc g =
    let (urls, g') = publish_in k op_ids basis_loc (get_or_create_space k dna_hash g) in
    (count_of urls, g')
