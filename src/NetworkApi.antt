-- ===== src/NetworkApi.antt =====
-- src/routes/kitsune.rs: the routes that show the state of the network. An agent, a time and a URL are
-- only copied, so each is a number.
pub mod Counts
pub mod Spaces
pub mod Arcs
use h2hc_linker.Base.{
  ℕ, ◌+◌, String, Bool, true, false, List, [], ◌∷◌, ◌++◌, Option, none, some, is_some,
  if◌then◌else◌, ◌&&◌, ltb, ◌==◌, nat_eq,
}
use h2hc_linker.Base.Lists.{length}
use h2hc_linker.Host.{Fallible, ok, err, with_error}
use h2hc_linker.Error.{
  LinkerError, internal, invalid_request, not_found, LinkerResult, done, failure, ◌>>=◌,
}
use h2hc_linker.Base.Maps.{Map}

abbrev pub SpaceId : Type 0
SpaceId = List ℕ

-- `DhtArc`; the locations are of 32 bits.
pub data DhtArc : Type 0 where
  empty : DhtArc
  arc : ℕ → ℕ → DhtArc

-- `u32::MAX`
abbrev pub u32_max : ℕ
u32_max = 4294967295

pub record AgentInfo : Type 0 where
  pub agent : ℕ
  pub space : SpaceId
  pub created_at : ℕ
  pub expires_at : ℕ
  pub is_tombstone : Bool
  pub url : Option ℕ
  pub storage_arc : DhtArc

pub record TransportStats : Type 0 where
  pub backend : String
  pub peer_urls : List ℕ
  pub connections : List ℕ

pub record ApiTransportStats : Type 0 where
  pub transport_stats : TransportStats
  pub blocked_message_counts : Map ℕ ℕ

-- What the routes ask kitsune2 for; a space, a transport and a local agent are numbers.
pub record KitsuneApi : Type 0 where
  pub list_spaces : List SpaceId
  pub space_if_exists : SpaceId → Option ℕ
  pub all_peers : ℕ → Fallible (List AgentInfo)
  pub local_agents : ℕ → Fallible (List ℕ)
  pub transport : Fallible ℕ
  pub dump_network_stats : ℕ → Fallible ApiTransportStats

pub record KitsuneState : Type 0 where
  pub enabled : Bool
  pub bootstrap_url : Option String
  pub relay_url : Option String
  pub kitsune : Option KitsuneApi

pub record NetworkStatus : Type 0 where
  pub connected : Bool
  pub bootstrap_url : Option String
  pub relay_url : Option String
  pub total_peers : ℕ
  pub active_spaces : ℕ
  pub full_arc_peers : ℕ
  pub blocked_peers : ℕ
  pub ready : Bool

pub record StorageArcResponse : Type 0 where
  pub arc_type : String
  pub start : Option ℕ
  pub length_of : Option ℕ

pub record PeerInfoResponse : Type 0 where
  pub agent_id : ℕ
  pub space_id : SpaceId
  pub created_at : ℕ
  pub expires_at : ℕ
  pub is_tombstone : Bool
  pub url : Option ℕ
  pub storage_arc : StorageArcResponse

pub record SpaceStatusResponse : Type 0 where
  pub space_id : String
  pub local_agents : ℕ
  pub peer_count : ℕ

-- `start == 0 && end == u32::MAX`
abbrev pub is_full : ℕ → ℕ → Bool
is_full start end_loc = (start == 0) && (end_loc == u32_max)

-- `StorageArcResponse::from`; the field `length_of` is `length`.
unfoldable pub arc_response : DhtArc → StorageArcResponse
arc_response empty = record { arc_type = "empty"; start = none; length_of = none }
arc_response (arc start end_loc) =
    if is_full start end_loc
    then record { arc_type = "full"; start = none; length_of = none }
    else record { arc_type = "arc"; start = some start; length_of = some end_loc }

unfoldable pub peer_response : AgentInfo → PeerInfoResponse
peer_response info = record {
  agent_id = info.agent;
  space_id = info.space;
  created_at = info.created_at;
  expires_at = info.expires_at;
  is_tombstone = info.is_tombstone;
  url = info.url;
  storage_arc = arc_response info.storage_arc;
}

abbrev pub responses : List AgentInfo → List PeerInfoResponse
responses [] = []
responses (info ∷ infos) = peer_response info ∷ responses infos

-- Whether a peer holds the full arc.
abbrev pub has_full_arc : AgentInfo → Bool
has_full_arc info = elim info.storage_arc [
  | empty ↦ false
  | arc start end_loc ↦ is_full start end_loc
]

abbrev pub count_full : List AgentInfo → ℕ
count_full [] = 0
count_full (info ∷ infos) =
    let rest = count_full infos in if has_full_arc info then 1 + rest else rest

-- The peers of a space, none if it does not exist or its store fails.
abbrev pub peers_in : KitsuneApi → SpaceId → List AgentInfo
peers_in k space_id = elim (k.space_if_exists space_id) [
  | none ↦ []
  | some space ↦ elim (k.all_peers space) [ err e ↦ [] | ok peers ↦ peers ]
]

-- The loop over the spaces: the peers, and those with full arcs.
abbrev pub count_peers : KitsuneApi → List SpaceId → ℕ × ℕ
count_peers k [] = (0, 0)
count_peers k (space_id ∷ spaces) =
    let peers = peers_in k space_id in
    let rest = count_peers k spaces in (length peers + rest.0, count_full peers + rest.1)

abbrev pub count_blocked : KitsuneApi → ℕ
count_blocked k = elim k.transport [
  | err e ↦ 0
  | ok transport ↦ elim (k.dump_network_stats transport) [
    | err e ↦ 0
    | ok stats ↦ length stats.blocked_message_counts
  ]
]

-- The four counts.
abbrev pub status_counts : Option KitsuneApi → ℕ × ℕ × ℕ × ℕ
status_counts none = (0, 0, 0, 0)
status_counts (some k) =
    let peers = count_peers k k.list_spaces in
    (peers.0, length k.list_spaces, peers.1, count_blocked k)

unfoldable pub get_network_status : KitsuneState → NetworkStatus
get_network_status state =
    let found = status_counts state.kitsune in
    record {
      connected = state.enabled && is_some state.kitsune;
      bootstrap_url = state.bootstrap_url;
      relay_url = state.relay_url;
      total_peers = found.0;
      active_spaces = found.1;
      full_arc_peers = found.2;
      blocked_peers = found.3;
      ready = ltb 0 found.2 && (found.3 == 0);
    }

abbrev pub peers_of_all : KitsuneApi → List SpaceId → List PeerInfoResponse
peers_of_all k [] = []
peers_of_all k (space_id ∷ spaces) = responses (peers_in k space_id) ++ peers_of_all k spaces

unfoldable pub get_all_peers : KitsuneState → List PeerInfoResponse
get_all_peers state = elim state.kitsune [ none ↦ [] | some k ↦ peers_of_all k k.list_spaces ]

-- `.map(|p| p.len()).unwrap_or(0)`
abbrev pub count_or_zero : {A : Type 0} → Fallible (List A) → ℕ
count_or_zero (ok items) = length items
count_or_zero (err e) = 0

-- `.map_err(|e| LinkerError::Internal(e.to_string()))`
abbrev pub or_internal : {A : Type 0} → Fallible A → LinkerResult A
or_internal (ok a) = done a
or_internal (err e) = failure (internal e)

-- The space of an id that exists.
abbrev pub existing : String → Option ℕ → LinkerResult ℕ
existing space_id_str none = failure (not_found (with_error "Space not found: " space_id_str))
existing space_id_str (some space) = done space

-- The URL-safe base64 of the library is the argument.
module _ (b64_url_decode : String → Fallible (List ℕ)) where
  unfoldable pub parse_space_id : String → LinkerResult SpaceId
  parse_space_id s = elim (b64_url_decode s) [
    | err e ↦ failure (invalid_request (with_error "Invalid space ID: " e))
    | ok bytes ↦ done bytes
  ]

  -- What the three routes of a space share: the id, the answer without kitsune2, and the space.
  abbrev pub with_space :
      {A : Type 0} → A → (KitsuneApi → ℕ → LinkerResult A) → String → KitsuneState → LinkerResult A
  with_space absent answer space_id_str state = do
    space_id ← parse_space_id space_id_str
    elim state.kitsune [
      | none ↦ done absent
      | some k ↦ do space ← existing space_id_str (k.space_if_exists space_id); answer k space
    ]

  unfoldable pub get_space_status : String → KitsuneState → LinkerResult SpaceStatusResponse
  unfolding parse_space_id
  get_space_status space_id_str =
      with_space (record { space_id = space_id_str; local_agents = 0; peer_count = 0 })
        (λ k space. done (record {
          space_id = space_id_str;
          local_agents = count_or_zero (k.local_agents space);
          peer_count = count_or_zero (k.all_peers space);
        }))
        space_id_str

  unfoldable pub get_space_peers : String → KitsuneState → LinkerResult (List PeerInfoResponse)
  unfolding parse_space_id
  get_space_peers space_id_str =
      with_space [] (λ k space. or_internal (k.all_peers space) >>= λ peers. done (responses peers))
        space_id_str

  unfoldable pub get_local_agents : String → KitsuneState → LinkerResult (List ℕ)
  unfolding parse_space_id
  get_local_agents space_id_str =
      with_space [] (λ k space. or_internal (k.local_agents space)) space_id_str

abbrev pub empty_stats : ApiTransportStats
empty_stats = record {
  transport_stats = record { backend = "tx5"; peer_urls = []; connections = [] };
  blocked_message_counts = [];
}

unfoldable pub get_transport_stats : KitsuneState → LinkerResult ApiTransportStats
get_transport_stats state = elim state.kitsune [
  | none ↦ done empty_stats
  | some k ↦ do transport ← or_internal k.transport; or_internal (k.dump_network_stats transport)
]
