-- ===== src/Query.antt =====
-- src/dht_query.rs: the pending requests to peers, the choice of the peers to ask, and the choice
-- among their answers. The exchange with one peer is an argument (`ask`): it runs in a task of its
-- own.
pub mod Answers
pub mod Peers
use h2hc_linker.Base.{
  ℕ, suc, String, Bool, true, false, not, ◌&&◌, ◌||◌, List, [], ◌∷◌, Option, none, some,
  if◌then◌else◌, is_some, nat_eq,
}
use h2hc_linker.Base.Maps.{Map, lookup, insert, remove}
use h2hc_linker.Ids.{AgentPubKey, DnaHash}
use h2hc_linker.Host.{Fallible, ok, err, with_error}
use h2hc_linker.Error.{LinkerError, internal, LinkerResult, done, failure}
use h2hc_linker.Kitsune.{DynSpace, Url, PeerInfo, Kitsune}
use h2hc_linker.Dht.Wire.{WireOps, entry_ops, record_ops, warrant_ops, WireLinkOps}
use h2hc_linker.Gateway.{GatewayKitsune, get_or_create_space}

-- The sending end of a oneshot channel, as a number.
abbrev pub PendingResponder : Type 0
PendingResponder = ℕ

pub record PendingDhtResponses : Type 0 where
  pub inner : Map ℕ PendingResponder

unfoldable pub register : ℕ → PendingResponder → PendingDhtResponses → PendingDhtResponses
register msg_id responder p = record { inner = insert msg_id responder p.inner }

unfoldable pub remove_pending : ℕ → PendingDhtResponses → PendingDhtResponses
remove_pending msg_id p = record { inner = remove msg_id p.inner }

-- With the responder that the message is sent to; `none` for a message without id.
unfoldable pub route_response :
    Option ℕ → PendingDhtResponses → (Bool × Option PendingResponder) × PendingDhtResponses
route_response none p = ((false, none), p)
route_response (some msg_id) p =
    let responder = lookup msg_id p.inner in
    ((is_some responder, responder), record { inner = remove msg_id p.inner })

abbrev pub is_empty : {A : Type 0} → List A → Bool
is_empty [] = true
is_empty (a ∷ rest) = false

abbrev pub is_wire_ops_empty : WireOps → Bool
is_wire_ops_empty (entry_ops ops) =
    is_empty ops.creates && is_empty ops.deletes && is_empty ops.updates && not (is_some ops.entry)
is_wire_ops_empty (record_ops ops) =
    not (is_some ops.action)
    && is_empty ops.deletes
    && is_empty ops.updates
    && not (is_some ops.entry)
is_wire_ops_empty warrant_ops = false

-- How the task for one peer ends.
pub data Task (A : Type 0) : Type 0 where
  joined : LinkerResult (Option A) → Task A
  join_error : Task A

abbrev pub parallel_get_agents_count : ℕ
parallel_get_agents_count = 3

abbrev pub take {ℓ} : {A : Type ℓ} → ℕ → List A → List A
take n [] = []
take ℕ.zero (x ∷ xs) = []
take (ℕ.suc n) (x ∷ xs) = x ∷ take n xs

-- An error is kept as the last result only if there is none yet.
abbrev pub keep_error :
    {A : Type 0} → LinkerError → Option (LinkerResult (Option A)) → Option (LinkerResult (Option A))
keep_error e none = some (failure e)
keep_error e (some r) = some r

abbrev pub unwrap_last : {A : Type 0} → Option (LinkerResult (Option A)) → LinkerResult (Option A)
unwrap_last none = done none
unwrap_last (some r) = r

-- The loop over the tasks, with `last_result`.
abbrev pub await_all :
    {A : Type 0}
    → (A → Bool)
    → List (Task A)
    → Option (LinkerResult (Option A))
    → LinkerResult (Option A)
await_all good [] last = unwrap_last last
await_all good (join_error ∷ rest) last = await_all good rest last
await_all good (joined (failure e) ∷ rest) last = await_all good rest (keep_error e last)
await_all good (joined (done none) ∷ rest) last = await_all good rest (some (done none))
await_all good (joined (done (some a)) ∷ rest) last =
    let later = await_all good rest (some (done (some a))) in
    if good a then done (some a) else later

abbrev pub can_ask : ℕ → PeerInfo → Bool
can_ask loc info = is_some info.url && not info.is_tombstone && info.storage_arc loc

abbrev add_peer : PeerInfo → Option Url → List (AgentPubKey × Url) → List (AgentPubKey × Url)
add_peer info none rest = rest
add_peer info (some url) rest = (info.agent, url) ∷ rest

abbrev pub peers_to_ask : ℕ → List PeerInfo → List (AgentPubKey × Url)
peers_to_ask loc [] = []
peers_to_ask loc (info ∷ infos) =
    let rest = peers_to_ask loc infos in
    if can_ask loc info then add_peer info info.url rest else rest

unfoldable pub get_peers_for_location :
    Kitsune → DynSpace → ℕ → LinkerResult (List (AgentPubKey × Url))
get_peers_for_location k space loc = elim (k.responsive_agents space loc 1024) [
  | err e ↦ failure (internal (with_error "Failed to get peers: " e))
  | ok agents ↦ done (peers_to_ask loc agents)
]

abbrev pub ask_all :
    {A : Type 0} → (AgentPubKey × Url → Task A) → List (AgentPubKey × Url) → List (Task A)
ask_all ask [] = []
ask_all ask (p ∷ ps) = ask p ∷ ask_all ask ps

-- The common body of the queries, from the space on.
abbrev pub query_space :
    {A : Type 0}
    → Kitsune
    → (A → Bool)
    → (AgentPubKey × Url → Task A)
    → ℕ
    → DynSpace
    → LinkerResult (Option A)
query_space k good ask loc space = elim (get_peers_for_location k space loc) [
  | failure e ↦ failure e
  | done agents ↦ await_all good (ask_all ask (take parallel_get_agents_count agents)) none
]

abbrev pub query_in :
    {A : Type 0}
    → Kitsune
    → (A → Bool)
    → (DynSpace → AgentPubKey × Url → Task A)
    → ℕ
    → Fallible DynSpace × GatewayKitsune
    → LinkerResult (Option A) × GatewayKitsune
query_in k good ask loc (err e, g) = (failure (internal e), g)
query_in k good ask loc (ok space, g) = (query_space k good (ask space) loc space, g)

unfoldable pub query_peers :
    {A : Type 0}
    → Kitsune
    → (A → Bool)
    → (DynSpace → AgentPubKey × Url → Task A)
    → DnaHash
    → ℕ
    → GatewayKitsune
    → LinkerResult (Option A) × GatewayKitsune
unfolding get_or_create_space get_peers_for_location
query_peers k good ask dna_hash loc g = query_in k good ask loc (get_or_create_space k dna_hash g)

-- `loc` is the location of the hash.
unfoldable pub get :
    Kitsune
    → (DynSpace → AgentPubKey × Url → Task WireOps)
    → DnaHash
    → ℕ
    → GatewayKitsune
    → LinkerResult (Option WireOps) × GatewayKitsune
unfolding query_peers
get k ask = query_peers k (λ ops. not (is_wire_ops_empty ops)) ask

unfoldable pub get_links :
    Kitsune
    → (DynSpace → AgentPubKey × Url → Task WireLinkOps)
    → DnaHash
    → ℕ
    → GatewayKitsune
    → LinkerResult (Option WireLinkOps) × GatewayKitsune
unfolding query_peers
get_links k ask = query_peers k (λ ops. not (is_empty ops.creates)) ask

unfoldable pub count_links :
    Kitsune
    → (DynSpace → AgentPubKey × Url → Task ℕ)
    → DnaHash
    → ℕ
    → GatewayKitsune
    → LinkerResult (Option ℕ) × GatewayKitsune
unfolding query_peers
count_links k ask = query_peers k (λ count. true) ask

-- Whether the status of the response is `ChainStatus::Empty`.
pub record AgentActivityResponse : Type 0 where
  pub is_empty : Bool

unfoldable pub get_agent_activity :
    Kitsune
    → (DynSpace → AgentPubKey × Url → Task AgentActivityResponse)
    → DnaHash
    → ℕ
    → GatewayKitsune
    → LinkerResult (Option AgentActivityResponse) × GatewayKitsune
unfolding query_peers
get_agent_activity k ask = query_peers k (λ response. not response.is_empty) ask

pub data MustGetAgentActivityResponse : Type 0 where
  activity other_response : MustGetAgentActivityResponse

abbrev pub is_activity : MustGetAgentActivityResponse → Bool
is_activity activity = true
is_activity other_response = false

unfoldable pub must_get_agent_activity :
    Kitsune
    → (DynSpace → AgentPubKey × Url → Task MustGetAgentActivityResponse)
    → DnaHash
    → ℕ
    → GatewayKitsune
    → LinkerResult (Option MustGetAgentActivityResponse) × GatewayKitsune
unfolding query_peers
must_get_agent_activity k ask = query_peers k is_activity ask
