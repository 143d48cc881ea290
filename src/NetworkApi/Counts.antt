-- ===== src/NetworkApi/Counts.antt =====
-- src/routes/kitsune.rs: the counts of the status against the list of the peers.
use h2hc_linker.Base.{
  ℕ, ◌+◌, ◌≡◌, refl, false, List, [], ◌∷◌, ◌++◌, Option, none, some, arith, if◌then◌else◌, ltb,
  ◌&&◌, ◌==◌, nat_eq, string_eq, inl, inr, Bool-cases,
}
use h2hc_linker.Base.Lists.{length}
use h2hc_linker.Host.{Fallible-cases}
use h2hc_linker.Error.{LinkerResult, done, failure}
use h2hc_linker.NetworkApi.{
  SpaceId, DhtArc, empty, arc, AgentInfo, KitsuneApi, KitsuneState, PeerInfoResponse, is_full,
  arc_response, peer_response, responses, count_full, peers_in, count_peers, peers_of_all,
  get_network_status, get_all_peers, ApiTransportStats, count_blocked, get_transport_stats,
}

-- How many of the peers of a list are shown with a full arc.
abbrev pub shown_full : List PeerInfoResponse → ℕ
shown_full [] = 0
shown_full (p ∷ ps) =
    let rest = shown_full ps in if p.storage_arc.arc_type == "full" then 1 + rest else rest

length-append : {A : Type 0} (xs ys : List A) → length (xs ++ ys) ≡ length xs + length ys
length-append [] ys = omega arith
length-append (x ∷ xs) ys = ground (arith, length-append xs ys)

shown_full-append :
    (ps rest : List PeerInfoResponse) → shown_full (ps ++ rest) ≡ shown_full ps + shown_full rest
shown_full-append [] rest = omega arith
shown_full-append (p ∷ ps) rest = ground (arith, shown_full-append ps rest)

type_of_response :
    (a : DhtArc)
    → ((arc_response a).arc_type == "full")
      ≡ elim a [ empty ↦ false | arc start end_loc ↦ is_full start end_loc ]
unfolding arc_response
type_of_response empty = refl
type_of_response (arc start end_loc) = elim (Bool-cases (is_full start end_loc)) [
  | inl e ↦ rw e refl
  | inr e ↦ rw e refl
]

responses_count :
    (infos : List AgentInfo)
    → (length (responses infos) ≡ length infos) × (shown_full (responses infos) ≡ count_full infos)
unfolding peer_response
responses_count [] = (refl, refl)
responses_count (info ∷ infos) =
    let (all, full) = responses_count infos in
    (ground (arith, all), rw (type_of_response info.storage_arc) (rw full refl))

counted :
    (k : KitsuneApi) (spaces : List SpaceId)
    → let peers = peers_of_all k spaces in
      ((count_peers k spaces).0 ≡ length peers) × ((count_peers k spaces).1 ≡ shown_full peers)
counted k [] = (refl, refl)
counted k (space_id ∷ spaces) =
    let here = peers_in k space_id in
    let (all, full) = counted k spaces in
    let (n, m) = responses_count here in
    let apart = length-append (responses here) (peers_of_all k spaces) in
    let apart_full = shown_full-append (responses here) (peers_of_all k spaces) in
    (omega (arith, all, n, apart), omega (arith, full, m, apart_full))

-- How many peers the route of the statistics shows with blocked messages.
abbrev pub shown_blocked : LinkerResult ApiTransportStats → ℕ
shown_blocked (failure e) = 0
shown_blocked (done stats) = length stats.blocked_message_counts

blocked-shown :
    (k : KitsuneApi) (state : KitsuneState)
    → state.kitsune ≡ some k
    → count_blocked k ≡ shown_blocked (get_transport_stats state)
unfolding get_transport_stats
blocked-shown k state e = elim (Fallible-cases k.transport) [
  | inr (x, t) ↦ ground (arith, e, t)
  | inl (transport, t) ↦ elim (Fallible-cases (k.dump_network_stats transport)) [
    | inr (x, d) ↦ ground (arith, e, t, d)
    | inl (stats, d) ↦ ground (arith, e, t, d)
  ]
]

-- The status and the list of the peers agree in every state: the total is the length of the list,
-- the full-arc peers are those that the list shows as full, the blocked peers are those that the
-- route of the transport statistics shows, none if it fails, and the gateway is called ready exactly
-- if the list shows a full-arc peer and the statistics show no blocked one; without kitsune2 it is
-- neither connected nor ready.
pub get_network_status_lem :
    (state : KitsuneState)
    → let status = get_network_status state in
      let peers = get_all_peers state in
      (status.total_peers ≡ length peers)
      × (status.full_arc_peers ≡ shown_full peers)
      × (status.blocked_peers ≡ shown_blocked (get_transport_stats state))
      × (status.ready
          ≡ (ltb 0 (shown_full peers) && (shown_blocked (get_transport_stats state) == 0)))
      × (state.kitsune ≡ none → (status.connected ≡ false) × (status.ready ≡ false))
unfolding get_network_status get_all_peers get_transport_stats
get_network_status_lem state = go state.kitsune
  where
    go :
        (o : Option KitsuneApi)
        → let status = get_network_status (record state { kitsune = o }) in
          let peers = get_all_peers (record state { kitsune = o }) in
          (status.total_peers ≡ length peers)
          × (status.full_arc_peers ≡ shown_full peers)
          × (status.blocked_peers
              ≡ shown_blocked (get_transport_stats (record state { kitsune = o })))
          × (status.ready ≡ (
              ltb 0 (shown_full peers)
              && (shown_blocked (get_transport_stats (record state { kitsune = o })) == 0)))
          × (o ≡ none → (status.connected ≡ false) × (status.ready ≡ false))
    go none = (refl, refl, refl, refl, λ e. (ground arith, refl))
    go (some k) =
        let (all, full) = counted k k.list_spaces in
        let blocked = blocked-shown k (record state { kitsune = some k }) refl in
        (all, full, blocked, rw (full, blocked) refl, λ e. absurd (ground (arith, e)))
