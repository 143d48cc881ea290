-- ===== src/NetworkApi/Spaces.antt =====
-- src/routes/kitsune.rs: how the three routes of a space answer together.
use h2hc_linker.Base.{ℕ, String, ◌≡◌, refl, List, [], ◌∷◌, arith, ◌⊎◌, inl, inr, Option-cases}
use h2hc_linker.Base.Lists.{length}
use h2hc_linker.Host.{Fallible, ok, err, Fallible-cases}
use h2hc_linker.Error.{LinkerResult, done, failure, into_response, ◌>>=◌}
use h2hc_linker.NetworkApi.{
  AgentInfo, KitsuneState, SpaceStatusResponse, PeerInfoResponse, responses, count_or_zero,
  or_internal, parse_space_id, get_space_status, get_space_peers, get_local_agents,
}

-- A list that goes with its count: the count is its length, or 0 in place of an error of the
-- server.
abbrev pub Counted : {A : Type 0} → ℕ → LinkerResult (List A) → Type 0
Counted n (done items) = n ≡ length items
Counted n (failure e) = ((into_response e).0 ≡ 500) × (n ≡ 0)

-- The three answers together. A request that the status refuses is refused by the lists as well,
-- with the same error, of status 400 or 404.
abbrev pub Together :
    LinkerResult SpaceStatusResponse
    → LinkerResult (List PeerInfoResponse)
    → LinkerResult (List ℕ)
    → Type 0
Together (failure e) peers agents =
    (((into_response e).0 ≡ 400) ⊎ ((into_response e).0 ≡ 404))
    × (peers ≡ failure e)
    × (agents ≡ failure e)
Together (done status) peers agents =
    Counted status.peer_count peers × Counted status.local_agents agents

length-responses : (infos : List AgentInfo) → length (responses infos) ≡ length infos
length-responses [] = refl
length-responses (info ∷ infos) = ground (arith, length-responses infos)

peers-Counted :
    (r : Fallible (List AgentInfo))
    → Counted (count_or_zero r) (or_internal r >>= λ peers. done (responses peers))
peers-Counted (ok peers) = ground (arith, length-responses peers)
peers-Counted (err e) = (refl, refl)

agents-Counted : (r : Fallible (List ℕ)) → Counted (count_or_zero r) (or_internal r)
agents-Counted (ok agents) = refl
agents-Counted (err e) = (refl, refl)

module _ (b64_url_decode : String → Fallible (List ℕ)) where
  -- For one id and state, the status of a space and the lists of its peers and local agents go
  -- together: what the status refuses, the lists refuse with the same error, as malformed or not
  -- found; else each count of the status is the length of the list, or 0 where the list is an error
  -- of the server.
  pub space_routes-Together :
      (id : String) (state : KitsuneState)
      → Together
          (get_space_status b64_url_decode id state)
          (get_space_peers b64_url_decode id state)
          (get_local_agents b64_url_decode id state)
  unfolding get_space_status get_space_peers get_local_agents parse_space_id
  space_routes-Together id state = elim (Fallible-cases (b64_url_decode id)) [
    | inr (e, d) ↦ rw (parse_space_id, d) (inl refl, refl, refl)
    | inl (bytes, d) ↦ elim (Option-cases state.kitsune) [
      | inl off ↦ rw (parse_space_id, d) (rw off (refl, refl))
      | inr (k, on) ↦ elim (Option-cases (k.space_if_exists bytes)) [
        | inl gone ↦ rw (parse_space_id, d) (rw on (rw gone (inr refl, refl, refl)))
        | inr (space, there) ↦
            rw (parse_space_id, d)
              (rw on (
                rw there
                  (peers-Counted (k.all_peers space), agents-Counted (k.local_agents space))))
      ]
    ]
  ]
