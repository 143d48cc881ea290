-- ===== src/Query/Peers.antt =====
-- src/dht_query.rs: whom a query asks, and where a response goes.
use h2hc_linker.Base.{
  ℕ, ◌≤◌, ◌≡◌, ◌≢◌, true, false, List, [], ◌∷◌, none, some, arith, nat_eq, nat_beq_iff, ◌⊎◌, inl,
  inr, ==_refl, sym, subst,
}
use h2hc_linker.Base.Lists.{length}
use h2hc_linker.Base.Maps.{lookup, lookup-insert, lookup-remove, insert}
use h2hc_linker.Ids.{AgentPubKey}
use h2hc_linker.Host.{ok, Fallible-cases}
use h2hc_linker.Error.{done}
use h2hc_linker.Kitsune.{DynSpace, Url, PeerInfo, Kitsune}
use h2hc_linker.Query.{
  PendingResponder, PendingDhtResponses, register, route_response, peers_to_ask, take,
  get_peers_for_location, parallel_get_agents_count,
}

-- A peer of the list that covers the location, is no tombstone, and has this URL.
abbrev pub Covers : ℕ → AgentPubKey × Url → List PeerInfo → Type 0
Covers loc p [] = ⊥
Covers loc p (info ∷ infos) =
    ((info.agent ≡ p.0)
      × (info.url ≡ some p.1)
      × (info.is_tombstone ≡ false)
      × (info.storage_arc loc ≡ true))
    ⊎ Covers loc p infos

abbrev pub Member : {A : Type 0} → A → List A → Type 0
Member a [] = ⊥
Member a (x ∷ xs) = (x ≡ a) ⊎ Member a xs

length-take : {A : Type 0} (n : ℕ) (xs : List A) → length (take n xs) ≤ n
length-take n [] = omega arith
length-take ℕ.zero (x ∷ xs) = omega arith
length-take (ℕ.suc n) (x ∷ xs) = omega (arith, length-take n xs)

take-Member : {A : Type 0} (n : ℕ) (xs : List A) (a : A) → Member a (take n xs) → Member a xs
take-Member n [] a h = h
take-Member ℕ.zero (x ∷ xs) a h = absurd h
take-Member (ℕ.suc n) (x ∷ xs) a (inl e) = inl e
take-Member (ℕ.suc n) (x ∷ xs) a (inr h) = inr (take-Member n xs a h)

peers_to_ask-Covers :
    (loc : ℕ) (infos : List PeerInfo) (p : AgentPubKey × Url)
    → Member p (peers_to_ask loc infos)
    → Covers loc p infos
peers_to_ask-Covers loc [] p h = h
peers_to_ask-Covers loc (info ∷ infos) p h = ground (arith, h, peers_to_ask-Covers loc infos p)

-- A query asks at most three peers, and each of them is among the responsive peers near the
-- location, covers the location, is no tombstone, and is asked at its own URL.
pub asked_peers-Covers :
    (k : Kitsune) (space : DynSpace) (loc : ℕ) (agents : List (AgentPubKey × Url))
    → get_peers_for_location k space loc ≡ done agents
    → let asked = take parallel_get_agents_count agents in
      (length asked ≤ 3)
      × (infos : List PeerInfo) × (k.responsive_agents space loc 1024 ≡ ok infos)
      × ((p : AgentPubKey × Url) → Member p asked → Covers loc p infos)
unfolding get_peers_for_location
asked_peers-Covers k space loc agents h =
    elim (Fallible-cases (k.responsive_agents space loc 1024)) [
      | inr (e, r) ↦ absurd (ground (arith, r, h))
      | inl (infos, r) ↦
          let same : peers_to_ask loc infos ≡ agents = ground (arith, r, h) in
          (
            length-take 3 agents,
            infos,
            r,
            λ p m.
                peers_to_ask-Covers loc infos p
                  (subst (λ l. Member p l) (sym same) (take-Member 3 agents p m)),
          )
    ]

-- A response with the id of a registered request goes to the responder of this request; the same
-- id is routed nowhere a second time; and every other pending request keeps its responder.
pub route_response-register :
    (id : ℕ) (responder : PendingResponder) (p : PendingDhtResponses)
    → let (r, p') = route_response (some id) (register id responder p) in
      (r ≡ (true, some responder))
      × ((route_response (some id) p').0 ≡ (false, none))
      × ((j : ℕ) → j ≢ id → lookup j p'.inner ≡ lookup j p.inner)
unfolding route_response register
route_response-register id responder p =
    let at = lookup-insert id id responder p.inner in
    let out = λ (j : ℕ). lookup-remove id j (insert id responder p.inner) in
    (
      ground (arith, at, ==_refl id),
      ground (arith, out id, ==_refl id, lookup-remove id id (insert id responder p.inner)),
      λ j ne. ground (arith, out j, lookup-insert id j responder p.inner, nat_beq_iff id j, ne),
    )
