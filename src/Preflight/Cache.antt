-- ===== src/Preflight/Cache.antt =====
-- src/wire_preflight.rs: what the cache holds after agents are published, and what a peer that runs
-- the same check makes of it.
use h2hc_linker.Base.{
  ℕ, String, ◌≡◌, refl, Bool, not, ◌&&◌, List, [], ◌∷◌, ◌++◌, Option, none, some, if◌then◌else◌,
  ltb, ◌==◌, nat_eq, nat_beq_iff, arith, Bool-cases, ◌⊎◌, inl, inr, subst,
}
use h2hc_linker.Base.Lists.{filter}
use h2hc_linker.Base.Maps.{keep_if}
use h2hc_linker.Ids.{AgentPubKey, DnaHash}
use h2hc_linker.Host.{ok, err, Fallible-cases}
use h2hc_linker.Preflight.{
  WirePreflightMessage, AgentInfoSigned, Codec, PreflightCache, default, new, is_kept, encoded,
  update_agents, write_preflight, add_agent, preflight_gather_outgoing, preflight_validate_incoming,
}

-- The info of an agent in a space.
abbrev pub is_of : AgentPubKey → DnaHash → AgentInfoSigned → Bool
is_of k d info = info.agent == k && info.space == d

abbrev pub info_of : AgentPubKey → DnaHash → List AgentInfoSigned → Option AgentInfoSigned
info_of k d [] = none
info_of k d (info ∷ infos) =
    let rest = info_of k d infos in if is_of k d info then some info else rest

-- One info at most of an agent in a space.
abbrev pub Distinct : List AgentInfoSigned → Type 0
Distinct [] = Unit
Distinct (info ∷ infos) = (info_of info.agent info.space infos ≡ none) × Distinct infos

abbrev pub is_fresh : ℕ → AgentInfoSigned → Bool
is_fresh now info = not (ltb info.expires_at now)

info_of-push :
    (k d now : ℕ) (info : AgentInfoSigned) (infos : List AgentInfoSigned)
    → Distinct infos
    → info_of k d (filter (is_kept now info) infos ++ info ∷ [])
      ≡ (if is_of k d info then some info else keep_if (is_fresh now) (info_of k d infos))
info_of-push k d now info [] u = refl
info_of-push k d now info (i ∷ infos) u =
    let rest = info_of-push k d now info infos u.1 in
    elim (Bool-cases (is_of k d i)) [
      | inr q ↦ ground (arith, q, rest)
      | inl q ↦
          let same_k : i.agent ≡ k = ground (arith, q, nat_beq_iff i.agent k) in
          let same_d : i.space ≡ d = ground (arith, q, nat_beq_iff i.space d) in
          let alone : info_of k d infos ≡ none =
            subst (λ x. info_of x d infos ≡ none) same_k
              (subst (λ y. info_of i.agent y infos ≡ none) same_d u.0) in
          ground (
            arith,
            q,
            rest,
            alone,
            same_k,
            same_d,
            nat_beq_iff i.agent info.agent,
            nat_beq_iff i.space info.space,
            nat_beq_iff info.agent k,
            nat_beq_iff info.space d,
          )
    ]

push-Distinct :
    (now : ℕ) (info : AgentInfoSigned) (infos : List AgentInfoSigned)
    → Distinct infos
    → Distinct (filter (is_kept now info) infos ++ info ∷ [])
push-Distinct now info [] u = (refl, tt)
push-Distinct now info (i ∷ infos) u =
    let rest = push-Distinct now info infos u.1 in
    let there = info_of-push i.agent i.space now info infos u.1 in
    elim (Bool-cases (is_kept now info i)) [
      | inr q ↦ rw q rest
      | inl q ↦ rw q (
        ground (
          arith,
          q,
          there,
          u.0,
          nat_beq_iff i.agent info.agent,
          nat_beq_iff info.agent i.agent,
          nat_beq_iff i.space info.space,
          nat_beq_iff info.space i.space,
        ),
        rest,
      )
    ]

-- The texts are those of the agents that can be encoded, in their order.
abbrev pub TextsOf : Codec → List AgentInfoSigned → List String → Type 0
TextsOf codec [] texts = texts ≡ []
TextsOf codec (info ∷ infos) texts =
    ((e : String) × (codec.encode_agent info ≡ err e) × TextsOf codec infos texts)
    ⊎ ((text : String) × (rest : List String) × (codec.encode_agent info ≡ ok text)
        × (texts ≡ text ∷ rest)
        × TextsOf codec infos rest)

encoded-TextsOf :
    (codec : Codec) (infos : List AgentInfoSigned) → TextsOf codec infos (encoded codec infos)
encoded-TextsOf codec [] = refl
encoded-TextsOf codec (info ∷ infos) = elim (Fallible-cases (codec.encode_agent info)) [
  | inr (x, e) ↦ rw e (inl (x, refl, encoded-TextsOf codec infos))
  | inl (text, e) ↦ rw e (inr (text, encoded codec infos, refl, refl, encoded-TextsOf codec infos))
]

module _ (codec : Codec) where
  -- The bytes are those of a message of this version, and no agent is there twice.
  pub record IsValid (cache : PreflightCache) : Type 0 where
    pub current : cache.compat ≡ default
    pub texts : List String
    pub presented : codec.encode (record { compat = default; agents = texts }) ≡ ok cache.preflight
    pub distinct : Distinct cache.agents

  pub new-IsValid : (cache : PreflightCache) → new codec ≡ some cache → IsValid cache
  unfolding new
  new-IsValid cache h =
      elim (Fallible-cases (codec.encode (record { compat = default; agents = [] }))) [
        | inr (x, e) ↦ absurd (ground (arith, e, h))
        | inl (bytes, e) ↦
            let same : record { preflight = bytes; compat = default; agents = [] } ≡ cache =
              ground (arith, e, h) in
            subst IsValid same (record { current = refl; texts = []; presented = e; distinct = tt })
      ]

  -- After an agent is published the cache holds its info under its key; of the others it keeps
  -- those that have not expired, one at most for an agent in a space; and the bytes for the peers
  -- are those of a message of this version, and if it can be encoded, of that with the texts of all
  -- the agents of the cache which can be encoded.
  pub add_agent_lem :
      (now : ℕ) (info : AgentInfoSigned) (cache : PreflightCache)
      → IsValid cache
      → IsValid (add_agent codec now info cache)
        × ((k : AgentPubKey) (d : DnaHash)
            → info_of k d (add_agent codec now info cache).agents ≡ (
                if is_of k d info
                then some info
                else keep_if (is_fresh now) (info_of k d cache.agents)))
        × ((texts : List String) × TextsOf codec (add_agent codec now info cache).agents texts
            × ((bytes : List ℕ)
                → codec.encode (record { compat = default; agents = texts }) ≡ ok bytes
                → (add_agent codec now info cache).preflight ≡ bytes))
  unfolding add_agent update_agents write_preflight
  add_agent_lem now info cache v =
      let agents = filter (is_kept now info) cache.agents ++ info ∷ [] in
      let texts = encoded codec agents in
      rw v.current
        (elim (Fallible-cases (codec.encode (record { compat = default; agents = texts }))) [
          | inr (x, e) ↦
              rw (e, write_preflight)
                (
                  record {
                    current = refl;
                    texts = v.texts;
                    presented = v.presented;
                    distinct = push-Distinct now info cache.agents v.distinct;
                  },
                  λ k d. info_of-push k d now info cache.agents v.distinct,
                  (texts, encoded-TextsOf codec agents, λ bytes h. absurd (ground (arith, e, h))),
                )
          | inl (bytes, e) ↦
              rw (e, write_preflight)
                (
                  record {
                    current = refl;
                    texts = texts;
                    presented = e;
                    distinct = push-Distinct now info cache.agents v.distinct;
                  },
                  λ k d. info_of-push k d now info cache.agents v.distinct,
                  (texts, encoded-TextsOf codec agents, λ other h. ground (arith, e, h)),
                )
        ])

  -- The cache after agents were published, the latest first.
  unfoldable pub published : List (ℕ × AgentInfoSigned) → PreflightCache → PreflightCache
  published [] cache = cache
  published ((now, info) ∷ earlier) cache = add_agent codec now info (published earlier cache)

  published-IsValid :
      (infos : List (ℕ × AgentInfoSigned)) (cache : PreflightCache)
      → IsValid cache
      → IsValid (published infos cache)
  unfolding published
  published-IsValid [] cache v = v
  published-IsValid ((now, info) ∷ earlier) cache v =
      (add_agent_lem now info (published earlier cache) (published-IsValid earlier cache v)).0

  -- Whatever agents were published, what a gateway presents passes the check of another gateway, if
  -- messages are read back from their bytes.
  pub outgoing_validated :
      (peer_url : ℕ) (infos : List (ℕ × AgentInfoSigned)) (cache : PreflightCache)
      → ((m : WirePreflightMessage) (bytes : List ℕ)
          → codec.encode m ≡ ok bytes
          → codec.decode bytes ≡ ok m)
      → new codec ≡ some cache
      → (bytes : List ℕ) × (preflight_gather_outgoing codec (published infos cache) ≡ ok bytes)
        × (preflight_validate_incoming codec peer_url bytes ≡ ok tt)
  unfolding preflight_gather_outgoing preflight_validate_incoming
  outgoing_validated peer_url infos cache reads h =
      let v = published-IsValid infos cache (new-IsValid cache h) in
      let read =
        reads (record { compat = default; agents = v.texts }) (published infos cache).preflight
          v.presented in
      ((published infos cache).preflight, refl, rw (read, preflight_validate_incoming) refl)
