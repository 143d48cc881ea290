-- ===== src/Gateway/Publish.antt =====
-- src/gateway_kitsune.rs: which peers `publish_ops` reaches, and what it counts.
use h2hc_linker.Base.{
  ℕ, ◌≡◌, ◌∙◌, true, false, List, [], ◌∷◌, some, arith, nat_eq, nat_beq_iff, ◌⊎◌, inl, inr,
  Option-cases,
}
use h2hc_linker.Base.Lists.{length, contains, collect_set, contains-collect_set}
use h2hc_linker.Ids.{DnaHash}
use h2hc_linker.Host.{Fallible, ok, Fallible-cases}
use h2hc_linker.Kitsune.{DynSpace, Url, OpId, PeerInfo, Kitsune}
use h2hc_linker.Gateway.{
  GatewayKitsune, get_or_create_space, live_urls, is_ok, published_to, publish_ops, usize_max,
}

-- A peer of the list that is no tombstone and has this URL.
abbrev pub Reachable : Url → List PeerInfo → Type 0
Reachable url [] = ⊥
Reachable url (info ∷ infos) =
    ((info.url ≡ some url) × (info.is_tombstone ≡ false)) ⊎ Reachable url infos

contains-live_urls :
    (url : Url) (infos : List PeerInfo)
    → contains (live_urls infos) url ≡ true
    → Reachable url infos
contains-live_urls url [] h = absurd (cc)
contains-live_urls url (info ∷ infos) h = elim (Option-cases info.url) [
  | inl e ↦ inr (contains-live_urls url infos (ground (arith, e, h)))
  | inr (u, e) ↦ ground (arith, e, h, contains-live_urls url infos, nat_beq_iff u url)
]

live_urls_complete :
    (url : Url) (infos : List PeerInfo)
    → Reachable url infos
    → contains (live_urls infos) url ≡ true
live_urls_complete url [] h = absurd h
live_urls_complete url (info ∷ infos) (inl (e, n)) = ground (arith, e, n, nat_beq_iff url url)
live_urls_complete url (info ∷ infos) (inr h) = ground (arith, live_urls_complete url infos h)

published_to_ok :
    (publish : Url → Fallible (Unit {0})) (urls : List Url) (url : Url)
    → contains (published_to publish urls) url ≡ true
    → (contains urls url ≡ true) × (is_ok (publish url) ≡ true)
published_to_ok publish [] url h = absurd (cc)
published_to_ok publish (u ∷ urls) url h =
    ground (arith, published_to_ok publish urls url, nat_beq_iff u url)

published_to_complete :
    (publish : Url → Fallible (Unit {0})) (urls : List Url) (url : Url)
    → contains urls url ≡ true
    → is_ok (publish url) ≡ true
    → contains (published_to publish urls) url ≡ true
published_to_complete publish [] url h p = absurd (cc)
published_to_complete publish (u ∷ urls) url h p =
    ground (arith, published_to_complete publish urls url, nat_beq_iff u url)

-- The URLs of the list are distinct.
abbrev pub Distinct : List Url → Type 0
Distinct [] = Unit
Distinct (u ∷ us) = (contains us u ≡ false) × Distinct us

collect_set-Distinct : (us : List Url) → Distinct (collect_set us)
collect_set-Distinct [] = tt
collect_set-Distinct (u ∷ us) = ground (arith, collect_set-Distinct us)

published_to-Distinct :
    (publish : Url → Fallible (Unit {0})) (us : List Url)
    → Distinct us
    → Distinct (published_to publish us)
published_to-Distinct publish [] d = tt
published_to-Distinct publish (u ∷ us) d =
    ground (arith, published_to-Distinct publish us d.1, published_to_ok publish us u)

-- The URLs that `publish_ops` counts are distinct, each is the URL of a responsive peer near the
-- location that is no tombstone, and took the ops; and every such URL is counted.
pub publish_ops_lem :
    (k : Kitsune) (d : DnaHash) (ops : List OpId) (loc n : ℕ) (g : GatewayKitsune)
    → (publish_ops k d ops loc g).0 ≡ ok n
    → (space : DynSpace) × (infos : List PeerInfo) × (urls : List Url) × ((get_or_create_space k d
          g).0
        ≡ ok space)
      × (k.responsive_agents space loc usize_max ≡ ok infos)
      × (n ≡ length urls)
      × Distinct urls
      × ((url : Url)
          → contains urls url ≡ true
          → Reachable url infos × (is_ok (k.publish_ops space ops url) ≡ true))
      × ((url : Url)
          → Reachable url infos
          → is_ok (k.publish_ops space ops url) ≡ true
          → contains urls url ≡ true)
unfolding publish_ops
publish_ops_lem k d ops loc n g h = elim (Fallible-cases (get_or_create_space k d g).0) [
  | inr (m, e) ↦ absurd (ground (arith, e, h))
  | inl (space, e) ↦ elim (Fallible-cases (k.responsive_agents space loc usize_max)) [
    | inr (m, p) ↦ absurd (ground (arith, e, p, h))
    | inl (infos, p) ↦
        let publish = k.publish_ops space ops in
        let urls = collect_set (live_urls infos) in
        (
          space,
          infos,
          published_to publish urls,
          e,
          p,
          ground (arith, e, p, h),
          published_to-Distinct publish urls (collect_set-Distinct (live_urls infos)),
          λ url m.
              let (there, took) = published_to_ok publish urls url m in
              (
                contains-live_urls url infos
                    (ground (arith, contains-collect_set (live_urls infos) url, there)),
                took,
              ),
          λ url there took.
              published_to_complete publish urls url
                (contains-collect_set (live_urls infos) url ∙ live_urls_complete url infos there)
                took,
        )
  ]
]
