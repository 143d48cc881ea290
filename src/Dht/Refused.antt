-- ===== src/Dht/Refused.antt =====
-- src/routes/dht.rs: a malformed request asks no peer.
use h2hc_linker.Base.{ℕ, ◌≡◌, refl, some, arith}
use h2hc_linker.Host.{Host}
use h2hc_linker.Error.{LinkerError, failure, into_response}
use h2hc_linker.Kitsune.{Kitsune}
use h2hc_linker.Gateway.{GatewayKitsune}
use h2hc_linker.Dht.{Hasher, LinksQuery, CreateLink, type_query}
use h2hc_linker.Dht.Routes.{
  HashHost, RecordPath, LinksPath, record_request, links_request, parse_dna_hash,
  parse_any_dht_hash, parse_any_linkable_hash,
}
use h2hc_linker.Dht.Handlers.{Asks, dht_get_record, dht_get_details, dht_get_links, dht_count_links}

module _ (host : Host) (hashes : HashHost) where
  record_request_malformed :
      (path : RecordPath) (e : LinkerError)
      → record_request host hashes path ≡ failure e
      → (into_response e).0 ≡ 400
  unfolding record_request parse_dna_hash parse_any_dht_hash
  record_request_malformed path e h = ground (arith, h)

  links_request_malformed :
      (path : LinksPath) (query : LinksQuery) (e : LinkerError)
      → links_request host hashes path query ≡ failure e
      → (into_response e).0 ≡ 400
  unfolding links_request parse_dna_hash parse_any_linkable_hash type_query
  links_request_malformed path query e h = ground (arith, h)

module _ (host : Host) (hashes : HashHost) (hasher : Hasher) (to_hash : CreateLink → ℕ)
    (k : Kitsune) (asks : Asks) where
  -- A record or link request that does not parse (a bad hash or tag, or a link type without a zome)
  -- is answered by its error, of status 400, by both routes that take it, whatever the peers would
  -- have said, and the gateway is left alone.
  pub malformed_refused :
      (g : GatewayKitsune)
      → ((path : RecordPath) (e : LinkerError)
          → record_request host hashes path ≡ failure e
          → (dht_get_record host hashes hasher to_hash k asks path (some g) ≡ (failure e, some g))
            × (dht_get_details host hashes hasher to_hash k asks path (some g)
                ≡ (failure e, some g))
            × ((into_response e).0 ≡ 400))
        × ((path : LinksPath) (query : LinksQuery) (e : LinkerError)
            → links_request host hashes path query ≡ failure e
            → (dht_get_links host hashes hasher to_hash k asks path query (some g)
                ≡ (failure e, some g))
              × (dht_count_links host hashes hasher to_hash k asks path query (some g)
                  ≡ (failure e, some g))
              × ((into_response e).0 ≡ 400))
  unfolding dht_get_record dht_get_details dht_get_links dht_count_links
  malformed_refused g = (
    λ path e h. (rw h refl, rw h refl, record_request_malformed host hashes path e h),
    λ path query e h. (rw h refl, rw h refl, links_request_malformed host hashes path query e h),
  )
