-- ===== src/Publish/Outcome.antt =====
-- src/routes/publish.rs: what the answer of `dht_publish` counts, and what is in the op store then.
use h2hc_linker.Base.{
  ℕ, suc, Bool, ◌+◌, String, ◌≡◌, true, ◌&&◌, List, [], ◌∷◌, Option, none, some, nat_eq, ◌⊎◌,
}
use h2hc_linker.Base.Lists.{length}
use h2hc_linker.Base.Maps.{Map, Unique}
use h2hc_linker.Ids.{DnaHash}
use h2hc_linker.Host.{Host, Fallible, ok, err}
use h2hc_linker.Kitsune.{OpId, Kitsune}
use h2hc_linker.Gateway.{GatewayKitsune, publish_ops}
use h2hc_linker.Publish.{OpPublishResult}

-- The number of ops in all groups.
abbrev total : Map ℕ (List OpId) → ℕ
total [] = 0
total ((loc, ids) ∷ m) = length ids + total m

-- No peer took the ops.
abbrev pub NoPeer : Fallible ℕ → Type 0
NoPeer r = (r ≡ ok 0) ⊎ ((e : String) × (r ≡ err e))

-- Groups of ops are offered one after the other, each in the state that the ones before have left,
-- and `n` is the number of the ops in those groups that at least one peer took.
abbrev pub Offered : Kitsune → DnaHash → Map ℕ (List OpId) → GatewayKitsune → ℕ → Type 0
Offered k dna [] g n = n ≡ 0
Offered k dna ((loc, ids) ∷ groups) g n =
    let (r, g') = publish_ops k dna ids loc g in
    (rest : ℕ) × Offered k dna groups g' rest
    × (((p : ℕ) × (r ≡ ok (suc p)) × (n ≡ length ids + rest)) ⊎ (NoPeer r × (n ≡ rest)))

-- Groups of distinct locations, with as many ops as were queued, are offered.
abbrev pub Publishes : Kitsune → DnaHash → Option GatewayKitsune → ℕ → ℕ → Type 0
Publishes k dna none queued published = published ≡ 0
Publishes k dna (some g) queued published =
    (groups : Map ℕ (List OpId)) × Unique groups
    × (total groups ≡ queued)
    × Offered k dna groups g published

abbrev pub all_success : List OpPublishResult → Bool
all_success [] = true
all_success (r ∷ results) = r.success && all_success results
