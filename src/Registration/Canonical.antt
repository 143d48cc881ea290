-- ===== src/Registration/Canonical.antt =====
-- src/registration.rs: `canonical_json`, where the map is sorted by its keys.
use Prim.Native.Nat.{Ordering}
use Prim.Native.String.{compare, ◌++◌ as ◌^◌}
use h2hc_linker.Base.{String, List, [], ◌∷◌}
use h2hc_linker.Base.Maps.{Map}

-- `BTreeMap::insert`, where `at` says how the new key stands to the first one.
abbrev pub place :
    Ordering
    → String × String
    → String × String
    → Map String String
    → Map String String
    → Map String String
place Ordering.lt new old m rest = new ∷ old ∷ m
place Ordering.eq new old m rest = new ∷ m
place Ordering.gt new old m rest = old ∷ rest

unfoldable pub btree_insert : String → String → Map String String → Map String String
btree_insert k v [] = (k, v) ∷ []
btree_insert k v ((j, w) ∷ m) = place (compare k j) (k, v) (j, w) m (btree_insert k v m)

-- `collect` into the map: a later field replaces an earlier one of the same key.
unfoldable pub collected : List (String × String) → Map String String → Map String String
collected [] m = m
collected ((k, v) ∷ fields) m = collected fields (btree_insert k v m)

module _ (json_string : String → String) where
  abbrev pub member : String × String → String
  member (k, v) = json_string k ^ ":" ^ json_string v

  abbrev pub members : Map String String → String
  members [] = ""
  members (f ∷ []) = member f
  members (f ∷ g ∷ m) = member f ^ "," ^ members (g ∷ m)

  -- `serde_json::to_string` of the map
  unfoldable pub canonical_json : List (String × String) → String
  canonical_json fields = "{" ^ members (collected fields []) ^ "}"
