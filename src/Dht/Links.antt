-- ===== src/Dht/Links.antt =====
-- src/routes/dht.rs: the links that a route gives, and the filter that it asks for.
use h2hc_linker.Base.{
  ℕ, ◌+◌, ◌≡◌, refl, ap, Bool, true, false, List, [], ◌∷◌, Option, none, some, arith, ◌⊎◌, inl, inr,
  if◌then◌else◌,
}
use h2hc_linker.Error.{done}
use h2hc_linker.Dht.{
  LinksQuery, type_query, single_type, LinkTag, WireCreateLink, CreateLink, Link, tag_or,
  wire_link_ops_to_links,
}

-- What a peer sends of a `CreateLink`: without its base, and with or without its tag.
abbrev pub condensed : Bool → CreateLink → WireCreateLink
condensed with_tag c = record {
  author = c.author;
  timestamp = c.timestamp;
  action_seq = c.action_seq;
  prev_action = c.prev_action;
  target_address = c.target_address;
  zome_index = c.zome_index;
  link_type = c.link_type;
  tag = if with_tag then some c.tag else none;
  weight = c.weight;
}

abbrev pub condensed_all : List (Bool × CreateLink) → List WireCreateLink
condensed_all [] = []
condensed_all ((with_tag, c) ∷ rest) = condensed with_tag c ∷ condensed_all rest

-- The link that a `CreateLink` makes, under its own hash.
abbrev pub made_by : (CreateLink → ℕ) → CreateLink → Link
made_by to_hash c = record {
  author = c.author;
  base = c.base_address;
  target = c.target_address;
  timestamp = c.timestamp;
  zome_index = c.zome_index;
  link_type = c.link_type;
  tag = c.tag;
  create_link_hash = to_hash c;
}

abbrev pub made_by_all : (CreateLink → ℕ) → List (Bool × CreateLink) → List Link
made_by_all to_hash [] = []
made_by_all to_hash ((with_tag, c) ∷ rest) = made_by to_hash c ∷ made_by_all to_hash rest

-- Each action is on the base, and a peer leaves a tag out only if it is that of the query or empty
-- in a query without tag.
abbrev pub Condensable : ℕ → Option LinkTag → List (Bool × CreateLink) → Type 0
Condensable base query_tag [] = Unit
Condensable base query_tag ((with_tag, c) ∷ rest) =
    ((c.base_address ≡ base) × ((with_tag ≡ true) ⊎ (tag_or none query_tag ≡ c.tag)))
    × Condensable base query_tag rest

tag_or-condensed :
    (with_tag : Bool) (c : CreateLink) (query_tag : Option LinkTag)
    → (with_tag ≡ true) ⊎ (tag_or none query_tag ≡ c.tag)
    → tag_or (condensed with_tag c).tag query_tag ≡ c.tag
tag_or-condensed true c query_tag h = refl
tag_or-condensed false c query_tag (inl h) = ground (arith, h)
tag_or-condensed false c query_tag (inr h) = h

-- From the condensed actions the route gives back the links of the full actions, with the hashes of
-- these, in their order, if each is on the base that was asked for and keeps its tag or has that of
-- the query.
pub wire_link_ops_to_links-condensed :
    (to_hash : CreateLink → ℕ) (base : ℕ) (query_tag : Option LinkTag)
    (actions : List (Bool × CreateLink))
    → Condensable base query_tag actions
    → wire_link_ops_to_links to_hash (condensed_all actions) base query_tag
      ≡ made_by_all to_hash actions
unfolding wire_link_ops_to_links
wire_link_ops_to_links-condensed to_hash base query_tag [] h = refl
wire_link_ops_to_links-condensed to_hash base query_tag ((with_tag, c) ∷ rest) ((b, t), h) =
    rw (tag_or-condensed with_tag c query_tag t) (
      rw⁻¹ b (
        ap (λ l. made_by to_hash c ∷ l)
          (rw b (wire_link_ops_to_links-condensed to_hash base query_tag rest h))))

-- The link type of a query is cut to 8 bits: a query for a type of 256 or more asks for the links of
-- another type, the remainder.
pub type_query-wraps :
    (query : LinksQuery) (zome_idx link_type : ℕ)
    → query.zome_index ≡ some zome_idx
    → query.link_type ≡ some (256 + link_type)
    → type_query query ≡ type_query (record query { link_type = some link_type })
unfolding type_query
type_query-wraps query zome_idx link_type z t =
    rw (z, t) (ap (λ n. done (single_type zome_idx n)) (omega arith))
