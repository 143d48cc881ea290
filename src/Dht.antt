-- ===== src/Dht.antt =====
-- src/routes/dht.rs: what the DHT routes make of the answers of peers, up to its JSON.
pub mod Wire
pub mod Live
pub mod Links
pub mod Records
pub mod Routes
pub mod Handlers
pub mod Agreement
pub mod Refused
pub use Wire.*
use h2hc_linker.Base.{
  ℕ, ◌%◌, String, Bool, true, false, not, ◌&&◌, List, [], ◌∷◌, Option, none, some, if◌then◌else◌,
  ltb, nat_eq,
}
use h2hc_linker.Base.Lists.{length, contains, collect_set}
use h2hc_linker.Error.{LinkerError, request_malformed, LinkerResult, done, failure}

-- `ActionHashed::from_content_sync` and `EntryHash::with_data_sync`
pub record Hasher : Type 0 where
  pub hash_action : Action → ℕ
  pub hash_entry : ℕ → ℕ
  -- the hash of `Action::entry_data`, which only an action with an entry has
  pub entry_data : Action → Option ℕ

pub record SignedActionHashed : Type 0 where
  pub action : Action
  pub hash : ℕ
  pub signature : List ℕ

pub record Record : Type 0 where
  pub signed_action : SignedActionHashed
  pub entry : Option ℕ

abbrev pub status_is_valid : ValidationStatus → Bool
status_is_valid valid = true
status_is_valid rejected = false
status_is_valid abandoned = false

-- An action without a status counts as valid.
abbrev pub is_valid : JudgedCreate → Bool
is_valid c = elim c.status [ none ↦ true | some s ↦ status_is_valid s ]

pub data EntryDhtStatus : Type 0 where
  live dead : EntryDhtStatus

pub record EntryDetails : Type 0 where
  pub entry : ℕ
  pub actions : List SignedActionHashed
  pub rejected_actions : List SignedActionHashed
  pub deletes : List SignedActionHashed
  pub updates : List SignedActionHashed
  pub entry_dht_status : EntryDhtStatus

module _ (hasher : Hasher) where
  abbrev pub sign_presigned : Action → List ℕ → SignedActionHashed
  sign_presigned action signature = record {
    action = action;
    hash = hasher.hash_action action;
    signature = signature;
  }

  -- The signed action of a create, for an entry of this type and hash.
  abbrev pub signed_create : ℕ → ℕ → WireNewEntryAction → SignedActionHashed
  signed_create entry_type entry_hash (create w) =
      sign_presigned (create_action w.common entry_type entry_hash) w.signature
  signed_create entry_type entry_hash (update w) =
      sign_presigned
        (update_action w.common w.original_entry_address w.original_action_address entry_type
          entry_hash)
        w.signature

  abbrev pub deleted_action_hashes : List WireDelete → List ℕ
  deleted_action_hashes [] = []
  deleted_action_hashes (d ∷ ds) = d.delete.deletes_address ∷ deleted_action_hashes ds

  -- The loop over the creates.
  abbrev pub first_record : EntryData → List ℕ → List JudgedCreate → Option Record
  first_record ed deleted [] = none
  first_record ed deleted (c ∷ creates) =
      let rest = first_record ed deleted creates in
      let signed = signed_create ed.entry_type (hasher.hash_entry ed.entry) c.data_of in
      if not (is_valid c)
      then rest
      else (if contains deleted signed.hash
          then rest
          else some (record { signed_action = signed; entry = some ed.entry }))

  -- `none` for the JSON null.
  unfoldable pub wire_entry_ops_to_record : WireEntryOps → Option Record
  wire_entry_ops_to_record ops = elim ops.entry [
    | none ↦ none
    | some ed ↦ first_record ed (collect_set (deleted_action_hashes ops.deletes)) ops.creates
  ]

  -- The signed actions of the creates that are valid, or of those that are not, in their order.
  abbrev pub actions_of : Bool → EntryData → List JudgedCreate → List SignedActionHashed
  actions_of wanted ed [] = []
  actions_of wanted ed (c ∷ creates) =
      let rest = actions_of wanted ed creates in
      let signed = signed_create ed.entry_type (hasher.hash_entry ed.entry) c.data_of in
      let ok_now = is_valid c in
      if (if wanted then ok_now else not ok_now) then signed ∷ rest else rest

  abbrev pub signed_deletes : List WireDelete → List SignedActionHashed
  signed_deletes [] = []
  signed_deletes (d ∷ ds) = sign_presigned (delete_action d.delete) d.signature ∷ signed_deletes ds

  abbrev pub signed_updates : ℕ → List WireUpdateRelationship → List SignedActionHashed
  signed_updates entry_hash [] = []
  signed_updates entry_hash (u ∷ us) =
      sign_presigned
        (update_action u.common entry_hash u.original_action_address u.new_entry_type
          u.new_entry_address)
        u.signature
      ∷ signed_updates entry_hash us

  abbrev pub dht_status : ℕ → ℕ → EntryDhtStatus
  dht_status actions deletes =
      if ltb 0 actions && ltb deletes actions then live else (if ltb 0 actions then dead else live)

  unfoldable pub wire_entry_ops_to_details : WireEntryOps → Option EntryDetails
  wire_entry_ops_to_details ops = elim ops.entry [
    | none ↦ none
    | some ed ↦
        let actions = actions_of true ed ops.creates in
        let deletes = signed_deletes ops.deletes in
        some (record {
          entry = ed.entry;
          actions = actions;
          rejected_actions = actions_of false ed ops.creates;
          deletes = deletes;
          updates = signed_updates (hasher.hash_entry ed.entry) ops.updates;
          entry_dht_status = dht_status (length actions) (length deletes);
        })
  ]

pub record LinksQuery : Type 0 where
  pub base : String
  pub link_type : Option ℕ
  pub tag : Option String
  pub zome_index : Option ℕ

pub data LinkTypeFilter : Type 0 where
  single_type : ℕ → ℕ → LinkTypeFilter
  single_dep : ℕ → LinkTypeFilter
  types : List (ℕ × List ℕ) → LinkTypeFilter

-- `as u8`
abbrev pub as_u8 : ℕ → ℕ
as_u8 n = n % 256

-- The filter of a query, as both link routes build it; the link type is a `u16`.
unfoldable pub type_query : LinksQuery → LinkerResult LinkTypeFilter
type_query query = elim query.zome_index [
  | some zome_idx ↦ elim query.link_type [
    | some link_type ↦ done (single_type zome_idx (as_u8 link_type))
    | none ↦ done (single_dep zome_idx)
  ]
  | none ↦ elim query.link_type [
    | some link_type ↦
        failure (request_malformed "zome_index is required when filtering by link type")
    | none ↦ done (types [])
  ]
]

pub record CreateLink : Type 0 where
  pub author : ℕ
  pub timestamp : ℕ
  pub action_seq : ℕ
  pub prev_action : ℕ
  pub base_address : ℕ
  pub target_address : ℕ
  pub zome_index : ℕ
  pub link_type : ℕ
  pub tag : LinkTag
  pub weight : ℕ

pub record Link : Type 0 where
  pub author : ℕ
  pub base : ℕ
  pub target : ℕ
  pub timestamp : ℕ
  pub zome_index : ℕ
  pub link_type : ℕ
  pub tag : LinkTag
  pub create_link_hash : ℕ

-- The tag of the answer, that of the query, or the empty one.
abbrev pub tag_or : Option LinkTag → Option LinkTag → LinkTag
tag_or (some tag) query_tag = tag
tag_or none (some tag) = tag
tag_or none none = []

abbrev pub rebuilt : ℕ → Option LinkTag → WireCreateLink → CreateLink
rebuilt base query_tag w = record {
  author = w.author;
  timestamp = w.timestamp;
  action_seq = w.action_seq;
  prev_action = w.prev_action;
  base_address = base;
  target_address = w.target_address;
  zome_index = w.zome_index;
  link_type = w.link_type;
  tag = tag_or w.tag query_tag;
  weight = w.weight;
}

-- The hash of an action is the library's (`to_hash`).
abbrev pub link_of : (CreateLink → ℕ) → ℕ → Option LinkTag → WireCreateLink → Link
link_of to_hash base query_tag w = record {
  author = w.author;
  base = base;
  target = w.target_address;
  timestamp = w.timestamp;
  zome_index = w.zome_index;
  link_type = w.link_type;
  tag = tag_or w.tag query_tag;
  create_link_hash = to_hash (rebuilt base query_tag w);
}

-- The deletes of the answer are ignored.
unfoldable pub wire_link_ops_to_links :
    (CreateLink → ℕ) → List WireCreateLink → ℕ → Option LinkTag → List Link
wire_link_ops_to_links to_hash [] base query_tag = []
wire_link_ops_to_links to_hash (w ∷ ws) base query_tag =
    link_of to_hash base query_tag w ∷ wire_link_ops_to_links to_hash ws base query_tag
