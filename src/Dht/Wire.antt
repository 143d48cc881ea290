-- ===== src/Dht/Wire.antt =====
-- The library's types that carry the answers of peers. A hash, an entry, a time and a weight are only
-- copied and compared, so each is a number.
use h2hc_linker.Base.{ℕ, Option, List}

pub data ValidationStatus : Type 0 where
  valid rejected abandoned : ValidationStatus

-- The fields that the actions have in common.
pub record Common : Type 0 where
  pub author : ℕ
  pub timestamp : ℕ
  pub action_seq : ℕ
  pub prev_action : ℕ
  pub weight : ℕ

-- Condensed actions: a `Create` and an `Update` without what they share with the entry.
pub record WireCreate : Type 0 where
  pub common : Common
  pub signature : List ℕ

pub record WireUpdate : Type 0 where
  pub common : Common
  pub original_entry_address : ℕ
  pub original_action_address : ℕ
  pub signature : List ℕ

pub data WireNewEntryAction : Type 0 where
  create : WireCreate → WireNewEntryAction
  update : WireUpdate → WireNewEntryAction

pub record JudgedCreate : Type 0 where
  pub data_of : WireNewEntryAction
  pub status : Option ValidationStatus

pub record Delete : Type 0 where
  pub common : Common
  pub deletes_address : ℕ
  pub deletes_entry_address : ℕ

pub record WireDelete : Type 0 where
  pub delete : Delete
  pub signature : List ℕ

-- An update of the entry, as a peer sends it.
pub record WireUpdateRelationship : Type 0 where
  pub common : Common
  pub original_action_address : ℕ
  pub new_entry_type : ℕ
  pub new_entry_address : ℕ
  pub signature : List ℕ

pub record EntryData : Type 0 where
  pub entry : ℕ
  pub entry_type : ℕ

pub record WireEntryOps : Type 0 where
  pub entry : Option EntryData
  pub creates : List JudgedCreate
  pub deletes : List WireDelete
  pub updates : List WireUpdateRelationship

-- The full actions, with the type and the hash of the entry last, and for an update the addresses of
-- the original entry and action before them.
pub data Action : Type 0 where
  create_action : Common → ℕ → ℕ → Action
  update_action : Common → ℕ → ℕ → ℕ → ℕ → Action
  delete_action : Delete → Action

-- A signed action and, if it is known, its status.
pub record JudgedAction : Type 0 where
  pub action : Action
  pub signature : List ℕ
  pub status : Option ValidationStatus

pub record WireRecordOps : Type 0 where
  pub action : Option JudgedAction
  pub deletes : List WireDelete
  pub updates : List WireUpdateRelationship
  pub entry : Option ℕ

pub data WireOps : Type 0 where
  entry_ops : WireEntryOps → WireOps
  record_ops : WireRecordOps → WireOps
  warrant_ops : WireOps

abbrev pub LinkTag : Type 0
LinkTag = List ℕ

pub record WireCreateLink : Type 0 where
  pub author : ℕ
  pub timestamp : ℕ
  pub action_seq : ℕ
  pub prev_action : ℕ
  pub target_address : ℕ
  pub zome_index : ℕ
  pub link_type : ℕ
  pub tag : Option LinkTag
  pub weight : ℕ

-- Of the deletes, which nothing here reads, there is a number each.
pub record WireLinkOps : Type 0 where
  pub creates : List WireCreateLink
  pub deletes : List ℕ
