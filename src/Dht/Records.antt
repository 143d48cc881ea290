-- ===== src/Dht/Records.antt =====
-- src/routes/dht.rs: the answers for a record, and the choice by the kind of the answer.
use h2hc_linker.Base.{ℕ, List, [], ◌∷◌, Option, none, some}
use h2hc_linker.Dht.{
  ValidationStatus, valid, WireUpdateRelationship, WireRecordOps, JudgedAction, WireOps, entry_ops,
  record_ops, warrant_ops, update_action, Hasher, SignedActionHashed, Record, EntryDetails,
  sign_presigned, wire_entry_ops_to_record, wire_entry_ops_to_details, signed_deletes,
}

pub record RecordDetails : Type 0 where
  pub record_of : Record
  pub validation_status : ValidationStatus
  pub deletes : List SignedActionHashed
  pub updates : List SignedActionHashed

pub data Details : Type 0 where
  record_details : RecordDetails → Details
  entry_details : EntryDetails → Details

-- `unwrap_or(ValidationStatus::Valid)`
abbrev pub status_or_valid : Option ValidationStatus → ValidationStatus
status_or_valid none = valid
status_or_valid (some s) = s

abbrev pub as_record_details : Option RecordDetails → Option Details
as_record_details none = none
as_record_details (some d) = some (record_details d)

abbrev pub as_entry_details : Option EntryDetails → Option Details
as_entry_details none = none
as_entry_details (some d) = some (entry_details d)

module _ (hasher : Hasher) where
  abbrev pub record_from : JudgedAction → Option ℕ → Record
  record_from a entry = record {
    signed_action = sign_presigned hasher a.action a.signature;
    entry = entry;
  }

  unfoldable pub wire_record_ops_to_record : WireRecordOps → Option Record
  wire_record_ops_to_record ops = elim ops.action [
    | none ↦ none
    | some a ↦ some (record_from a ops.entry)
  ]

  -- The updates, each on the entry of the record; without one there is none.
  abbrev pub record_updates : Option ℕ → List WireUpdateRelationship → List SignedActionHashed
  record_updates none us = []
  record_updates (some original) [] = []
  record_updates (some original) (u ∷ us) =
      sign_presigned hasher
        (update_action u.common original u.original_action_address u.new_entry_type
          u.new_entry_address)
        u.signature
      ∷ record_updates (some original) us

  unfoldable pub wire_record_ops_to_details : WireRecordOps → Option RecordDetails
  wire_record_ops_to_details ops = elim ops.action [
    | none ↦ none
    | some a ↦ some (record {
      record_of = record_from a ops.entry;
      validation_status = status_or_valid a.status;
      deletes = signed_deletes hasher ops.deletes;
      updates = record_updates (hasher.entry_data a.action) ops.updates;
    })
  ]

  -- `none` for the JSON null.
  unfoldable pub wire_ops_to_record_json : WireOps → Option Record
  unfolding wire_record_ops_to_record wire_entry_ops_to_record
  wire_ops_to_record_json (record_ops ops) = wire_record_ops_to_record ops
  wire_ops_to_record_json (entry_ops ops) = wire_entry_ops_to_record hasher ops
  wire_ops_to_record_json warrant_ops = none

  unfoldable pub wire_ops_to_details_json : WireOps → Option Details
  unfolding wire_record_ops_to_details wire_entry_ops_to_details
  wire_ops_to_details_json (record_ops ops) = as_record_details (wire_record_ops_to_details ops)
  wire_ops_to_details_json (entry_ops ops) = as_entry_details (wire_entry_ops_to_details hasher ops)
  wire_ops_to_details_json warrant_ops = none
