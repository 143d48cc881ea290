-- ===== src/OpStore.antt =====
-- src/temp_op_store.rs: the ops that wait in memory for the peers to fetch them.
pub mod Retrieval
pub mod Window
use h2hc_linker.Base.{
  ℕ, ◌-◌, String, Bool, not, List, [], ◌∷◌, Option, none, some, if◌then◌else◌, ltb, nat_eq,
}
use h2hc_linker.Base.Lists.{length, filter}
use h2hc_linker.Base.Maps.{Map, lookup, has_key, insert, retain}
use h2hc_linker.Host.{Fallible, ok, err, with_error}
use h2hc_linker.Ids.{DnaHash}
use h2hc_linker.Kitsune.{OpId}

-- A decoded op; what is inside is read by the library's functions only.
pub data DhtOp : Type 0 where
  chain_op warrant_op : ℕ → DhtOp

-- The library's functions on ops: msgpack (`ExternIO::decode`, `decode`), the located op id, the
-- location of the basis, the timestamp.
pub record OpHost : Type 0 where
  pub decode_extern : List ℕ → Fallible DhtOp
  pub decode : List ℕ → Fallible DhtOp
  pub op_id : DhtOp → OpId
  pub basis_loc : DhtOp → ℕ
  pub created_at : DhtOp → ℕ
  -- `format!` of a number
  pub number_text : ℕ → String

-- `OP_TTL`, in nanoseconds, as all times here.
abbrev pub op_ttl : ℕ
op_ttl = 60000000000

pub record StoredOpRecord : Type 0 where
  pub op_id : OpId
  pub op_data : List ℕ
  pub stored_at : ℕ
  pub created_at : ℕ

pub record TempOpStoreInner : Type 0 where
  pub ops : Map OpId StoredOpRecord

pub record MetaOp : Type 0 where
  pub op_id : OpId
  pub op_data : List ℕ

-- The record of an op that is stored at the time `now`.
abbrev pub record_of : OpHost → ℕ → List ℕ → DhtOp → StoredOpRecord
record_of host now op_bytes op = record {
  op_id = host.op_id op;
  op_data = op_bytes;
  stored_at = now;
  created_at = host.created_at op;
}

unfoldable pub store_op : OpHost → ℕ → List ℕ → TempOpStoreInner → Fallible OpId × TempOpStoreInner
store_op host now op_bytes s = elim (host.decode op_bytes) [
  | err e ↦ (err (with_error "Failed to decode DhtOp: " e), s)
  | ok op ↦ (
    ok (host.op_id op),
    record { ops = insert (host.op_id op) (record_of host now op_bytes op) s.ops },
  )
]

unfoldable pub op_count : TempOpStoreInner → ℕ
op_count s = length s.ops

-- `now.duration_since(stored_at) < OP_TTL`; the difference is 0 for a later `stored_at`.
abbrev pub is_fresh : ℕ → StoredOpRecord → Bool
is_fresh now r = ltb (now - r.stored_at) op_ttl

unfoldable pub cleanup_expired : ℕ → TempOpStoreInner → TempOpStoreInner
cleanup_expired now s = record { ops = retain (is_fresh now) s.ops }

-- `CLEANUP_INTERVAL`
abbrev pub cleanup_interval : ℕ
cleanup_interval = 10000000000

-- The task of `start_cleanup_task`, at the times at which it wakes.
unfoldable pub cleanup_task : List ℕ → TempOpStoreInner → TempOpStoreInner
cleanup_task [] s = s
cleanup_task (now ∷ times) s = cleanup_task times (cleanup_expired now s)

abbrev pub found : OpId → Option StoredOpRecord → List MetaOp → List MetaOp
found id none rest = rest
found id (some r) rest = record { op_id = id; op_data = r.op_data } ∷ rest

unfoldable pub retrieve_ops : List OpId → TempOpStoreInner → List MetaOp
retrieve_ops [] s = []
retrieve_ops (id ∷ ids) s = found id (lookup id s.ops) (retrieve_ops ids s)

unfoldable pub filter_out_existing_ops : List OpId → TempOpStoreInner → List OpId
filter_out_existing_ops ids s = filter (λ id. not (has_key id s.ops)) ids

-- The store of a space. The stores of all spaces and the handle share one `TempOpStoreInner`, which
-- the operations take.
pub record TempOpStore : Type 0 where
  pub space_id : DnaHash

unfoldable pub create : DnaHash → Fallible TempOpStore
create space_id = ok (record { space_id = space_id })

-- An arc as the set of locations in it.
abbrev pub DhtArc : Type 0
DhtArc = ℕ → Bool

-- The operations of the trait `OpStore` that a node without an arc has no use for.
unfoldable pub process_incoming_ops : TempOpStore → List (List ℕ) → Fallible (List OpId)
process_incoming_ops store op_list = ok []

unfoldable pub retrieve_op_hashes_in_time_slice :
    TempOpStore → DhtArc → ℕ → ℕ → Fallible (List OpId × ℕ)
retrieve_op_hashes_in_time_slice store arc start end_time = ok ([], 0)

unfoldable pub retrieve_op_ids_bounded : TempOpStore → DhtArc → ℕ → ℕ → Fallible (List OpId × ℕ × ℕ)
retrieve_op_ids_bounded store arc start limit_bytes = ok ([], 0, start)

unfoldable pub earliest_timestamp_in_arc : TempOpStore → DhtArc → Fallible (Option ℕ)
earliest_timestamp_in_arc store arc = ok none

unfoldable pub store_slice_hash : TempOpStore → DhtArc → ℕ → List ℕ → Fallible (Unit {0})
store_slice_hash store arc slice_index slice_hash = ok tt

unfoldable pub slice_hash_count : TempOpStore → DhtArc → Fallible ℕ
slice_hash_count store arc = ok 0

unfoldable pub retrieve_slice_hash : TempOpStore → DhtArc → ℕ → Fallible (Option (List ℕ))
retrieve_slice_hash store arc slice_index = ok none

unfoldable pub retrieve_slice_hashes : TempOpStore → DhtArc → Fallible (List (ℕ × List ℕ))
retrieve_slice_hashes store arc = ok []
