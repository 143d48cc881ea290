-- ===== src/Publish.antt =====
-- src/routes/publish.rs: `dht_publish`. The map from locations to ops is walked in the order of the
-- first op of each location; the code's order is any.
pub mod Outcome
pub mod Held
use h2hc_linker.Base.{
  ℕ, suc, ◌+◌, String, Bool, true, false, ◌&&◌, ◌||◌, List, [], ◌∷◌, ◌++◌, Option, none, some,
  if◌then◌else◌, ltb, ◌==◌, nat_eq,
}
use h2hc_linker.Base.Lists.{length}
use h2hc_linker.Base.Maps.{Map, lookup, insert}
use h2hc_linker.Ids.{DnaHash}
use h2hc_linker.Host.{Host, Fallible, ok, err, with_error}
use h2hc_linker.Error.{
  LinkerError, internal, request_malformed, LinkerResult, done, failure, to_string,
}
use h2hc_linker.Kitsune.{OpId, Kitsune}
use h2hc_linker.OpStore.{DhtOp, chain_op, warrant_op, OpHost, TempOpStoreInner, store_op}
use h2hc_linker.Gateway.{GatewayKitsune, publish_ops}

pub record SignedDhtOp : Type 0 where
  pub op_data : String
  pub signature : String

pub record OpPublishResult : Type 0 where
  pub success : Bool
  pub error : Option String

pub record PublishResponse : Type 0 where
  pub success : Bool
  pub queued : ℕ
  pub failed : ℕ
  pub published : ℕ
  pub results : List OpPublishResult

pub record ProcessedOp : Type 0 where
  pub op_id : OpId
  pub basis_loc : ℕ

-- The checks of `process_signed_op`, with the bytes and the op that go into the store.
unfoldable pub check_signed_op : Host → OpHost → SignedDhtOp → LinkerResult (List ℕ × DhtOp)
check_signed_op host ops signed_op = elim (host.b64_decode signed_op.op_data) [
  | err e ↦ failure (request_malformed (with_error "Invalid op_data base64: " e))
  | ok op_bytes ↦ elim (host.b64_decode signed_op.signature) [
    | err e ↦ failure (request_malformed (with_error "Invalid signature base64: " e))
    | ok sig_bytes ↦
        if length sig_bytes == 64
        then elim (ops.decode_extern op_bytes) [
          | err e ↦ failure (request_malformed (with_error "Failed to decode DhtOp: " e))
          | ok (chain_op body) ↦ done (op_bytes, chain_op body)
          | ok (warrant_op body) ↦
              failure
                (request_malformed "WarrantOps are not supported for browser extension publishing")
        ]
        else failure (
            request_malformed (
              with_error "Invalid signature length: expected 64 bytes, got "
                (ops.number_text (length sig_bytes))))
  ]
]

abbrev pub stored_as :
    ℕ → Fallible OpId × TempOpStoreInner → LinkerResult ProcessedOp × Option TempOpStoreInner
stored_as loc (err e, s) = (failure (internal (with_error "Failed to store op: " e)), some s)
stored_as loc (ok id, s) = (done (record { op_id = id; basis_loc = loc }), some s)

unfoldable pub process_signed_op :
    Host
    → OpHost
    → ℕ
    → SignedDhtOp
    → Option TempOpStoreInner
    → LinkerResult ProcessedOp × Option TempOpStoreInner
unfolding check_signed_op store_op
process_signed_op host ops now signed_op store = elim (check_signed_op host ops signed_op) [
  | failure e ↦ (failure e, store)
  | done (op_bytes, op) ↦ elim store [
    | none ↦ (failure (internal "TempOpStore not configured - publishing not available"), none)
    | some s ↦ stored_as (ops.basis_loc op) (store_op ops now op_bytes s)
  ]
]

-- What the first phase has collected.
pub record Stored : Type 0 where
  pub results : List OpPublishResult
  pub processed : List ProcessedOp
  pub queued : ℕ
  pub failed : ℕ

abbrev pub count_result : LinkerResult ProcessedOp → Stored → Stored
count_result (done op) rest = record {
  results = record { success = true; error = none } ∷ rest.results;
  processed = op ∷ rest.processed;
  queued = suc rest.queued;
  failed = rest.failed;
}
count_result (failure e) rest = record {
  results = record { success = false; error = some (to_string e) } ∷ rest.results;
  processed = rest.processed;
  queued = rest.queued;
  failed = suc rest.failed;
}

-- The first phase; each op is stored at its own time.
unfoldable pub store_all :
    Host
    → OpHost
    → (SignedDhtOp → ℕ)
    → List SignedDhtOp
    → Option TempOpStoreInner
    → Stored × Option TempOpStoreInner
unfolding process_signed_op
store_all host ops now [] store =
    (record { results = []; processed = []; queued = 0; failed = 0 }, store)
store_all host ops now (op ∷ rest) store =
    let (r, store') = process_signed_op host ops (now op) op store in
    let (stored, store'') = store_all host ops now rest store' in (count_result r stored, store'')

-- The ops of a location; a missing entry is an empty one (`or_default`).
abbrev pub ids_or_empty : Option (List OpId) → List OpId
ids_or_empty none = []
ids_or_empty (some ids) = ids

abbrev pub group_ops : List ProcessedOp → Map ℕ (List OpId) → Map ℕ (List OpId)
group_ops [] m = m
group_ops (op ∷ rest) m =
    group_ops rest (insert op.basis_loc (ids_or_empty (lookup op.basis_loc m) ++ op.op_id ∷ []) m)

-- The ops that count as published: those of a group that at least one peer took.
abbrev pub counted : Fallible ℕ → ℕ → ℕ
counted (err e) op_count = 0
counted (ok peer_count) op_count = if ltb 0 peer_count then op_count else 0

unfoldable pub publish_groups :
    Kitsune → DnaHash → Map ℕ (List OpId) → GatewayKitsune → ℕ × GatewayKitsune
publish_groups k dna_hash [] g = (0, g)
publish_groups k dna_hash ((basis_loc, op_ids) ∷ groups) g =
    let (r, g') = publish_ops k dna_hash op_ids basis_loc g in
    let (published, g'') = publish_groups k dna_hash groups g' in
    (counted r (length op_ids) + published, g'')

pub record PublishState : Type 0 where
  pub temp_op_store : Option TempOpStoreInner
  pub gateway_kitsune : Option GatewayKitsune

-- The second phase; with no op processed the gateway is not asked.
unfoldable pub publish_all :
    Kitsune → DnaHash → List ProcessedOp → Option GatewayKitsune → ℕ × Option GatewayKitsune
unfolding publish_groups
publish_all k dna_hash [] gateway = (0, gateway)
publish_all k dna_hash (op ∷ processed) none = (0, none)
publish_all k dna_hash (op ∷ processed) (some g) =
    let (published, g') = publish_groups k dna_hash (group_ops (op ∷ processed) []) g in
    (published, some g')

unfoldable pub dht_publish :
    Host
    → OpHost
    → Kitsune
    → (SignedDhtOp → ℕ)
    → String
    → List SignedDhtOp
    → PublishState
    → LinkerResult PublishResponse × PublishState
unfolding store_all publish_all
dht_publish host ops k now path signed_ops state = elim (host.parse_dna path) [
  | err e ↦ (failure (request_malformed "Invalid DNA hash"), state)
  | ok dna_hash ↦
      let (stored, store') = store_all host ops now signed_ops state.temp_op_store in
      let (published, gateway') = publish_all k dna_hash stored.processed state.gateway_kitsune in
      (
        done (record {
          success = (stored.failed == 0) && ((stored.queued == 0) || ltb 0 published);
          queued = stored.queued;
          failed = stored.failed;
          published = published;
          results = stored.results;
        }),
        record { temp_op_store = store'; gateway_kitsune = gateway' },
      )
]
