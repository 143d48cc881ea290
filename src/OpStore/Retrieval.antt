-- ===== src/OpStore/Retrieval.antt =====
-- src/temp_op_store.rs: what a stored op is good for, and for how long.
use h2hc_linker.Base.{
  ℕ, ◌+◌, ◌-◌, ◌≡◌, refl, List, [], ◌∷◌, some, arith, if◌then◌else◌, ltb, ◌==◌, nat_beq_iff, nat_eq,
  Bool-cases, ◌∙◌, ◌&&◌, not, inl, inr,
}
use h2hc_linker.Base.Lists.{length, contains}
use h2hc_linker.Base.Maps.{
  Unique, keep_if, has_key, insert, lookup-insert, lookup-retain, insert-Unique,
}
use h2hc_linker.Host.{ok, Fallible-cases}
use h2hc_linker.Kitsune.{OpId}
use h2hc_linker.OpStore.{
  StoredOpRecord, is_fresh, found, OpHost, TempOpStoreInner, op_ttl, record_of, store_op,
  cleanup_expired, retrieve_ops, filter_out_existing_ops,
}

found_keep :
    (id : OpId) (bytes : List ℕ) (r : StoredOpRecord) (t : ℕ)
    → r.op_data ≡ bytes
    → found id (keep_if (is_fresh t) (some r)) []
      ≡ (if is_fresh t r then record { op_id = id; op_data = bytes } ∷ [] else [])
found_keep id bytes r t h = ground (arith, h)

-- The store after an op was taken.
pub store_op_ok :
    (host : OpHost) (now : ℕ) (bytes : List ℕ) (s : TempOpStoreInner) (id : OpId)
    → (store_op host now bytes s).0 ≡ ok id
    → (r : StoredOpRecord) × (r.op_data ≡ bytes)
      × (r.stored_at ≡ now)
      × ((store_op host now bytes s).1 ≡ record { ops = insert id r s.ops })
unfolding store_op
store_op_ok host now bytes s id h = elim (Fallible-cases (host.decode bytes)) [
  | inr (e, d) ↦ absurd (ground (arith, d, h))
  | inl (op, d) ↦ (record_of host now bytes op, refl, refl, ground (arith, d, h))
]

retrieved_fresh :
    (t : ℕ) (id j : OpId) (r : StoredOpRecord) (s : TempOpStoreInner)
    → Unique s.ops
    → retrieve_ops (j ∷ []) (cleanup_expired t (record { ops = insert id r s.ops })) ≡ (
        if id == j
        then (if is_fresh t r then record { op_id = j; op_data = r.op_data } ∷ [] else [])
        else retrieve_ops (j ∷ []) (cleanup_expired t s))
unfolding cleanup_expired retrieve_ops
retrieved_fresh t id j r s u =
    rw (lookup-retain (is_fresh t) j (insert id r s.ops) (insert-Unique id r s.ops u)) (
      rw (lookup-insert id j r s.ops) (elim (Bool-cases (id == j)) [
        | inl e ↦ rw e (found_keep j r.op_data r t refl)
        | inr e ↦ rw e (rw (lookup-retain (is_fresh t) j s.ops u) refl)
      ]))

-- With distinct ids in the store: an op that was stored under an id at one time is served for this
-- id, with its bytes, after a clean-up at any other time within the time to live, and no longer
-- after a later clean-up; every other id is served as without the op.
pub store_op_served :
    (host : OpHost) (now : ℕ) (bytes : List ℕ) (s : TempOpStoreInner) (id : OpId)
    → Unique s.ops
    → (store_op host now bytes s).0 ≡ ok id
    → (t : ℕ) (j : OpId)
    → retrieve_ops (j ∷ []) (cleanup_expired t (store_op host now bytes s).1) ≡ (
        if id == j
        then (if ltb (t - now) op_ttl then record { op_id = j; op_data = bytes } ∷ [] else [])
        else retrieve_ops (j ∷ []) (cleanup_expired t s))
store_op_served host now bytes s id u h t j =
    let (r, bytes_of, at, same) = store_op_ok host now bytes s id h in
    rw same (retrieved_fresh t id j r s u ∙ rw (bytes_of, at) refl)

-- Of the ids of a request, those that are served and those that the store calls unknown add up to
-- all of them, and an id is called unknown exactly if it is requested and not stored.
pub filter_out_existing_ops_lem :
    (ids : List OpId) (s : TempOpStoreInner)
    → (length (retrieve_ops ids s) + length (filter_out_existing_ops ids s) ≡ length ids)
      × ((id : OpId)
          → contains (filter_out_existing_ops ids s) id
            ≡ (contains ids id && not (has_key id s.ops)))
unfolding retrieve_ops filter_out_existing_ops
filter_out_existing_ops_lem [] s = (refl, λ id. refl)
filter_out_existing_ops_lem (i ∷ ids) s =
    let (count, which) = filter_out_existing_ops_lem ids s in
    (ground (arith, count), λ id. ground (arith, which id, nat_beq_iff i id))
