-- ===== src/Publish/Held.antt =====
-- src/routes/publish.rs: an op that is offered to peers is in the op store when they fetch it.
use h2hc_linker.Base.{
  ℕ, ◌≡◌, refl, true, List, [], ◌∷◌, Option, none, some, arith, nat_eq, nat_beq_iff, ◌==◌, ◌⊎◌, inl,
  inr, Bool-cases, subst,
}
use h2hc_linker.Base.Lists.{contains}
use h2hc_linker.Base.Maps.{has_key, lookup-insert}
use h2hc_linker.Host.{Host, ok, Fallible-cases}
use h2hc_linker.Kitsune.{OpId}
use h2hc_linker.OpStore.{OpHost, TempOpStoreInner, record_of, store_op}
use h2hc_linker.Error.{LinkerResult-cases, LinkerError, done, failure}
use h2hc_linker.Publish.{
  SignedDhtOp, ProcessedOp, process_signed_op, check_signed_op, stored_as, store_all,
}

-- The store is there and has an op under the id.
abbrev pub Holds : OpId → Option TempOpStoreInner → Type 0
Holds id none = ⊥
Holds id (some s) = has_key id s.ops ≡ true

store_op-Holds :
    (ops : OpHost) (now : ℕ) (bytes : List ℕ) (s : TempOpStoreInner) (id : OpId)
    → (Holds id (some s) → Holds id (some (store_op ops now bytes s).1))
      × ((store_op ops now bytes s).0 ≡ ok id → Holds id (some (store_op ops now bytes s).1))
unfolding store_op
store_op-Holds ops now bytes s id = elim (Fallible-cases (ops.decode bytes)) [
  | inr (e, d) ↦ (λ h. ground (arith, d, h), λ h. absurd (ground (arith, d, h)))
  | inl (op, d) ↦
      let i = ops.op_id op in
      let there = lookup-insert i id (record_of ops now bytes op) s.ops in
      (λ h. ground (arith, d, h, there), λ h. ground (arith, d, h, there, nat_beq_iff i id))
]

-- A processed op was stored; one that was refused leaves the store alone.
process_signed_op_cases :
    (host : Host) (ops : OpHost) (now : ℕ) (signed : SignedDhtOp) (s : TempOpStoreInner)
    → let r = process_signed_op host ops now signed (some s) in
      ((e : LinkerError) × (r ≡ (failure e, some s)))
      ⊎ ((bytes : List ℕ) × (loc : ℕ) × (r ≡ stored_as loc (store_op ops now bytes s)))
unfolding process_signed_op
process_signed_op_cases host ops now signed s =
    elim (LinkerResult-cases (check_signed_op host ops signed)) [
      | inr (e, c) ↦ inl (e, ground (arith, c))
      | inl ((bytes, op), c) ↦ inr (bytes, ops.basis_loc op, ground (arith, c))
    ]

stored_as-Holds :
    (ops : OpHost) (now loc : ℕ) (bytes : List ℕ) (s : TempOpStoreInner)
    → (s' : TempOpStoreInner) × ((stored_as loc (store_op ops now bytes s)).1 ≡ some s')
      × ((id : OpId) → Holds id (some s) → Holds id (some s'))
      × ((p : ProcessedOp)
          → (stored_as loc (store_op ops now bytes s)).0 ≡ done p
          → Holds p.op_id (some s'))
stored_as-Holds ops now loc bytes s =
    let s' = (store_op ops now bytes s).1 in
    let held = λ (id : OpId). store_op-Holds ops now bytes s id in
    elim (Fallible-cases (store_op ops now bytes s).0) [
      | inr (e, f) ↦
          (s', ground (arith, f), λ id. (held id).0, λ p h. absurd (ground (arith, f, h)))
      | inl (id, f) ↦
          (s', ground (arith, f), λ j. (held j).0, λ p h. ground (arith, f, h, (held p.op_id).1))
    ]

-- One op of the request, on a store that is there.
process_signed_op-Holds :
    (host : Host) (ops : OpHost) (now : ℕ) (signed : SignedDhtOp) (s : TempOpStoreInner)
    → let r = process_signed_op host ops now signed (some s) in
      (s' : TempOpStoreInner) × (r.1 ≡ some s')
      × ((id : OpId) → Holds id (some s) → Holds id (some s'))
      × ((p : ProcessedOp) → r.0 ≡ done p → Holds p.op_id (some s'))
process_signed_op-Holds host ops now signed s =
    elim (process_signed_op_cases host ops now signed s) [
      | inl (e, same) ↦ (s, rw same refl, λ id h. h, λ p h. absurd (ground (arith, same, h)))
      | inr (bytes, loc, same) ↦ rw same (stored_as-Holds ops now loc bytes s)
    ]

abbrev pub op_ids : List ProcessedOp → List OpId
op_ids [] = []
op_ids (op ∷ rest) = op.op_id ∷ op_ids rest

-- On a store that is there: the store has, when all ops of a request are processed, every op that
-- was in it and every op that is offered to the peers afterwards.
pub store_all-Holds :
    (host : Host) (ops : OpHost) (now : SignedDhtOp → ℕ) (signed : List SignedDhtOp)
    (s : TempOpStoreInner)
    → let (stored, store') = store_all host ops now signed (some s) in
      (s' : TempOpStoreInner) × (store' ≡ some s')
      × ((id : OpId) → Holds id (some s) → Holds id (some s'))
      × ((id : OpId) → contains (op_ids stored.processed) id ≡ true → Holds id (some s'))
unfolding store_all
store_all-Holds host ops now [] s = (s, refl, λ id h. h, λ id h. absurd (ground arith))
store_all-Holds host ops now (op ∷ rest) s =
    let (s', here, kept, added) = process_signed_op-Holds host ops (now op) op s in
    let (s'', there, kept', added') = store_all-Holds host ops now rest s' in
    (
      s'',
      rw (here, there) refl,
      λ id h. kept' id (kept id h),
      λ id h. elim (LinkerResult-cases (process_signed_op host ops (now op) op (some s)).0) [
        | inr (e, c) ↦ added' id (ground (arith, here, c, h))
        | inl (p, c) ↦ elim (Bool-cases (p.op_id == id)) [
          | inl q ↦
              subst (λ k. Holds k (some s'')) ((nat_beq_iff p.op_id id).0 q)
                (kept' p.op_id (added p c))
          | inr q ↦ added' id (ground (arith, here, c, h, q))
        ]
      ],
    )
