-- ===== src/Dht/Agreement.antt =====
-- src/routes/dht.rs: how the record and the details of one hash agree, and what a malformed request
-- does.
use h2hc_linker.Base.{
  ℕ, ◌≡◌, refl, ap, true, List, [], ◌∷◌, Option, none, some, arith, ◌⊎◌, inl, inr, Option-cases,
  Bool-cases, nat_eq,
}
use h2hc_linker.Base.Lists.{contains, collect_set}
use h2hc_linker.Host.{Host}
use h2hc_linker.Error.{LinkerResult, done, failure, ◌>>=◌}
use h2hc_linker.Kitsune.{Kitsune}
use h2hc_linker.Dht.{
  JudgedCreate, EntryData, WireOps, entry_ops, record_ops, warrant_ops, Hasher, SignedActionHashed,
  Record, is_valid, signed_create, first_record, actions_of, CreateLink, wire_entry_ops_to_details,
  deleted_action_hashes,
}
use h2hc_linker.Dht.Records.{
  Details, record_details, entry_details, wire_ops_to_record_json, wire_ops_to_details_json,
  wire_record_ops_to_details,
}
use h2hc_linker.Dht.Routes.{HashHost, RecordPath, record_request}
use h2hc_linker.Dht.Handlers.{
  Asks, DhtState, answer_with, or_null, get_query, dht_get_record, dht_get_details,
}

abbrev pub Listed : SignedActionHashed → List SignedActionHashed → Type 0
Listed a [] = ⊥
Listed a (b ∷ bs) = (b ≡ a) ⊎ Listed a bs

-- The details show the record: as theirs, or, of an entry, its entry and its action among the
-- actions that count.
abbrev pub Shows : Record → Option Details → Type 0
Shows r none = ⊥
Shows r (some (record_details d)) = d.record_of ≡ r
Shows r (some (entry_details d)) = (r.entry ≡ some d.entry) × Listed r.signed_action d.actions

-- Of the answers of the two routes: the same error, and a record only with details that show it.
abbrev pub Agree : LinkerResult (Option Record) → LinkerResult (Option Details) → Type 0
Agree (failure e) (failure e') = e ≡ e'
Agree (done none) (done d) = Unit
Agree (done (some r)) (done d) = Shows r d
Agree _ _ = ⊥

module _ (hasher : Hasher) where
  first_record-Listed :
      (ed : EntryData) (deleted : List ℕ) (creates : List JudgedCreate) (r : Record)
      → first_record hasher ed deleted creates ≡ some r
      → (r.entry ≡ some ed.entry) × Listed r.signed_action (actions_of hasher true ed creates)
  first_record-Listed ed deleted [] r h = absurd (ground (arith, h))
  first_record-Listed ed deleted (c ∷ creates) r h = elim (Bool-cases (is_valid c)) [
    | inr off ↦
        let (e, listed) = first_record-Listed ed deleted creates r (ground (arith, off, h)) in
        (e, rw off listed)
    | inl on ↦
        let signed = signed_create hasher ed.entry_type (hasher.hash_entry ed.entry) c.data_of in
        elim (Bool-cases (contains deleted signed.hash)) [
          | inl gone ↦
              let (e, listed) =
                first_record-Listed ed deleted creates r (ground (arith, on, gone, h)) in
              (e, rw on (inr listed))
          | inr there ↦
              let same : record { signed_action = signed; entry = some ed.entry } ≡ r =
                ground (arith, on, there, h) in
              (ground (arith, same), rw on (inl (ap (λ x. x.signed_action) same)))
        ]
  ]

  converted-Shows :
      (ops : WireOps) (r : Record)
      → wire_ops_to_record_json hasher ops ≡ some r
      → Shows r (wire_ops_to_details_json hasher ops)
  unfolding wire_ops_to_record_json wire_ops_to_details_json wire_entry_ops_to_details
      wire_record_ops_to_details
  converted-Shows warrant_ops r h = absurd (ground (arith, h))
  converted-Shows (record_ops ops) r h = elim (Option-cases ops.action) [
    | inl e ↦ absurd (ground (arith, e, h))
    | inr (a, e) ↦ rw e (ground (arith, e, h))
  ]
  converted-Shows (entry_ops ops) r h = elim (Option-cases ops.entry) [
    | inl e ↦ absurd (ground (arith, e, h))
    | inr (ed, e) ↦
        rw (wire_entry_ops_to_details, e)
          (first_record-Listed ed (collect_set (deleted_action_hashes hasher ops.deletes))
            ops.creates r (ground (arith, e, h)))
  ]

  converted-Agree :
      (ops : WireOps)
      → Agree
          (done (wire_ops_to_record_json hasher ops))
          (done (wire_ops_to_details_json hasher ops))
  converted-Agree ops = elim (Option-cases (wire_ops_to_record_json hasher ops)) [
    | inl e ↦ rw e tt
    | inr (r, e) ↦ rw e (converted-Shows ops r e)
  ]

  answers-Agree :
      (x : LinkerResult (Option WireOps))
      → Agree
          (x >>= λ a. done (or_null (wire_ops_to_record_json hasher) a))
          (x >>= λ a. done (or_null (wire_ops_to_details_json hasher) a))
  answers-Agree (failure e) = refl
  answers-Agree (done none) = tt
  answers-Agree (done (some ops)) = converted-Agree ops

module _ (host : Host) (hashes : HashHost) (hasher : Hasher) (to_hash : CreateLink → ℕ)
    (k : Kitsune) (asks : Asks) where
  -- The record route and the details route, on the same path, state and peers: both leave the same
  -- state and fail with the same error; and when the first answers a record, the second answers
  -- details that show it, as the record of these details or as an entry with that record's action
  -- among the actions that count.
  pub record_and_details-Agree :
      (path : RecordPath) (s : DhtState)
      → let record_answer = dht_get_record host hashes hasher to_hash k asks path s in
        let details_answer = dht_get_details host hashes hasher to_hash k asks path s in
        (record_answer.1 ≡ details_answer.1) × Agree record_answer.0 details_answer.0
  unfolding dht_get_record dht_get_details
  record_and_details-Agree path none = (refl, refl)
  record_and_details-Agree path (some g) = go (record_request host hashes path)
    where
      go :
          (request : LinkerResult (ℕ × ℕ))
          → let record_answer =
              answer_with request
                (get_query host hashes hasher to_hash k asks)
                (λ p. or_null (wire_ops_to_record_json hasher))
                (some g) in
            let details_answer =
              answer_with request
                (get_query host hashes hasher to_hash k asks)
                (λ p. or_null (wire_ops_to_details_json hasher))
                (some g) in
            (record_answer.1 ≡ details_answer.1) × Agree record_answer.0 details_answer.0
      go (failure e) = (refl, refl)
      go (done p) = (refl, answers-Agree hasher (get_query host hashes hasher to_hash k asks p g).0)
