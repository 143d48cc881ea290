-- ===== src/Dht/Live.antt =====
-- src/routes/dht.rs: which record an entry has, and when its details say that it is dead.
use h2hc_linker.Base.{
  ℕ, ◌≡◌, ◌≢◌, refl, sym, subst, true, false, List, [], ◌∷◌, Option, none, some, arith, ◌⊎◌, inl,
  inr, Bool-cases, is_some, nat_eq, nat_beq_iff,
}
use h2hc_linker.Base.Lists.{contains, collect_set, contains-collect_set}
use h2hc_linker.Dht.{
  JudgedCreate, WireDelete, EntryData, WireEntryOps, WireNewEntryAction, create, update, Action,
  create_action, update_action, ValidationStatus, valid, rejected, abandoned, Hasher, Record,
  SignedActionHashed, is_valid, signed_create, deleted_action_hashes, first_record,
  wire_entry_ops_to_record, dead, EntryDetails, wire_entry_ops_to_details,
}

-- Without a status, or found valid.
abbrev pub IsAccepted : Option ValidationStatus → Type 0
IsAccepted status = (status ≡ none) ⊎ (status ≡ some valid)

-- No delete has the hash as the address of the action that it deletes.
abbrev pub NotDeleted : ℕ → List WireDelete → Type 0
NotDeleted hash [] = Unit
NotDeleted hash (d ∷ ds) = (d.delete.deletes_address ≢ hash) × NotDeleted hash ds

accepted_lem : (c : JudgedCreate) → is_valid c ≡ true → IsAccepted c.status
accepted_lem c h = go c.status h
  where
    go : (o : Option ValidationStatus) → is_valid (record c { status = o }) ≡ true → IsAccepted o
    go none e = inl refl
    go (some valid) e = inr refl
    go (some rejected) e = absurd (ground (arith, e))
    go (some abandoned) e = absurd (ground (arith, e))

valid_lem : (c : JudgedCreate) → IsAccepted c.status → is_valid c ≡ true
valid_lem c (inl e) = rw e refl
valid_lem c (inr e) = rw e refl

module _ (hasher : Hasher) where
  -- The action that a create stands for, of an entry.
  abbrev pub action_for : EntryData → WireNewEntryAction → Action
  action_for ed (create w) = create_action w.common ed.entry_type (hasher.hash_entry ed.entry)
  action_for ed (update w) =
      update_action w.common w.original_entry_address w.original_action_address ed.entry_type
        (hasher.hash_entry ed.entry)

  abbrev pub signature_for : WireNewEntryAction → List ℕ
  signature_for (create w) = w.signature
  signature_for (update w) = w.signature

  -- The create is accepted, and no delete names its action.
  abbrev pub IsLive : EntryData → List WireDelete → JudgedCreate → Type 0
  IsLive ed deletes c =
      IsAccepted c.status × NotDeleted (hasher.hash_action (action_for ed c.data_of)) deletes

  abbrev pub AnyLive : EntryData → List WireDelete → List JudgedCreate → Type 0
  AnyLive ed deletes [] = ⊥
  AnyLive ed deletes (c ∷ creates) = IsLive ed deletes c ⊎ AnyLive ed deletes creates

  -- The record has the action of the create, its signature and hash, and the entry.
  abbrev pub Shows : EntryData → Record → JudgedCreate → Type 0
  Shows ed r c =
      (r.signed_action.action ≡ action_for ed c.data_of)
      × (r.signed_action.signature ≡ signature_for c.data_of)
      × (r.signed_action.hash ≡ hasher.hash_action (action_for ed c.data_of))
      × (r.entry ≡ some ed.entry)

  -- A live create of the list is what the record shows.
  abbrev pub ShowsLive : EntryData → List WireDelete → List JudgedCreate → Record → Type 0
  ShowsLive ed deletes [] r = ⊥
  ShowsLive ed deletes (c ∷ creates) r =
      (IsLive ed deletes c × Shows ed r c) ⊎ ShowsLive ed deletes creates r

  abbrev signed_for : EntryData → JudgedCreate → SignedActionHashed
  signed_for ed c = signed_create hasher ed.entry_type (hasher.hash_entry ed.entry) c.data_of

  signed_lem :
      (ed : EntryData) (c : JudgedCreate)
      → ((signed_for ed c).action ≡ action_for ed c.data_of)
        × ((signed_for ed c).signature ≡ signature_for c.data_of)
        × ((signed_for ed c).hash ≡ hasher.hash_action (action_for ed c.data_of))
  signed_lem ed c = go c.data_of
    where
      go :
          (w : WireNewEntryAction)
          → let s = signed_create hasher ed.entry_type (hasher.hash_entry ed.entry) w in
            (s.action ≡ action_for ed w)
            × (s.signature ≡ signature_for w)
            × (s.hash ≡ hasher.hash_action (action_for ed w))
      go (create w) = (refl, refl, refl)
      go (update w) = (refl, refl, refl)

  undeleted_lem :
      (hash : ℕ) (deletes : List WireDelete)
      → contains (deleted_action_hashes hasher deletes) hash ≡ false
      → NotDeleted hash deletes
  undeleted_lem hash [] h = tt
  undeleted_lem hash (d ∷ ds) h = (
    λ e. ground (arith, e, h, nat_beq_iff d.delete.deletes_address hash, nat_beq_iff hash hash),
    undeleted_lem hash ds (ground (arith, h)),
  )

  contains_lem :
      (hash : ℕ) (deletes : List WireDelete)
      → NotDeleted hash deletes
      → contains (deleted_action_hashes hasher deletes) hash ≡ false
  contains_lem hash [] n = refl
  contains_lem hash (d ∷ ds) n = ground (
    arith,
    n.0,
    nat_beq_iff d.delete.deletes_address hash,
    nat_beq_iff hash d.delete.deletes_address,
    contains_lem hash ds n.1,
  )

  first_record_sound :
      (ed : EntryData) (deletes : List WireDelete) (creates : List JudgedCreate) (r : Record)
      → first_record hasher ed (collect_set (deleted_action_hashes hasher deletes)) creates ≡ some r
      → ShowsLive ed deletes creates r
  first_record_sound ed deletes [] r h = ground (arith, h)
  first_record_sound ed deletes (c ∷ creates) r h =
      let hash = (signed_for ed c).hash in
      let (action, signature, hashed) = signed_lem ed c in
      let at = contains-collect_set (deleted_action_hashes hasher deletes) hash in
      let later = first_record_sound ed deletes creates r in
      elim (Bool-cases (is_valid c)) [
        | inr q ↦ inr (later (ground (arith, h, q)))
        | inl q ↦ elim (Bool-cases (contains (deleted_action_hashes hasher deletes) hash)) [
          | inl d ↦ inr (later (ground (arith, h, q, d, at)))
          | inr d ↦
              let same : record { signed_action = signed_for ed c; entry = some ed.entry } ≡ r =
                ground (arith, h, q, d, at) in
              inl (
                (
                  accepted_lem c q,
                  subst (λ x. NotDeleted x deletes) hashed (undeleted_lem hash deletes d),
                ),
                subst (λ x. Shows ed x c) same (action, signature, hashed, refl),
              )
        ]
      ]

  first_record_complete :
      (ed : EntryData) (deletes : List WireDelete) (creates : List JudgedCreate)
      → AnyLive ed deletes creates
      → is_some
          (first_record hasher ed (collect_set (deleted_action_hashes hasher deletes)) creates)
        ≡ true
  first_record_complete ed deletes [] h = absurd h
  first_record_complete ed deletes (c ∷ creates) (inl (q, d)) =
      let hash = (signed_for ed c).hash in
      let (action, signature, hashed) = signed_lem ed c in
      let kept = contains_lem hash deletes (subst (λ x. NotDeleted x deletes) (sym hashed) d) in
      ground (
        arith,
        valid_lem c q,
        kept,
        contains-collect_set (deleted_action_hashes hasher deletes) hash,
      )
  first_record_complete ed deletes (c ∷ creates) (inr h) =
      ground (arith, first_record_complete ed deletes creates h)

  -- For an entry that a peer has sent: a record of it has the action and the signature of a create
  -- that has no status or is found valid and whose action no delete names, with the hash of the action
  -- and the entry; and if there is such a create, there is a record.
  pub wire_entry_ops_to_record_lem :
      (ops : WireEntryOps) (ed : EntryData)
      → ops.entry ≡ some ed
      → ((r : Record)
          → wire_entry_ops_to_record hasher ops ≡ some r
          → ShowsLive ed ops.deletes ops.creates r)
        × (AnyLive ed ops.deletes ops.creates
            → is_some (wire_entry_ops_to_record hasher ops) ≡ true)
  unfolding wire_entry_ops_to_record
  wire_entry_ops_to_record_lem ops ed e =
      rw (e, wire_entry_ops_to_record)
        (
          λ r h. first_record_sound ed ops.deletes ops.creates r h,
          λ h. first_record_complete ed ops.deletes ops.creates h,
        )

  -- An entry with two valid creates and two deletes of the first: it has a record, by its second
  -- create, and its details say that it is dead.
  pub details_dead_with_record :
      (ed : EntryData) (a b : JudgedCreate) (d e : WireDelete)
      → is_valid a ≡ true
      → IsLive ed (d ∷ e ∷ []) b
      → let ops : WireEntryOps = record {
        entry = some ed;
        creates = a ∷ b ∷ [];
        deletes = d ∷ e ∷ [];
        updates = [];
      } in
        (is_some (wire_entry_ops_to_record hasher ops) ≡ true)
        × ((details : EntryDetails) × (wire_entry_ops_to_details hasher ops ≡ some details)
            × (details.entry_dht_status ≡ dead))
  unfolding wire_entry_ops_to_details wire_entry_ops_to_record
  details_dead_with_record ed a b d e va (vb, lb) = (
    first_record_complete ed (d ∷ e ∷ []) (a ∷ b ∷ []) (inr (inl (vb, lb))),
    rw (va, valid_lem b vb) (_, refl, refl),
  )
