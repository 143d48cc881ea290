-- ===== src/OpStore/Window.antt =====
-- src/temp_op_store.rs: for how long an op is served, over everything that happens at the store.
use h2hc_linker.Base.{
  ℕ, zero, suc, ◌+◌, ◌-◌, ◌≤◌, ◌≡◌, refl, Bool, true, false, List, [], ◌∷◌, Option, none, some,
  arith, if◌then◌else◌, ltb, ◌&&◌, nat_eq, Bool-cases, inl, inr, ◌∙◌, ◌==◌, ==_refl,
}
use h2hc_linker.Base.Ticks.{later, every, past_limit}
use h2hc_linker.Base.Maps.{
  Unique, lookup, keep_if, insert, lookup-insert, lookup-retain, insert-Unique, retain-Unique,
}
use h2hc_linker.Host.{ok, Fallible-cases}
use h2hc_linker.Kitsune.{OpId}
use h2hc_linker.OpStore.{
  DhtOp, StoredOpRecord, is_fresh, found, OpHost, TempOpStoreInner, TempOpStore, op_ttl,
  cleanup_interval, record_of, store_op, cleanup_expired, retrieve_ops,
}
use h2hc_linker.OpStore.Retrieval.{store_op_ok}

-- What happens at the shared store: an op is published, the clean-up runs, and at the store of some
-- space ops are fetched, filtered or delivered.
pub data Access : Type 0 where
  publish : (now : ℕ) (op_bytes : List ℕ) → Access
  clean : (now : ℕ) → Access
  fetch : (space : TempOpStore) (ids : List OpId) → Access
  filter_ops : (space : TempOpStore) (ids : List OpId) → Access
  deliver : (space : TempOpStore) (ops : List (List ℕ)) → Access

-- The store afterwards; only the handle and the clean-up write.
unfoldable pub access : OpHost → Access → TempOpStoreInner → TempOpStoreInner
access host (publish now bytes) s = (store_op host now bytes s).1
access host (clean now) s = cleanup_expired now s
access host (fetch space ids) s = s
access host (filter_ops space ids) s = s
access host (deliver space ops) s = s

unfoldable pub after : OpHost → List Access → TempOpStoreInner → TempOpStoreInner
after host [] s = s
after host (a ∷ later) s = after host later (access host a s)

-- The times of the clean-ups.
abbrev pub clean_times : List Access → List ℕ
clean_times [] = []
clean_times (clean now ∷ rest) = now ∷ clean_times rest
clean_times (_ ∷ rest) = clean_times rest

-- No op of that id is published again.
abbrev pub NotAgain : OpHost → OpId → List Access → Type 0
NotAgain host id [] = Unit
NotAgain host id (publish now bytes ∷ rest) =
    ((op : DhtOp) → host.decode bytes ≡ ok op → (host.op_id op == id) ≡ false)
    × NotAgain host id rest
NotAgain host id (_ ∷ rest) = NotAgain host id rest

-- Whether each clean-up comes within the time to live.
abbrev pub all_within : ℕ → List ℕ → Bool
all_within stored [] = true
all_within stored (now ∷ times) = ltb (now - stored) op_ttl && all_within stored times

-- What the clean-ups leave of a record.
abbrev pub keep_all : List ℕ → Option StoredOpRecord → Option StoredOpRecord
keep_all [] o = o
keep_all (now ∷ times) o = keep_all times (keep_if (is_fresh now) o)

keep_all-none : (times : List ℕ) → keep_all times none ≡ none
keep_all-none [] = refl
keep_all-none (now ∷ times) = keep_all-none times

keep_all-some :
    (times : List ℕ) (r : StoredOpRecord)
    → keep_all times (some r) ≡ (if all_within r.stored_at times then some r else none)
keep_all-some [] r = refl
keep_all-some (now ∷ times) r = elim (Bool-cases (is_fresh now r)) [
  | inl e ↦ rw e (keep_all-some times r)
  | inr e ↦ rw e (keep_all-none times)
]

publish_other :
    (host : OpHost) (now : ℕ) (bytes : List ℕ) (id : OpId) (s : TempOpStoreInner)
    → ((op : DhtOp) → host.decode bytes ≡ ok op → (host.op_id op == id) ≡ false)
    → Unique s.ops
    → (lookup id (store_op host now bytes s).1.ops ≡ lookup id s.ops)
      × Unique (store_op host now bytes s).1.ops
unfolding store_op
publish_other host now bytes id s h u = elim (Fallible-cases (host.decode bytes)) [
  | inr (e, d) ↦ rw (store_op, d) (refl, u)
  | inl (op, d) ↦
      rw (store_op, d)
        (
          rw (lookup-insert (host.op_id op) id (record_of host now bytes op) s.ops)
              (rw (h op d) refl),
          insert-Unique (host.op_id op) (record_of host now bytes op) s.ops u,
        )
]

after-lookup :
    (host : OpHost) (id : OpId) (rest : List Access) (s : TempOpStoreInner)
    → NotAgain host id rest
    → Unique s.ops
    → lookup id (after host rest s).ops ≡ keep_all (clean_times rest) (lookup id s.ops)
unfolding after access cleanup_expired
after-lookup host id [] s h u = refl
after-lookup host id (publish now bytes ∷ rest) s h u =
    let (same, unique) = publish_other host now bytes id s h.0 u in
    after-lookup host id rest (store_op host now bytes s).1 h.1 unique ∙ rw same refl
after-lookup host id (clean now ∷ rest) s h u =
    after-lookup host id rest (cleanup_expired now s) h (retain-Unique (is_fresh now) s.ops u)
    ∙ rw (lookup-retain (is_fresh now) id s.ops u) refl
after-lookup host id (fetch space ids ∷ rest) s h u = after-lookup host id rest s h u
after-lookup host id (filter_ops space ids ∷ rest) s h u = after-lookup host id rest s h u
after-lookup host id (deliver space ops ∷ rest) s h u = after-lookup host id rest s h u

late-all_within :
    (stored first n : ℕ)
    → stored + op_ttl ≤ later cleanup_interval first n
    → all_within stored (every cleanup_interval first n) ≡ false
late-all_within stored first zero h = ground arith
late-all_within stored first (suc n) h =
    ground (arith, late-all_within stored (first + cleanup_interval) n h)

found_all :
    (id : OpId) (bytes : List ℕ) (r : StoredOpRecord) (b : Bool)
    → r.op_data ≡ bytes
    → found id (if b then some r else none) []
      ≡ (if b then record { op_id = id; op_data = bytes } ∷ [] else [])
found_all id bytes r b h = ground (arith, h)

module _ (host : OpHost) (now : ℕ) (bytes : List ℕ) (s : TempOpStoreInner) (id : OpId) where
  served :
      Unique s.ops
      → (store_op host now bytes s).0 ≡ ok id
      → (rest : List Access) → NotAgain host id rest
      → retrieve_ops (id ∷ []) (after host rest (store_op host now bytes s).1) ≡ (
          if all_within now (clean_times rest)
          then record { op_id = id; op_data = bytes } ∷ []
          else [])
  unfolding retrieve_ops
  served u h rest again =
      let (r, bytes_of, at, same) = store_op_ok host now bytes s id h in
      let start : lookup id (insert id r s.ops) ≡ some r =
        lookup-insert id id r s.ops ∙ rw (==_refl id) refl in
      let kept =
        after-lookup host id rest (record { ops = insert id r s.ops }) again
          (insert-Unique id r s.ops u) in
      rw same (
        rw kept (
          rw start (
            rw (keep_all-some (clean_times rest) r)
              (rw at (found_all id bytes r (all_within now (clean_times rest)) bytes_of)))))

  -- With distinct ids in the store: an op that was stored under an id which no later op takes again
  -- is served, with its bytes, exactly while each clean-up since came within the time to live,
  -- however often and by the store of whatever space it was fetched; and of clean-ups at the
  -- interval, the first no later than an interval after the op's time is over, there is one, no
  -- later than that either, after which it is not served any more.
  pub served_window :
      Unique s.ops
      → (store_op host now bytes s).0 ≡ ok id
      → (first : ℕ) → first ≤ now + op_ttl + cleanup_interval
      → ((rest : List Access)
          → NotAgain host id rest
          → retrieve_ops (id ∷ []) (after host rest (store_op host now bytes s).1) ≡ (
              if all_within now (clean_times rest)
              then record { op_id = id; op_data = bytes } ∷ []
              else []))
        × (n : ℕ) × (later cleanup_interval first n ≤ now + op_ttl + cleanup_interval)
        × ((rest : List Access)
            → NotAgain host id rest
            → clean_times rest ≡ every cleanup_interval first n
            → retrieve_ops (id ∷ []) (after host rest (store_op host now bytes s).1) ≡ [])
  served_window u h first p =
      let limit = now + op_ttl in
      let (n, lo, hi) =
        past_limit cleanup_interval limit (suc limit) first (omega arith) (omega arith) p in
      (
        served u h,
        n,
        hi,
        λ rest again e.
            let over : all_within now (clean_times rest) ≡ false =
              rw e (late-all_within now first n (omega arith)) in
            served u h rest again ∙ rw over refl,
      )
