-- ===== src/Report/Totals.antt =====
-- src/linker_report.rs: what a report says of the commands of its interval.
use mathlib.Core.List.{append_assoc, append-nil}
use h2hc_linker.Base.{
  ℕ, ◌+◌, ◌≤◌, ◌≡◌, refl, String, true, false, List, [], ◌∷◌, ◌++◌, Option, none, some,
  if◌then◌else◌, nat_eq, nat_beq_iff, arith, ◌==◌, Bool-cases, inl, inr, subst, sym, ap, ◌∙◌,
}
use h2hc_linker.Base.Lists.{length}
use h2hc_linker.Base.Maps.{Map, Unique, lookup, insert, lookup-insert, insert-Unique}
use h2hc_linker.Host.{ok, err, Fallible-cases}
use h2hc_linker.Report.{
  ReportEntry, ReportEntryFetchedOps, SpaceId, Cmd, fetched_op_cmd, ReportHost, LinkerReport,
  capacity, u64, write, or_default, add_op, aggregate, write_all, process_reports, fetched_ops,
  signed, unsigned,
}

-- How many commands are of the space, and the sum of their sizes.
abbrev pub count_of : SpaceId → List Cmd → ℕ
count_of t [] = 0
count_of t (fetched_op_cmd s n ∷ cmds) =
    let rest = count_of t cmds in if s == t then 1 + rest else rest

abbrev pub bytes_of : SpaceId → List Cmd → ℕ
bytes_of t [] = 0
bytes_of t (fetched_op_cmd s n ∷ cmds) =
    let rest = bytes_of t cmds in if s == t then n + rest else rest

count_of-length : (t : SpaceId) (cmds : List Cmd) → count_of t cmds ≤ length cmds
count_of-length t [] = omega arith
count_of-length t (fetched_op_cmd s n ∷ cmds) = ground (arith, count_of-length t cmds)

aggregate-Unique :
    (cmds : List Cmd) (m : Map SpaceId (ℕ × ℕ)) → Unique m → Unique (aggregate cmds m)
unfolding aggregate
aggregate-Unique [] m u = u
aggregate-Unique (fetched_op_cmd s n ∷ cmds) m u =
    let e = add_op n (or_default (lookup s m)) in
    aggregate-Unique cmds (insert s e m) (insert-Unique s e m u)

-- The entry of a space after the commands, in terms of the one before.
abbrev after : SpaceId → List Cmd → Option (ℕ × ℕ) → Option (ℕ × ℕ)
after t cmds none =
    if count_of t cmds == 0 then none else some (u64 (count_of t cmds), u64 (bytes_of t cmds))
after t cmds (some (c, b)) = some (u64 (c + count_of t cmds), u64 (b + bytes_of t cmds))

-- Entries hold numbers of 64 bits.
abbrev IsU64 : Option (ℕ × ℕ) → Type 0
IsU64 none = Unit
IsU64 (some (c, b)) = (u64 c ≡ c) × (u64 b ≡ b)

add_op-IsU64 : (n : ℕ) (o : Option (ℕ × ℕ)) → IsU64 (some (add_op n (or_default o)))
add_op-IsU64 n none = (omega arith, omega arith)
add_op-IsU64 n (some (c, b)) = (omega arith, omega arith)

wrap_add : (x y : ℕ) → u64 (u64 x + y) ≡ u64 (x + y)
wrap_add x y = omega arith

after-other :
    (t s n : ℕ) (cmds : List Cmd) (o : Option (ℕ × ℕ))
    → (s == t) ≡ false
    → after t cmds o ≡ after t (fetched_op_cmd s n ∷ cmds) o
after-other t s n cmds none q = ground (arith, q)
after-other t s n cmds (some (c, b)) q = ground (arith, q)

after-add_op :
    (t s n : ℕ) (cmds : List Cmd) (o : Option (ℕ × ℕ))
    → (s == t) ≡ true
    → after t cmds (some (add_op n (or_default o))) ≡ after t (fetched_op_cmd s n ∷ cmds) o
after-add_op t s n cmds none q = ground (arith, q, wrap_add n (bytes_of t cmds))
after-add_op t s n cmds (some (c, b)) q =
    ground (arith, q, wrap_add (c + 1) (count_of t cmds), wrap_add (b + n) (bytes_of t cmds))

lookup-aggregate :
    (t : SpaceId) (cmds : List Cmd) (m : Map SpaceId (ℕ × ℕ)) (o : Option (ℕ × ℕ))
    → lookup t m ≡ o
    → IsU64 o
    → lookup t (aggregate cmds m) ≡ after t cmds o
unfolding aggregate
lookup-aggregate t [] m none e h = e
lookup-aggregate t [] m (some (c, b)) e h = ground (arith, h, e)
lookup-aggregate t (fetched_op_cmd s n ∷ cmds) m o e h =
    let added = add_op n (or_default (lookup s m)) in
    let here = lookup-insert s t added m in
    elim (Bool-cases (s == t)) [
      | inl q ↦
          let same : lookup s m ≡ o = subst (λ k. lookup k m ≡ o) (sym ((nat_beq_iff s t).0 q)) e in
          lookup-aggregate t cmds (insert s added m) (some (add_op n (or_default o)))
            (ground (arith, here, q, same)) (add_op-IsU64 n o)
          ∙ after-add_op t s n cmds o q
      | inr q ↦
          lookup-aggregate t cmds (insert s added m) o (ground (arith, here, q, e)) h
          ∙ after-other t s n cmds o q
    ]

-- The totals of an interval: the exact number of ops, since the channel holds few, and the sum of
-- their sizes modulo 2^64.
pub totals_lem :
    (t : SpaceId) (cmds : List Cmd)
    → length cmds ≤ capacity
    → lookup t (aggregate cmds [])
      ≡ (if count_of t cmds == 0 then none else some (count_of t cmds, u64 (bytes_of t cmds)))
totals_lem t cmds h =
    let few = count_of-length t cmds in
    lookup-aggregate t cmds [] none refl tt
    ∙ ap (λ c. if count_of t cmds == 0 then none else some (c, u64 (bytes_of t cmds)))
        (omega (arith, few, h))

-- The lines that are written for entries.
module _ (host : ReportHost) where
  abbrev pub line_of : ReportEntry → List String
  line_of e = elim (host.json e) [
    | err x ↦ []
    | ok text ↦ if host.can_write text then text ∷ [] else []
  ]

  -- The entry of a space with a number of ops and of bytes, as it is signed.
  abbrev pub unsigned_entry : String → SpaceId → ℕ → ℕ → ReportEntryFetchedOps
  unsigned_entry key s op_count total_bytes = record {
    timestamp = host.timestamp s;
    space = host.space_text s;
    op_count = host.number_text op_count;
    total_bytes = host.number_text total_bytes;
    agent_pubkeys = key ∷ [];
    signatures = [];
  }

  -- The line of a space: the entry with the signature of the entry without one.
  abbrev pub line_for : String → SpaceId → ℕ → ℕ → List String
  line_for key s op_count total_bytes =
      let entry = unsigned_entry key s op_count total_bytes in
      line_of (fetched_ops (record entry { signatures = host.sign entry ∷ [] }))

  abbrev pub lines : String → Map SpaceId (ℕ × ℕ) → List String
  lines key [] = []
  lines key ((s, totals) ∷ rest) = line_for key s totals.0 totals.1 ++ lines key rest

  file-write : (e : ReportEntry) (r : LinkerReport) → (write host e r).file ≡ r.file ++ line_of e
  unfolding write
  file-write e r = elim (Fallible-cases (host.json e)) [
    | inr (x, h) ↦
        let lost : line_of e ≡ [] = ground (arith, h) in
        rw (h, write) (sym (append-nil r.file) ∙ ap (λ l. r.file ++ l) (sym lost))
    | inl (text, h) ↦ elim (Bool-cases (host.can_write text)) [
      | inl q ↦
          let written : line_of e ≡ text ∷ [] = ground (arith, h, q) in
          rw (h, write, q) (ap (λ l. r.file ++ l) (sym written))
      | inr q ↦
          let lost : line_of e ≡ [] = ground (arith, h, q) in
          rw (h, write, q) (sym (append-nil r.file) ∙ ap (λ l. r.file ++ l) (sym lost))
    ]
  ]

  write-same :
      (e : ReportEntry) (r : LinkerReport)
      → ((write host e r).cmds ≡ r.cmds) × ((write host e r).agent_pubkey_str ≡ r.agent_pubkey_str)
  unfolding write
  write-same e r = (ground (arith, host.json e), ground (arith, host.json e))

  write_all_lem :
      (m : Map SpaceId (ℕ × ℕ)) (r : LinkerReport)
      → ((write_all host m r).cmds ≡ r.cmds)
        × ((write_all host m r).file ≡ r.file ++ lines r.agent_pubkey_str m)
  unfolding write_all
  write_all_lem [] r = (refl, sym (append-nil r.file))
  write_all_lem ((s, totals) ∷ rest) r =
      let e = fetched_ops (signed host (unsigned host r.agent_pubkey_str s totals)) in
      let (same_cmds, same_key) = write-same e r in
      let (more_cmds, more_file) = write_all_lem rest (write host e r) in
      (
        more_cmds ∙ same_cmds,
        more_file
            ∙ ap (λ k. (write host e r).file ++ lines k rest) same_key
            ∙ ap (λ f. f ++ lines r.agent_pubkey_str rest) (file-write e r)
            ∙ append_assoc r.file (line_of e) (lines r.agent_pubkey_str rest),
      )

  -- A report of a queue within its capacity empties it and adds, for each space of its commands and
  -- no other, one line with the number of the ops, their bytes modulo 2^64, the key of the linker and
  -- its signature of the entry without one, if the line can be written.
  pub process_reports_lem :
      (r : LinkerReport)
      → length r.cmds ≤ capacity
      → ((process_reports host r).cmds ≡ [])
        × ((m : Map SpaceId (ℕ × ℕ)) × Unique m
            × ((process_reports host r).file ≡ r.file ++ lines r.agent_pubkey_str m)
            × ((t : SpaceId)
                → lookup t m ≡ (
                    if count_of t r.cmds == 0
                    then none
                    else some (count_of t r.cmds, u64 (bytes_of t r.cmds)))))
  unfolding process_reports
  process_reports_lem r h =
      let m = aggregate r.cmds [] in
      let (emptied, written) = write_all_lem m (record r { cmds = [] }) in
      (emptied, (m, aggregate-Unique r.cmds [] tt, written, λ t. totals_lem t r.cmds h))
