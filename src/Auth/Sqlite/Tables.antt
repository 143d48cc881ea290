-- ===== src/Auth/Sqlite/Tables.antt =====
-- src/auth/sqlite_store.rs: the rows of `session_dnas` under the statements that change the tables.
use h2hc_linker.Base.{
  String, ◌≡◌, ◌≢◌, refl, Bool, true, not, List, [], ◌∷◌, none, some, arith, ◌==◌, ◌&&◌, string_eq,
  nat_eq, eq_iff, ==_refl, if◌then◌else◌, inl, inr, Option-cases, Bool-cases, subst,
}
use h2hc_linker.Base.Lists.{filter, contains, set_insert, contains-set_insert}
use h2hc_linker.Base.Maps.{Map, Unique, lookup, has_key, insert, lookup-insert}
use h2hc_linker.Ids.{DnaHash}
use h2hc_linker.Host.{Host, ok, Fallible-cases}
use h2hc_linker.Auth.Sqlite.{SessionRow, DnaRow, cascade, has_row, insert_dnas, dnas_of}

-- Each row belongs to a session, of the agent that it names.
abbrev pub Owned : Map String SessionRow → List DnaRow → Type 0
Owned sessions [] = Unit
Owned sessions (r ∷ rows) =
    ((row : SessionRow) × (lookup r.token sessions ≡ some row)
      × (row.agent_pubkey ≡ r.agent_pubkey))
    × Owned sessions rows

-- Every session of the first table is one of the second.
abbrev pub Within : Map String SessionRow → Map String SessionRow → Type 0
Within kept sessions =
    (t : String) (r : SessionRow) → lookup t kept ≡ some r → lookup t sessions ≡ some r

pub Owned-filter :
    (p : DnaRow → Bool) (sessions : Map String SessionRow) (rows : List DnaRow)
    → Owned sessions rows
    → Owned sessions (filter p rows)
Owned-filter p sessions [] o = tt
Owned-filter p sessions (r ∷ rows) o = elim (Bool-cases (p r)) [
  | inl e ↦ rw e (o.0, Owned-filter p sessions rows o.1)
  | inr e ↦ rw e (Owned-filter p sessions rows o.1)
]

pub Owned-cascade :
    (kept sessions : Map String SessionRow) (rows : List DnaRow)
    → Within kept sessions
    → Owned sessions rows
    → Owned kept (cascade kept rows)
Owned-cascade kept sessions [] w o = tt
Owned-cascade kept sessions (r ∷ rows) w o = elim (Option-cases (lookup r.token kept)) [
  | inl e ↦ rw e (Owned-cascade kept sessions rows w o.1)
  | inr (row, e) ↦
      let (row₀, there, same) = o.0 in
      rw e (
        (row, e, ground (arith, w r.token row e, there, same)),
        Owned-cascade kept sessions rows w o.1,
      )
]

pub Owned-insert :
    (t : String) (row : SessionRow) (sessions : Map String SessionRow) (rows : List DnaRow)
    → lookup t sessions ≡ none
    → Owned sessions rows
    → Owned (insert t row sessions) rows
Owned-insert t row sessions [] e o = tt
Owned-insert t row sessions (r ∷ rows) e o =
    let (row₀, there, same) = o.0 in
    (
      (
        row₀,
        ground (arith, lookup-insert t r.token row sessions, eq_iff t r.token, there, e),
        same,
      ),
      Owned-insert t row sessions rows e o.1,
    )

pub Owned-insert_dnas :
    (dna pk : String) (some_sessions sessions : Map String SessionRow) (rows : List DnaRow)
    → Unique some_sessions
    → Within some_sessions sessions
    → Owned sessions rows
    → Owned sessions (insert_dnas dna pk some_sessions rows)
Owned-insert_dnas dna pk [] sessions rows u w o = o
Owned-insert_dnas dna pk ((token, r) ∷ m) sessions rows u w o =
    let here : lookup token sessions ≡ some r = w token r (ground (arith, ==_refl token)) in
    let rest =
      Owned-insert_dnas dna pk m sessions rows u.1
        (λ t row h. w t row (ground (arith, eq_iff token t, h, u.0))) o in
    elim (Bool-cases
      (r.agent_pubkey == pk && not (has_row token dna (insert_dnas dna pk m rows)))) [
        | inl e ↦ rw e ((r, here, ground (arith, e, eq_iff r.agent_pubkey pk)), rest)
        | inr e ↦ rw e rest
      ]

module _ (host : Host) where
  pub dnas_of-cascade :
      (t : String) (kept : Map String SessionRow) (rows : List DnaRow)
      → has_key t kept ≡ true
      → dnas_of host t (cascade kept rows) ≡ dnas_of host t rows
  dnas_of-cascade t kept [] h = refl
  dnas_of-cascade t kept (r ∷ rows) h = elim (Bool-cases (r.token == t)) [
    | inl e ↦ ground (arith, e, eq_iff r.token t, h, dnas_of-cascade t kept rows h)
    | inr e ↦ ground (arith, e, dnas_of-cascade t kept rows h)
  ]

  pub dnas_of-filter :
      (t : String) (p : DnaRow → Bool) (rows : List DnaRow) (dna : DnaHash)
      → contains (dnas_of host t (filter p rows)) dna ≡ true
      → contains (dnas_of host t rows) dna ≡ true
  dnas_of-filter t p [] dna h = h
  dnas_of-filter t p (r ∷ rows) dna h = elim (Fallible-cases (host.parse_dna r.dna_hash)) [
    | inr (x, d) ↦ ground (arith, d, h, dnas_of-filter t p rows dna)
    | inl (i, d) ↦ ground (
      arith,
      d,
      h,
      dnas_of-filter t p rows dna,
      contains-set_insert i dna (dnas_of host t rows),
      contains-set_insert i dna (dnas_of host t (filter p rows)),
    )
  ]

  -- The rows of a session stay when those of another agent go.
  pub dnas_of-other :
      (t pk : String) (sessions : Map String SessionRow) (row : SessionRow) (rows : List DnaRow)
      → Owned sessions rows
      → lookup t sessions ≡ some row
      → row.agent_pubkey ≢ pk
      → dnas_of host t (filter (λ r. not (r.agent_pubkey == pk)) rows) ≡ dnas_of host t rows
  dnas_of-other t pk sessions row [] o h n = refl
  dnas_of-other t pk sessions row (r ∷ rows) o h n =
      let (row₀, there, same) = o.0 in
      ground (
        arith,
        dnas_of-other t pk sessions row rows o.1 h n,
        eq_iff r.token t,
        eq_iff r.agent_pubkey pk,
        there,
        same,
        h,
        n,
      )

  -- A token that no session has is one that no row has.
  pub dnas_of-absent :
      (t : String) (sessions : Map String SessionRow) (rows : List DnaRow)
      → Owned sessions rows
      → lookup t sessions ≡ none
      → dnas_of host t rows ≡ []
  dnas_of-absent t sessions [] o h = refl
  dnas_of-absent t sessions (r ∷ rows) o h =
      let (row₀, there, same) = o.0 in
      ground (arith, dnas_of-absent t sessions rows o.1 h, eq_iff r.token t, there, h)

  contains-has_row :
      (t text : String) (dna : DnaHash) (rows : List DnaRow)
      → host.parse_dna text ≡ ok dna
      → has_row t text rows ≡ true
      → contains (dnas_of host t rows) dna ≡ true
  contains-has_row t text dna [] p h = absurd (ground (arith, h))
  contains-has_row t text dna (r ∷ rows) p h = elim (Bool-cases (r.token == t)) [
    | inr e ↦ ground (arith, e, h, contains-has_row t text dna rows p)
    | inl e ↦ elim (Bool-cases (r.dna_hash == text)) [
      | inl q ↦ ground (
        arith,
        e,
        q,
        p,
        eq_iff r.dna_hash text,
        ==_refl dna,
        contains-set_insert dna dna (dnas_of host t rows),
      )
      | inr q ↦ elim (Fallible-cases (host.parse_dna r.dna_hash)) [
        | inr (x, d) ↦ ground (arith, e, q, d, h, contains-has_row t text dna rows p)
        | inl (i, d) ↦ ground (
          arith,
          e,
          q,
          d,
          h,
          contains-has_row t text dna rows p,
          contains-set_insert i dna (dnas_of host t rows),
        )
      ]
    ]
  ]

  -- The sessions of the agent get the DNA, and no other session does.
  pub dnas_of-insert_dnas :
      (t text pk : String) (dna : DnaHash) (sessions : Map String SessionRow) (rows : List DnaRow)
      → host.parse_dna text ≡ ok dna
      → Unique sessions
      → ((lookup t sessions ≡ none)
          → dnas_of host t (insert_dnas text pk sessions rows) ≡ dnas_of host t rows)
        × ((r : SessionRow)
            → lookup t sessions ≡ some r
            → dnas_of host t (insert_dnas text pk sessions rows) ≡ (
                if r.agent_pubkey == pk
                then set_insert dna (dnas_of host t rows)
                else dnas_of host t rows))
  dnas_of-insert_dnas t text pk dna [] rows p u = (λ h. refl, λ r h. absurd (ground (arith, h)))
  dnas_of-insert_dnas t text pk dna ((token, row) ∷ m) rows p u =
      let (absent, present) = dnas_of-insert_dnas t text pk dna m rows p u.1 in
      let had = contains-has_row t text dna (insert_dnas text pk m rows) p in
      (
        λ h. ground (arith, h, absent, eq_iff token t),
        λ r h. elim (Bool-cases (token == t)) [
          | inr e ↦ ground (arith, e, h, present r, p)
          | inl e ↦
              let same_token : token ≡ t = ground (arith, e, eq_iff token t) in
              let alone : lookup t m ≡ none = subst (λ k. lookup k m ≡ none) same_token u.0 in
              let same_row : row ≡ r = ground (arith, e, h) in
              let shut = absent alone in
              elim (Bool-cases (row.agent_pubkey == pk)) [
                | inr q ↦ ground (arith, e, h, q, shut, same_row)
                | inl q ↦ elim (Bool-cases (has_row token text (insert_dnas text pk m rows))) [
                  | inl k ↦ ground (arith, e, h, q, k, shut, same_row, same_token, had)
                  | inr k ↦ ground (arith, e, h, q, k, shut, same_row, same_token, p)
                ]
              ]
        ],
      )
